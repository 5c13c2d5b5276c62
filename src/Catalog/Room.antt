-- ===== src/Catalog/Room.antt =====
-- What src/runtime/model_catalog.cpp says of a model on a cluster: whether it runs, on which pipeline,
-- and the room for its context.
use socrates.Prelude.{
  ℕ, ◌≤◌, ◌≡◌, refl, ap, ◌∙◌, Bool, true, false, not, ◌&&◌, ◌||◌, Option, none, some, List, [], ◌∷◌,
  if◌then◌else◌, ltb, leb, ◌==◌, any_of, is_some, text, text_eq, arith, Bool-cases, inl, inr,
}
use socrates.Types.{Double}
use socrates.Cluster.{MembershipSnapshot}
use socrates.Pipeline.{BatchingConfig}
use socrates.Catalog.{
  PipelineOption, ModelCatalogEntry, ContextWindowEstimate, Floats, fits, runnable,
  available_models, better, best_pipeline, estimate_from, estimate_on, estimate_context_window,
  participant_count, total_ram_gb,
}

abbrev pub keep_if {ℓ} : {A : Type ℓ} → (A → Bool) → List A → List A
keep_if p [] = []
keep_if p (x ∷ xs) = let rest = keep_if p xs in if p x then x ∷ rest else rest

not-not : (b : Bool) → not (not b) ≡ b
not-not true = refl
not-not false = refl

-- Whether an estimate says that the cluster cannot run the model.
abbrev pub refuses : ContextWindowEstimate → Bool
refuses est = text_eq est.limiting_factor (text "insufficient_resources")

estimate_from-accepts :
    (room : ℕ) (model : ModelCatalogEntry) → refuses (estimate_from room model) ≡ false
unfolding text_eq
estimate_from-accepts room model =
    let max_ctx = if ltb model.context_window_max room then model.context_window_max else room in
    elim (Bool-cases (leb model.context_window_max max_ctx)) [
      | inl e ↦ rw e refl
      | inr e ↦ rw e refl
    ]

-- The limits of an estimate.
pub record Bounded (est : ContextWindowEstimate) (model : ModelCatalogEntry) : Type 0 where
  pub max_tokens : est.max_tokens ≤ model.context_window_max
  pub recommended : est.recommended_tokens ≤ est.max_tokens
  pub default : est.recommended_tokens ≤ model.default_context
  pub refused : refuses est ≡ true → est.max_tokens ≡ 0
  pub factor :
      refuses est ≡ false
      → text_eq est.limiting_factor (text "model_max")
        ≡ (est.max_tokens == model.context_window_max)

clamp_le : (room bound : ℕ) → (if ltb bound room then bound else room) ≤ bound
clamp_le room bound = ground arith

factor_eq :
    (max_ctx bound : ℕ)
    → max_ctx ≤ bound
    → text_eq (if leb bound max_ctx then text "model_max" else text "vram") (text "model_max")
      ≡ (max_ctx == bound)
unfolding text_eq
factor_eq max_ctx bound h = elim (Bool-cases (leb bound max_ctx)) [
  | inl e ↦ rw e (ground (arith, e))
  | inr e ↦ rw e (ground (arith, e))
]

estimate_from-Bounded :
    (room : ℕ) (model : ModelCatalogEntry) → Bounded (estimate_from room model) model
estimate_from-Bounded room model =
    let within = clamp_le room model.context_window_max in
    record {
      max_tokens = within;
      recommended = omega arith;
      default = omega arith;
      refused = λ h. absurd (cc (h, estimate_from-accepts room model));
      factor = λ h. factor_eq _ model.context_window_max within;
    }

module _ (fp : Floats) (ram : Double) (devices : ℕ) where
  -- A pipeline is found if one fits.
  best_pipeline-some :
      (pos : List PipelineOption) (best : Option PipelineOption)
      → is_some (best_pipeline fp ram devices pos best)
        ≡ (is_some best || any_of (fits fp ram devices) pos)
  unfolding best_pipeline
  best_pipeline-some [] best = ground arith
  best_pipeline-some (po ∷ pos) none = elim (Bool-cases (fits fp ram devices po)) [
    | inl e ↦ rw (e, best_pipeline) (best_pipeline-some pos (some po))
    | inr e ↦ rw (e, best_pipeline) (best_pipeline-some pos none)
  ]
  best_pipeline-some (po ∷ pos) (some best) =
      elim (Bool-cases (fits fp ram devices po && better po (some best))) [
        | inl e ↦ rw (e, best_pipeline) (best_pipeline-some pos (some po))
        | inr e ↦ rw (e, best_pipeline) (best_pipeline-some pos (some best))
      ]

  refuses-estimate_on :
      (model : ModelCatalogEntry) (batching : BatchingConfig) (o : Option PipelineOption)
      → refuses (estimate_on fp ram devices model batching o) ≡ not (is_some o)
  unfolding text_eq
  refuses-estimate_on model batching none = refl
  refuses-estimate_on model batching (some po) = estimate_from-accepts _ model

  estimate_on-Bounded :
      (model : ModelCatalogEntry) (batching : BatchingConfig) (o : Option PipelineOption)
      → Bounded (estimate_on fp ram devices model batching o) model
  unfolding text_eq
  estimate_on-Bounded model batching none = record {
    max_tokens = omega arith;
    recommended = omega arith;
    default = omega arith;
    refused = λ h. refl;
    factor = λ h. absurd (ground (arith, h));
  }
  estimate_on-Bounded model batching (some po) = estimate_from-Bounded _ model

-- An estimate never promises more than the model's window and never recommends more than it promises
-- or than the model's default. One that says that the resources are insufficient promises nothing,
-- and any other names the model as the limit exactly if it promises the whole window.
pub estimate_context_window-Bounded :
    (fp : Floats) (membership : MembershipSnapshot) (model : ModelCatalogEntry)
    (batching : BatchingConfig)
    → Bounded (estimate_context_window fp membership model batching) model
unfolding estimate_context_window
estimate_context_window-Bounded fp membership model batching =
    estimate_on-Bounded fp (total_ram_gb fp membership) (participant_count membership) model
      batching _

refuses-estimate :
    (fp : Floats) (membership : MembershipSnapshot) (model : ModelCatalogEntry)
    (batching : BatchingConfig)
    → not (refuses (estimate_context_window fp membership model batching))
      ≡ any_of (fits fp (total_ram_gb fp membership) (participant_count membership)) model.pipelines
unfolding estimate_context_window
refuses-estimate fp membership model batching =
    let ram = total_ram_gb fp membership in
    let devices = participant_count membership in
    let best = best_pipeline fp ram devices model.pipelines none in
    ap not (refuses-estimate_on fp ram devices model batching best)
    ∙ not-not (is_some best)
    ∙ best_pipeline-some fp ram devices model.pipelines none

-- The models that a cluster can run are those of the catalog whose estimate does not say that it lacks
-- the resources, in the order of the catalog, whatever the batching: the two loops over the
-- pipelines, one that stops at the first that fits and one that looks for the largest, agree.
pub available_models-estimate :
    (fp : Floats) (membership : MembershipSnapshot) (batching : BatchingConfig)
    (all : List ModelCatalogEntry)
    → available_models fp all membership
      ≡ keep_if (λ e. not (refuses (estimate_context_window fp membership e batching))) all
unfolding available_models runnable estimate_context_window
available_models-estimate fp membership batching [] = refl
available_models-estimate fp membership batching (e ∷ es) =
    rw
      (
        refuses-estimate fp membership e batching,
        available_models-estimate fp membership batching es,
      )
      refl
