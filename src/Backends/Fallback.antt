-- ===== src/Backends/Fallback.antt =====
-- What src/runtime/backend_dispatch.cpp loads, and where.
use socrates.Prelude.{
  ℕ, ◌≡◌, refl, ap, Bool, true, false, not, ◌&&◌, ◌||◌, List, [], ◌∷◌, ◌++◌, any_of, all_of,
  Bool-cases, ◌⊎◌, inl, inr,
}
use socrates.Types.{Result, err, unavailable}
use socrates.Backends.{Adapter, is_ok, load_model_with_fallback}

abbrev pub loads : Adapter → Bool
loads a = is_ok a.capability && is_ok a.load_model

-- The chain up to the first adapter that loads.
pub record FirstLoaded (chain : List Adapter) (r : Result ℕ) : Type 0 where
  pub skipped : List Adapter
  pub adapter : Adapter
  pub others : List Adapter
  pub chain_is : chain ≡ skipped ++ (adapter ∷ others)
  pub failed : all_of (λ a. not (loads a)) skipped ≡ true
  pub loaded : r ≡ adapter.load_model
  pub is_ok : is_ok r ≡ true

and_right : (a b : Bool) → (a && b) ≡ true → b ≡ true
and_right true b h = h
and_right false b h = absurd (cc)

or_false : (a b : Bool) → (a || b) ≡ false → (a ≡ false) × (b ≡ false)
or_false true b h = absurd (cc)
or_false false b h = (refl, h)

skip :
    (a : Adapter) (chain : List Adapter) (r : Result ℕ)
    → loads a ≡ false
    → FirstLoaded chain r
    → FirstLoaded (a ∷ chain) r
skip a chain r e f = record {
  skipped = a ∷ f.skipped;
  adapter = f.adapter;
  others = f.others;
  chain_is = ap (◌∷◌ a) f.chain_is;
  failed = rw e f.failed;
  loaded = f.loaded;
  is_ok = f.is_ok;
}

-- If some adapter of the chain is available and loads the shard, the result is the session of the first
-- such adapter.
load_model_with_fallback-FirstLoaded :
    (chain : List Adapter)
    → any_of loads chain ≡ true
    → FirstLoaded chain (load_model_with_fallback chain)
unfolding load_model_with_fallback
load_model_with_fallback-FirstLoaded [] h = absurd (cc)
load_model_with_fallback-FirstLoaded (a ∷ chain) h = elim (Bool-cases (loads a)) [
  | inl e ↦ rw e (record {
    skipped = [];
    adapter = a;
    others = chain;
    chain_is = refl;
    failed = refl;
    loaded = refl;
    is_ok = and_right (is_ok a.capability) (is_ok a.load_model) e;
  })
  | inr e ↦
      let later = load_model_with_fallback-FirstLoaded chain (rw e at h) in
      rw e (skip a chain (load_model_with_fallback chain) e later)
]

-- The load fails as unavailable if no adapter of the chain loads the shard.
load_model_with_fallback-exhausted :
    (chain : List Adapter)
    → any_of loads chain ≡ false
    → load_model_with_fallback chain ≡ err unavailable
unfolding load_model_with_fallback
load_model_with_fallback-exhausted [] h = refl
load_model_with_fallback-exhausted (a ∷ chain) h =
    let (first, rest) = or_false (loads a) (any_of loads chain) h in
    rw first (load_model_with_fallback-exhausted chain rest)

-- Either some adapter of the chain is available and loads the shard, and the result is the session of
-- the first such adapter, or none does, and the load fails as unavailable.
pub load_model_with_fallback_lem :
    (chain : List Adapter)
    → ((any_of loads chain ≡ true) × FirstLoaded chain (load_model_with_fallback chain))
      ⊎ ((any_of loads chain ≡ false) × (load_model_with_fallback chain ≡ err unavailable))
load_model_with_fallback_lem chain = elim (Bool-cases (any_of loads chain)) [
  | inl e ↦ inl (e, load_model_with_fallback-FirstLoaded chain e)
  | inr e ↦ inr (e, load_model_with_fallback-exhausted chain e)
]
