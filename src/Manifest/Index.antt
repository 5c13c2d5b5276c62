-- ===== src/Manifest/Index.antt =====
-- `ManifestRepositoryImpl` of src/model/manifest_repository.cpp: manifests by model and revision.
use socrates.Prelude.{
  ◌≡◌, refl, sym, ap, subst, ◌∙◌, Option, none, some, List, [], ◌∷◌, ◌++◌, Text, text, text_eq,
  text_eq→eq, find_key, set_key, find_key-set_key, find_key-set_key_other, Bool-cases, inl, inr,
}
use socrates.Types.{Result, ok, err, invalid_argument, not_found, already_exists, ok-injective}
use socrates.Manifest.{ManifestSummary, Attempt, threw, done, ◌>>=◌, Json}
use socrates.Manifest.Parse.{parse_manifest_json}

abbrev pub make_key : Text → Text → Text
make_key model_id revision = model_id ++ (text "/" ++ revision)

abbrev pub Index : Type 0
Index = List (Text × ManifestSummary)

abbrev pub key_of : ManifestSummary → Text
key_of summary = make_key summary.model_id summary.revision

abbrev pub store_at :
    Index → ManifestSummary → Option ManifestSummary → Result ManifestSummary × Index
store_at index summary none = (ok summary, set_key (key_of summary) summary index)
store_at index summary (some old) = (err already_exists, index)

abbrev pub store : Index → Result ManifestSummary → Result ManifestSummary × Index
store index (err e) = (err e, index)
store index (ok summary) = store_at index summary (find_key (key_of summary) index)

abbrev pub found_or : Option ManifestSummary → Result ManifestSummary
found_or none = err not_found
found_or (some summary) = ok summary

unfoldable pub resolve : Index → Text → Text → Result ManifestSummary
resolve index model_id revision = found_or (find_key (make_key model_id revision) index)

module _ {J : Type 0} (json : Json J) where
  -- A file that cannot be read is none, one that is no JSON is some none.
  unfoldable pub publish : Index → Option (Option J) → Attempt (Result ManifestSummary × Index)
  publish index none = done (err not_found, index)
  publish index (some none) = done (err invalid_argument, index)
  publish index (some (some j)) = parse_manifest_json json j >>= λ r. done (store index r)

  -- The index after a call, which an exception leaves as it was.
  abbrev pub index_after : Index → Attempt (Result ManifestSummary × Index) → Index
  index_after index threw = index
  index_after index (done (result, after)) = after

  unfoldable pub publish_all : List (Option (Option J)) → Index → Index
  publish_all [] index = index
  publish_all (file ∷ files) index = publish_all files (index_after index (publish index file))

done-injective : {A : Type 0} {a b : A} → done a ≡ done b → a ≡ b
done-injective h = cc

resolve-store_at :
    (index : Index) (s : ManifestSummary) (o : Option ManifestSummary) (summary : ManifestSummary)
    (after : Index)
    → store_at index s o ≡ (ok summary, after)
    → resolve after summary.model_id summary.revision ≡ ok summary
unfolding resolve
resolve-store_at index s none summary after h =
    let found : resolve (set_key (key_of s) s index) s.model_id s.revision ≡ ok s =
      ap found_or (find_key-set_key (key_of s) s index) in
    let same : s ≡ summary = ok-injective (ap (λ p. p.0) h) in
    let here =
      subst (λ x. resolve (set_key (key_of s) s index) x.model_id x.revision ≡ ok x) same found in
    subst (λ x. resolve x summary.model_id summary.revision ≡ ok summary) (ap (λ p. p.1) h) here
resolve-store_at index s (some old) summary after h =
    let e : err already_exists ≡ ok summary = ap (λ p. p.0) h in absurd (cc)

resolve-store :
    (index : Index) (r : Result ManifestSummary) (summary : ManifestSummary) (after : Index)
    → store index r ≡ (ok summary, after)
    → resolve after summary.model_id summary.revision ≡ ok summary
resolve-store index (err e) summary after h =
    let x : err e ≡ ok summary = ap (λ p. p.0) h in absurd (cc)
resolve-store index (ok s) summary after h =
    resolve-store_at index s (find_key (key_of s) index) summary after h

store_at_keeps :
    (index : Index) (s : ManifestSummary) (model_id revision : Text) (found : ManifestSummary)
    (o : Option ManifestSummary)
    → find_key (key_of s) index ≡ o
    → resolve index model_id revision ≡ ok found
    → resolve (store_at index s o).1 model_id revision ≡ ok found
unfolding resolve
store_at_keeps index s m v found none fresh h =
    elim (Bool-cases (text_eq (key_of s) (make_key m v))) [
      | inl same ↦
          let e =
            subst (λ k. find_key k index ≡ none) (text_eq→eq (key_of s) (make_key m v) same)
              fresh in
          let x : err not_found ≡ ok found = ap found_or (sym e) ∙ h in absurd (cc)
      | inr other ↦ ap found_or (find_key-set_key_other (make_key m v) (key_of s) s index other) ∙ h
    ]
store_at_keeps index s m v found (some old) taken h = h

store_keeps :
    (index : Index) (r : Result ManifestSummary) (model_id revision : Text)
    (found : ManifestSummary)
    → resolve index model_id revision ≡ ok found
    → resolve (store index r).1 model_id revision ≡ ok found
store_keeps index (err e) m v found h = h
store_keeps index (ok s) m v found h =
    store_at_keeps index s m v found (find_key (key_of s) index) refl h

resolve-done :
    (index : Index) (a : Attempt (Result ManifestSummary)) (summary : ManifestSummary)
    (after : Index)
    → (a >>= λ r. done (store index r)) ≡ done (ok summary, after)
    → resolve after summary.model_id summary.revision ≡ ok summary
resolve-done index threw summary after h = absurd (cc)
resolve-done index (done r) summary after h = resolve-store index r summary after (done-injective h)

done_keeps :
    {J : Type 0} (json : Json J) (index : Index) (a : Attempt (Result ManifestSummary))
    (model_id revision : Text) (found : ManifestSummary)
    → resolve index model_id revision ≡ ok found
    → resolve (index_after json index (a >>= λ r. done (store index r))) model_id revision
      ≡ ok found
done_keeps json index threw m v found h = h
done_keeps json index (done r) m v found h = store_keeps index r m v found h

module _ {J : Type 0} (json : Json J) where
  -- A manifest that is published is the one that is resolved under its model and revision.
  resolve-publish :
      (index : Index) (file : Option (Option J)) (summary : ManifestSummary) (after : Index)
      → publish json index file ≡ done (ok summary, after)
      → resolve after summary.model_id summary.revision ≡ ok summary
  unfolding publish
  resolve-publish index none summary after h = absurd (cc)
  resolve-publish index (some none) summary after h = absurd (cc)
  resolve-publish index (some (some j)) summary after h =
      resolve-done index (parse_manifest_json json j) summary after h

  publish_keeps :
      (index : Index) (file : Option (Option J)) (model_id revision : Text)
      (found : ManifestSummary)
      → resolve index model_id revision ≡ ok found
      → resolve (index_after json index (publish json index file)) model_id revision ≡ ok found
  unfolding publish
  publish_keeps index none m v found h = h
  publish_keeps index (some none) m v found h = h
  publish_keeps index (some (some j)) m v found h =
      done_keeps json index (parse_manifest_json json j) m v found h

  -- What is resolved is resolved for ever: no file published later, readable or not, replaces it.
  resolve-publish_all :
      (files : List (Option (Option J))) (index : Index) (model_id revision : Text)
      (found : ManifestSummary)
      → resolve index model_id revision ≡ ok found
      → resolve (publish_all json files index) model_id revision ≡ ok found
  unfolding publish_all
  resolve-publish_all [] index m v found h = h
  resolve-publish_all (file ∷ files) index m v found h =
      resolve-publish_all files (index_after json index (publish json index file)) m v found
        (publish_keeps index file m v found h)

  -- A manifest that was published is what its model and revision resolve to, then and after whatever is
  -- published later: no other file, readable or not, replaces it.
  pub resolve-published :
      (index : Index) (file : Option (Option J)) (summary : ManifestSummary) (after : Index)
      (later : List (Option (Option J)))
      → publish json index file ≡ done (ok summary, after)
      → resolve (publish_all json later after) summary.model_id summary.revision ≡ ok summary
  resolve-published index file summary after later h =
      resolve-publish_all later after summary.model_id summary.revision summary
        (resolve-publish index file summary after h)
