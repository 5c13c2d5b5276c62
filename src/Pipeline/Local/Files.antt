-- ===== src/Pipeline/Local/Files.antt =====
-- The choice of a model file in `run_generation_local` of src/pipeline/inference_pipeline.cpp.
use socrates.Prelude.{
  ℕ, ◌+◌, ◌-◌, ◌^◌, Bool, false, not, ◌&&◌, ◌||◌, Option, none, some, List, [], ◌∷◌, ◌++◌, map,
  if◌then◌else◌, ltb, leb, is_empty, is_some, any_of, Text, text, text_eq,
}
use socrates.Persistence.Json.{after}

-- An entry of a directory; a size that cannot be read is none.
pub record File : Type 0 where
  pub name : Text
  pub extension : Text
  pub size : Option ℕ

-- `tolower`
abbrev pub to_lower : ℕ → ℕ
to_lower c = if leb 65 c && leb c 90 then c + 32 else c

-- The ids that are known, and what the name of a file must contain.
abbrev pub fragments : List (Text × Text)
fragments =
    (text "llama3-8b", text "llama-3-8b")
    ∷ (text "qwen3-1.8b", text "1.5b")
    ∷ (text "qwen3-4b", text "3b")
    ∷ (text "qwen3-6b", text "7b")
    ∷ (text "gemma12b", text "9b")
    ∷ (text "gemma26b", text "27b")
    ∷ (text "gemma4-26b", text "gemma-4")
    ∷ []

unfoldable pub matches : Text → Text → Bool
matches model_id name =
    any_of
      (λ ((id, fragment) : Text × Text).
        text_eq (map to_lower model_id) id && is_some (after fragment (map to_lower name)))
      fragments

abbrev pub big_enough : Option ℕ → Bool
big_enough none = false
big_enough (some n) = leb 1000000 n

abbrev pub size_or_max : Option ℕ → ℕ
size_or_max none = 2 ^ 64 - 1
size_or_max (some n) = n

-- A match ends the loop; without an id the first file is taken.
unfoldable pub scan_files : Text → Text → List File → Text → ℕ → Text × ℕ
scan_files dir model_id [] path best_size = (path, best_size)
scan_files dir model_id (f ∷ fs) path best_size =
    let here = dir ++ (text "/" ++ f.name) in
    let size = size_or_max f.size in
    let passed = scan_files dir model_id fs path best_size in
    let smaller =
      scan_files dir model_id fs
        (if not (is_empty path) || not (is_empty model_id) then path else here) size in
    if not (text_eq f.extension (text ".gguf")) || not (big_enough f.size)
    then passed
    else if not (is_empty model_id) && matches model_id f.name
    then (here, best_size)
    else if ltb size best_size
    then smaller
    else passed

-- A directory that does not exist is none.
unfoldable pub scan_dirs : List (Text × Option (List File)) → Text → Text → ℕ → Text
scan_dirs [] model_id path best_size = path
scan_dirs ((dir, none) ∷ dirs) model_id path best_size = scan_dirs dirs model_id path best_size
scan_dirs ((dir, some files) ∷ dirs) model_id path best_size =
    let found = scan_files dir model_id files path best_size in
    let later = scan_dirs dirs model_id found.0 found.1 in
    if is_empty found.0 then later else found.0

abbrev pub path_or_none : Text → Option Text
path_or_none path = if is_empty path then none else some path

-- The files of the master's directory and of the worker's.
unfoldable pub find_model_file : Option (List File) → Option (List File) → Text → Option Text
find_model_file master worker model_id = path_or_none (
    scan_dirs
      ((text "/tmp/socrates-master/models", master)
        ∷ (text "/tmp/socrates-worker/models", worker)
        ∷ [])
      model_id [] (2 ^ 64 - 1))
