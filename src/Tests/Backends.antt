-- ===== src/Tests/Backends.antt =====
-- Chains of backends, and the leases of a shard.
use socrates.Prelude.{any_of, ◌⊎◌, false, ◌≡◌, refl, true, false, some, [], ◌∷◌, text, text_eq}
use socrates.Types.{ok, err, unavailable, llama_cpp}
use socrates.Backends.{
  Adapter, Files, ShardLease, register_backend, resolve, fallback_chain, load_model_with_fallback,
  find_text, leased, acquire,
}
use socrates.Backends.Fallback.{FirstLoaded, loads, load_model_with_fallback_lem}
use socrates.Tests.Data.{llama, node_a, stage}

program : Unit {0}
unfolding text_eq register_backend resolve fallback_chain load_model_with_fallback find_text leased
    acquire
program = tt

abbrev broken : Adapter
broken = record { capability = ok llama; load_model = err unavailable }

abbrev absent : Adapter
absent = record { capability = err unavailable; load_model = ok 3 }

abbrev working : Adapter
working = record { capability = ok llama; load_model = ok 5 }

second_of_two : load_model_with_fallback (broken ∷ absent ∷ working ∷ []) ≡ ok 5
unfolding program
second_of_two = refl

registered :
    resolve (register_backend llama_cpp 2 (register_backend llama_cpp 1 [])) llama_cpp ≡ ok 2
unfolding program
registered = refl

load_model_with_fallback_lem_example :
    ((any_of loads (broken ∷ absent ∷ working ∷ []) ≡ true)
      × FirstLoaded
          (broken ∷ absent ∷ working ∷ [])
          (load_model_with_fallback (broken ∷ absent ∷ working ∷ [])))
    ⊎ ((any_of loads (broken ∷ absent ∷ working ∷ []) ≡ false)
        × (load_model_with_fallback (broken ∷ absent ∷ working ∷ []) ≡ err unavailable))
load_model_with_fallback_lem_example = load_model_with_fallback_lem (broken ∷ absent ∷ working ∷ [])

abbrev files : Files
files = record { resolve_path = λ rel. rel; file_exists = λ path. true; file_size = λ path. some 9 }

abbrev lease : ShardLease
lease = record { shard_id = text "s"; path = text "m"; size_bytes = 9 }

granted : acquire files [] (stage (text "s") node_a) false ≡ ok (lease, (text "s", text "m") ∷ [])
unfolding program
granted = refl
