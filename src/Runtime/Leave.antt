-- ===== src/Runtime/Leave.antt =====
-- The loop in which `do_stop` of src/runtime/edge_runtime.cpp waits for the generations of a pipeline
-- when it leaves gracefully. Round i sees the clock at `now i`, in nanoseconds, and the pipeline that
-- its workers have made by then.
use socrates.Prelude.{
  ℕ, zero, suc, ◌+◌, ◌-◌, ◌*◌, ◌^◌, ◌≤◌, ◌<◌, ◌≡◌, not, Option, none, some, if◌then◌else◌, ltb,
  arith, Bool-cases, ◌⊎◌, inl, inr, refl,
}
use socrates.Pipeline.Store.{Pipeline}
use socrates.Pipeline.Control.{active_generation_count}

abbrev pub drain_timeout : ℕ
drain_timeout = 30 * 10 ^ 9

-- The round that ends the loop, none where the fuel runs out.
unfoldable pub drain : (ℕ → Pipeline) → (ℕ → ℕ) → ℕ → ℕ → ℕ → Option ℕ
drain pipeline now drain_start zero i = none
drain pipeline now drain_start (suc fuel) i =
    let rest = drain pipeline now drain_start fuel (suc i) in
    if not (ltb 0 (active_generation_count (pipeline i)))
    then some i
    else if ltb drain_timeout (now i - drain_start)
    then some i
    else rest

-- Why round i ends the loop.
abbrev pub Drained : (ℕ → Pipeline) → (ℕ → ℕ) → ℕ → ℕ → Type 0
Drained pipeline now drain_start i =
    (active_generation_count (pipeline i) ≡ 0) ⊎ (drain_timeout < now i - drain_start)

module _ (pipeline : ℕ → Pipeline) (now : ℕ → ℕ) (drain_start : ℕ)
    (sleeps : (i : ℕ) → now i + 10 ^ 8 ≤ now (suc i)) where
  drain-ends :
      (fuel i : ℕ)
      → drain_start + i * 10 ^ 8 ≤ now i
      → 302 ≤ fuel + i
      → i ≤ 301
      → (n : ℕ) × (drain pipeline now drain_start fuel i ≡ some n)
        × (n ≤ 301)
        × Drained pipeline now drain_start n
  unfolding drain
  drain-ends zero i late enough few = absurd (omega arith)
  drain-ends (suc fuel) i late enough few =
      elim (Bool-cases (ltb 0 (active_generation_count (pipeline i)))) [
        | inr idle ↦ (i, rw idle refl, few, inl (ground (arith, idle)))
        | inl busy ↦ elim (Bool-cases (ltb drain_timeout (now i - drain_start))) [
          | inl over ↦ (i, rw (busy, over) refl, few, inr (ground (arith, over)))
          | inr within ↦
              let (n, ended, bound, why) =
                drain-ends fuel (suc i) (omega (arith, sleeps i)) (omega arith)
                  (ground (arith, within, late)) in
              (n, rw (busy, within, drain) ended, bound, why)
        ]
      ]

-- Waiting for the generations ends: where each sleep of a round lasts at least its 100 milliseconds,
-- the loop ends after at most 301 sleeps, and it ends because no generation is active any more or
-- because more than 30 seconds have passed.
pub drain_terminates :
    (pipeline : ℕ → Pipeline) (now : ℕ → ℕ) (drain_start : ℕ)
    → ((i : ℕ) → now i + 10 ^ 8 ≤ now (suc i))
    → drain_start ≤ now 0
    → (n : ℕ) × (drain pipeline now drain_start 302 0 ≡ some n)
      × (n ≤ 301)
      × Drained pipeline now drain_start n
drain_terminates pipeline now drain_start sleeps before =
    drain-ends pipeline now drain_start sleeps 302 0 (omega arith) (omega arith) (omega arith)
