-- ===== src/Runtime/Idle.antt =====
-- What the threads of a runtime of src/runtime/edge_runtime.cpp do while nobody calls it: turns of the
-- liveness thread of src/cluster/membership_service.cpp and of the heartbeat.
use socrates.Prelude.{
  ℕ, ◌-◌, ◌/◌, ◌^◌, Bool, true, not, Option, none, some, List, [], ◌∷◌, Text, ltb,
}
use socrates.Types.{Result, ok, ◌>>=◌}
use socrates.Cluster.Membership.{MembershipService, liveness_round}
use socrates.Runtime.{EdgeRuntime, heartbeat_turn}

-- A turn with the time that it reads, and a token for a term that it might begin.
pub data Turn : Type 0 where
  liveness : ℕ → Turn
  heartbeat : Text → ℕ → Turn

abbrev pub aged_in : ℕ → Option MembershipService → Option MembershipService
aged_in time none = none
aged_in time (some m) = some (liveness_round m time)

abbrev pub aged : ℕ → EdgeRuntime → EdgeRuntime
aged time r = record r { membership = aged_in time r.membership }

unfoldable pub waited : List Turn → EdgeRuntime → Result EdgeRuntime
waited [] r = ok r
waited (liveness time ∷ turns) r = waited turns (aged time r)
waited (heartbeat token time ∷ turns) r = heartbeat_turn token time r >>= λ r'. waited turns r'

-- A turn within the ten seconds, cut to whole ones, in which a member that was seen is not suspected.
abbrev pub in_time : ℕ → Turn → Bool
in_time seen (liveness time) = not (ltb 10 ((time - seen) / 10 ^ 9))
in_time seen (heartbeat token time) = true
