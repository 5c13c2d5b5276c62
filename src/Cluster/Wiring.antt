-- ===== src/Cluster/Wiring.antt =====
-- How src/runtime/edge_runtime.cpp joins membership and election: the membership callback hands
-- each snapshot to `update_membership`.
use socrates.Prelude.{
  ℕ, ◌+◌, ◌≤◌, ◌<◌, ◌^◌, ◌≡◌, true, List, [], ◌∷◌, Text, length, arith, ◌⊎◌, inl, inr,
}
use socrates.Types.{Result, ok, ◌>>=◌}
use socrates.Cluster.{MembershipSnapshot}
use socrates.Cluster.Membership
use socrates.Cluster.Membership.{MembershipService, Call, build_snapshot}
use socrates.Cluster.Membership.Invariant.{step-Counted}
use socrates.Cluster.Election.{BullyElection, update_membership}
use socrates.Cluster.Election.Laws.{update_membership_accepts}

pub record Wired : Type 0 where
  pub membership : MembershipService
  pub election : BullyElection

-- The callback runs inside the call, before it returns.
unfoldable pub deliver : BullyElection → List MembershipSnapshot → Text → ℕ → Result BullyElection
deliver e [] token now = ok e
deliver e (s ∷ rest) token now = do
  (e', _) ← update_membership e s token now
  deliver e' rest token now

unfoldable pub wired_step : Wired → Call → Text → ℕ → Result Wired
wired_step w c token now = do
  (m, out) ← Membership.step w.membership c
  e ← deliver w.election out token now
  ok (record { membership = m; election = e })

-- The election has seen no revision that membership has not reached.
pub record InStep (w : Wired) : Type 0 where
  pub running : w.election.running ≡ true
  pub seen : w.election.last_snapshot_revision ≤ w.membership.snapshot_revision

deliver_accepts :
    (e : BullyElection) (out : List MembershipSnapshot) (token : Text) (now : ℕ)
    (m : MembershipService)
    → e.running ≡ true
    → e.last_snapshot_revision ≤ m.snapshot_revision
    → (out ≡ []) ⊎ (out ≡ build_snapshot m ∷ [])
    → (e' : BullyElection) × (deliver e out token now ≡ ok e')
      × (e'.running ≡ true)
      × (e'.last_snapshot_revision ≤ m.snapshot_revision)
unfolding deliver build_snapshot
deliver_accepts e out token now m running seen (inl q) = (e, rw q, running, seen)
deliver_accepts e out token now m running seen (inr q) =
    let (e', effects, h, running', last) =
      update_membership_accepts e (build_snapshot m) token now running seen in
    (e', rw (q, h), running', omega (arith, last))

-- No snapshot is refused as a rollback: if the election runs and has seen no revision that
-- membership has not reached, and the revision cannot wrap in this call, then each call that
-- membership accepts is accepted by the election too, and the two stay so.
pub wired_step-InStep :
    (w : Wired) (c : Call) (token : Text) (now : ℕ) (m : MembershipService)
    (out : List MembershipSnapshot)
    → InStep w
    → w.membership.snapshot_revision + length w.membership.members + 1 < 2 ^ 64
    → Membership.step w.membership c ≡ ok (m, out)
    → (w' : Wired) × (wired_step w c token now ≡ ok w') × InStep w'
unfolding wired_step
wired_step-InStep w c token now m out i b h =
    let k = step-Counted w.membership m c out b h in
    let (e, delivered, running, seen) =
      deliver_accepts w.election out token now m i.running (omega (arith, i.seen, k.grows))
        k.emitted in
    (
      record { membership = m; election = e },
      rw (h, delivered),
      record { running = running; seen = seen },
    )
