-- ===== src/Tests/Cluster.antt =====
-- Membership and election on two laptops.
use socrates.Prelude.{
  ◌*◌, ◌^◌, ◌≡◌, refl, true, some, List, [], ◌∷◌, ◌++◌, text, text_eq, text_ltb, arith,
}
use socrates.Types.{ok}
use socrates.Cluster.{MembershipSnapshot, suspect}
use socrates.Cluster.Membership.{
  MembershipService, IdentityProvider, find_member, update_member, build_snapshot, new_member,
  refresh, admits, observe, set_capability, update_capability, set_models, update_model_presence,
  promote, promote_joining_members, set_role, update_local_role, age, age_revision, liveness_round,
  observes, ages, step,
}
use socrates.Cluster.Membership.Evolution.{Evolves, step-Evolves}
use socrates.Cluster.Membership.Invariant.{Distinct, Advances, step-Advances}
use socrates.Cluster.Election.{
  BullyElection, Effect, stores, announces, alive_ids, max_element, elect, update_membership,
}
use socrates.Cluster.Election.Laws.{
  IsHighest, Fenced, update_membership-IsHighest, update_membership-Fenced,
}
use socrates.Cluster.Wiring.{Wired, InStep, deliver, wired_step, wired_step-InStep}
use socrates.Tests.Data.{node_a, node_b, peer, member, two_members, no_fence}

program : Unit {0}
unfolding text_eq text_ltb find_member update_member build_snapshot new_member refresh admits
    observe set_capability update_capability set_models update_model_presence promote
    promote_joining_members set_role update_local_role age age_revision liveness_round step
    alive_ids max_element elect update_membership deliver wired_step
program = tt

-- A provider that knows every peer.
abbrev provider : IdentityProvider
provider = record { local_identity = ok node_a; authenticate = λ p cert. ok p.node_id }

abbrev service : MembershipService
service = record {
  identity_provider = some provider;
  has_callback = true;
  running = true;
  members = two_members;
  snapshot_revision = 4;
  local_node_id = node_a;
  liveness_active = true;
}

abbrev joined : MembershipService
unfolding new_member
joined = record service {
  members = service.members ++ (new_member (peer (text "c")) 9 ∷ []);
  snapshot_revision = 5;
}

observed : step service (observes (peer (text "c")) 9) ≡ ok (joined, build_snapshot joined ∷ [])
unfolding program
observed = refl

-- Eleven seconds of silence.
aged :
    step service (ages (11 * 10 ^ 9))
    ≡ ok (
      record service {
        members = member node_a suspect 1000 ∷ member node_b suspect 800 ∷ [];
        snapshot_revision = 6;
      },
      [],
    )
unfolding program
aged = refl

step-Evolves_example : Evolves service.members joined.members
step-Evolves_example =
    step-Evolves service joined (observes (peer (text "c")) 9) (build_snapshot joined ∷ []) observed

two_members-Distinct : Distinct two_members
unfolding text_eq
two_members-Distinct = (refl, (refl, tt))

step-Advances_example : Advances service joined (build_snapshot joined ∷ [])
step-Advances_example =
    step-Advances service joined (observes (peer (text "c")) 9) (build_snapshot joined ∷ [])
      two_members-Distinct (omega arith) observed

-- Node a leads in term 1; then b is seen alive.
abbrev election : BullyElection
election = record {
  local_node = node_a;
  cluster_id = text "home";
  has_term_store = true;
  has_callback = true;
  state = record { leader_id = some node_a; fence = no_fence; locally_valid_until = 0 };
  current_term = 1;
  membership_revision = 2;
  last_snapshot_revision = 2;
  fencing_token = text "fence-1";
  running = true;
}

abbrev snapshot : MembershipSnapshot
snapshot = record { revision = 4; members = two_members }

abbrev elected : BullyElection
unfolding elect
elected = elect (record election { last_snapshot_revision = 4 }) node_b 4 (text "fence-2") 9

abbrev out : List Effect
out = stores (text "home") 2 ∷ announces elected.state ∷ []

updated : update_membership election snapshot (text "fence-2") 9 ≡ ok (elected, out)
unfolding program
updated = refl

update_membership-IsHighest_example : IsHighest (alive_ids two_members) (some node_b)
unfolding elect
update_membership-IsHighest_example =
    update_membership-IsHighest election elected snapshot (text "fence-2") 9 out refl updated

update_membership-Fenced_example : Fenced election elected out
update_membership-Fenced_example =
    update_membership-Fenced election elected snapshot (text "fence-2") 9 out refl refl refl
      (omega arith) updated

abbrev wired : Wired
wired = record { membership = service; election = election }

wired_step-InStep_example :
    (w' : Wired) × (wired_step wired (observes (peer (text "c")) 9) (text "fence-2") 9 ≡ ok w')
    × InStep w'
wired_step-InStep_example =
    wired_step-InStep wired (observes (peer (text "c")) 9) (text "fence-2") 9 joined
      (build_snapshot joined ∷ []) (record { running = refl; seen = omega arith }) (omega arith)
      observed
