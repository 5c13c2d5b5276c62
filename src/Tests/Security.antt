-- ===== src/Tests/Security.antt =====
-- Membership with a list of pinned ids.
use socrates.Prelude.{◌≡◌, refl, true, false, some, [], ◌∷◌, text_eq}
use socrates.Types.{ok, err}
use socrates.Cluster.Membership.{
  MembershipService, find_member, update_member, build_snapshot, new_member, refresh, admits,
  observe, observes, step,
}
use socrates.Security.{
  Crypto, IdentityProviderImpl, local_identity, authenticate, pin_node, pin_all,
  make_pinned_identity_provider, as_provider,
}
use socrates.Security.Pinned.{Pinned, step-Pinned}
use socrates.Tests.Data.{node_a, node_b, peer}

program : Unit {0}
unfolding text_eq find_member update_member build_snapshot new_member refresh admits observe step
    local_identity authenticate pin_node pin_all make_pinned_identity_provider as_provider
program = tt

abbrev crypto : Crypto
crypto = record {
  compute_fingerprint_sha256 = λ cert. cert;
  generate_self_signed_cert = λ name. name;
  verify_peer_cert = λ cert bundle. true;
}

abbrev provider : IdentityProviderImpl
unfolding program
provider = (local_identity crypto node_a (make_pinned_identity_provider (node_a ∷ []))).1

abbrev service : MembershipService
unfolding program
service = record {
  identity_provider = some (as_provider crypto provider);
  has_callback = false;
  running = true;
  members = [];
  snapshot_revision = 0;
  local_node_id = node_a;
  liveness_active = true;
}

begin : Pinned crypto provider service
unfolding program provider service
begin = record { asks = refl; members = refl }

abbrev after : MembershipService
unfolding program
after = elim (step service (observes (peer node_a) 7)) [ ok r ↦ r.0 | err e ↦ service ]

taken_in : step service (observes (peer node_a) 7) ≡ ok (after, [])
unfolding program
taken_in = refl

step-Pinned_example : Pinned crypto provider after
unfolding program
step-Pinned_example =
    step-Pinned crypto provider refl refl service after (observes (peer node_a) 7) [] begin taken_in

-- A peer without a pinned id is passed over.
passed_over : step service (observes (peer node_b) 7) ≡ ok (service, [])
unfolding program
passed_over = refl
