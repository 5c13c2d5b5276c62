-- ===== src/Security/Pinned.antt =====
-- The members that src/cluster/membership_service.cpp takes in when the provider of
-- src/security/identity_provider.cpp has a list of pinned node ids.
use socrates.Prelude.{
  ◌≡◌, refl, subst, ◌∙◌, Bool, true, some, List, [], ◌∷◌, all_of, all_of-append, is_some, arith,
  Bool-cases, inl, inr,
}
use socrates.Types.{ok}
use socrates.Cluster.{PeerAdvertisement, Member, MembershipSnapshot}
use socrates.Cluster.Membership.{MembershipService, id_of, new_member, admits, Call, step}
use socrates.Cluster.Membership.Evolution.{
  Keeps, Effect, silent, adds, changes, aged, step-Effect, Keeps-age,
}
use socrates.Security.{
  Crypto, IdentityProviderImpl, pinned_allowlist, is_in, authenticate, as_provider,
}

abbrev pub is_pinned : IdentityProviderImpl → Member → Bool
is_pinned p m = is_in (id_of m) p.pinned_node_ids

-- Membership asks this provider, and its members are pinned.
pub record Pinned (crypto : Crypto) (p : IdentityProviderImpl) (s : MembershipService)
    : Type 0 where
  pub asks : s.identity_provider ≡ some (as_provider crypto p)
  pub members : all_of (is_pinned p) s.members ≡ true

kept-pinned :
    (p : IdentityProviderImpl) (ms ms' : List Member)
    → Keeps ms ms'
    → all_of (is_pinned p) ms' ≡ all_of (is_pinned p) ms
kept-pinned p [] [] k = refl
kept-pinned p [] (n ∷ rest) k = elim k [ ]
kept-pinned p (m ∷ ms) [] k = elim k [ ]
kept-pinned p (m ∷ ms) (m' ∷ ms') k = rw (k.0.same_id, kept-pinned p ms ms' k.1)

module _ (crypto : Crypto) (p : IdentityProviderImpl) (policy : p.policy ≡ pinned_allowlist)
    (no_fingerprints : p.pinned_fingerprints ≡ []) where
  admits-pinned :
      (peer : PeerAdvertisement)
      → admits (some (as_provider crypto p)) peer ≡ true
      → is_in peer.node_id p.pinned_node_ids ≡ true
  unfolding admits as_provider authenticate
  admits-pinned peer h = elim (Bool-cases (is_in peer.node_id p.pinned_node_ids)) [
    | inl e ↦ e
    | inr e ↦ elim (Bool-cases (is_some p.local)) [
      | inl l ↦ let x = rw (l, policy, no_fingerprints, e) at h in absurd (cc)
      | inr l ↦ let x = rw l at h in absurd (cc)
    ]
  ]

  Effect-Pinned :
      (s : MembershipService) {r : MembershipService × List MembershipSnapshot}
      → Effect s r
      → Pinned crypto p s
      → Pinned crypto p r.0
  unfolding new_member
  Effect-Pinned s silent d = d
  Effect-Pinned s (adds peer now e a ne) d =
      let there = admits-pinned peer (subst (λ o. admits o peer ≡ true) d.asks a) in
      record {
        asks = d.asks;
        members = ground (
          arith,
          there,
          d.members,
          all_of-append (is_pinned p) s.members (new_member peer now ∷ []),
        );
      }
  Effect-Pinned s (changes ms k) d = record {
    asks = d.asks;
    members = kept-pinned p s.members ms k ∙ d.members;
  }
  Effect-Pinned s (aged now) d = record {
    asks = d.asks;
    members = kept-pinned p s.members _ (Keeps-age now s.members) ∙ d.members;
  }

  -- If membership asks a provider with pinned node ids and no pinned fingerprints, and its members have
  -- pinned ids, then after a call that returns they have too: no other peer is ever taken in.
  pub step-Pinned :
      (s t : MembershipService) (c : Call) (out : List MembershipSnapshot)
      → Pinned crypto p s
      → step s c ≡ ok (t, out)
      → Pinned crypto p t
  step-Pinned s t c out d h = Effect-Pinned s (step-Effect s c (t, out) h) d
