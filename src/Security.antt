-- ===== src/Security.antt =====
-- src/security/identity_provider.cpp: who a node is, and whom it lets in. What the source computes with
-- OpenSSL is a parameter.
pub mod Pinned
use socrates.Prelude.{
  Bool, true, false, not, ◌&&◌, ◌||◌, Option, none, some, List, [], ◌∷◌, ◌++◌, if◌then◌else◌,
  is_empty, any_of, is_some, Text, text, text_eq,
}
use socrates.Types.{
  Result, ok, err, guard, ◌>>=◌, ◌>>◌, failed_precondition, permission_denied, unauthenticated,
}
use socrates.Cluster.{PeerAdvertisement}
use socrates.Cluster.Membership.{IdentityProvider}

pub record Crypto : Type 0 where
  pub compute_fingerprint_sha256 : Text → Text
  pub generate_self_signed_cert : Text → Text
  pub verify_peer_cert : Text → Text → Bool

pub data TrustPolicy : Type 0 where
  ephemeral_cluster pinned_allowlist private_ca : TrustPolicy

pub record LocalIdentity : Type 0 where
  pub node_id : Text
  pub certificate_pem : Text
  pub public_key_fingerprint : Text

-- `PeerIdentity` has the same fields.
abbrev pub PeerIdentity : Type 0
PeerIdentity = LocalIdentity

pub record IdentityProviderImpl : Type 0 where
  pub policy : TrustPolicy
  pub local : Option LocalIdentity
  pub cluster_key : Text
  pub trust_bundle : Text
  pub pinned_node_ids : List Text
  pub pinned_fingerprints : List Text

abbrev pub new_provider : TrustPolicy → IdentityProviderImpl
new_provider policy = record {
  policy = policy;
  local = none;
  cluster_key = [];
  trust_bundle = [];
  pinned_node_ids = [];
  pinned_fingerprints = [];
}

abbrev pub or_else : Text → Text → Text
or_else s default = if is_empty s then default else s

abbrev pub new_identity : Crypto → Text → LocalIdentity
new_identity crypto id =
    let cert = crypto.generate_self_signed_cert (text "socrates-" ++ id) in
    record {
      node_id = id;
      certificate_pem = or_else cert (text "CERT-PLACEHOLDER-" ++ id);
      public_key_fingerprint = or_else (crypto.compute_fingerprint_sha256 cert) (text "fp-" ++ id);
    }

abbrev pub cluster_key_for : Crypto → TrustPolicy → Text → Text → Text
cluster_key_for crypto ephemeral_cluster id old =
    crypto.compute_fingerprint_sha256 (crypto.generate_self_signed_cert (text "socrates-" ++ id))
cluster_key_for crypto pinned_allowlist id old = old
cluster_key_for crypto private_ca id old = old

-- `id` is the random id that `make_node_id` gives, if one is made.
abbrev pub with_identity :
    Crypto
    → Text
    → IdentityProviderImpl
    → Option LocalIdentity
    → LocalIdentity × IdentityProviderImpl
with_identity crypto id p (some identity) = (identity, p)
with_identity crypto id p none = (
  new_identity crypto id,
  record p {
    local = some (new_identity crypto id);
    cluster_key = cluster_key_for crypto p.policy id p.cluster_key;
  },
)

unfoldable pub local_identity :
    Crypto → Text → IdentityProviderImpl → LocalIdentity × IdentityProviderImpl
local_identity crypto id p = with_identity crypto id p p.local

abbrev pub peer_fingerprint : Crypto → PeerAdvertisement → Text → Text
peer_fingerprint crypto advertisement cert =
    let computed =
      if is_empty cert
      then advertisement.public_key_fingerprint
      else crypto.compute_fingerprint_sha256 cert in
    or_else computed advertisement.public_key_fingerprint

abbrev pub is_in : Text → List Text → Bool
is_in x xs = any_of (text_eq x) xs

abbrev pub is_allowed : IdentityProviderImpl → Text → Text → Bool
is_allowed p fingerprint node_id =
    is_in fingerprint p.pinned_fingerprints || is_in node_id p.pinned_node_ids

abbrev pub decide : Crypto → IdentityProviderImpl → TrustPolicy → PeerIdentity → Result PeerIdentity
decide crypto p ephemeral_cluster peer = ok peer
decide crypto p pinned_allowlist peer = do
  guard (is_allowed p peer.public_key_fingerprint peer.node_id) permission_denied
  ok peer
decide crypto p private_ca peer = do
  guard
      (not (
        not (is_empty p.trust_bundle)
        && not (crypto.verify_peer_cert peer.certificate_pem p.trust_bundle)))
      unauthenticated
  ok peer

unfoldable pub authenticate :
    Crypto → IdentityProviderImpl → PeerAdvertisement → Text → Result PeerIdentity
authenticate crypto p advertisement cert = do
  guard (is_some p.local) failed_precondition
  decide crypto p p.policy (record {
    node_id = advertisement.node_id;
    certificate_pem = cert;
    public_key_fingerprint = peer_fingerprint crypto advertisement cert;
  })

unfoldable pub pin_node : Text → IdentityProviderImpl → IdentityProviderImpl
pin_node id p = record p { pinned_node_ids = id ∷ p.pinned_node_ids }

unfoldable pub pin_fingerprint : Text → IdentityProviderImpl → IdentityProviderImpl
pin_fingerprint fingerprint p = record p {
  pinned_fingerprints = fingerprint ∷ p.pinned_fingerprints;
}

unfoldable pub set_trust_bundle : Text → IdentityProviderImpl → IdentityProviderImpl
set_trust_bundle bundle p = record p { trust_bundle = bundle }

unfoldable pub pin_all : List Text → IdentityProviderImpl → IdentityProviderImpl
pin_all [] p = p
pin_all (id ∷ ids) p = pin_all ids (pin_node id p)

unfoldable pub make_pinned_identity_provider : List Text → IdentityProviderImpl
make_pinned_identity_provider allowlist = pin_all allowlist (new_provider pinned_allowlist)

abbrev pub id_or_err : Option LocalIdentity → Result Text
id_or_err none = err failed_precondition
id_or_err (some identity) = ok identity.node_id

-- What membership calls of a provider whose identity has been made.
unfoldable pub as_provider : Crypto → IdentityProviderImpl → IdentityProvider
as_provider crypto p = record {
  local_identity = id_or_err p.local;
  authenticate = λ peer cert. authenticate crypto p peer cert >>= λ known. ok known.node_id;
}
