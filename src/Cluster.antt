-- ===== src/Cluster.antt =====
-- include/socrates/cluster/membership_service.h, include/socrates/discovery/discovery_service.h and
-- include/socrates/cluster/leader_election.h: members, snapshots and leadership. The children model
-- src/cluster/membership_service.cpp and src/cluster/bully_election.cpp.
pub mod Membership
pub mod Election
pub mod Wiring
use socrates.Prelude.{ℕ, Bool, Option, List, Text, ◌==◌, true, false}
use socrates.Types.{CapabilityProfile, LeadershipFence}

pub record PeerAdvertisement : Type 0 where
  pub node_id : Text
  pub incarnation : ℕ
  pub endpoints : List Text
  pub public_key_fingerprint : Text
  pub metadata : List (Text × Text)

pub data MemberState : Type 0 where
  joining alive suspect left removed : MemberState

pub data NodeRole : Type 0 where
  leech participant : NodeRole

pub record ModelPresence : Type 0 where
  pub model_id : Text
  pub manifest_revision : Text
  pub quantization : Text
  pub downloaded_bytes : ℕ
  pub total_bytes : ℕ
  pub ready : Bool

pub record Member : Type 0 where
  pub peer : PeerAdvertisement
  pub state : MemberState
  pub role : NodeRole
  pub capability : Option CapabilityProfile
  pub models : List ModelPresence
  pub last_seen : ℕ

pub record MembershipSnapshot : Type 0 where
  pub revision : ℕ
  pub members : List Member

pub record LeadershipState : Type 0 where
  pub leader_id : Option Text
  pub fence : LeadershipFence
  pub locally_valid_until : ℕ

abbrev pub is_alive : MemberState → Bool
is_alive alive = true
is_alive joining = false
is_alive suspect = false
is_alive left = false
is_alive removed = false
