-- ===== src/Discovery.antt =====
-- include/socrates/discovery/discovery_service.h: what a discovery service is asked. The children model
-- the services of src/discovery; the thread of a callback is the caller's.
pub mod Coordinator
pub mod Udp
pub mod Bluetooth
use socrates.Prelude.{ℕ, Bool, true, false, List, Text, ◌≡◌}
use socrates.Types.{Result, ok}
use socrates.Cluster.{PeerAdvertisement}

pub data DiscoveryMethod : Type 0 where
  mdns udp_broadcast bluetooth_low_energy : DiscoveryMethod

pub record DiscoveryConfig : Type 0 where
  pub fallback_order : List DiscoveryMethod
  pub service_name : Text
  pub udp_port : ℕ
  pub scan_timeout : ℕ
  pub announce_interval : ℕ

-- The virtual methods, for a class with the state `S`. `is_running` is for the laws.
pub record DiscoveryService (S : Type 0) : Type 0 where
  pub start : S → DiscoveryConfig → PeerAdvertisement → Result S
  pub update_advertisement : S → PeerAdvertisement → S
  pub stop : S → S
  pub is_running : S → Bool

-- What the header says of them.
pub record ServiceLaws {S : Type 0} (ops : DiscoveryService S) : Type 0 where
  pub start-runs :
      (s s' : S) (config : DiscoveryConfig) (peer : PeerAdvertisement)
      → ops.start s config peer ≡ ok s'
      → ops.is_running s' ≡ true
  pub update_keeps :
      (s : S) (peer : PeerAdvertisement)
      → ops.is_running (ops.update_advertisement s peer) ≡ ops.is_running s
  pub stop-halts : (s : S) → ops.is_running (ops.stop s) ≡ false
