-- ===== src/Discovery/Bluetooth.antt =====
-- src/discovery/bluetooth_discovery.cpp: a service that only hands on what is injected.
use socrates.Prelude.{Bool, true, false, not, ◌&&◌, List, [], ◌∷◌, refl, sym, ap, if◌then◌else◌}
use socrates.Types.{Result, ok, guard, failed_precondition, ◌>>◌, ok-injective, >>=-eq-ok}
use socrates.Cluster.{PeerAdvertisement}
use socrates.Discovery.{DiscoveryConfig, DiscoveryService, ServiceLaws}

pub record BluetoothDiscovery : Type 0 where
  pub config : DiscoveryConfig
  pub local_peer : PeerAdvertisement
  pub has_callback : Bool
  pub running : Bool
  pub permission_denied : Bool

unfoldable pub start :
    Bool → BluetoothDiscovery → DiscoveryConfig → PeerAdvertisement → Result BluetoothDiscovery
start has_callback s config peer = do
  guard (not s.running) failed_precondition
  ok (record {
    config = config;
    local_peer = peer;
    has_callback = has_callback;
    running = true;
    permission_denied = false;
  })

unfoldable pub update_advertisement : BluetoothDiscovery → PeerAdvertisement → BluetoothDiscovery
update_advertisement s peer = record s { local_peer = peer }

unfoldable pub stop : BluetoothDiscovery → BluetoothDiscovery
stop s = record s { running = false }

unfoldable pub simulate_permission_denied : BluetoothDiscovery → BluetoothDiscovery
simulate_permission_denied s = record s { permission_denied = true }

-- The peers that the callback is told of. The callback stays when the service is stopped.
unfoldable pub inject_peer : BluetoothDiscovery → PeerAdvertisement → List PeerAdvertisement
inject_peer s peer = if not s.permission_denied && s.has_callback then peer ∷ [] else []

abbrev pub bluetooth : Bool → DiscoveryService BluetoothDiscovery
bluetooth has_callback = record {
  start = start has_callback;
  update_advertisement = update_advertisement;
  stop = stop;
  is_running = λ s. s.running;
}

pub bluetooth-Laws : (has_callback : Bool) → ServiceLaws (bluetooth has_callback)
unfolding start update_advertisement stop
bluetooth-Laws has_callback = record {
  start-runs = λ s s' config peer h.
      let (_, _, h') = >>=-eq-ok (guard (not s.running) failed_precondition) _ h in
      ap (λ x. x.running) (sym (ok-injective h'));
  update_keeps = λ s peer. refl;
  stop-halts = λ s. refl;
}
