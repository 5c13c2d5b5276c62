-- ===== src/Tests/Discovery.antt =====
-- Two adapters of which the second does not start, and a broadcast.
use socrates.Prelude.{
  ◌+◌, ◌^◌, ◌≡◌, refl, Bool, true, false, not, Option, none, some, [], ◌∷◌, Text, text, length,
  all_of, arith,
}
use socrates.Types.{failed_precondition}
use socrates.Pipeline.{digits, to_string}
use socrates.Discovery.{DiscoveryMethod, mdns, udp_broadcast, bluetooth_low_energy, DiscoveryConfig}
use socrates.Discovery.Bluetooth
use socrates.Discovery.Bluetooth.{BluetoothDiscovery, bluetooth, bluetooth-Laws}
use socrates.Discovery.Coordinator
use socrates.Discovery.Coordinator.{
  CoordinatedDiscovery, Call, starts, stops, start_each, step, Held, step-Held,
}
use socrates.Discovery.Udp.{
  UdpBroadcastDiscovery, split_bar, stoul, parse_advertisement, serialize_peer, send_announcement,
  receive,
}
use socrates.Persistence.Json.{skip, scan_digits}
use socrates.Discovery.Udp.RoundTrip.{heard_as, receive-send_announcement}
use socrates.Tests.Data.{node_a, peer}

abbrev config : DiscoveryConfig
config = record {
  fallback_order = mdns ∷ bluetooth_low_energy ∷ udp_broadcast ∷ [];
  service_name = text "socrates-home";
  udp_port = 9876;
  scan_timeout = 1500;
  announce_interval = 3000;
}

abbrev adapter : Bool → BluetoothDiscovery
adapter running = record {
  config = config;
  local_peer = peer node_a;
  has_callback = true;
  running = running;
  permission_denied = false;
}

-- There is no mDNS, and what stands for UDP runs already.
abbrev make_adapter : DiscoveryMethod → Option BluetoothDiscovery
make_adapter mdns = none
make_adapter udp_broadcast = some (adapter true)
make_adapter bluetooth_low_energy = some (adapter false)

abbrev idle : CoordinatedDiscovery BluetoothDiscovery
idle = record { config = none; local_peer = none; adapters = []; running = false }

program : Unit {0}
unfolding Bluetooth.start Bluetooth.stop Coordinator.start Coordinator.stop start_each step
program = tt

abbrev go : Call
go = starts config (peer node_a)

abbrev half : CoordinatedDiscovery BluetoothDiscovery
half = (step (bluetooth true) make_adapter idle go).state

half_started : (step (bluetooth true) make_adapter idle go).thrown ≡ some failed_precondition
unfolding program
half_started = refl

half_held : length half.adapters ≡ 1
unfolding program
half_held = refl

step-Held_example :
    Held (bluetooth true) make_adapter (step (bluetooth true) make_adapter half stops).state
    × (all_of (λ a. not a.running) (step (bluetooth true) make_adapter half stops).released ≡ true)
    × (length (step (bluetooth true) make_adapter half stops).released ≡ length half.adapters)
    × ((step (bluetooth true) make_adapter half stops).state.adapters ≡ [])
unfolding program
step-Held_example =
    step-Held (bluetooth true) make_adapter (bluetooth-Laws true) half stops
      (record { run = refl; idle = refl })

abbrev node : UdpBroadcastDiscovery
node = record {
  config = config;
  local_peer = record (peer (text "node-7")) { incarnation = 2 ^ 32 + 5 };
  has_callback = true;
  port = 9876;
  running = true;
  sends = true;
  receives = true;
}

-- The incarnation arrives as 5.
receive-send_announcement_example :
    (datagram : Text) × (send_announcement node ≡ datagram ∷ [])
    × (receive 64 node datagram ≡ some (heard_as node.local_peer ∷ []))
unfolding serialize_peer to_string digits
receive-send_announcement_example =
    receive-send_announcement 64 node node refl refl refl refl (omega arith) (omega arith)
      (omega arith)

-- Where an `unsigned long` has 32 bits, the same datagram ends the process.
thrown : receive 32 node (serialize_peer node.local_peer) ≡ none
unfolding receive parse_advertisement split_bar stoul skip scan_digits serialize_peer to_string
    digits
thrown = refl
