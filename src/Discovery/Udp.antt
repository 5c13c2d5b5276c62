-- ===== src/Discovery/Udp.antt =====
-- src/discovery/udp_discovery.cpp: the advertisement on the wire, and what the two threads do with it.
-- The sockets are there or not; the number of bits of an `unsigned long`, 32 or 64, is a parameter. What
-- `std::stoul` throws, which nothing catches, is none.
pub mod RoundTrip
use socrates.Prelude.{
  ℕ, zero, suc, ◌-◌, ◌%◌, ◌^◌, Bool, true, false, not, ◌&&◌, ◌||◌, Option, none, some, List, [],
  ◌∷◌, ◌++◌, take, if◌then◌else◌, ltb, ◌==◌, is_empty, Text, text,
}
use socrates.Types.{Result, ok, guard, failed_precondition, ◌>>=◌, ◌>>◌}
use socrates.Cluster.{PeerAdvertisement}
use socrates.Pipeline.{to_string}
use socrates.Persistence.Json.{is_space, skip, unsigned}
use socrates.Discovery.{DiscoveryConfig}

pub record UdpBroadcastDiscovery : Type 0 where
  pub config : DiscoveryConfig
  pub local_peer : PeerAdvertisement
  pub has_callback : Bool
  pub port : ℕ
  pub running : Bool
  pub sends : Bool
  pub receives : Bool

-- `sends` and `receives` say that the sockets were made and bound. A failure is not reported.
unfoldable pub start :
    Bool
    → Bool
    → Bool
    → UdpBroadcastDiscovery
    → DiscoveryConfig
    → PeerAdvertisement
    → Result UdpBroadcastDiscovery
start has_callback sends receives s config peer = do
  guard (not s.running) failed_precondition
  ok (record {
    config = config;
    local_peer = peer;
    has_callback = has_callback;
    port = config.udp_port;
    running = true;
    sends = sends;
    receives = receives;
  })

unfoldable pub update_advertisement :
    UdpBroadcastDiscovery → PeerAdvertisement → UdpBroadcastDiscovery
update_advertisement s peer = record s { local_peer = peer }

unfoldable pub stop : UdpBroadcastDiscovery → UdpBroadcastDiscovery
stop s = record s { running = false; sends = false; receives = false }

abbrev pub bar : ℕ
bar = 124

unfoldable pub serialize_peer : PeerAdvertisement → Text
serialize_peer p =
    p.node_id ++ (bar ∷ (to_string p.incarnation ++ (bar ∷ p.public_key_fingerprint)))

-- `s.find('|')` and the texts on both sides.
unfoldable pub split_bar : Text → Option (Text × Text)
split_bar [] = none
split_bar (c ∷ cs) =
    let rest : Option (Text × Text) = elim (split_bar cs) [
      | none ↦ none
      | some (a, b) ↦ some (c ∷ a, b)
    ] in
    if c == bar then some ([], cs) else rest

-- `std::out_of_range`
abbrev pub in_range : ℕ → Option ℕ → Option ℕ
in_range bits none = none
in_range bits (some n) = if ltb n (2 ^ bits) then some n else none

abbrev pub negated : ℕ → Option ℕ → Option ℕ
negated bits none = none
negated bits (some n) = some ((2 ^ bits - n) % 2 ^ bits)

abbrev pub signed_long : ℕ → Text → Option ℕ
signed_long bits [] = none
signed_long bits (c ∷ cs) =
    if c == 45
    then negated bits (in_range bits (unsigned cs))
    else if c == 43
    then in_range bits (unsigned cs)
    else in_range bits (unsigned (c ∷ cs))

unfoldable pub stoul : ℕ → Text → Option ℕ
stoul bits s = signed_long bits (skip is_space s)

abbrev pub advertisement : Text → ℕ → Text → PeerAdvertisement
advertisement id incarnation fingerprint = record {
  node_id = id;
  incarnation = incarnation;
  endpoints = [];
  public_key_fingerprint = fingerprint;
  metadata = [];
}

abbrev pub no_peer : PeerAdvertisement
no_peer = advertisement [] 0 []

abbrev pub read_peer : Text → Text → Option ℕ → Option PeerAdvertisement
read_peer id fingerprint none = none
read_peer id fingerprint (some n) = some (advertisement id (n % 2 ^ 32) fingerprint)

-- A text without two bars is no peer.
unfoldable pub parse_advertisement : ℕ → Text → Option PeerAdvertisement
parse_advertisement bits s = elim (split_bar s) [
  | none ↦ some no_peer
  | some (id, rest) ↦ elim (split_bar rest) [
    | none ↦ some no_peer
    | some (incarnation, fingerprint) ↦ read_peer id fingerprint (stoul bits incarnation)
  ]
]

-- The datagrams that a turn of the sending thread broadcasts.
unfoldable pub send_announcement : UdpBroadcastDiscovery → List Text
send_announcement s =
    let json = serialize_peer s.local_peer in
    if s.sends && not (is_empty json) then json ∷ [] else []

abbrev pub buffer_bytes : ℕ
buffer_bytes = 2047

abbrev pub found : Bool → PeerAdvertisement → List PeerAdvertisement
found has_callback peer = if not (is_empty peer.node_id) && has_callback then peer ∷ [] else []

-- A turn of the receiving thread on a datagram, of which the buffer takes 2047 bytes: the peers that
-- the callback is told of.
unfoldable pub receive : ℕ → UdpBroadcastDiscovery → Text → Option (List PeerAdvertisement)
receive bits s datagram =
    let bytes = take buffer_bytes datagram in
    let told : Option (List PeerAdvertisement) = elim (parse_advertisement bits bytes) [
      | none ↦ none
      | some peer ↦ some (found s.has_callback peer)
    ] in
    if is_empty bytes || not s.receives then some [] else told
