-- ===== src/Discovery/Udp/RoundTrip.antt =====
-- What a node hears of another one's broadcast in src/discovery/udp_discovery.cpp.
use socrates.Prelude.{
  ℕ, zero, suc, ◌+◌, ◌/◌, ◌%◌, ◌^◌, ◌<◌, ◌≤◌, ◌≡◌, refl, sym, ap, ◌∙◌, Bool, true, false, not, some,
  [], ◌∷◌, ◌++◌, take, length, all_of, all_of-append, ltb, ◌==◌, is_empty, if◌then◌else◌, Text,
  arith, Bool-cases, inl, inr,
}
use mathlib.Core.List.{append-nil}
use socrates.Cluster.{PeerAdvertisement}
use socrates.Pipeline.{digits, to_string}
use socrates.Persistence.Json.{is_digit, is_space, skip, scan_digits}
use socrates.Persistence.Json.Numbers.{
  starts, starts-digits, scan-digits, scan_stop, digits_small, digits_large,
}
use socrates.Discovery.Udp.{
  UdpBroadcastDiscovery, bar, serialize_peer, split_bar, stoul, in_range, advertisement,
  parse_advertisement, send_announcement, receive, buffer_bytes,
}

append-nonempty : (a : Text) (c : ℕ) (b : Text) → is_empty (a ++ (c ∷ b)) ≡ false
append-nonempty [] c b = refl
append-nonempty (x ∷ a) c b = refl

abbrev pub no_bar : ℕ → Bool
no_bar c = not (c == bar)

split_bar-append : (a b : Text) → all_of no_bar a ≡ true → split_bar (a ++ (bar ∷ b)) ≡ some (a, b)
unfolding split_bar
split_bar-append [] b h = refl
split_bar-append (c ∷ cs) b h =
    let rest = split_bar-append cs b (ground (arith, h)) in
    let other : (c == bar) ≡ false = ground (arith, h) in rw (other, rest, split_bar) refl

digits-no_bar : (fuel n : ℕ) → all_of no_bar (digits fuel n) ≡ true
unfolding digits
digits-no_bar zero n = refl
digits-no_bar (suc fuel) n = elim (Bool-cases (ltb n 10)) [
  | inl e ↦ rw (digits_small fuel n e) (ground (arith, e))
  | inr e ↦
      let rest = digits-no_bar fuel (n / 10) in
      let last : no_bar (48 + n % 10) ≡ true = ground arith in
      rw (digits_large fuel n e) (
        ground
          (arith, rest, last, all_of-append no_bar (digits fuel (n / 10)) ((48 + n % 10) ∷ [])))
]

read_digits :
    (bits : ℕ) (s : Text) → starts s ≡ true → stoul bits s ≡ in_range bits (some (scan_digits 0 s))
unfolding stoul skip
read_digits bits [] h = ground arith
read_digits bits (c ∷ s) h =
    let digit : is_digit c ≡ true = h in
    let space : is_space c ≡ false = ground (arith, h) in
    let minus : (c == 45) ≡ false = ground (arith, h) in
    let plus : (c == 43) ≡ false = ground (arith, h) in rw (space, minus, plus, digit) refl

digits_value : (n : ℕ) → n < 2 ^ 64 → scan_digits 0 (digits 20 n) ≡ n
digits_value n h =
    ap (scan_digits 0) (sym (append-nil (digits 20 n)))
    ∙ scan-digits 20 n [] (omega arith)
    ∙ scan_stop n [] refl

to_string-no_bar : (n : ℕ) → all_of no_bar (to_string n) ≡ true
unfolding to_string
to_string-no_bar n = digits-no_bar 20 n

serialize_peer-nonempty : (p : PeerAdvertisement) → is_empty (serialize_peer p) ≡ false
unfolding serialize_peer
serialize_peer-nonempty p = append-nonempty p.node_id bar _

below : (n m : ℕ) → n < m → ltb n m ≡ true
below n m h = ground arith

stoul-to_string : (bits n : ℕ) → n < 2 ^ 64 → n < 2 ^ bits → stoul bits (to_string n) ≡ some n
unfolding to_string
stoul-to_string bits n h fits =
    read_digits bits (digits 20 n) (starts-digits 19 n)
    ∙ rw (digits_value n h) (rw (below n (2 ^ bits) fits) refl)

abbrev pub heard_as : PeerAdvertisement → PeerAdvertisement
heard_as p = advertisement p.node_id (p.incarnation % 2 ^ 32) p.public_key_fingerprint

parse_advertisement-serialize_peer :
    (bits : ℕ) (p : PeerAdvertisement)
    → all_of no_bar p.node_id ≡ true
    → p.incarnation < 2 ^ 64
    → p.incarnation < 2 ^ bits
    → parse_advertisement bits (serialize_peer p) ≡ some (heard_as p)
unfolding parse_advertisement serialize_peer
parse_advertisement-serialize_peer bits p plain small fits =
    let tail = to_string p.incarnation ++ (bar ∷ p.public_key_fingerprint) in
    let digits_plain : all_of no_bar (to_string p.incarnation) ≡ true =
      to_string-no_bar p.incarnation in
    rw
      (
        parse_advertisement,
        serialize_peer,
        split_bar-append p.node_id tail plain,
        split_bar-append (to_string p.incarnation) p.public_key_fingerprint digits_plain,
        stoul-to_string bits p.incarnation small fits,
      )
      refl

take-short : (n : ℕ) (s : Text) → length s ≤ n → take n s ≡ s
take-short zero [] h = refl
take-short zero (c ∷ s) h = absurd (omega arith)
take-short (suc n) [] h = refl
take-short (suc n) (c ∷ s) h = ap (◌∷◌ c) (take-short n s (omega arith))

-- What one node broadcasts and another one hears: where both have their sockets, the sender's id is
-- not empty and has no bar in it, its incarnation has 64 bits and also fits an `unsigned long` of the
-- receiver, and the text fits the buffer, the sender broadcasts one datagram, and the receiver tells
-- its callback, if it has one, of the sender's id, its fingerprint and the low 32 bits of its
-- incarnation. It does so for every datagram, a repeated one too.
pub receive-send_announcement :
    (bits : ℕ) (s r : UdpBroadcastDiscovery)
    → s.sends ≡ true
    → r.receives ≡ true
    → is_empty s.local_peer.node_id ≡ false
    → all_of no_bar s.local_peer.node_id ≡ true
    → s.local_peer.incarnation < 2 ^ 64
    → s.local_peer.incarnation < 2 ^ bits
    → length (serialize_peer s.local_peer) ≤ buffer_bytes
    → (datagram : Text) × (send_announcement s ≡ datagram ∷ [])
      × (receive bits r datagram ≡ some (if r.has_callback then heard_as s.local_peer ∷ [] else []))
unfolding send_announcement receive
receive-send_announcement bits s r sends receives named plain small held fits =
    let p = s.local_peer in
    let wire = serialize_peer p in
    let some_bytes = serialize_peer-nonempty p in
    (
      wire,
      rw (sends, some_bytes) refl,
      rw
          (
            receive,
            take-short buffer_bytes wire fits,
            some_bytes,
            receives,
            parse_advertisement-serialize_peer bits p plain small held,
            named,
          )
          refl,
    )
