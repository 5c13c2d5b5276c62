-- ===== src/Transport/Wire/Names.antt =====
-- The name before a payload, in src/transport/grpc_transport.cpp: taking it off undoes putting it on,
-- and a length near the limit of its word defeats the test before the read.
use mathlib.Core.List.{append_assoc}
use socrates.Prelude.{
  ℕ, ◌+◌, ◌-◌, ◌*◌, ◌%◌, ◌^◌, ◌<◌, ◌≤◌, ◌≡◌, refl, sym, ap, ◌∙◌, some, List, [], ◌∷◌, ◌++◌, length,
  length-append, length-replicate, take, drop, replicate, arith, Text,
}
use socrates.Codec.{ok, overrun, ◌>>=◌, le_bytes, le_value}
use socrates.Codec.Bytes.{
  write_at-append, replicate-append, le_value-le_bytes, length-le_bytes, take_all, drop_past,
  fill_end, ltb-of_lt, ltb-of_le,
}
use socrates.Transport.Wire.{prefix_end, prefix_payload, split_payload}

-- The documented layout: the length of the name, the name, the payload.
abbrev pub named : Text → List ℕ → List ℕ
named name payload = le_bytes 4 (length name) ++ (name ++ payload)

take_whole : (l : List ℕ) → take (length l) l ≡ l
take_whole [] = refl
take_whole (x ∷ xs) = ap (◌∷◌ x) (take_whole xs)

-- The zeroed buffer in its three parts.
blank_parts :
    (l n : ℕ) → replicate {A = ℕ} (4 + l + n) 0 ≡ replicate 4 0 ++ (replicate l 0 ++ replicate n 0)
blank_parts l n =
    let e : 4 + l + n ≡ 4 + (l + n) = omega arith in
    rw (e, replicate-append 4 (l + n)) (ap (◌++◌ (replicate 4 0)) (replicate-append l n))

prefix_payload_lem :
    (name : Text) (payload : List ℕ)
    → 4 + length name < 2 ^ 32
    → prefix_payload name payload ≡ ok (named name payload)
unfolding prefix_payload
prefix_payload_lem name payload short =
    let l = length name in
    let n = length payload in
    let word = le_bytes 4 l in
    let small : l % 2 ^ 32 ≡ l = omega (arith, short) in
    let end : prefix_end l ≡ 4 + l = omega (arith, short) in
    let first =
      write_at-append 0 [] (replicate 4 0) (replicate l 0 ++ replicate n 0) word refl refl in
    let second =
      write_at-append 4 word (replicate l 0) (replicate n 0) name refl
        (sym (length-replicate l 0)) in
    let third =
      fill_end (4 + l) payload (word ++ name)
        (omega (arith, length-append word name, length-le_bytes 4 l)) in
    rw
      (
        small,
        end,
        blank_parts l n,
        first,
        take_whole name,
        second,
        sym (append_assoc word name (replicate n 0)),
        third,
      )
      (ap ok (append_assoc word name payload))

split_payload_lem :
    (name : Text) (payload : List ℕ)
    → 4 + length name < 2 ^ 32
    → split_payload (named name payload) ≡ ok (some (name, payload))
unfolding split_payload
split_payload_lem name payload short =
    let l = length name in
    let n = length payload in
    let all = named name payload in
    let len : le_value (take 4 all) ≡ l = le_value-le_bytes 4 l (omega (arith, short)) in
    let end : prefix_end l ≡ 4 + l = omega (arith, short) in
    let size : length all ≡ 4 + (l + n) = omega (arith, length-append name payload) in
    let left : 4 + (l + n) - (4 + l) ≡ n = omega arith in
    let front : take l (name ++ payload) ≡ name = take_all l name payload refl in
    let back : drop (4 + l) all ≡ payload =
      drop_past (le_bytes 4 l) (name ++ payload) 4 l refl
      ∙ ap (λ k. drop k (name ++ payload)) (omega arith)
      ∙ drop_past name payload l 0 refl in
    let total = 4 + (l + n) in
    rw (
      len,
      size,
      end,
      left,
      ltb-of_le total 4 (omega arith),
      ltb-of_le total (4 + l) (omega arith),
      front,
      ltb-of_le total (4 + l + n) (omega arith),
      back,
      take_whole payload,
    )

-- What a request or a stream frame puts before its payload, the receiver takes off: it finds the
-- name and the payload, if the name is shorter than the largest word less four.
pub split_payload-prefix_payload :
    (name : Text) (payload : List ℕ)
    → 4 + length name < 2 ^ 32
    → (prefix_payload name payload >>= split_payload) ≡ ok (some (name, payload))
split_payload-prefix_payload name payload short =
    rw (prefix_payload_lem name payload short) (split_payload_lem name payload short)

-- A payload of a size that a frame can have, whose first word is one of the four greatest, makes the
-- receiver read past its end: the sum of four and the length wraps, and passes the test.
split_payload-overrun :
    (payload : List ℕ)
    → 4 ≤ length payload
    → length payload ≤ 64 * 1024 * 1024
    → 2 ^ 32 - 4 ≤ le_value (take 4 payload)
    → le_value (take 4 payload) < 2 ^ 32
    → split_payload payload ≡ overrun
unfolding split_payload
split_payload-overrun payload long fits large word =
    let n = length payload in
    let len = le_value (take 4 payload) in
    rw (
      ltb-of_le n 4 long,
      ltb-of_le n (prefix_end len) (omega (arith, long, large, word)),
      ltb-of_lt n (4 + len) (omega (arith, fits, large)),
    )
