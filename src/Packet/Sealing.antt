-- ===== src/Packet/Sealing.antt =====
-- What the two ends of a session make of each other's datagrams.
use Prim.Native.Nat.{bit_and, bit_or}
use mathlib.Core.List.{append_assoc}
use mosh_client_rs.Prelude.{
  ◌≡◌, refl, ap, ◌∙◌, ℕ, ◌+◌, ◌-◌, ◌*◌, ◌^◌, ◌≤◌, arith, false, not, some, List, ◌++◌, Result, ok,
  err, ok_or, ltb, ◌==◌, if◌then◌else◌, length, length-append, take, drop, from_be_bytes,
  length-to_be_bytes, from_be_bytes-to_be_bytes, take-append, drop-append, bit_and-flag,
  bit_and-field, bit_or-flag, try, Option-cases, inl, inr,
}
use mosh_client_rs.Limits.{max_datagram_bytes}
use mosh_client_rs.Packet.Window.{PacketError, authentication_failed, wrong_direction, max_sequence}
use mosh_client_rs.Packet.Codec.{
  Direction, client_to_server, server_to_client, header_bit, header_of, SessionCrypto, IsAead,
  nonce, OpenedPacket, seal, open_datagram, direction_mask, max_plaintext_bytes, overhead_bytes,
  header_bytes, tag_bytes,
}

abbrev flag : Direction → ℕ
flag client_to_server = 0
flag server_to_client = 1

abbrev pub opposite : Direction → Direction
opposite client_to_server = server_to_client
opposite server_to_client = client_to_server

header_word :
    (d : Direction) (sequence : ℕ)
    → sequence ≤ max_sequence
    → from_be_bytes (header_of d sequence) ≡ bit_or (flag d * 2 ^ 63) sequence
unfolding header_of
header_word client_to_server sequence h =
    from_be_bytes-to_be_bytes 8 (bit_or (0 * 2 ^ 63) sequence)
      (omega (arith, bit_or-flag 63 0 sequence (omega arith)))
header_word server_to_client sequence h =
    from_be_bytes-to_be_bytes 8 (bit_or (1 * 2 ^ 63) sequence)
      (omega (arith, bit_or-flag 63 1 sequence (omega arith)))

header_direction :
    (d : Direction) (sequence : ℕ)
    → sequence ≤ max_sequence
    → bit_and (from_be_bytes (header_of d sequence)) direction_mask ≡ header_bit d
header_direction client_to_server sequence h =
    ap (λ (t : ℕ). bit_and t (2 ^ 63)) (header_word client_to_server sequence h)
    ∙ bit_and-flag 63 0 sequence (omega arith) (omega arith)
header_direction server_to_client sequence h =
    ap (λ (t : ℕ). bit_and t (2 ^ 63)) (header_word server_to_client sequence h)
    ∙ bit_and-flag 63 1 sequence (omega arith) (omega arith)

header_sequence :
    (d : Direction) (sequence : ℕ)
    → sequence ≤ max_sequence
    → bit_and (from_be_bytes (header_of d sequence)) max_sequence ≡ sequence
header_sequence d sequence h =
    ap (λ (t : ℕ). bit_and t (2 ^ 63 - 1)) (header_word d sequence h)
    ∙ bit_and-field 63 (flag d) sequence (omega arith)

length-header_of : (d : Direction) (sequence : ℕ) → length (header_of d sequence) ≡ header_bytes
unfolding header_of
length-header_of d sequence = length-to_be_bytes 8 (bit_or (header_bit d) sequence)

-- The parts of a datagram.
record IsLaidOut (header body tag datagram : List ℕ) : Type 0 where
  whole : length datagram ≡ header_bytes + length body + tag_bytes
  head : take header_bytes datagram ≡ header
  middle : drop header_bytes (take (length datagram - tag_bytes) datagram) ≡ body
  last : drop (length datagram - tag_bytes) datagram ≡ tag

laid_out :
    (header body tag : List ℕ)
    → length header ≡ header_bytes
    → length tag ≡ tag_bytes
    → IsLaidOut header body tag ((header ++ body) ++ tag)
laid_out header body tag h t =
    let datagram = (header ++ body) ++ tag in
    let whole : length datagram ≡ header_bytes + length body + tag_bytes =
      omega (arith, length-append (header ++ body) tag, length-append header body, h, t) in
    let cut : length (header ++ body) ≡ length datagram - tag_bytes =
      omega (arith, whole, length-append header body, h) in
    record {
      whole = whole;
      head =
          ap (take header_bytes) (append_assoc header body tag)
          ∙ take-append header_bytes header (body ++ tag) h;
      middle =
          ap (drop header_bytes)
            (take-append (length datagram - tag_bytes) (header ++ body) tag cut)
          ∙ drop-append header_bytes header body h;
      last = drop-append (length datagram - tag_bytes) (header ++ body) tag cut;
    }

turned :
    (d : Direction) (b : ℕ) (rest : Result PacketError OpenedPacket)
    → b ≡ header_bit d
    → (if not (b == header_bit (opposite d)) then err wrong_direction else rest)
      ≡ err wrong_direction
turned client_to_server b rest h = ground arith
turned server_to_client b rest h = ground arith

module _ (c : SessionCrypto) (aead : IsAead c) where
  -- `seal` in one step, where its three tests pass and the cipher answers.
  seal_ok :
      (d : Direction) (sequence : ℕ) (plaintext datagram : List ℕ) (output_len : ℕ)
      → seal c d sequence plaintext output_len ≡ ok datagram
      → (body : List ℕ) × (tag : List ℕ) × (c.encrypt (nonce (header_of d sequence)) plaintext
          ≡ some (body, tag))
        × (datagram ≡ (header_of d sequence ++ body) ++ tag)
        × (sequence ≤ max_sequence)
        × (length plaintext ≤ max_plaintext_bytes)
        × (overhead_bytes + length plaintext ≤ output_len)
  unfolding seal
  seal_ok d sequence plaintext datagram output_len e =
      elim (Option-cases (c.encrypt (nonce (header_of d sequence)) plaintext)) [
        | inl x ↦ absurd (ground (arith, e, x))
        | inr (sealed, x) ↦ (
          sealed.0,
          sealed.1,
          x,
          ground (arith, e, x),
          ground (arith, e, x),
          ground (arith, e, x),
          ground (arith, e, x),
        )
      ]

  -- What `open_datagram` reads of a datagram in its three parts.
  open_parts :
      (expected : Direction) (header body tag datagram : List ℕ)
      → IsLaidOut header body tag datagram
      → length body ≤ max_plaintext_bytes
      → open_datagram c expected datagram ≡ (
          if not (bit_and (from_be_bytes header) direction_mask == header_bit expected)
          then err wrong_direction
          else try (ok_or (c.decrypt (nonce header) body tag) authentication_failed) (λ plaintext.
            ok (record {
              sequence = bit_and (from_be_bytes header) max_sequence;
              plaintext = plaintext;
            })))
  unfolding open_datagram
  open_parts expected header body tag datagram l short =
      let long : ltb max_datagram_bytes (length datagram) ≡ false = ground (arith, l.whole) in
      let enough : ltb (length datagram) overhead_bytes ≡ false = ground (arith, l.whole) in
      rw (long, enough, l.head, l.middle, l.last) refl

  -- A sealed datagram fits the output buffer and the datagram limit, and the peer that expects its
  -- direction opens it to the same sequence number and plaintext; the end that expects the other
  -- direction refuses it as its own.
  pub seal-open_datagram :
      (d : Direction) (sequence : ℕ) (plaintext datagram : List ℕ) (output_len : ℕ)
      → seal c d sequence plaintext output_len ≡ ok datagram
      → (open_datagram c d datagram ≡ ok (record { sequence = sequence; plaintext = plaintext }))
        × (open_datagram c (opposite d) datagram ≡ err wrong_direction)
        × (length datagram ≤ output_len)
        × (length datagram ≤ max_datagram_bytes)
  seal-open_datagram d sequence plaintext datagram output_len e =
      let (body, tag, encrypted, whole, small, short, fits) =
        seal_ok d sequence plaintext datagram output_len e in
      let (same, tagged) =
        aead.keeps_length (nonce (header_of d sequence)) plaintext body tag encrypted in
      let l = laid_out (header_of d sequence) body tag (length-header_of d sequence) tagged in
      let opened = aead.opens (nonce (header_of d sequence)) plaintext body tag encrypted in
      let parts = λ (expected : Direction).
        ap (open_datagram c expected) whole
        ∙ open_parts expected (header_of d sequence) body tag
            ((header_of d sequence ++ body) ++ tag) l (omega (arith, same, short)) in
      (
        parts d
            ∙ ground (
              arith,
              header_direction d sequence small,
              header_sequence d sequence small,
              opened,
            ),
        parts (opposite d) ∙ turned d _ _ (header_direction d sequence small),
        omega (arith, ap length whole, l.whole, same, fits),
        omega (arith, ap length whole, l.whole, same, short),
      )
