-- ===== src/Fragment/RoundTrip.antt =====
-- A fragment that is encoded comes back.
use Prim.Native.Nat.{bit_and, bit_or}
use mosh_client_rs.Prelude.{
  ◌≡◌, ◌≢◌, refl, ap, ◌∙◌, ℕ, ◌+◌, ◌-◌, ◌*◌, ◌^◌, ◌≤◌, ◌<◌, arith, Bool, true, false, not, Option,
  none, some, List, ok, ltb, ◌==◌, if◌then◌else◌, length, drop, to_be_bytes, from_be_bytes,
  from_be_bytes-to_be_bytes, bit_and-flag, bit_and-field, bit_or-flag, bit_or_comm,
}
use mosh_client_rs.Limits.{max_fragment_body_bytes}
use mosh_client_rs.Fragment.Codec.{
  Fragment, encode, decode, layout, fragment_word, word_at, raw_reply, no_timestamp_reply,
  max_fragment_number, final_fragment_bit, header_bytes,
}

-- The machine types of the fields; a reply is never the marker for no reply.
pub record IsWire (f : Fragment) : Type 0 where
  pub timestamp_u16 : f.timestamp < 65536
  pub reply_u16 : raw_reply f.timestamp_reply < 65536
  pub reply_ne : (reply : ℕ) → f.timestamp_reply ≡ some reply → reply ≢ no_timestamp_reply
  pub identifier_u64 : f.identifier < 2 ^ 64

-- The fields stand where `decode` reads them.
record IsRead (f : Fragment) (bytes : List ℕ) : Type 0 where
  at_timestamp : word_at 0 2 bytes ≡ from_be_bytes (to_be_bytes 2 f.timestamp)
  at_reply : word_at 2 2 bytes ≡ from_be_bytes (to_be_bytes 2 (raw_reply f.timestamp_reply))
  at_identifier : word_at 4 8 bytes ≡ from_be_bytes (to_be_bytes 8 f.identifier)
  at_word : word_at 12 2 bytes ≡ from_be_bytes (to_be_bytes 2 (fragment_word f.number f.is_final))
  at_body : drop 14 bytes ≡ f.body
  whole : length bytes ≡ 14 + length f.body

layout-IsRead : (f : Fragment) → IsRead f (layout f)
unfolding layout
layout-IsRead f = record {
  at_timestamp = refl;
  at_reply = refl;
  at_identifier = refl;
  at_word = refl;
  at_body = refl;
  whole = omega arith;
}

u16 : (x : ℕ) → x < 65536 → from_be_bytes (to_be_bytes 2 x) ≡ x
u16 x h = from_be_bytes-to_be_bytes 2 x h

flag : Bool → ℕ
flag true = 1
flag false = 0

fragment_word-flag :
    (n : ℕ) (final : Bool)
    → n ≤ max_fragment_number
    → fragment_word n final ≡ bit_or (flag final * 2 ^ 15) n
unfolding fragment_word flag
fragment_word-flag n true h = bit_or_comm n n (2 ^ 15) (omega arith)
fragment_word-flag n false h = bit_or_comm n n 0 (omega arith)

fragment_word-lt : (n : ℕ) (final : Bool) → n ≤ max_fragment_number → fragment_word n final < 65536
unfolding flag
fragment_word-lt n true h =
    omega (arith, fragment_word-flag n true h, bit_or-flag 15 1 n (omega arith))
fragment_word-lt n false h =
    omega (arith, fragment_word-flag n false h, bit_or-flag 15 0 n (omega arith))

fragment_word-number :
    (n : ℕ) (final : Bool)
    → n ≤ max_fragment_number
    → bit_and (fragment_word n final) max_fragment_number ≡ n
fragment_word-number n final h =
    ap (λ (t : ℕ). bit_and t (2 ^ 15 - 1)) (fragment_word-flag n final h)
    ∙ bit_and-field 15 (flag final) n (omega arith)

fragment_word-final :
    (n : ℕ) (final : Bool)
    → n ≤ max_fragment_number
    → not (bit_and (fragment_word n final) final_fragment_bit == 0) ≡ final
unfolding flag
fragment_word-final n true h =
    let e : bit_and (fragment_word n true) (2 ^ 15) ≡ 1 * 2 ^ 15 =
      ap (λ (t : ℕ). bit_and t (2 ^ 15)) (fragment_word-flag n true h)
      ∙ bit_and-flag 15 1 n (omega arith) (omega arith) in
    ground (arith, e)
fragment_word-final n false h =
    let e : bit_and (fragment_word n false) (2 ^ 15) ≡ 0 * 2 ^ 15 =
      ap (λ (t : ℕ). bit_and t (2 ^ 15)) (fragment_word-flag n false h)
      ∙ bit_and-flag 15 0 n (omega arith) (omega arith) in
    ground (arith, e)

reply_back :
    (r : Option ℕ)
    → ((reply : ℕ) → r ≡ some reply → reply ≢ no_timestamp_reply)
    → (if not (raw_reply r == no_timestamp_reply) then some (raw_reply r) else none) ≡ r
reply_back none h = refl
reply_back (some x) h = ground (arith, h x refl)

decode_read :
    (f : Fragment) (bytes : List ℕ)
    → IsWire f
    → f.number ≤ max_fragment_number
    → length f.body ≤ max_fragment_body_bytes
    → IsRead f bytes
    → decode bytes ≡ ok f
unfolding decode
decode_read f bytes w number short r =
    let t = r.at_timestamp ∙ u16 f.timestamp w.timestamp_u16 in
    let p = r.at_reply ∙ u16 (raw_reply f.timestamp_reply) w.reply_u16 in
    let i = r.at_identifier ∙ from_be_bytes-to_be_bytes 8 f.identifier w.identifier_u64 in
    let d =
      r.at_word
      ∙ u16 (fragment_word f.number f.is_final) (fragment_word-lt f.number f.is_final number) in
    let long : ltb (length bytes) header_bytes ≡ false = ground (arith, r.whole) in
    let small : ltb max_fragment_body_bytes (length f.body) ≡ false = ground arith in
    rw
      (
        long,
        r.at_body,
        small,
        t,
        p,
        i,
        d,
        reply_back f.timestamp_reply w.reply_ne,
        fragment_word-number f.number f.is_final number,
        fragment_word-final f.number f.is_final number,
      )
      refl

-- A fragment whose fields fit their machine types, whose timestamp reply is absent or other than the
-- 65,535 that stands for an absent one, and that `encode` accepts, is decoded to itself; the encoding
-- fits the output buffer.
pub decode-encode :
    (f : Fragment) (output_len : ℕ) (bytes : List ℕ)
    → IsWire f
    → encode f output_len ≡ ok bytes
    → (decode bytes ≡ ok f)
      × (length bytes ≡ header_bytes + length f.body)
      × (length bytes ≤ output_len)
unfolding encode
decode-encode f output_len bytes w e =
    let r = layout-IsRead f in
    let laid : bytes ≡ layout f = ground (arith, e) in
    let number : f.number ≤ max_fragment_number = ground (arith, e) in
    let short : length f.body ≤ max_fragment_body_bytes = ground (arith, e) in
    let fits : header_bytes + length f.body ≤ output_len = ground (arith, e) in
    rw laid (decode_read f (layout f) w number short r, r.whole, omega (arith, r.whole, fits))
