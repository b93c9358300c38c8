-- ===== src/Session/Driver/Pieces.antt =====
-- The pieces that `send_transport_instruction` splits an instruction into.
use mosh_client_rs.Prelude.{
  ◌≡◌, refl, sym, ap, ◌<◌, ◌*◌, none, true, u64_max, ◌∙◌, arith, ℕ, zero, suc, ◌+◌, ◌-◌, ◌≤◌, List,
  [], ◌∷◌, ◌++◌, length, take, drop, All, div_ceil, length-drop, get_elem?, ◌==◌, some, length-take,
  take-append-drop,
}
use mosh_client_rs.Limits.{
  max_fragment_body_bytes, max_compressed_instruction_bytes, incomplete_instruction_lifetime_ms,
}
use mosh_client_rs.Fragment.Codec.{Fragment}
use mosh_client_rs.Fragment.Collected.{IsChunk}
use mosh_client_rs.Fragment.Delivered.{first_complete, arrives, Arrives, first_complete-joined}
use mosh_client_rs.Fragment.Reassembly.{FragmentReassembler}
use mosh_client_rs.Fragment.Assembly.{joined}
use mosh_client_rs.Timing.Datagram.{OutgoingTimestamps}
use mosh_client_rs.Session.Driver.Sending.{chunks, fragment_of}

-- A piece that a fragment can carry.
abbrev IsPiece : List ℕ → Type 0
IsPiece piece = (1 ≤ length piece) × (length piece ≤ max_fragment_body_bytes)

one_more :
    (n : ℕ)
    → 1 ≤ n
    → suc (div_ceil (n - max_fragment_body_bytes) max_fragment_body_bytes)
      ≡ div_ceil n max_fragment_body_bytes
one_more n h = omega arith

-- Fuel for each byte is enough: the bytes are split into pieces that a fragment can carry, which
-- joined in order are the bytes; and there are as many as the fragments count.
chunks-joined :
    (fuel : ℕ) (bytes : List ℕ)
    → length bytes ≤ fuel
    → (joined (chunks fuel bytes) ≡ bytes)
      × All IsPiece (chunks fuel bytes)
      × (length (chunks fuel bytes) ≡ div_ceil (length bytes) max_fragment_body_bytes)
unfolding chunks
chunks-joined zero [] h = (refl, tt, refl)
chunks-joined zero (b ∷ bytes) h = absurd (omega (arith, h))
chunks-joined (suc fuel) [] h = (refl, tt, refl)
chunks-joined (suc fuel) (b ∷ bytes) h =
    let shorter = length-drop max_fragment_body_bytes (b ∷ bytes) in
    let (whole, fits, count) =
      chunks-joined fuel (drop max_fragment_body_bytes (b ∷ bytes)) (omega (arith, shorter, h)) in
    (
      ap (◌++◌ (take max_fragment_body_bytes (b ∷ bytes))) whole
          ∙ take-append-drop max_fragment_body_bytes (b ∷ bytes),
      ((omega arith, omega (arith, length-take max_fragment_body_bytes (b ∷ bytes))), fits),
      ap suc count
          ∙ ap (λ (n : ℕ). suc (div_ceil n max_fragment_body_bytes)) shorter
          ∙ one_more (length (b ∷ bytes)) (omega arith),
    )

abbrev pub pieces : List ℕ → List (List ℕ)
pieces bytes = chunks (length bytes) bytes

-- Fragments that the driver makes of an instruction, with the times at which they arrive: the times do
-- not fall, and lie within the lifetime of an incomplete instruction.
abbrev pub Arriving :
    OutgoingTimestamps → (identifier : ℕ) → List ℕ → (started at : ℕ) → List (ℕ × Fragment) → Type 0
Arriving t identifier bytes started at [] = Unit
Arriving t identifier bytes started at ((now, f) ∷ rest) =
    (at ≤ now)
    × (now < started + incomplete_instruction_lifetime_ms)
    × ((body : List ℕ) × (get_elem? (pieces bytes) f.number ≡ some body)
        × (f
            ≡ fragment_of t identifier (div_ceil (length bytes) max_fragment_body_bytes) f.number
                body))
    × Arriving t identifier bytes started now rest

fragment_of-IsChunk :
    (t : OutgoingTimestamps) (identifier : ℕ) (bytes body : List ℕ) (f : Fragment)
    → get_elem? (pieces bytes) f.number ≡ some body
    → f ≡ fragment_of t identifier (div_ceil (length bytes) max_fragment_body_bytes) f.number body
    → IsChunk identifier (pieces bytes) f
fragment_of-IsChunk t identifier bytes body f at made =
    let count = (chunks-joined (length bytes) bytes (omega arith)).2 in
    record {
      of_instruction = ap (λ (g : Fragment). g.identifier) made;
      body_is = at ∙ ap (λ (g : Fragment). some g.body) (sym made);
      final_is_last =
          ap (λ (g : Fragment). g.is_final) made ∙ ap (λ (n : ℕ). f.number + 1 == n) (sym count);
    }

Arriving-Arrives :
    (t : OutgoingTimestamps) (identifier last started at : ℕ) (bytes : List ℕ)
    (arrivals : List (ℕ × Fragment))
    → Arriving t identifier bytes started at arrivals
    → Arrives identifier last started (pieces bytes) at arrivals
Arriving-Arrives t identifier last started at bytes [] a = tt
Arriving-Arrives t identifier last started at bytes ((now, f) ∷ rest) (le, lt, (body, e, made), a) =
    (
      le,
      lt,
      fragment_of-IsChunk t identifier bytes body f e made,
      Arriving-Arrives t identifier last started now bytes rest a,
    )

-- A peer that has nothing stored completes an instruction of the driver, as soon as every one of its
-- fragments came, in whatever order they come and however often: the first instruction completed is
-- exactly the bytes that the driver split. The bytes are within the limit of an instruction, the
-- fragments arrive within the lifetime of an incomplete one, and the clock is not at its end.
pub fragment_of-first_complete :
    (t : OutgoingTimestamps) (identifier started : ℕ) (bytes : List ℕ) (r : FragmentReassembler)
    (arrivals : List (ℕ × Fragment))
    → 1 ≤ length bytes
    → length bytes ≤ max_compressed_instruction_bytes
    → started + 2 * incomplete_instruction_lifetime_ms ≤ u64_max
    → r.incomplete ≡ none
    → r.last_observed_ms ≤ started
    → Arriving t identifier bytes started started arrivals
    → ((n : ℕ) → n < length (pieces bytes) → arrives n arrivals ≡ true)
    → first_complete arrivals r ≡ some bytes
fragment_of-first_complete t identifier started bytes r arrivals some_bytes small early idle
      observed a h =
    let (whole, fits, count) = chunks-joined (length bytes) bytes (omega arith) in
    let last = length (pieces bytes) - 1 in
    first_complete-joined identifier last started (pieces bytes) (omega (arith, count, some_bytes))
      (omega (arith, count, small)) (omega (arith, ap length whole, small)) early r arrivals idle
      observed (Arriving-Arrives t identifier last started started bytes arrivals a) h
    ∙ ap some whole
