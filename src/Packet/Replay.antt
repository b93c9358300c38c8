-- ===== src/Packet/Replay.antt =====
-- The replay window against the history of every accepted number.
use Prim.Native.Nat.{bit_and, bit_or}
use native.Mathlib.Nat.{one-le-pow}
use mosh_client_rs.Prelude.{
  ℕ, ◌+◌, ◌-◌, ◌*◌, ◌%◌, ◌^◌, ◌≤◌, ◌<◌, max, ◌≡◌, refl, sym, ap, subst, dec_lt, ◌∙◌, arith, Bool,
  true, false, not, Option, none, some, List, [], ◌∷◌, Unit0, Result, ok, err, leb, ◌==◌,
  if◌then◌else◌, any, bit_at, bit_at-bit_or, bit_at-pow, bit_at-shift, bit_at-mod, bit_and-pow,
  one_if, Bool-cases, Option-cases, inl, inr,
}
use mosh_client_rs.Packet.Window.{
  PacketError, too_old, replay, ReplayWindow, shift_seen, accept, accept_at, accept_old,
}

abbrev pub contains : List ℕ → ℕ → Bool
contains xs n = any (λ x. x == n) xs

abbrev max_with : ℕ → Option ℕ → Option ℕ
max_with x none = some x
max_with x (some y) = some (max x y)

-- The greatest number of a history.
abbrev pub greatest : List ℕ → Option ℕ
greatest [] = none
greatest (x ∷ xs) = max_with x (greatest xs)

-- What the window promises: a number is accepted exactly when it lies within 64 of the greatest
-- accepted one, or above it, and was not accepted before.
unfoldable pub judge : List ℕ → ℕ → Result PacketError Unit0
judge history sequence = elim (greatest history) [
  | none ↦ ok tt
  | some top ↦
      if leb (sequence + 64) top
      then err too_old
      else if contains history sequence
      then err replay
      else ok tt
]

abbrev pub remember : Result PacketError Unit0 → ℕ → List ℕ → List ℕ
remember (ok u) sequence history = sequence ∷ history
remember (err e) sequence history = history

-- The bits agree with the history, where they count.
pub record Agrees (w : ReplayWindow) (history : List ℕ) : Type 0 where
  pub same_highest : w.highest ≡ greatest history
  pub same_bits :
      (top k : ℕ)
      → w.highest ≡ some top
      → k < 64
      → k ≤ top
      → bit_at w.seen k ≡ one_if (contains history (top - k))

pub greatest-none : (xs : List ℕ) (n : ℕ) → greatest xs ≡ none → contains xs n ≡ false
greatest-none [] n g = refl
greatest-none (x ∷ xs) n g = elim (Option-cases (greatest xs)) [
  | inl e ↦ absurd (ground (arith, e))
  | inr (y, e) ↦ absurd (ground (arith, e))
]

contains_le : (xs : List ℕ) (top n : ℕ) → greatest xs ≡ some top → contains xs n ≡ true → n ≤ top
contains_le [] top n g c = absurd (ground arith)
contains_le (x ∷ xs) top n g c = elim (Option-cases (greatest xs)) [
  | inl e ↦ ground (arith, e, greatest-none xs n e)
  | inr (y, e) ↦ ground (arith, e, contains_le xs y n e)
]

bit_at-one : (k : ℕ) → bit_at 1 k ≡ one_if (0 == k)
bit_at-one k = bit_at-pow 0 k

bit_at-shift_seen :
    (seen shift k : ℕ)
    → k < 64
    → bit_at (shift_seen seen shift) k
      ≡ max
          (if leb 64 shift then 0 else if leb shift k then bit_at seen (k - shift) else 0)
          (one_if (0 == k))
unfolding shift_seen
bit_at-shift_seen seen shift k h = ground (
  arith,
  bit_at-one k,
  bit_at-bit_or k (seen * 2 ^ shift % 2 ^ 64) 1,
  bit_at-mod 64 k (seen * 2 ^ shift),
  bit_at-shift shift k seen,
)

-- The first number.
first-Agrees :
    (w : ReplayWindow) (history : List ℕ) (sequence : ℕ)
    → greatest history ≡ none
    → Agrees (record { highest = some sequence; seen = 1 }) (sequence ∷ history)
first-Agrees w history sequence g = record {
  same_highest = ground (arith, g);
  same_bits =
      λ top k e small le. ground (arith, e, bit_at-one k, greatest-none history (top - k) g);
}

newer_bits :
    (w : ReplayWindow) (history : List ℕ) (sequence highest k : ℕ)
    → Agrees w history
    → w.highest ≡ some highest
    → highest < sequence
    → k < 64
    → k ≤ sequence
    → bit_at (shift_seen w.seen (sequence - highest)) k
      ≡ one_if (contains (sequence ∷ history) (sequence - k))
newer_bits w history sequence highest k v h lt small le = elim (dec_lt k (sequence - highest)) [
  | no far ↦
      let place : sequence - k ≡ highest - (k - (sequence - highest)) = omega arith in
      ground (
        arith,
        bit_at-shift_seen w.seen (sequence - highest) k small,
        v.same_bits highest (k - (sequence - highest)) h (omega arith) (omega arith),
        ap (contains history) place,
      )
  | yes near ↦ elim (Bool-cases (contains history (sequence - k))) [
    | inl c ↦
        absurd
          (omega (arith, contains_le history highest (sequence - k) (sym v.same_highest ∙ h) c))
    | inr c ↦ ground (arith, c, bit_at-shift_seen w.seen (sequence - highest) k small)
  ]
]

-- A number above the highest.
newer-Agrees :
    (w : ReplayWindow) (history : List ℕ) (sequence highest : ℕ)
    → Agrees w history
    → w.highest ≡ some highest
    → highest < sequence
    → Agrees
        (record { highest = some sequence; seen = shift_seen w.seen (sequence - highest) })
        (sequence ∷ history)
newer-Agrees w history sequence highest v h lt =
    let g : greatest history ≡ some highest = sym v.same_highest ∙ h in
    record {
      same_highest = ground (arith, g);
      same_bits = λ top k e small le.
          let t : sequence ≡ top = ground (arith, e) in
          subst
            (λ n.
              bit_at (shift_seen w.seen (sequence - highest)) k
              ≡ one_if (contains (sequence ∷ history) (n - k)))
            t (newer_bits w history sequence highest k v h lt small (omega (arith, t)));
    }

-- A number at or below the highest, within the window.
older-Agrees :
    (w : ReplayWindow) (history : List ℕ) (sequence highest : ℕ)
    → Agrees w history
    → w.highest ≡ some highest
    → sequence ≤ highest
    → Agrees (record w { seen = bit_or w.seen (2 ^ (highest - sequence)) }) (sequence ∷ history)
older-Agrees w history sequence highest v h le =
    let g : greatest history ≡ some highest = sym v.same_highest ∙ h in
    record {
      same_highest = ground (arith, g, h);
      same_bits = λ top k e small below.
          let t : top ≡ highest = ground (arith, e, h) in
          ground (
            arith,
            t,
            bit_at-bit_or k w.seen (2 ^ (highest - sequence)),
            bit_at-pow (highest - sequence) k,
            v.same_bits top k e small below,
          );
    }

-- The test of the bit is the search in the history.
old_bit :
    (w : ReplayWindow) (history : List ℕ) (sequence highest : ℕ)
    → Agrees w history
    → w.highest ≡ some highest
    → sequence ≤ highest
    → highest < sequence + 64
    → not (bit_and w.seen (2 ^ (highest - sequence)) == 0) ≡ contains history sequence
old_bit w history sequence highest v h le near =
    let b = v.same_bits highest (highest - sequence) h (omega arith) (omega arith) in
    let place : highest - (highest - sequence) ≡ sequence = omega arith in
    let pos = one-le-pow (highest - sequence) 2 in
    elim (Bool-cases (contains history sequence)) [
      | inl c ↦
          ground
            (arith, c, b, ap (contains history) place, bit_and-pow (highest - sequence) w.seen, pos)
      | inr c ↦
          ground (arith, c, b, ap (contains history) place, bit_and-pow (highest - sequence) w.seen)
    ]

conclude :
    (w w' : ReplayWindow) (history : List ℕ) (sequence : ℕ) (j : Result PacketError Unit0)
    → accept sequence w ≡ (w', j)
    → judge history sequence ≡ j
    → Agrees w' (remember j sequence history)
    → ((accept sequence w).1 ≡ judge history sequence)
      × Agrees (accept sequence w).0 (remember (judge history sequence) sequence history)
conclude w w' history sequence j e f a = rw (e, f) (refl, a)

known-judge :
    (w : ReplayWindow) (history : List ℕ) (sequence highest : ℕ)
    → Agrees w history
    → w.highest ≡ some highest
    → sequence ≤ highest
    → ((accept sequence w).1 ≡ judge history sequence)
      × Agrees (accept sequence w).0 (remember (judge history sequence) sequence history)
unfolding accept accept_at accept_old judge
known-judge w history sequence highest v h le =
    let g : greatest history ≡ some highest = sym v.same_highest ∙ h in
    elim (dec_lt highest (sequence + 64)) [
      | no far ↦
          conclude w w history sequence (err too_old) (ground (arith, h)) (ground (arith, g)) v
      | yes near ↦
          let b = old_bit w history sequence highest v h le near in
          elim (Bool-cases (contains history sequence)) [
            | inl c ↦
                conclude w w history sequence (err replay) (ground (arith, h, b, c))
                  (ground (arith, g, c)) v
            | inr c ↦
                conclude w _ history sequence (ok tt) (ground (arith, h, b, c))
                  (ground (arith, g, c)) (older-Agrees w history sequence highest v h le)
          ]
    ]

-- A window that agrees with the numbers accepted so far answers as the history alone does: it accepts
-- a first number, refuses one that lies 64 or more under the greatest as too old, refuses one that was
-- accepted before as a replay, and accepts any other; and it agrees with the history that follows.
pub accept-judge :
    (w : ReplayWindow) (history : List ℕ) (sequence : ℕ)
    → Agrees w history
    → ((accept sequence w).1 ≡ judge history sequence)
      × Agrees (accept sequence w).0 (remember (judge history sequence) sequence history)
unfolding accept accept_at judge
accept-judge w history sequence v = elim (Option-cases w.highest) [
  | inl h ↦
      let g : greatest history ≡ none = sym v.same_highest ∙ h in
      conclude w _ history sequence (ok tt) (ground (arith, h)) (ground (arith, g))
        (first-Agrees w history sequence g)
  | inr (highest, h) ↦ elim (dec_lt highest sequence) [
    | no below ↦ known-judge w history sequence highest v h (omega arith)
    | yes above ↦
        let g : greatest history ≡ some highest = sym v.same_highest ∙ h in
        elim (Bool-cases (contains history sequence)) [
          | inl c ↦ absurd (omega (arith, contains_le history highest sequence g c))
          | inr c ↦
              conclude w _ history sequence (ok tt) (ground (arith, h)) (ground (arith, g, c))
                (newer-Agrees w history sequence highest v h above)
        ]
  ]
]
