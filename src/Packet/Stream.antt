-- ===== src/Packet/Stream.antt =====
-- Sequence numbers over a whole session: none is accepted twice, and none is sent twice.
use mosh_client_rs.Prelude.{
  ℕ, zero, suc, ◌≤◌, ◌<◌, ◌≡◌, refl, arith, false, none, some, List, [], ◌∷◌, Unit0, Result, ok,
  err, ◌⊎◌, max, dec_lt, Option-cases, inl, inr,
}
use mosh_client_rs.Packet.Window.{
  PacketError, sequence_exhausted, ReplayWindow, empty_window, accept, SendSequence, new_sequence,
  take_sequence, max_sequence,
}
use mosh_client_rs.Packet.Replay.{contains, greatest, judge, remember, Agrees, accept-judge}

-- The numbers that a window accepts from arrivals in any order, the last one first.
abbrev pub accepted : ReplayWindow → List ℕ → List ℕ → List ℕ
accepted w history [] = history
accepted w history (n ∷ ns) = accepted (accept n w).0 (remember (accept n w).1 n history) ns

abbrev pub judged : List ℕ → List ℕ → List ℕ
judged history [] = history
judged history (n ∷ ns) = judged (remember (judge history n) n history) ns

abbrev pub Distinct : List ℕ → Type 0
Distinct [] = Unit
Distinct (x ∷ xs) = (contains xs x ≡ false) × Distinct xs

pub empty-Agrees : Agrees empty_window []
empty-Agrees = record { same_highest = refl; same_bits = λ top k e s l. cc }

accepted-judged :
    (w : ReplayWindow) (history ns : List ℕ)
    → Agrees w history
    → accepted w history ns ≡ judged history ns
accepted-judged w history [] v = refl
accepted-judged w history (n ∷ ns) v =
    let (e, a) = accept-judge w history n v in
    rw e (accepted-judged (accept n w).0 (remember (judge history n) n history) ns a)

greatest-some : (x : ℕ) (xs : List ℕ) → (top : ℕ) × (greatest (x ∷ xs) ≡ some top)
greatest-some x xs = elim (Option-cases (greatest xs)) [
  | inl e ↦ (x, ground (arith, e))
  | inr (y, e) ↦ (max x y, ground (arith, e))
]

judge-fresh : (history : List ℕ) (n : ℕ) → judge history n ≡ ok tt → contains history n ≡ false
unfolding judge
judge-fresh [] n h = refl
judge-fresh (x ∷ xs) n h = let (top, e) = greatest-some x xs in ground (arith, e, h)

Distinct-remember :
    (history : List ℕ) (n : ℕ) → Distinct history → Distinct (remember (judge history n) n history)
Distinct-remember history n d = go (judge history n) refl
  where
    go : (r : Result PacketError Unit0) → judge history n ≡ r → Distinct (remember r n history)
    go (ok tt) e = (judge-fresh history n e, d)
    go (err x) e = d

judged-Distinct : (history ns : List ℕ) → Distinct history → Distinct (judged history ns)
judged-Distinct history [] d = d
judged-Distinct history (n ∷ ns) d =
    judged-Distinct (remember (judge history n) n history) ns (Distinct-remember history n d)

-- Whatever arrives, in whatever order and however often, a new window accepts exactly the numbers
-- that its promise names, and none of them twice.
pub accepted-Distinct :
    (arrivals : List ℕ)
    → (accepted empty_window [] arrivals ≡ judged [] arrivals)
      × Distinct (accepted empty_window [] arrivals)
accepted-Distinct arrivals =
    let e = accepted-judged empty_window [] arrivals empty-Agrees in
    (e, rw e (judged-Distinct [] arrivals tt))

-- The sender's counter after some draws.
abbrev pub drawn : ℕ → SendSequence
drawn zero = new_sequence
drawn (suc n) = (take_sequence (drawn n)).0

drawn-next : (n : ℕ) → n ≤ max_sequence → (drawn n).next ≡ some n
unfolding take_sequence
drawn-next zero h = refl
drawn-next (suc n) h = ground (arith, drawn-next n)

drawn-none : (n : ℕ) → max_sequence < n → (drawn n).next ≡ none
unfolding take_sequence
drawn-none zero h = absurd (omega arith)
drawn-none (suc n) h = elim (dec_lt max_sequence n) [
  | yes past ↦ ground (arith, drawn-none n past)
  | no last ↦ ground (arith, drawn-next n (omega arith))
]

-- The draws give 0, 1, 2 and so on up to the last 63-bit number; after that every draw fails.
pub take_sequence-drawn :
    (n : ℕ)
    → ((n ≤ max_sequence) × ((take_sequence (drawn n)).1 ≡ ok n))
      ⊎ ((max_sequence < n) × ((take_sequence (drawn n)).1 ≡ err sequence_exhausted))
unfolding take_sequence
take_sequence-drawn n = elim (dec_lt max_sequence n) [
  | yes past ↦ inr (past, ground (arith, drawn-none n past))
  | no in_range ↦ inl (omega arith, ground (arith, drawn-next n (omega arith)))
]
