-- ===== src/Session/Log.antt =====
-- The client history against the log of every operation ever appended: what it drops is never needed.
use mosh_client_rs.Prelude.{
  ◌≡◌, refl, sym, ap, ◌∙◌, arith, ℕ, zero, suc, ◌+◌, ◌-◌, ◌≤◌, ◌<◌, false, some, List, [], ◌∷◌,
  ◌++◌, Result, ok, err, Unit0, checked_sub, checked_add, ◌⊎◌, Option-cases, Result-cases,
  Bool-cases, length, length-append, take, drop, retain, leb, ltb, ◌==◌, length-drop, inl, inr,
}
use mosh_client_rs.Limits.{max_client_operations_after_ack}
use mosh_client_rs.Instruction.Message.{ClientOperation, too_many_client_operations}
use mosh_client_rs.Instruction.Encoding.{WireFormat, encode_client_difference}
use mosh_client_rs.Session.History.{
  ClientHistory, HistoryError, instruction_error, operation_index_exhausted, Checkpoints,
  new_history, lookup, insert, checkpoint, acknowledge, append, difference, from_instruction,
}

-- Checkpoints ascend in their states and in their places, up to `hi`.
abbrev pub Points : (lo lv hi : ℕ) → Checkpoints → Type 0
Points lo lv hi [] = Unit
Points lo lv hi ((k, v) ∷ m) = (lo ≤ k) × (lv ≤ v) × (v ≤ hi) × Points (suc k) v hi m

abbrev pub KeysBelow : ℕ → Checkpoints → Type 0
KeysBelow n [] = Unit
KeysBelow n ((k, v) ∷ m) = (k < n) × KeysBelow n m

Points-lookup :
    (lo lv hi s v : ℕ) (m : Checkpoints)
    → Points lo lv hi m
    → lookup s m ≡ some v
    → (lo ≤ s) × (lv ≤ v) × (v ≤ hi)
Points-lookup lo lv hi s v [] p e = absurd (ground arith)
Points-lookup lo lv hi s v ((k, u) ∷ m) p e = ground (arith, Points-lookup (suc k) u hi s v m p.3)

Points-weaken :
    (lo lo' lv lv' hi : ℕ) (m : Checkpoints)
    → lo' ≤ lo
    → lv' ≤ lv
    → Points lo lv hi m
    → Points lo' lv' hi m
Points-weaken lo lo' lv lv' hi [] p q r = tt
Points-weaken lo lo' lv lv' hi ((k, u) ∷ m) p q r = (omega arith, omega arith, r.2, r.3)

retain_all :
    (lo lv hi s : ℕ) (m : Checkpoints)
    → s ≤ lo
    → Points lo lv hi m
    → Points lo lv hi (retain (λ c. leb s c.0) m)
retain_all lo lv hi s [] h p = tt
retain_all lo lv hi s ((k, u) ∷ m) h p = ground (arith, retain_all (suc k) u hi s m)

Points-retain :
    (lo lv hi s a : ℕ) (m : Checkpoints)
    → Points lo lv hi m
    → lookup s m ≡ some a
    → Points s a hi (retain (λ c. leb s c.0) m)
Points-retain lo lv hi s a [] p e = tt
Points-retain lo lv hi s a ((k, u) ∷ m) p e = ground (
  arith,
  Points-retain (suc k) u hi s a m p.3,
  retain_all (suc k) u hi s m,
  Points-lookup (suc k) u hi s a m p.3,
)

Points-insert :
    (lo lv hi hi' s : ℕ) (m : Checkpoints)
    → Points lo lv hi m
    → KeysBelow s m
    → hi ≤ hi'
    → lv ≤ hi'
    → lo ≤ s
    → Points lo lv hi' (insert s hi' m)
Points-insert lo lv hi hi' s [] p b h l q = (q, l, omega arith, tt)
Points-insert lo lv hi hi' s ((k, u) ∷ m) p b h l q =
    ground (arith, Points-insert (suc k) u hi hi' s m p.3 b.1 h)

-- The history is the log from its offset on.
pub record IsLog (h : ClientHistory) (log : List ClientOperation) : Type 0 where
  pub operations_eq : h.operations ≡ drop h.operation_offset log
  pub offset_le : h.operation_offset ≤ length log
  pub next_eq : h.next_operation ≡ length log
  pub points : Points 0 h.operation_offset (length log) h.checkpoints

pub new_history-IsLog : IsLog new_history []
new_history-IsLog = record {
  operations_eq = refl;
  offset_le = omega arith;
  next_eq = refl;
  points = omega arith;
}

drop_snoc :
    (n : ℕ) (xs : List ClientOperation) (x : ClientOperation)
    → n ≤ length xs
    → drop n (xs ++ x ∷ []) ≡ drop n xs ++ x ∷ []
drop_snoc zero xs x h = refl
drop_snoc (suc n) [] x h = absurd (omega arith)
drop_snoc (suc n) (y ∷ xs) x h = drop_snoc n xs x (omega arith)

drop-drop :
    (m n : ℕ) (xs : List ClientOperation)
    → m ≤ length xs
    → m ≤ n
    → drop (n - m) (drop m xs) ≡ drop n xs
drop-drop zero n xs h le = ap (λ (t : ℕ). drop t xs) (omega arith)
drop-drop (suc m) zero xs h le = absurd (omega arith)
drop-drop (suc m) (suc n) [] h le = absurd (omega arith)
drop-drop (suc m) (suc n) (x ∷ xs) h le =
    let e : suc n - suc m ≡ n - m = omega arith in
    rw e (drop-drop m n xs (omega arith) (omega arith))

-- A checkpoint of a new state keeps the history a suffix of the same log, and the checkpoints in
-- order.
pub checkpoint-IsLog :
    (h : ClientHistory) (log : List ClientOperation) (state : ℕ)
    → IsLog h log
    → KeysBelow state h.checkpoints
    → IsLog (checkpoint state h) log
unfolding checkpoint
checkpoint-IsLog h log state i k = record {
  operations_eq = i.operations_eq;
  offset_le = i.offset_le;
  next_eq = i.next_eq;
  points = rw i.next_eq (
      Points-insert 0 h.operation_offset (length log) (length log) state h.checkpoints i.points k
        (omega arith) i.offset_le (omega arith));
}

length-operations :
    (h : ClientHistory) (log : List ClientOperation)
    → IsLog h log
    → length h.operations ≡ length log - h.operation_offset
length-operations h log i = ap length i.operations_eq ∙ length-drop h.operation_offset log

-- An acknowledgement of a checkpoint succeeds; what it drops is the part of the log before that
-- checkpoint, and the history stands for the same log.
pub acknowledge-IsLog :
    (h : ClientHistory) (log : List ClientOperation) (state a : ℕ)
    → IsLog h log
    → lookup state h.checkpoints ≡ some a
    → ((acknowledge state h).1 ≡ ok tt) × IsLog (acknowledge state h).0 log
unfolding acknowledge
acknowledge-IsLog h log state a i e =
    let q = Points-lookup 0 h.operation_offset (length log) state a h.checkpoints i.points e in
    let low : checked_sub a h.operation_offset ≡ some (a - h.operation_offset) = ground arith in
    let inside : ltb (length h.operations) (a - h.operation_offset) ≡ false =
      ground (arith, length-operations h log i, q.2) in
    let left : (acknowledge state h) ≡ (
      record h {
        operations = drop (a - h.operation_offset) h.operations;
        operation_offset = a;
        checkpoints = retain (λ c. leb state c.0) h.checkpoints;
      },
      ok tt,
    ) =
      ground (arith, e, low, inside) in
    (
      ap (λ (x : ClientHistory × Result HistoryError Unit0). x.1) left,
      rw left (record {
        operations_eq =
            ap (drop (a - h.operation_offset)) i.operations_eq
            ∙ drop-drop h.operation_offset a log i.offset_le q.1;
        offset_le = q.2;
        next_eq = i.next_eq;
        points =
            Points-weaken state 0 a a (length log) (retain (λ c. leb state c.0) h.checkpoints)
              (omega arith) (omega arith)
              (Points-retain 0 h.operation_offset (length log) state a h.checkpoints i.points e);
      }),
    )

Points-raise :
    (lo lv hi hi' : ℕ) (m : Checkpoints) → hi ≤ hi' → Points lo lv hi m → Points lo lv hi' m
Points-raise lo lv hi hi' [] h p = tt
Points-raise lo lv hi hi' ((k, u) ∷ m) h p =
    (p.0, p.1, omega (arith, p.2), Points-raise (suc k) u hi hi' m h p.3)

abbrev appended : ClientHistory → ClientOperation → ClientHistory
appended h operation = record h {
  operations = h.operations ++ operation ∷ [];
  next_operation = h.next_operation + 1;
}

appended-IsLog :
    (h : ClientHistory) (log : List ClientOperation) (operation : ClientOperation)
    → IsLog h log
    → IsLog (appended h operation) (log ++ operation ∷ [])
appended-IsLog h log operation i =
    let n = length-append log (operation ∷ []) in
    record {
      operations_eq =
          ap (λ (x : List ClientOperation). x ++ operation ∷ []) i.operations_eq
          ∙ sym (drop_snoc h.operation_offset log operation i.offset_le);
      offset_le = omega (arith, i.offset_le, n);
      next_eq = omega (arith, i.next_eq, n);
      points =
          Points-raise 0 h.operation_offset (length log) (length (log ++ operation ∷ []))
            h.checkpoints (omega (arith, n)) i.points;
    }

module _ (w : WireFormat) where
  append-cases :
      (h : ClientHistory) (operation : ClientOperation)
      → (append w operation h ≡ (appended h operation, ok tt))
        ⊎ ((e : HistoryError) × (append w operation h ≡ (h, err e)))
  unfolding append
  append-cases h operation =
      elim (Bool-cases (length h.operations == max_client_operations_after_ack)) [
        | inl full ↦ inr (instruction_error too_many_client_operations, ground (arith, full))
        | inr room ↦ elim (Option-cases (checked_add h.next_operation 1)) [
          | inl n ↦ inr (operation_index_exhausted, ground (arith, room, n))
          | inr (next, n) ↦
              elim (Result-cases
                (from_instruction (encode_client_difference w (h.operations ++ operation ∷ [])))) [
                  | inl (bytes, x) ↦ inl (ground (arith, room, n, x))
                  | inr (e, x) ↦ inr (e, ground (arith, room, n, x))
                ]
        ]
      ]

  -- An operation that is taken is the next of the log; one that is refused changes nothing.
  pub append-IsLog :
      (h : ClientHistory) (log : List ClientOperation) (operation : ClientOperation)
      → IsLog h log
      → (((append w operation h).1 ≡ ok tt)
          × IsLog (append w operation h).0 (log ++ operation ∷ []))
        ⊎ ((e : HistoryError) × (append w operation h ≡ (h, err e)))
  append-IsLog h log operation i = elim (append-cases h operation) [
    | inl done ↦ inl (
      ap (λ (x : ClientHistory × Result HistoryError Unit0). x.1) done,
      rw done (appended-IsLog h log operation i),
    )
    | inr (e, failed) ↦ inr (e, failed)
  ]

  -- The difference of two checkpoints is the encoding of exactly the operations that the log has
  -- between them, whatever was dropped before.
  pub difference-log :
      (h : ClientHistory) (log : List ClientOperation) (base target b t : ℕ)
      → IsLog h log
      → lookup base h.checkpoints ≡ some b
      → lookup target h.checkpoints ≡ some t
      → b ≤ t
      → difference w h base target
        ≡ from_instruction (encode_client_difference w (take (t - b) (drop b log)))
  unfolding difference
  difference-log h log base target b t i eb et le =
      let pb = Points-lookup 0 h.operation_offset (length log) base b h.checkpoints i.points eb in
      let pt = Points-lookup 0 h.operation_offset (length log) target t h.checkpoints i.points et in
      let n = length-operations h log i in
      let same : drop (b - h.operation_offset) h.operations ≡ drop b log =
        ap (drop (b - h.operation_offset)) i.operations_eq
        ∙ drop-drop h.operation_offset b log i.offset_le pb.1 in
      let gap : (t - h.operation_offset) - (b - h.operation_offset) ≡ t - b = omega arith in
      ground (arith, eb, et, same, gap, n)
