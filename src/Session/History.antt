-- ===== src/Session/History.antt =====
-- session/client_history.rs: the operations since the last acknowledgement, with the place of each
-- state in them. The checkpoint map is an association list in the order of its keys; the operations
-- are the deque's, front first. `usize` is 64 bits wide.
use mosh_client_rs.Prelude.{
  ℕ, ◌-◌, Option, none, some, List, [], ◌∷◌, ◌++◌, Unit0, M, Result, ok, err, ok_or, try, ltb, leb,
  ◌==◌, if◌then◌else◌, length, take, drop, retain, checked_add, checked_sub, get, lift, modify,
  reject_if, ◌>>=◌, ◌>>◌,
}
use mosh_client_rs.Limits.{max_client_operations_after_ack}
use mosh_client_rs.Instruction.Message.{
  ClientOperation, InstructionError, too_many_client_operations,
}
use mosh_client_rs.Instruction.Encoding.{WireFormat, encode_client_difference}

-- The errors of the driver that the history raises.
pub data HistoryError : Type 0 where
  instruction_error : InstructionError → HistoryError
  operation_index_exhausted missing_client_state : HistoryError
  -- A `drain` past the end.
  drain_panicked : HistoryError

abbrev pub Checkpoints : Type 0
Checkpoints = List (ℕ × ℕ)

pub record ClientHistory : Type 0 where
  pub operation_offset : ℕ
  pub next_operation : ℕ
  pub operations : List ClientOperation
  pub checkpoints : Checkpoints

abbrev pub new_history : ClientHistory
new_history = record {
  operation_offset = 0;
  next_operation = 0;
  operations = [];
  checkpoints = (0, 0) ∷ [];
}

abbrev pub lookup : ℕ → Checkpoints → Option ℕ
lookup n [] = none
lookup n ((k, v) ∷ m) = if k == n then some v else lookup n m

-- `BTreeMap::insert`.
abbrev pub insert : ℕ → ℕ → Checkpoints → Checkpoints
insert n v [] = (n, v) ∷ []
insert n v ((k, u) ∷ m) =
    if ltb n k then (n, v) ∷ (k, u) ∷ m else if n == k then (n, v) ∷ m else (k, u) ∷ insert n v m

abbrev pub remove : ℕ → Checkpoints → Checkpoints
remove n [] = []
remove n ((k, u) ∷ m) = if n == k then m else (k, u) ∷ remove n m

-- `map_err(DriverError::from)`.
abbrev pub from_instruction {ℓ} : {A : Type ℓ} → Result InstructionError A → Result HistoryError A
from_instruction (ok a) = ok a
from_instruction (err e) = err (instruction_error e)

unfoldable pub checkpoint : ℕ → ClientHistory → ClientHistory
checkpoint state h = record h { checkpoints = insert state h.next_operation h.checkpoints }

unfoldable pub remove_checkpoint : ℕ → ClientHistory → ClientHistory
remove_checkpoint state h = record h { checkpoints = remove state h.checkpoints }

-- The place in the deque of the operations that follow a state.
unfoldable pub index_of : ClientHistory → ℕ → Result HistoryError ℕ
index_of h state =
    try (ok_or (lookup state h.checkpoints) missing_client_state)
      (λ operation. ok_or (checked_sub operation h.operation_offset) missing_client_state)

-- `operations.get(start..end)`.
unfoldable pub get_range : (start end : ℕ) → List ClientOperation → Option (List ClientOperation)
get_range start end os =
    if leb start end
    then (if leb end (length os) then some (take (end - start) (drop start os)) else none)
    else none

unfoldable pub acknowledge : ℕ → M ClientHistory HistoryError Unit0
acknowledge state = do
  h ← get
  acknowledged ← lift (ok_or (lookup state h.checkpoints) missing_client_state)
  discard ← lift (ok_or (checked_sub acknowledged h.operation_offset) missing_client_state)
  reject_if (ltb (length h.operations) discard) drain_panicked
  modify (λ g. record g {
    operations = drop discard g.operations;
    operation_offset = acknowledged;
    checkpoints = retain (λ c. leb state c.0) g.checkpoints;
  })

module _ (w : WireFormat) where
  -- The operation is pushed, and popped again where the whole does not encode.
  unfoldable pub append : ClientOperation → M ClientHistory HistoryError Unit0
  append operation = do
    h ← get
    reject_if (length h.operations == max_client_operations_after_ack)
        (instruction_error too_many_client_operations)
    next ← lift (ok_or (checked_add h.next_operation 1) operation_index_exhausted)
    _ ← lift (from_instruction (encode_client_difference w (h.operations ++ operation ∷ [])))
    modify (λ g. record g { operations = g.operations ++ operation ∷ []; next_operation = next })

  unfoldable pub difference : ClientHistory → (base target : ℕ) → Result HistoryError (List ℕ)
  unfolding index_of get_range
  difference h base target = try (ok_or (lookup base h.checkpoints) missing_client_state) λ _.
      try (ok_or (lookup target h.checkpoints) missing_client_state) λ _.
        try (index_of h base) λ start. try (index_of h target) λ end.
          try (ok_or (get_range start end h.operations) missing_client_state)
            (λ range. from_instruction (encode_client_difference w range))
