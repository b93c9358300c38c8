-- ===== src/Fragment/Reassembly.antt =====
-- fragment.rs: `IncompleteInstruction` and `FragmentReassembler`. A `BTreeMap` is an association list
-- in the order of its keys.
use mosh_client_rs.Prelude.{
  bytes_eq, ℕ, zero, suc, ◌+◌, Bool, true, false, not, ◌&&◌, ◌||◌, Option, none, some, List, [],
  ◌∷◌, ◌++◌, Unit0, M, Result, ok, err, ok_or, try, ltb, leb, ◌==◌, if◌then◌else◌, length,
  checked_add, get, lift, modify, pure, reject_if, ◌>>=◌, ◌>>◌,
}
use mosh_client_rs.Limits.{
  incomplete_instruction_lifetime_ms, max_compressed_instruction_bytes,
  max_fragments_per_instruction,
}
use mosh_client_rs.Fragment.Codec.{Fragment}

pub data ReassemblyError : Type 0 where
  fragment_number_out_of_range : ReassemblyError
  conflicting_fragment : ReassemblyError
  instruction_too_large : ReassemblyError
  too_many_incomplete_instructions : ReassemblyError
  time_moved_backwards : ReassemblyError
  timer_exhausted : ReassemblyError

pub data ReassemblyOutcome : Type 0 where
  pending duplicate : ReassemblyOutcome
  complete : List ℕ → ReassemblyOutcome

pub record StoredFragment : Type 0 where
  pub body : List ℕ
  pub is_final : Bool

abbrev pub FragmentMap : Type 0
FragmentMap = List (ℕ × StoredFragment)

pub record IncompleteInstruction : Type 0 where
  pub identifier : ℕ
  pub created_at_ms : ℕ
  pub stored_bytes : ℕ
  pub final_number : Option ℕ
  pub fragments : FragmentMap

abbrev pub new_instruction : (identifier created_at_ms : ℕ) → IncompleteInstruction
new_instruction identifier created_at_ms = record {
  identifier = identifier;
  created_at_ms = created_at_ms;
  stored_bytes = 0;
  final_number = none;
  fragments = [];
}

pub data InsertKind : Type 0 where
  new_kind duplicate_kind : InsertKind

abbrev pub bool_eq : Bool → Bool → Bool
bool_eq true b = b
bool_eq false b = not b

abbrev pub lookup : ℕ → FragmentMap → Option StoredFragment
lookup n [] = none
lookup n ((k, s) ∷ m) = if k == n then some s else lookup n m

-- Does the last key lie above the number?
abbrev pub last_key_above : ℕ → FragmentMap → Bool
last_key_above n [] = false
last_key_above n ((k, s) ∷ []) = ltb n k
last_key_above n (e ∷ (k, s) ∷ m) = last_key_above n ((k, s) ∷ m)

abbrev pub is_some : Option ℕ → Bool
is_some none = false
is_some (some x) = true

abbrev pub some_below : Option ℕ → ℕ → Bool
some_below none n = false
some_below (some final) n = ltb final n

-- `classify` for a number that is not stored.
unfoldable pub classify_new : IncompleteInstruction → Fragment → Result ReassemblyError InsertKind
classify_new i f =
    if some_below i.final_number f.number
      || (f.is_final && (is_some i.final_number || last_key_above f.number i.fragments))
    then err conflicting_fragment
    else ok new_kind

unfoldable pub classify_stored : StoredFragment → Fragment → Result ReassemblyError InsertKind
classify_stored existing f =
    if bytes_eq existing.body f.body && bool_eq existing.is_final f.is_final
    then ok duplicate_kind
    else err conflicting_fragment

unfoldable pub classify : IncompleteInstruction → Fragment → Result ReassemblyError InsertKind
classify i f = elim (lookup f.number i.fragments) [
  | some existing ↦ classify_stored existing f
  | none ↦ classify_new i f
]

-- `BTreeMap::insert`.
abbrev pub insert_fragment : ℕ → StoredFragment → FragmentMap → FragmentMap
insert_fragment n s [] = (n, s) ∷ []
insert_fragment n s ((k, t) ∷ m) =
    if ltb n k
    then (n, s) ∷ (k, t) ∷ m
    else if n == k
    then (n, s) ∷ m
    else (k, t) ∷ insert_fragment n s m

unfoldable pub insert : IncompleteInstruction → Fragment → IncompleteInstruction
insert i f = record i {
  final_number = if f.is_final then some f.number else i.final_number;
  stored_bytes = i.stored_bytes + length f.body;
  fragments =
      insert_fragment f.number (record { body = f.body; is_final = f.is_final }) i.fragments;
}

-- Are the keys `next`, `next + 1` and so on, as many as `count`?
abbrev pub keys_are : (next count : ℕ) → FragmentMap → Bool
keys_are next zero [] = true
keys_are next zero (e ∷ m) = false
keys_are next (suc count) [] = false
keys_are next (suc count) ((k, s) ∷ m) = if k == next then keys_are (suc next) count m else false

unfoldable pub is_complete : IncompleteInstruction → Bool
is_complete i = elim i.final_number [
  | none ↦ false
  | some final ↦ length i.fragments == final + 1 && keys_are 0 (suc final) i.fragments
]

abbrev pub bodies : FragmentMap → List ℕ
bodies [] = []
bodies ((k, s) ∷ m) = s.body ++ bodies m

unfoldable pub assemble : IncompleteInstruction → List ℕ
assemble i = bodies i.fragments

pub record FragmentReassembler : Type 0 where
  pub incomplete : Option IncompleteInstruction
  pub last_observed_ms : ℕ

abbrev pub new_reassembler : ℕ → FragmentReassembler
new_reassembler started_at_ms = record { incomplete = none; last_observed_ms = started_at_ms }

unfoldable pub observe_time : ℕ → M FragmentReassembler ReassemblyError Unit0
observe_time now = do
  r ← get
  reject_if (ltb now r.last_observed_ms) time_moved_backwards
  modify (λ s. record s { last_observed_ms = now })

-- Has the deadline of the incomplete instruction passed?
unfoldable pub expired : ℕ → Option IncompleteInstruction → Result ReassemblyError Bool
expired now none = ok false
expired now (some i) =
    try (ok_or (checked_add i.created_at_ms incomplete_instruction_lifetime_ms) timer_exhausted)
      (λ deadline. ok (leb deadline now))

unfoldable pub expire_due : ℕ → M FragmentReassembler ReassemblyError ℕ
expire_due now = do
  r ← get
  over ← lift (expired now r.incomplete)
  modify (λ s. if over then record s { incomplete = none } else s)
  pure (if over then 1 else 0)

unfoldable pub expire : ℕ → M FragmentReassembler ReassemblyError ℕ
expire now = do observe_time now; expire_due now

abbrev count : Option IncompleteInstruction → ℕ
count none = 0
count (some i) = 1

unfoldable pub clear : FragmentReassembler → FragmentReassembler × ℕ
clear r = (record r { incomplete = none }, count r.incomplete)

-- `push` for a fragment of no stored instruction.
unfoldable pub push_other : ℕ → Fragment → M FragmentReassembler ReassemblyError ReassemblyOutcome
push_other now f r =
    if f.number == 0 && f.is_final
    then (if leb (length f.body) max_compressed_instruction_bytes
        then (r, ok (complete f.body))
        else (r, err instruction_too_large))
    else elim r.incomplete [
      | some i ↦ (r, err too_many_incomplete_instructions)
      | none ↦
          if ltb max_compressed_instruction_bytes (length f.body)
          then (r, err instruction_too_large)
          else (
            record r { incomplete = some (insert (new_instruction f.identifier now) f) },
            ok pending,
          )
    ]

-- `push` for a new fragment of the stored instruction.
unfoldable pub push_new :
    IncompleteInstruction → Fragment → M FragmentReassembler ReassemblyError ReassemblyOutcome
push_new i f r = elim (checked_add i.stored_bytes (length f.body)) [
  | none ↦ (r, err instruction_too_large)
  | some total ↦
      if ltb max_compressed_instruction_bytes total
      then (r, err instruction_too_large)
      else if is_complete (insert i f)
      then (record r { incomplete = none }, ok (complete (assemble (insert i f))))
      else (record r { incomplete = some (insert i f) }, ok pending)
]

-- `push` for a fragment of the stored instruction: a conflict drops the instruction.
unfoldable pub push_matching :
    IncompleteInstruction → Fragment → M FragmentReassembler ReassemblyError ReassemblyOutcome
push_matching i f r = elim (classify i f) [
  | err e ↦ (record r { incomplete = none }, err e)
  | ok duplicate_kind ↦ (r, ok duplicate)
  | ok new_kind ↦ push_new i f r
]

unfoldable pub push_at :
    Option IncompleteInstruction
    → ℕ
    → Fragment
    → M FragmentReassembler ReassemblyError ReassemblyOutcome
push_at none now f = push_other now f
push_at (some i) now f =
    if i.identifier == f.identifier then push_matching i f else push_other now f

unfoldable pub push : ℕ → Fragment → M FragmentReassembler ReassemblyError ReassemblyOutcome
push now f = do
  observe_time now
  _ ← expire_due now
  reject_if (leb max_fragments_per_instruction f.number) fragment_number_out_of_range
  r ← get
  push_at r.incomplete now f
