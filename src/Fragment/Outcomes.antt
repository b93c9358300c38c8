-- ===== src/Fragment/Outcomes.antt =====
-- The answers of a push and the states that they leave, case by case.
use mosh_client_rs.Prelude.{
  ◌≡◌, refl, arith, ℕ, true, ◌&&◌, none, some, ok, err, length, ltb, leb, ◌==◌, Bool-cases,
  Option-cases, Result-cases, inl, inr, checked_add, ◌⊎◌,
}
use mosh_client_rs.Limits.{max_compressed_instruction_bytes, max_fragments_per_instruction}
use mosh_client_rs.Fragment.Codec.{Fragment}
use mosh_client_rs.Fragment.Reassembly.{
  ReassemblyError, instruction_too_large, too_many_incomplete_instructions, time_moved_backwards,
  fragment_number_out_of_range, pending, duplicate, complete, IncompleteInstruction, InsertKind,
  new_kind, duplicate_kind, FragmentReassembler, new_instruction, insert, is_complete, assemble,
  classify, push_new, push_matching, push_other, push_at, push, expired, expire_due, observe_time,
}

pub push_new-cases :
    (i : IncompleteInstruction) (f : Fragment) (r : FragmentReassembler)
    → (push_new i f r ≡ (r, err instruction_too_large))
      ⊎ ((is_complete (insert i f) ≡ true)
          × (push_new i f r
              ≡ (record r { incomplete = none }, ok (complete (assemble (insert i f))))))
      ⊎ (push_new i f r ≡ (record r { incomplete = some (insert i f) }, ok pending))
unfolding push_new
push_new-cases i f r = elim (Option-cases (checked_add i.stored_bytes (length f.body))) [
  | inl n ↦ inl (ground (arith, n))
  | inr (total, n) ↦ elim (Bool-cases (ltb max_compressed_instruction_bytes total)) [
    | inl large ↦ inl (ground (arith, n, large))
    | inr fits ↦ elim (Bool-cases (is_complete (insert i f))) [
      | inl all ↦ inr (inl (all, ground (arith, n, fits, all)))
      | inr part ↦ inr (inr (ground (arith, n, fits, part)))
    ]
  ]
]

pub push_other-cases :
    (now : ℕ) (f : Fragment) (r : FragmentReassembler)
    → ((x : ReassemblyError) × (push_other now f r ≡ (r, err x)))
      ⊎ ((f.number ≡ 0) × (f.is_final ≡ true) × (push_other now f r ≡ (r, ok (complete f.body))))
      ⊎ (push_other now f r ≡ (
        record r { incomplete = some (insert (new_instruction f.identifier now) f) },
        ok pending,
      ))
unfolding push_other
push_other-cases now f r = elim (Bool-cases (f.number == 0 && f.is_final)) [
  | inl single ↦ elim (Bool-cases (leb (length f.body) max_compressed_instruction_bytes)) [
    | inl fits ↦
        inr (inl (ground (arith, single), ground (arith, single), ground (arith, single, fits)))
    | inr large ↦ inl (instruction_too_large, ground (arith, single, large))
  ]
  | inr several ↦ elim (Option-cases r.incomplete) [
    | inr (i, n) ↦ inl (too_many_incomplete_instructions, ground (arith, several, n))
    | inl n ↦ elim (Bool-cases (ltb max_compressed_instruction_bytes (length f.body))) [
      | inl large ↦ inl (instruction_too_large, ground (arith, several, n, large))
      | inr fits ↦ inr (inr (ground (arith, several, n, fits)))
    ]
  ]
]

pub push_matching-cases :
    (i : IncompleteInstruction) (f : Fragment) (r : FragmentReassembler)
    → ((x : ReassemblyError) × (push_matching i f r ≡ (record r { incomplete = none }, err x)))
      ⊎ (push_matching i f r ≡ (r, ok duplicate))
      ⊎ (push_matching i f r ≡ push_new i f r)
unfolding push_matching
push_matching-cases i f r = elim (Result-cases (classify i f)) [
  | inr (x, c) ↦ inl (x, ground (arith, c))
  | inl (kind, c) ↦ go kind c
]
  where
    go :
        (kind : InsertKind)
        → classify i f ≡ ok kind
        → ((x : ReassemblyError) × (push_matching i f r ≡ (record r { incomplete = none }, err x)))
          ⊎ (push_matching i f r ≡ (r, ok duplicate))
          ⊎ (push_matching i f r ≡ push_new i f r)
    go new_kind c = inr (inr (ground (arith, c)))
    go duplicate_kind c = inr (inl (ground (arith, c)))

-- The time steps at most drop what is stored.
pub push-cases :
    (now : ℕ) (f : Fragment) (r : FragmentReassembler)
    → (q : FragmentReassembler) × ((q.incomplete ≡ r.incomplete) ⊎ (q.incomplete ≡ none))
      × (((x : ReassemblyError) × (push now f r ≡ (q, err x)))
          ⊎ (push now f r ≡ push_at q.incomplete now f q))
unfolding push expire_due observe_time
push-cases now f r = elim (Bool-cases (ltb now r.last_observed_ms)) [
  | inl early ↦ (r, inl refl, inl (time_moved_backwards, ground (arith, early)))
  | inr late ↦ elim (Result-cases (expired now r.incomplete)) [
    | inr (x, e) ↦ (record r { last_observed_ms = now }, inl refl, inl (x, ground (arith, late, e)))
    | inl (over, e) ↦ elim (Bool-cases (leb max_fragments_per_instruction f.number)) [
      | inl high ↦ elim (Bool-cases over) [
        | inl o ↦ (
          record r { last_observed_ms = now; incomplete = none },
          inr refl,
          inl (fragment_number_out_of_range, ground (arith, late, e, o, high)),
        )
        | inr o ↦ (
          record r { last_observed_ms = now },
          inl refl,
          inl (fragment_number_out_of_range, ground (arith, late, e, o, high)),
        )
      ]
      | inr low ↦ elim (Bool-cases over) [
        | inl o ↦ (
          record r { last_observed_ms = now; incomplete = none },
          inr refl,
          inr (ground (arith, late, e, o, low)),
        )
        | inr o ↦
            (record r { last_observed_ms = now }, inl refl, inr (ground (arith, late, e, o, low)))
      ]
    ]
  ]
]
