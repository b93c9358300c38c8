-- ===== src/Fragment/Assembly.antt =====
-- What the reassembler completes: never anything but an instruction that was sent.
use mathlib.Core.List.{append-nil}
use mosh_client_rs.Prelude.{
  ◌≡◌, refl, sym, subst, ap, ◌∙◌, arith, ℕ, zero, suc, ◌+◌, ◌≤◌, true, Option, none, some, List, [],
  ◌∷◌, ◌++◌, Result, ok, err, length, get_elem?, drop, All, ltb, ◌==◌, if◌then◌else◌, Bool-cases,
  Option-cases, inl, inr, ◌⊎◌,
}
use mosh_client_rs.Fragment.Codec.{Fragment}
use mosh_client_rs.Fragment.Reassembly.{
  ReassemblyError, ReassemblyOutcome, pending, duplicate, complete, StoredFragment, FragmentMap,
  IncompleteInstruction, FragmentReassembler, new_instruction, insert_fragment, insert, keys_are,
  is_complete, bodies, assemble, push_new, push_matching, push_other, push_at, push,
}
use mosh_client_rs.Fragment.Outcomes.{
  push_new-cases, push_other-cases, push_matching-cases, push-cases,
}

-- The chunks that an instruction was cut into, put together again.
abbrev pub joined : List (List ℕ) → List ℕ
joined [] = []
joined (c ∷ cs) = c ++ joined cs

abbrev pub EntryOf : List (List ℕ) → ℕ × StoredFragment → Type 0
EntryOf cs e = get_elem? cs e.0 ≡ some e.1.body

abbrev pub FinalOf : List (List ℕ) → Option ℕ → Type 0
FinalOf cs none = Unit
FinalOf cs (some n) = suc n ≡ length cs

-- The stored fragments are chunks of the instruction, each at its place.
pub record Holds (cs : List (List ℕ)) (i : IncompleteInstruction) : Type 0 where
  pub entries : All (EntryOf cs) i.fragments
  pub final_at : FinalOf cs i.final_number

-- A fragment that carries its chunk of the instruction, and is final only if it is the last.
pub record IsFrom (cs : List (List ℕ)) (f : Fragment) : Type 0 where
  pub body_at : get_elem? cs f.number ≡ some f.body
  pub last_at : FinalOf cs (if f.is_final then some f.number else none)

pub drop_at :
    (n : ℕ) (cs : List (List ℕ)) (c : List ℕ)
    → get_elem? cs n ≡ some c
    → joined (drop n cs) ≡ c ++ joined (drop (suc n) cs)
drop_at n [] c h = absurd (ground (arith, h))
drop_at zero (x ∷ cs) c h = let e : x ≡ c = ground (arith, h) in rw e refl
drop_at (suc n) (x ∷ cs) c h = drop_at n cs c h

drop_all : (cs : List (List ℕ)) (n : ℕ) → length cs ≤ n → joined (drop n cs) ≡ []
drop_all [] zero h = refl
drop_all [] (suc n) h = refl
drop_all (x ∷ cs) zero h = absurd (omega arith)
drop_all (x ∷ cs) (suc n) h = drop_all cs n (omega arith)

keys-bodies :
    (cs : List (List ℕ)) (next count : ℕ) (m : FragmentMap)
    → keys_are next count m ≡ true
    → All (EntryOf cs) m
    → next + count ≡ length cs
    → bodies m ≡ joined (drop next cs)
keys-bodies cs next zero [] k a n = sym (drop_all cs next (omega arith))
keys-bodies cs next zero (e ∷ m) k a n = absurd (ground (arith, k))
keys-bodies cs next (suc count) [] k a n = absurd (ground (arith, k))
keys-bodies cs next (suc count) ((j, s) ∷ m) k a n =
    let same : j ≡ next = ground (arith, k) in
    let rest = keys-bodies cs (suc next) count m (ground (arith, k)) a.1 (omega arith) in
    let at : get_elem? cs next ≡ some s.body = ap (get_elem? cs) (sym same) ∙ a.0 in
    ap (λ (x : List ℕ). s.body ++ x) rest ∙ sym (drop_at next cs s.body at)

pub Holds-assemble :
    (cs : List (List ℕ)) (i : IncompleteInstruction)
    → Holds cs i
    → is_complete i ≡ true
    → assemble i ≡ joined cs
unfolding is_complete assemble
Holds-assemble cs i h c = elim (Option-cases i.final_number) [
  | inl n ↦ absurd (ground (arith, n, c))
  | inr (last, n) ↦
      let full : suc last ≡ length cs = subst (FinalOf cs) n h.final_at in
      keys-bodies cs 0 (suc last) i.fragments (ground (arith, n, c)) h.entries (omega arith)
]

insert-entries :
    (cs : List (List ℕ)) (n : ℕ) (s : StoredFragment) (m : FragmentMap)
    → EntryOf cs (n, s)
    → All (EntryOf cs) m
    → All (EntryOf cs) (insert_fragment n s m)
insert-entries cs n s [] e a = (e, tt)
insert-entries cs n s ((k, t) ∷ m) e a = elim (Bool-cases (ltb n k)) [
  | inl before ↦ rw before (e, a)
  | inr past ↦ elim (Bool-cases (n == k)) [
    | inl here ↦ rw (past, here) (e, a.1)
    | inr after ↦ rw (past, after) (a.0, insert-entries cs n s m e a.1)
  ]
]

insert-Holds :
    (cs : List (List ℕ)) (i : IncompleteInstruction) (f : Fragment)
    → Holds cs i
    → IsFrom cs f
    → Holds cs (insert i f)
unfolding insert
insert-Holds cs i f h g = record {
  entries =
      insert-entries cs f.number (record { body = f.body; is_final = f.is_final }) i.fragments
        g.body_at h.entries;
  final_at = elim (Bool-cases f.is_final) [
    | inl last ↦
        rw last (subst (λ b. FinalOf cs (if b then some f.number else none)) last g.last_at)
    | inr more ↦ rw more h.final_at
  ];
}

-- The chunks of each instruction, by its identifier.
abbrev pub Sent : Type 0
Sent = ℕ → List (List ℕ)

abbrev pub HoldsStored : Sent → Option IncompleteInstruction → Type 0
HoldsStored sent none = Unit
HoldsStored sent (some i) = Holds (sent i.identifier) i

abbrev pub Completes : List (List ℕ) → Result ReassemblyError ReassemblyOutcome → Type 0
Completes cs (ok (complete out)) = out ≡ joined cs
Completes cs (ok pending) = Unit
Completes cs (ok duplicate) = Unit
Completes cs (err e) = Unit

-- What a push leaves and answers.
abbrev pub Genuine :
    Sent → ℕ → FragmentReassembler × Result ReassemblyError ReassemblyOutcome → Type 0
Genuine sent identifier p = HoldsStored sent p.0.incomplete × Completes (sent identifier) p.1

stored_left :
    (sent : Sent) (r q : FragmentReassembler)
    → HoldsStored sent r.incomplete
    → (q.incomplete ≡ r.incomplete) ⊎ (q.incomplete ≡ none)
    → HoldsStored sent q.incomplete
stored_left sent r q h (inl e) = subst (HoldsStored sent) (sym e) h
stored_left sent r q h (inr e) = subst (HoldsStored sent) (sym e) tt

pub whole :
    (cs : List (List ℕ)) (body : List ℕ)
    → get_elem? cs 0 ≡ some body
    → 1 ≡ length cs
    → body ≡ joined cs
whole [] body h n = absurd (omega arith)
whole (x ∷ []) body h n = let e : body ≡ x = ground (arith, h) in e ∙ sym (append-nil x)
whole (x ∷ y ∷ cs) body h n = absurd (omega arith)

push_new-Genuine :
    (sent : Sent) (i : IncompleteInstruction) (f : Fragment) (r : FragmentReassembler)
    → HoldsStored sent r.incomplete
    → Holds (sent f.identifier) i
    → i.identifier ≡ f.identifier
    → IsFrom (sent f.identifier) f
    → Genuine sent f.identifier (push_new i f r)
unfolding insert
push_new-Genuine sent i f r stored h same g =
    let later = insert-Holds (sent f.identifier) i f h g in
    elim (push_new-cases i f r) [
      | inl e ↦ rw e (stored, tt)
      | inr (inl (all, e)) ↦ rw e (tt, Holds-assemble (sent f.identifier) (insert i f) later all)
      | inr (inr e) ↦ rw e (subst (λ n. Holds (sent n) (insert i f)) (sym same) later, tt)
    ]

push_other-Genuine :
    (sent : Sent) (now : ℕ) (f : Fragment) (r : FragmentReassembler)
    → HoldsStored sent r.incomplete
    → IsFrom (sent f.identifier) f
    → Genuine sent f.identifier (push_other now f r)
unfolding insert
push_other-Genuine sent now f r stored g = elim (push_other-cases now f r) [
  | inl (x, e) ↦ rw e (stored, tt)
  | inr (inl (first, last, e)) ↦
      let at = subst (λ n. get_elem? (sent f.identifier) n ≡ some f.body) first g.body_at in
      let end =
        subst (λ b. FinalOf (sent f.identifier) (if b then some f.number else none)) last
          g.last_at in
      rw e (stored, whole (sent f.identifier) f.body at (ap suc (sym first) ∙ end))
  | inr (inr e) ↦ rw e (
    insert-Holds (sent f.identifier) (new_instruction f.identifier now) f
        (record { entries = tt; final_at = tt }) g,
    tt,
  )
]

push_matching-Genuine :
    (sent : Sent) (i : IncompleteInstruction) (f : Fragment) (r : FragmentReassembler)
    → HoldsStored sent r.incomplete
    → r.incomplete ≡ some i
    → i.identifier ≡ f.identifier
    → IsFrom (sent f.identifier) f
    → Genuine sent f.identifier (push_matching i f r)
push_matching-Genuine sent i f r stored e same g =
    let here = subst (HoldsStored sent) e stored in
    elim (push_matching-cases i f r) [
      | inl (x, p) ↦ rw p (tt, tt)
      | inr (inl p) ↦ rw p (stored, tt)
      | inr (inr p) ↦
          rw p (push_new-Genuine sent i f r stored (subst (λ n. Holds (sent n) i) same here) same g)
    ]

push_at-Genuine :
    (sent : Sent) (now : ℕ) (f : Fragment) (r : FragmentReassembler)
    (o : Option IncompleteInstruction)
    → r.incomplete ≡ o
    → HoldsStored sent r.incomplete
    → IsFrom (sent f.identifier) f
    → Genuine sent f.identifier (push_at o now f r)
unfolding push_at
push_at-Genuine sent now f r none n stored g = push_other-Genuine sent now f r stored g
push_at-Genuine sent now f r (some i) n stored g =
    elim (Bool-cases (i.identifier == f.identifier)) [
      | inl same ↦ rw same (push_matching-Genuine sent i f r stored n (ground (arith, same)) g)
      | inr other ↦ rw other (push_other-Genuine sent now f r stored g)
    ]

-- Where the stored fragments are chunks of one instruction at their numbers, and the pushed fragment
-- carries its chunk of its own instruction, marked as final only if it is the last: what the push
-- completes, if anything, is exactly the joined chunks of the fragment's instruction, and what it
-- leaves stored are again chunks of one instruction at their numbers.
pub push-Genuine :
    (sent : Sent) (now : ℕ) (f : Fragment) (r : FragmentReassembler)
    → HoldsStored sent r.incomplete
    → IsFrom (sent f.identifier) f
    → Genuine sent f.identifier (push now f r)
push-Genuine sent now f r stored g =
    let (q, left, answer) = push-cases now f r in
    let held = stored_left sent r q stored left in
    elim answer [
      | inl (x, p) ↦ rw p (held, tt)
      | inr p ↦ rw p (push_at-Genuine sent now f q q.incomplete refl held g)
    ]
