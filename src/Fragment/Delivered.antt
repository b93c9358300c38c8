-- ===== src/Fragment/Delivered.antt =====
-- The fragments of one instruction, in any order: the reassembler completes it.
use mosh_client_rs.Prelude.{
  ◌≡◌, refl, sym, subst, ap, ◌∙◌, arith, ℕ, suc, ◌+◌, ◌*◌, ◌≤◌, ◌<◌, Bool, true, false, Option,
  none, some, List, [], ◌∷◌, Result, ok, err, ◌⊎◌, length, length-append, get_elem?, drop, All,
  ◌==◌, ◌&&◌, ◌||◌, Bool-cases, inl, inr, u64_max, if◌then◌else◌,
}
use mosh_client_rs.Limits.{
  max_compressed_instruction_bytes, max_fragments_per_instruction,
  incomplete_instruction_lifetime_ms,
}
use mosh_client_rs.Fragment.Codec.{Fragment}
use mosh_client_rs.Fragment.Reassembly.{
  ReassemblyError, ReassemblyOutcome, pending, duplicate, complete, FragmentMap,
  IncompleteInstruction, FragmentReassembler, new_instruction, insert, is_complete, assemble,
  push_new, push_matching, push_other, push_at, push, observe_time, expire_due, expired,
}
use mosh_client_rs.Fragment.Assembly.{joined, drop_at, whole, EntryOf, Holds, Holds-assemble}
use mosh_client_rs.Fragment.Collected.{
  has, IsEntry, IsChunk, Collects, keys_of_range, joined-drop_le, total_le, classify-again,
  classify-first, keys_below, insert-Collects, has-insert, place_lt,
}

-- What a push completes, or what later ones do.
abbrev pub or_later : Result ReassemblyError ReassemblyOutcome → Option (List ℕ) → Option (List ℕ)
or_later (ok (complete out)) later = some out
or_later (ok pending) later = later
or_later (ok duplicate) later = later
or_later (err e) later = later

-- The first instruction that some pushes complete, each at its time.
abbrev pub first_complete : List (ℕ × Fragment) → FragmentReassembler → Option (List ℕ)
first_complete [] r = none
first_complete ((now, f) ∷ rest) r =
    or_later (push now f r).1 (first_complete rest (push now f r).0)

abbrev pub arrives : ℕ → List (ℕ × Fragment) → Bool
arrives n [] = false
arrives n ((now, f) ∷ rest) = f.number == n || arrives n rest

entries-EntryOf : (cs : List (List ℕ)) (m : List (ℕ × _)) → All (IsEntry cs) m → All (EntryOf cs) m
entries-EntryOf cs [] a = tt
entries-EntryOf cs (e ∷ m) a = (a.0.chunk_at, entries-EntryOf cs m a.1)

module _ (identifier last started : ℕ) (cs : List (List ℕ)) where
  -- Fragments of the instruction, at times that do not fall and that lie within its lifetime.
  abbrev pub Arrives : (at : ℕ) → List (ℕ × Fragment) → Type 0
  Arrives at [] = Unit
  Arrives at ((now, f) ∷ rest) =
      (at ≤ now)
      × (now < started + incomplete_instruction_lifetime_ms)
      × IsChunk identifier cs f
      × Arrives now rest

  module _ (counted : suc last ≡ length cs) (few : length cs ≤ max_fragments_per_instruction)
      (small : length (joined cs) ≤ max_compressed_instruction_bytes)
      (early : started + 2 * incomplete_instruction_lifetime_ms ≤ u64_max) where
    Collects-Holds : (i : IncompleteInstruction) → Collects identifier cs last i → Holds cs i
    Collects-Holds i k = record {
      entries = entries-EntryOf cs i.fragments k.entries;
      final_at = elim (Bool-cases (has last i.fragments)) [
        | inl known ↦ rw (k.final_known, known) counted
        | inr unknown ↦ rw (k.final_known, unknown) tt
      ];
    }

    Collects-complete :
        (i : IncompleteInstruction)
        → Collects identifier cs last i
        → ((n : ℕ) → n < length cs → has n i.fragments ≡ true)
        → is_complete i ≡ true
    unfolding is_complete
    Collects-complete i k h =
        let (keys, count) =
          keys_of_range 0 (suc last) i.fragments k.ascends
            (subst (λ x. All (λ e. e.0 < x) i.fragments) (omega (arith, counted))
              (keys_below cs i.fragments k.entries))
            (λ n low high. h n (omega (arith, high, counted))) in
        ground (arith, k.final_known, h last (omega (arith, counted)), keys, count)

    push-stored :
        (now : ℕ) (f : Fragment) (r : FragmentReassembler) (i : IncompleteInstruction)
        → r.incomplete ≡ some i
        → r.last_observed_ms ≤ now
        → started ≤ i.created_at_ms
        → i.created_at_ms ≤ now
        → now < started + incomplete_instruction_lifetime_ms
        → f.number < max_fragments_per_instruction
        → i.identifier ≡ f.identifier
        → push now f r ≡ push_matching i f (record r { last_observed_ms = now })
    unfolding push expire_due observe_time expired push_at
    push-stored now f r i stored late after before within low same =
        ground (arith, stored, late, after, before, within, low, same, early)

    push-first :
        (now : ℕ) (f : Fragment) (r : FragmentReassembler)
        → r.incomplete ≡ none
        → r.last_observed_ms ≤ now
        → f.number < max_fragments_per_instruction
        → push now f r ≡ push_other now f (record r { last_observed_ms = now })
    unfolding push expire_due observe_time expired push_at
    push-first now f r stored late low = ground (arith, stored, late, low)

    push_new-room :
        (i : IncompleteInstruction) (f : Fragment) (r : FragmentReassembler)
        → IsChunk identifier cs f
        → Collects identifier cs last i
        → has f.number i.fragments ≡ false
        → push_new i f r ≡ (
            if is_complete (insert i f)
            then (record r { incomplete = none }, ok (complete (assemble (insert i f))))
            else (record r { incomplete = some (insert i f) }, ok pending))
    unfolding push_new insert
    push_new-room i f r c k h =
        let j = insert-Collects identifier last cs i f counted c k h in
        let bound = total_le cs 0 (insert i f).fragments j.ascends j.entries in
        let fits : i.stored_bytes + length f.body ≤ length (joined cs) =
          omega (arith, bound, j.bytes_counted) in
        ground (arith, fits, small)

    -- What is stored while the instruction is incomplete.
    record Waits (at : ℕ) (r : FragmentReassembler) (i : IncompleteInstruction) : Type 0 where
      stored : r.incomplete ≡ some i
      observed : r.last_observed_ms ≤ at
      after : started ≤ i.created_at_ms
      created : i.created_at_ms ≤ at
      collects : Collects identifier cs last i
      unfinished : is_complete i ≡ false

    matching-again :
        (f : Fragment) (q : FragmentReassembler) (i : IncompleteInstruction)
        → IsChunk identifier cs f
        → Collects identifier cs last i
        → has f.number i.fragments ≡ true
        → push_matching i f q ≡ (q, ok duplicate)
    unfolding push_matching
    matching-again f q i c k h = ground (arith, classify-again identifier last cs i f c k h)

    matching-first :
        (f : Fragment) (q : FragmentReassembler) (i : IncompleteInstruction)
        → IsChunk identifier cs f
        → Collects identifier cs last i
        → has f.number i.fragments ≡ false
        → push_matching i f q ≡ (
            if is_complete (insert i f)
            then (record q { incomplete = none }, ok (complete (assemble (insert i f))))
            else (record q { incomplete = some (insert i f) }, ok pending))
    unfolding push_matching
    matching-first f q i c k h =
        ground (arith, classify-first identifier last cs i f counted c k h)
        ∙ push_new-room i f q c k h

    known_already : (k n : ℕ) (m : FragmentMap) → has k m ≡ true → has n m ≡ (k == n || has n m)
    known_already k n m h = elim (Bool-cases (k == n)) [
      | inl here ↦ let e : k ≡ n = ground (arith, here) in rw here (subst (λ x. has x m ≡ true) e h)
      | inr other ↦ rw other refl
    ]

    -- What a further fragment does: it completes the instruction, or it is noted.
    abbrev Pushed :
        (now number : ℕ)
        → IncompleteInstruction
        → FragmentReassembler × Result ReassemblyError ReassemblyOutcome
        → Type 0
    Pushed now number i p =
        (p.1 ≡ ok (complete (joined cs)))
        ⊎ ((j : IncompleteInstruction) × Waits now p.0 j
            × ((out : Option (List ℕ)) → or_later p.1 out ≡ out)
            × ((n : ℕ) → has n j.fragments ≡ (number == n || has n i.fragments)))

    inserted-Pushed :
        (now : ℕ) (f : Fragment) (q : FragmentReassembler) (i : IncompleteInstruction)
        → q.last_observed_ms ≤ now
        → started ≤ i.created_at_ms
        → i.created_at_ms ≤ now
        → IsChunk identifier cs f
        → Collects identifier cs last i
        → has f.number i.fragments ≡ false
        → Pushed now f.number i (
            (if is_complete (insert i f)
              then (record q { incomplete = none }, ok (complete (assemble (insert i f))))
              else (record q { incomplete = some (insert i f) }, ok pending)))
    unfolding insert
    inserted-Pushed now f q i observed after created c k h =
        let j = insert-Collects identifier last cs i f counted c k h in
        elim (Bool-cases (is_complete (insert i f))) [
          | inl all ↦ rw all (
              inl (
                ap (λ (b : List ℕ). ok (complete b))
                  (Holds-assemble cs (insert i f) (Collects-Holds (insert i f) j) all)))
          | inr part ↦ rw part (
              inr (
                insert i f,
                record {
                  stored = refl;
                  observed = observed;
                  after = after;
                  created = created;
                  collects = j;
                  unfinished = part;
                },
                λ out. refl,
                λ n. has-insert n f.number _ i.fragments,
              ))
        ]

    Waits-push :
        (at now : ℕ) (f : Fragment) (r : FragmentReassembler) (i : IncompleteInstruction)
        → Waits at r i
        → at ≤ now
        → now < started + incomplete_instruction_lifetime_ms
        → IsChunk identifier cs f
        → Pushed now f.number i (push now f r)
    Waits-push at now f r i w le within c =
        let k = w.collects in
        let low = place_lt cs f.number f.body c.body_is in
        let q : FragmentReassembler = record r { last_observed_ms = now } in
        let e : push now f r ≡ push_matching i f q =
          push-stored now f r i w.stored (omega (arith, w.observed, le)) w.after
            (omega (arith, w.created, le)) within (omega (arith, low, few))
            (k.same_identifier ∙ sym c.of_instruction) in
        elim (Bool-cases (has f.number i.fragments)) [
          | inl known ↦ subst (Pushed now f.number i) (sym (e ∙ matching-again f q i c k known)) (
              inr (
                i,
                record {
                  stored = w.stored;
                  observed = omega arith;
                  after = w.after;
                  created = omega (arith, w.created, le);
                  collects = k;
                  unfinished = w.unfinished;
                },
                λ out. refl,
                λ n. known_already f.number n i.fragments known,
              ))
          | inr fresh ↦ subst (Pushed now f.number i) (sym (e ∙ matching-first f q i c k fresh)) (
              inserted-Pushed now f q i (omega arith) w.after (omega (arith, w.created, le)) c k
                fresh)
        ]

    Waits-completes :
        (at : ℕ) (arrivals : List (ℕ × Fragment)) (r : FragmentReassembler)
        (i : IncompleteInstruction)
        → Waits at r i
        → Arrives at arrivals
        → ((n : ℕ) → n < length cs → (arrives n arrivals || has n i.fragments) ≡ true)
        → first_complete arrivals r ≡ some (joined cs)
    Waits-completes at [] r i w a h =
        absurd (ground (arith, w.unfinished, Collects-complete i w.collects h))
    Waits-completes at ((now, f) ∷ rest) r i w a h = elim (Waits-push at now f r i w a.0 a.1 a.2) [
      | inl done ↦ rw done refl
      | inr (j, later, passes, seen) ↦
          passes _
          ∙ Waits-completes now rest (push now f r).0 j later a.3
              (λ n low. ground (arith, h n low, seen n))
    ]

    nothing_yet : (now : ℕ) → Collects identifier cs last (new_instruction identifier now)
    nothing_yet now = record {
      same_identifier = refl;
      ascends = tt;
      entries = tt;
      final_known = refl;
      bytes_counted = refl;
    }

    first-unfinished :
        (now : ℕ) (f : Fragment)
        → IsChunk identifier cs f
        → (f.number == 0 && f.is_final) ≡ false
        → is_complete (insert (new_instruction identifier now) f) ≡ false
    unfolding is_complete insert
    first-unfinished now f c several = elim (Bool-cases f.is_final) [
      | inl end ↦ ground (arith, several, end)
      | inr more ↦ ground (arith, more)
    ]

    push_other-several :
        (now : ℕ) (f : Fragment) (q : FragmentReassembler)
        → q.incomplete ≡ none
        → f.identifier ≡ identifier
        → length f.body ≤ length (joined cs)
        → (f.number == 0 && f.is_final) ≡ false
        → push_other now f q
          ≡ (record q { incomplete = some (insert (new_instruction identifier now) f) }, ok pending)
    unfolding push_other
    push_other-several now f q idle same short several =
        ground (arith, idle, same, short, small, several)

    push_other-single :
        (now : ℕ) (f : Fragment) (q : FragmentReassembler)
        → length f.body ≤ length (joined cs)
        → (f.number == 0 && f.is_final) ≡ true
        → push_other now f q ≡ (q, ok (complete f.body))
    unfolding push_other
    push_other-single now f q short single = ground (arith, short, small, single)

    -- A reassembler that has stored nothing completes exactly the instruction, as soon as every one of
    -- its fragments came: in whatever order they come, and however often.
    pub first_complete-joined :
        (r : FragmentReassembler) (arrivals : List (ℕ × Fragment))
        → r.incomplete ≡ none
        → r.last_observed_ms ≤ started
        → Arrives started arrivals
        → ((n : ℕ) → n < length cs → arrives n arrivals ≡ true)
        → first_complete arrivals r ≡ some (joined cs)
    unfolding insert
    first_complete-joined r [] idle observed a h =
        absurd (ground (arith, h 0 (omega (arith, counted))))
    first_complete-joined r ((now, f) ∷ rest) idle observed a h =
        let c = a.2 in
        let q : FragmentReassembler = record r { last_observed_ms = now } in
        let e : push now f r ≡ push_other now f q =
          push-first now f r idle (omega (arith, observed, a.0))
            (omega (arith, place_lt cs f.number f.body c.body_is, few)) in
        let short : length f.body ≤ length (joined cs) = omega (
          arith,
          joined-drop_le cs 0 f.number (omega arith),
          ap length (drop_at f.number cs f.body c.body_is),
          length-append f.body (joined (drop (suc f.number) cs)),
        ) in
        elim (Bool-cases (f.number == 0 && f.is_final)) [
          | inl single ↦
              let d = e ∙ push_other-single now f q short single in
              rw d (
                ap some (
                  whole cs f.body
                    (subst (λ n. get_elem? cs n ≡ some f.body) (ground (arith, single)) c.body_is)
                    (ground (arith, single, c.final_is_last))))
          | inr several ↦
              let d = e ∙ push_other-several now f q idle c.of_instruction short several in
              rw d (
                Waits-completes now rest _ (insert (new_instruction identifier now) f)
                  (record {
                    stored = refl;
                    observed = omega arith;
                    after = a.0;
                    created = omega arith;
                    collects =
                        insert-Collects identifier last cs (new_instruction identifier now) f
                          counted c (nothing_yet now) refl;
                    unfinished = first-unfinished now f c several;
                  })
                  a.3 (λ n low. ground (arith, h n low)))
        ]
