-- ===== src/Fragment/Collected.antt =====
-- What the reassembler has stored of one instruction, some of whose fragments came.
use mosh_client_rs.Prelude.{
  ◌≡◌, refl, subst, ap, arith, ℕ, zero, suc, ◌+◌, ◌≤◌, ◌<◌, Bool, true, false, Option, none, some,
  List, [], ◌∷◌, ok, length, length-append, get_elem?, drop, All, ltb, ◌==◌, ◌||◌, if◌then◌else◌,
  Bool-cases, inl, inr, bytes_eq,
}
use mosh_client_rs.Fragment.Codec.{Fragment}
use mosh_client_rs.Fragment.Reassembly.{
  new_kind, duplicate_kind, StoredFragment, FragmentMap, IncompleteInstruction, lookup,
  last_key_above, insert_fragment, insert, keys_are, classify, classify_new, classify_stored,
}
use mosh_client_rs.Fragment.Assembly.{joined, drop_at}

abbrev pub has : ℕ → FragmentMap → Bool
has n [] = false
has n ((k, s) ∷ m) = if k == n then true else has n m

abbrev pub Ascending : ℕ → FragmentMap → Type 0
Ascending lo [] = Unit
Ascending lo ((k, s) ∷ m) = (lo ≤ k) × Ascending (suc k) m

abbrev pub total : FragmentMap → ℕ
total [] = 0
total ((k, s) ∷ m) = length s.body + total m

-- A stored fragment is the chunk at its number, final where that is the last.
pub record IsEntry (cs : List (List ℕ)) (e : ℕ × StoredFragment) : Type 0 where
  pub chunk_at : get_elem? cs e.0 ≡ some e.1.body
  pub final_is : e.1.is_final ≡ (e.0 + 1 == length cs)

pub place_lt : (cs : List (List ℕ)) (n : ℕ) (c : List ℕ) → get_elem? cs n ≡ some c → n < length cs
place_lt [] n c e = absurd (ground (arith, e))
place_lt (x ∷ cs) zero c e = omega arith
place_lt (x ∷ cs) (suc n) c e = omega (arith, place_lt cs n c e)

pub has-insert :
    (k n : ℕ) (s : StoredFragment) (m : FragmentMap)
    → has k (insert_fragment n s m) ≡ (n == k || has k m)
has-insert k n s [] = ground arith
has-insert k n s ((j, t) ∷ m) = ground (arith, has-insert k n s m)

Ascending-insert :
    (lo n : ℕ) (s : StoredFragment) (m : FragmentMap)
    → lo ≤ n
    → Ascending lo m
    → Ascending lo (insert_fragment n s m)
Ascending-insert lo n s [] le a = (le, tt)
Ascending-insert lo n s ((j, t) ∷ m) le a = elim (Bool-cases (ltb n j)) [
  | inl before ↦ rw before (le, (ground (arith, before), a.1))
  | inr past ↦ elim (Bool-cases (n == j)) [
    | inl here ↦ rw (past, here) (le, subst (λ x. Ascending (suc x) m) (ground (arith, here)) a.1)
    | inr after ↦
        rw (past, after) (a.0, Ascending-insert (suc j) n s m (ground (arith, past, after)) a.1)
  ]
]

All-insert :
    (P : ℕ × StoredFragment → Type 0) (n : ℕ) (s : StoredFragment) (m : FragmentMap)
    → P (n, s)
    → All P m
    → All P (insert_fragment n s m)
All-insert P n s [] e a = (e, tt)
All-insert P n s ((j, t) ∷ m) e a = elim (Bool-cases (ltb n j)) [
  | inl before ↦ rw before (e, a)
  | inr past ↦ elim (Bool-cases (n == j)) [
    | inl here ↦ rw (past, here) (e, a.1)
    | inr after ↦ rw (past, after) (a.0, All-insert P n s m e a.1)
  ]
]

pub total-insert :
    (n : ℕ) (s : StoredFragment) (m : FragmentMap)
    → has n m ≡ false
    → total (insert_fragment n s m) ≡ total m + length s.body
total-insert n s [] h = omega arith
total-insert n s ((j, t) ∷ m) h = ground (arith, h, total-insert n s m)

pub joined-drop_le :
    (cs : List (List ℕ)) (lo n : ℕ)
    → lo ≤ n
    → length (joined (drop n cs)) ≤ length (joined (drop lo cs))
joined-drop_le [] zero zero h = omega arith
joined-drop_le [] zero (suc n) h = omega arith
joined-drop_le [] (suc lo) zero h = omega arith
joined-drop_le [] (suc lo) (suc n) h = omega arith
joined-drop_le (c ∷ cs) zero zero h = omega arith
joined-drop_le (c ∷ cs) zero (suc n) h =
    omega (arith, length-append c (joined cs), joined-drop_le cs zero n (omega arith))
joined-drop_le (c ∷ cs) (suc lo) zero h = absurd (omega (arith, h))
joined-drop_le (c ∷ cs) (suc lo) (suc n) h = joined-drop_le cs lo n (omega (arith, h))

-- Lookups.
stored-lookup :
    (cs : List (List ℕ)) (n : ℕ) (m : FragmentMap)
    → All (IsEntry cs) m
    → has n m ≡ true
    → (s : StoredFragment) × (lookup n m ≡ some s) × IsEntry cs (n, s)
stored-lookup cs n [] a h = absurd (ground (arith, h))
stored-lookup cs n ((k, s) ∷ m) a h = elim (Bool-cases (k == n)) [
  | inl here ↦ (s, rw here refl, subst (λ x. IsEntry cs (x, s)) (ground (arith, here)) a.0)
  | inr other ↦
      let (t, e, i) = stored-lookup cs n m a.1 (ground (arith, h, other)) in (t, rw other e, i)
]

lookup-none : (n : ℕ) (m : FragmentMap) → has n m ≡ false → lookup n m ≡ none
lookup-none n [] h = refl
lookup-none n ((k, s) ∷ m) h = ground (arith, h, lookup-none n m)

last_key_above-false : (n : ℕ) (m : FragmentMap) → All (λ e. e.0 ≤ n) m → last_key_above n m ≡ false
last_key_above-false n [] a = refl
last_key_above-false n ((k, s) ∷ []) a = ground (arith, a.0)
last_key_above-false n (e ∷ (k, s) ∷ m) a = last_key_above-false n ((k, s) ∷ m) a.1

has-le : (lo n : ℕ) (m : FragmentMap) → Ascending lo m → has n m ≡ true → lo ≤ n
has-le lo n [] a h = absurd (ground (arith, h))
has-le lo n ((k, s) ∷ m) a h = elim (Bool-cases (k == n)) [
  | inl here ↦ ground (arith, here, a.0)
  | inr other ↦ omega (arith, has-le (suc k) n m a.1 (ground (arith, h, other)), a.0)
]

-- With every key in a range, the keys are the range.
pub keys_of_range :
    (next count : ℕ) (m : FragmentMap)
    → Ascending next m
    → All (λ e. e.0 < next + count) m
    → ((k : ℕ) → next ≤ k → k < next + count → has k m ≡ true)
    → (keys_are next count m ≡ true) × (length m ≡ count)
keys_of_range next zero [] a b h = (refl, refl)
keys_of_range next zero ((k, s) ∷ m) a b h = absurd (omega (arith, a.0, b.0))
keys_of_range next (suc count) [] a b h =
    absurd (ground (arith, h next (omega arith) (omega arith)))
keys_of_range next (suc count) ((k, s) ∷ m) a b h =
    let first : k ≡ next = elim (Bool-cases (k == next)) [
      | inl here ↦ ground (arith, here)
      | inr other ↦ absurd (
          omega (
            arith,
            a.0,
            has-le (suc k) next m a.1 (ground (arith, h next (omega arith) (omega arith), other)),
          ))
    ] in
    let (keys, count_is) =
      keys_of_range (suc next) count m (subst (λ x. Ascending (suc x) m) first a.1)
        (subst (λ x. All (λ e. e.0 < x) m) (omega arith) b.1)
        (λ j low high.
          ground (arith, h j (omega (arith, low)) (omega (arith, high)), first, low)) in
    (ground (arith, first, keys), ap suc count_is)

pub total_le :
    (cs : List (List ℕ)) (lo : ℕ) (m : FragmentMap)
    → Ascending lo m
    → All (IsEntry cs) m
    → total m ≤ length (joined (drop lo cs))
total_le cs lo [] a b = omega arith
total_le cs lo ((k, s) ∷ m) a b = omega (
  arith,
  joined-drop_le cs lo k a.0,
  total_le cs (suc k) m a.1 b.1,
  ap length (drop_at k cs s.body b.0.chunk_at),
  length-append s.body (joined (drop (suc k) cs)),
)

bytes_eq_refl : (xs : List ℕ) → bytes_eq xs xs ≡ true
bytes_eq_refl [] = refl
bytes_eq_refl (x ∷ xs) = ground (arith, bytes_eq_refl xs)

-- A fragment of the instruction with an identifier and these chunks.
pub record IsChunk (identifier : ℕ) (cs : List (List ℕ)) (f : Fragment) : Type 0 where
  pub of_instruction : f.identifier ≡ identifier
  pub body_is : get_elem? cs f.number ≡ some f.body
  pub final_is_last : f.is_final ≡ (f.number + 1 == length cs)

-- The last number, where it is stored.
abbrev pub final_of : List (List ℕ) → FragmentMap → ℕ → Option ℕ
final_of cs m last = if has last m then some last else none

-- What is stored of the instruction, of `count` chunks, where its numbers were seen but not all.
pub record Collects (identifier : ℕ) (cs : List (List ℕ)) (last : ℕ) (i : IncompleteInstruction)
    : Type 0 where
  pub same_identifier : i.identifier ≡ identifier
  pub ascends : Ascending 0 i.fragments
  pub entries : All (IsEntry cs) i.fragments
  pub final_known : i.final_number ≡ final_of cs i.fragments last
  pub bytes_counted : i.stored_bytes ≡ total i.fragments

pub classify-again :
    (identifier last : ℕ) (cs : List (List ℕ)) (i : IncompleteInstruction) (f : Fragment)
    → IsChunk identifier cs f
    → Collects identifier cs last i
    → has f.number i.fragments ≡ true
    → classify i f ≡ ok duplicate_kind
unfolding classify classify_stored
classify-again identifier last cs i f c k h =
    let (s, found, e) = stored-lookup cs f.number i.fragments k.entries h in
    let same : s.body ≡ f.body = ground (arith, e.chunk_at, c.body_is) in
    let equal : bytes_eq s.body f.body ≡ true = rw same (bytes_eq_refl f.body) in
    ground (arith, found, equal, e.final_is, c.final_is_last)

pub keys_below :
    (cs : List (List ℕ)) (m : FragmentMap) → All (IsEntry cs) m → All (λ e. e.0 < length cs) m
keys_below cs [] a = tt
keys_below cs (e ∷ m) a = (place_lt cs e.0 e.1.body a.0.chunk_at, keys_below cs m a.1)

keys_le :
    (n count : ℕ) (m : FragmentMap)
    → count ≤ suc n
    → All (λ e. e.0 < count) m
    → All (λ e. e.0 ≤ n) m
keys_le n count [] h a = tt
keys_le n count (e ∷ m) h a = (omega (arith, h, a.0), keys_le n count m h a.1)

pub classify-first :
    (identifier last : ℕ) (cs : List (List ℕ)) (i : IncompleteInstruction) (f : Fragment)
    → suc last ≡ length cs
    → IsChunk identifier cs f
    → Collects identifier cs last i
    → has f.number i.fragments ≡ false
    → classify i f ≡ ok new_kind
unfolding classify classify_new
classify-first identifier last cs i f n c k h =
    let missing = lookup-none f.number i.fragments h in
    let below = place_lt cs f.number f.body c.body_is in
    elim (Bool-cases f.is_final) [
      | inr more ↦ elim (Bool-cases (has last i.fragments)) [
        | inl known ↦ ground (arith, missing, more, k.final_known, known, below, n)
        | inr unknown ↦ ground (arith, missing, more, k.final_known, unknown)
      ]
      | inl end ↦
          let at : f.number ≡ last = ground (arith, end, c.final_is_last, n) in
          let unknown : i.final_number ≡ none = ground (arith, k.final_known, at, h) in
          let top = last_key_above-false f.number i.fragments (
            keys_le f.number (length cs) i.fragments (omega (arith, at, n))
              (keys_below cs i.fragments k.entries)) in
          ground (arith, missing, end, unknown, top)
    ]

pub insert-Collects :
    (identifier last : ℕ) (cs : List (List ℕ)) (i : IncompleteInstruction) (f : Fragment)
    → suc last ≡ length cs
    → IsChunk identifier cs f
    → Collects identifier cs last i
    → has f.number i.fragments ≡ false
    → Collects identifier cs last (insert i f)
unfolding insert
insert-Collects identifier last cs i f n c k h =
    let s : StoredFragment = record { body = f.body; is_final = f.is_final } in
    record {
      same_identifier = k.same_identifier;
      ascends = Ascending-insert 0 f.number s i.fragments (omega arith) k.ascends;
      entries =
          All-insert (IsEntry cs) f.number s i.fragments
            (record { chunk_at = c.body_is; final_is = c.final_is_last }) k.entries;
      final_known = elim (Bool-cases f.is_final) [
        | inl end ↦ ground (arith, end, c.final_is_last, n, has-insert last f.number s i.fragments)
        | inr more ↦
            ground (
              arith,
              more,
              c.final_is_last,
              n,
              has-insert last f.number s i.fragments,
              k.final_known,
            )
      ];
      bytes_counted = omega (arith, k.bytes_counted, total-insert f.number s i.fragments h);
    }
