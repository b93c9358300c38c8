-- ===== src/Synchronization/Ordered.antt =====
-- Lists of state numbers that ascend strictly within bounds, and what the list operations of the
-- synchronization state do to them.
use mosh_client_rs.Prelude.{
  ℕ, zero, suc, ◌≤◌, ◌<◌, ◌≡◌, refl, ◌≢◌, true, false, List, [], ◌∷◌, ◌++◌, arith, leb, ◌==◌,
  if◌then◌else◌, length, retain, remove_at, get_elem?, some,
}
use mosh_client_rs.Synchronization.Receiver.{contains, insert_ordered}

abbrev pub Between : (lo hi : ℕ) → List ℕ → Type 0
Between lo hi [] = Unit
Between lo hi (x ∷ xs) = (lo ≤ x) × (x ≤ hi) × Between (suc x) hi xs

pub Between-weaken :
    (lo lo' hi hi' : ℕ) (xs : List ℕ) → lo' ≤ lo → hi ≤ hi' → Between lo hi xs → Between lo' hi' xs
Between-weaken lo lo' hi hi' [] p q b = tt
Between-weaken lo lo' hi hi' (x ∷ xs) p q b =
    (omega arith, omega arith, Between-weaken (suc x) (suc x) hi hi' xs (omega arith) q b.2)

pub Between-contains :
    (lo hi n : ℕ) (xs : List ℕ) → Between lo hi xs → contains xs n ≡ true → (lo ≤ n) × (n ≤ hi)
Between-contains lo hi n [] b c = absurd (ground arith)
Between-contains lo hi n (x ∷ xs) b c = ground (arith, Between-contains (suc x) hi n xs b.2)

Between-retain_low :
    (floor lo hi : ℕ) (xs : List ℕ)
    → Between lo hi xs
    → Between lo hi (retain (λ n. leb floor n) xs)
Between-retain_low floor lo hi [] b = tt
Between-retain_low floor lo hi (x ∷ xs) b = ground (
  arith,
  Between-retain_low floor (suc x) hi xs b.2,
  Between-weaken (suc x) lo hi hi (retain (λ n. leb floor n) xs),
)

-- What a floor retains lies at or above it.
pub Between-retain :
    (floor lo hi : ℕ) (xs : List ℕ)
    → Between lo hi xs
    → Between floor hi (retain (λ n. leb floor n) xs)
Between-retain floor lo hi [] b = tt
Between-retain floor lo hi (x ∷ xs) b =
    ground
      (arith, Between-retain floor (suc x) hi xs b.2, Between-retain_low floor (suc x) hi xs b.2)

pub Between-remove_at :
    (i lo hi : ℕ) (xs : List ℕ) → Between lo hi xs → Between lo hi (remove_at i xs)
Between-remove_at i lo hi [] b = tt
Between-remove_at zero lo hi (x ∷ xs) b =
    Between-weaken (suc x) lo hi hi xs (omega arith) (omega arith) b.2
Between-remove_at (suc i) lo hi (x ∷ xs) b = (b.0, b.1, Between-remove_at i (suc x) hi xs b.2)

pub Between-insert_ordered :
    (t lo hi : ℕ) (xs : List ℕ)
    → lo ≤ t
    → t ≤ hi
    → contains xs t ≡ false
    → Between lo hi xs
    → Between lo hi (insert_ordered t xs)
unfolding insert_ordered
Between-insert_ordered t lo hi [] p q c b = (p, q, tt)
Between-insert_ordered t lo hi (x ∷ xs) p q c b =
    ground (arith, Between-insert_ordered t (suc x) hi xs)

pub Between-snoc :
    (lo hi t : ℕ) (xs : List ℕ) → Between lo hi xs → hi < t → lo ≤ t → Between lo t (xs ++ t ∷ [])
Between-snoc lo hi t [] b p q = (q, omega arith, tt)
Between-snoc lo hi t (x ∷ xs) b p q =
    (b.0, omega arith, Between-snoc (suc x) hi t xs b.2 p (omega arith))

pub length-remove_at :
    (i : ℕ) (xs : List ℕ) → i < length xs → suc (length (remove_at i xs)) ≡ length xs
length-remove_at i [] h = absurd (omega arith)
length-remove_at zero (x ∷ xs) h = refl
length-remove_at (suc i) (x ∷ xs) h = omega (arith, length-remove_at i xs (omega arith))

pub length-insert_ordered : (t : ℕ) (xs : List ℕ) → length (insert_ordered t xs) ≡ suc (length xs)
unfolding insert_ordered
length-insert_ordered t [] = refl
length-insert_ordered t (x ∷ xs) = ground (arith, length-insert_ordered t xs)

-- An insertion adds its number and keeps every other.
pub contains-insert_ordered :
    (t n : ℕ) (xs : List ℕ)
    → contains (insert_ordered t xs) n ≡ (if t == n then true else contains xs n)
unfolding insert_ordered
contains-insert_ordered t n [] = refl
contains-insert_ordered t n (x ∷ xs) = ground (arith, contains-insert_ordered t n xs)

pub contains-retain :
    (floor n : ℕ) (xs : List ℕ)
    → contains (retain (λ x. leb floor x) xs) n ≡ (if leb floor n then contains xs n else false)
contains-retain floor n [] = ground arith
contains-retain floor n (x ∷ xs) = ground (arith, contains-retain floor n xs)

-- Removing anywhere but at the end keeps the greatest number.
pub remove_at_keeps_top :
    (i lo hi : ℕ) (xs : List ℕ)
    → suc i < length xs
    → Between lo hi xs
    → contains xs hi ≡ true
    → contains (remove_at i xs) hi ≡ true
remove_at_keeps_top i lo hi [] h b c = cc
remove_at_keeps_top i lo hi (x ∷ []) h b c = absurd (omega arith)
remove_at_keeps_top zero lo hi (x ∷ y ∷ ys) h b c = ground arith
remove_at_keeps_top (suc i) lo hi (x ∷ y ∷ ys) h b c =
    ground (arith, remove_at_keeps_top i (suc x) hi (y ∷ ys))

-- What is removed by index is what the index reads; everything else stays.
pub contains-remove_at_ne :
    (i n v : ℕ) (xs : List ℕ)
    → get_elem? xs i ≡ some v
    → v ≢ n
    → contains (remove_at i xs) n ≡ contains xs n
contains-remove_at_ne i n v [] e ne = refl
contains-remove_at_ne zero n v (x ∷ xs) e ne = ground arith
contains-remove_at_ne (suc i) n v (x ∷ xs) e ne = ground (arith, contains-remove_at_ne i n v xs)

pub get_elem?-in_range : (i : ℕ) (xs : List ℕ) → i < length xs → (v : ℕ) × (get_elem? xs i ≡ some v)
get_elem?-in_range i [] h = absurd (omega arith)
get_elem?-in_range zero (x ∷ xs) h = (x, refl)
get_elem?-in_range (suc i) (x ∷ xs) h = get_elem?-in_range i xs (omega arith)

pub contains-remove_at_absent :
    (i n : ℕ) (xs : List ℕ) → contains xs n ≡ false → contains (remove_at i xs) n ≡ false
contains-remove_at_absent i n [] h = refl
contains-remove_at_absent zero n (x ∷ xs) h = ground arith
contains-remove_at_absent (suc i) n (x ∷ xs) h = ground (arith, contains-remove_at_absent i n xs)
