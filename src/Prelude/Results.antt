-- ===== src/Prelude/Results.antt =====
-- Rust's `Result`, and methods on `&mut self` that return one: they take the state and give back
-- the state that they leave behind, also when they fail.
use mathlib.Core.Path.{◌≡◌, refl}
use mathlib.Core.Bool.{Bool, true, false}
use mathlib.Core.Option.{Option, none, some}
use mathlib.Core.Logic.{◌⊎◌, inl, inr}

pub data Result {ℓ κ} (E : Type ℓ) (A : Type κ) : Type (ℓ ⊔ κ) where
  ok : A → Result E A
  err : E → Result E A

abbrev pub Unit0 : Type 0
Unit0 = Unit

abbrev pub M {ℓ κ λ'} : Type ℓ → Type κ → Type λ' → Type (ℓ ⊔ κ ⊔ λ')
M S E A = S → S × Result E A

abbrev pub and_then {ℓ κ λ' μ} :
    {S : Type ℓ} {E : Type κ} {A : Type λ'} {B : Type μ}
    → S × Result E A
    → (A → M S E B)
    → S × Result E B
and_then (s, ok a) f = f a s
and_then (s, err e) f = (s, err e)

infixl 5 ◌>>=◌ ◌>>◌
abbrev pub ◌>>=◌ {ℓ κ λ' μ} :
    {S : Type ℓ} {E : Type κ} {A : Type λ'} {B : Type μ} → M S E A → (A → M S E B) → M S E B
◌>>=◌ m f s = and_then (m s) f

abbrev pub ◌>>◌ {ℓ κ μ} :
    {S : Type ℓ} {E : Type κ} {B : Type μ} → M S E (Unit {0}) → M S E B → M S E B
◌>>◌ m k s = and_then (m s) (λ _. k)

abbrev pub pure {ℓ κ λ'} : {S : Type ℓ} {E : Type κ} {A : Type λ'} → A → M S E A
pure a s = (s, ok a)

abbrev pub fail {ℓ κ λ'} : {S : Type ℓ} {E : Type κ} {A : Type λ'} → E → M S E A
fail e s = (s, err e)

-- `?` on the result of a `&self` method.
abbrev pub lift {ℓ κ λ'} : {S : Type ℓ} {E : Type κ} {A : Type λ'} → Result E A → M S E A
lift r s = (s, r)

abbrev pub get {ℓ κ} : {S : Type ℓ} {E : Type κ} → M S E S
get s = (s, ok s)

abbrev pub modify {ℓ κ} : {S : Type ℓ} {E : Type κ} → (S → S) → M S E (Unit {0})
modify f s = (f s, ok tt)

-- `ok_or`.
abbrev pub ok_or {ℓ κ} : {E : Type ℓ} {A : Type κ} → Option A → E → Result E A
ok_or none e = err e
ok_or (some a) e = ok a

-- An early `return Err(e)` under a test.
abbrev pub reject_if {ℓ κ} : {S : Type ℓ} {E : Type κ} → Bool → E → M S E (Unit {0})
reject_if true e s = (s, err e)
reject_if false e s = (s, ok tt)

-- `?` and `map_err` for chains that keep no state.
abbrev pub try {ℓ κ μ} :
    {E : Type ℓ} {A : Type κ} {B : Type μ} → Result E A → (A → Result E B) → Result E B
try (ok a) f = f a
try (err e) f = err e

pub Result-cases {ℓ κ} :
    {E : Type ℓ} {A : Type κ} (r : Result E A) → ((a : A) × (r ≡ ok a)) ⊎ ((e : E) × (r ≡ err e))
Result-cases (ok a) = inl (a, refl)
Result-cases (err e) = inr (e, refl)
