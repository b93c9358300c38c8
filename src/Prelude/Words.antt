-- ===== src/Prelude/Words.antt =====
-- `u64` arithmetic as the source writes it.
use Prim.Native.Nat.{ℕ, ◌+◌, ◌-◌, ◌^◌, ◌*◌, ◌/◌, min, max}
use mathlib.Core.Option.{Option, none, some}
use mosh_client_rs.Prelude.Tests.{leb, if◌then◌else◌}

abbrev pub u64_max : ℕ
u64_max = 2 ^ 64 - 1

abbrev pub checked_add : ℕ → ℕ → Option ℕ
checked_add a b = if leb (a + b) u64_max then some (a + b) else none

abbrev pub checked_sub : ℕ → ℕ → Option ℕ
checked_sub a b = if leb b a then some (a - b) else none

abbrev pub checked_mul : ℕ → ℕ → Option ℕ
checked_mul a b = if leb (a * b) u64_max then some (a * b) else none

-- `div_ceil` by a positive number.
abbrev pub div_ceil : ℕ → ℕ → ℕ
div_ceil a b = (a + b - 1) / b

abbrev pub clamp : ℕ → ℕ → ℕ → ℕ
clamp lo hi x = max lo (min x hi)

abbrev pub abs_diff : ℕ → ℕ → ℕ
abs_diff a b = (a - b) + (b - a)

abbrev pub saturating_add : ℕ → ℕ → ℕ
saturating_add a b = min (a + b) u64_max
