-- ===== src/Session/Driver/Outcome.antt =====
-- How a method of the driver ends: with a value and a state of which a property holds, or with an
-- error that is not one of the internal ones.
use mosh_client_rs.Prelude.{◌≡◌, refl, Result, ok, err, and_then}
use mosh_client_rs.Session.Errors.{
  DriverError, missing_client_state, missing_terminal_state, panicked,
}
use mosh_client_rs.Session.Driver.State.{Driver, D}

-- The errors that the outside can cause: of the peer, the network, the clock, the counters and the
-- limits. The others say that the driver contradicts itself.
abbrev pub IsExternal : DriverError → Type 0
IsExternal missing_client_state = ⊥
IsExternal missing_terminal_state = ⊥
IsExternal panicked = ⊥
IsExternal _ = Unit

abbrev pub IsExternalResult : {A : Type 0} → Result DriverError A → Type 0
IsExternalResult (ok a) = Unit
IsExternalResult (err e) = IsExternal e

module _ {S : Type 0} where
  unfoldable pub Ends :
      {A : Type 0} → (A → Driver S → Type 0) → Driver S × Result DriverError A → Type 0
  Ends Q (d, ok a) = Q a d
  Ends Q (d, err e) = IsExternal e

  -- The steps after a call are reached only with what the call promises.
  pub Ends-and_then :
      {A B : Type 0} (Q : A → Driver S → Type 0) (R : B → Driver S → Type 0)
      (r : Driver S × Result DriverError A) (f : A → D S B)
      → Ends Q r
      → ((a : A) (e : Driver S) → r ≡ (e, ok a) → Q a e → Ends R (f a e))
      → Ends R (and_then r f)
  unfolding Ends
  Ends-and_then Q R (d, ok a) f q k = k a d refl q
  Ends-and_then Q R (d, err x) f q k = q

  -- A property of the state alone.
  abbrev pub Keeps : {A : Type 0} → (Driver S → Type 0) → Driver S × Result DriverError A → Type 0
  Keeps Q r = Ends (λ a. Q) r

  -- A call that fails, if at all, from outside; and leaves a state with the property.
  pub Keeps-from :
      {A : Type 0} (Q : Driver S → Type 0) (r : Driver S × Result DriverError A)
      → IsExternalResult r.1
      → Q r.0
      → Keeps Q r
  unfolding Ends
  Keeps-from Q (d, ok a) x q = q
  Keeps-from Q (d, err e) x q = x
