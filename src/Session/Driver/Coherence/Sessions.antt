-- ===== src/Session/Driver/Coherence/Sessions.antt =====
-- A whole session: a connection, and then any rounds.
use mosh_client_rs.Prelude.{
  ◌≡◌, ◌≢◌, refl, arith, ℕ, Option, List, [], ◌∷◌, Unit0, Result, ok, err, Result-cases, inl, inr,
  subst,
}
use mosh_client_rs.Instruction.Termination.{ConsumesInput}
use mosh_client_rs.Instruction.Message.{resize}
use mosh_client_rs.Synchronization.State.{new}
use mosh_client_rs.Synchronization.Sender.{advance_local}
use mosh_client_rs.Synchronization.Invariant.{new-IsValid}
use mosh_client_rs.Timing.Scheduler.{note_local_change, new_scheduler}
use mosh_client_rs.Terminal.State.{new as new_terminal}
use mosh_client_rs.Prediction.State.{PredictionMode, new_prediction}
use mosh_client_rs.Session.History.{HistoryError, new_history, append, checkpoint}
use mosh_client_rs.Session.Log.{new_history-IsLog}
use mosh_client_rs.Session.Errors.{
  DriverError, from_history, session_error, internal_state, session_panicked,
}
use mosh_client_rs.Session.Driver.State.{Platform, Terminal, Driver, from_error, connect}
use mosh_client_rs.Session.Driver.Closing.{SessionExit, Round}
use mosh_client_rs.Session.Driver.Running.{run}
use mosh_client_rs.Session.Driver.Numbered.{IsNumbered}
use mosh_client_rs.Session.Driver.Outcome.{IsExternal, IsExternalResult, Ends, Keeps}
use mosh_client_rs.Session.Driver.Coherence.{Agree, IsCoherent}
use mosh_client_rs.Session.Driver.Coherence.Planning.{advanced-Agree}
use mosh_client_rs.Session.Driver.Coherence.Commands.{append_checkpoints, appended-IsNumbered}
use mosh_client_rs.Session.Driver.Coherence.Running.{run-Keeps}

new-IsNumbered : IsNumbered new new_history
new-IsNumbered = record {
  log = [];
  is_log = new_history-IsLog;
  below = omega arith;
  has_known = refl;
  has_latest = refl;
  has_sent = λ n h. absurd (ground arith);
}

external-category :
    (x : DriverError)
    → IsExternal x
    → (session_error x ≢ internal_state) × (session_error x ≢ session_panicked)
unfolding session_error
external-category x h = (λ e. ground arith, λ e. ground arith)

module _ (p : Platform) where
  -- A connection is coherent, or failed for a reason from outside.
  abbrev pub IsConnected : Result DriverError (Driver (Terminal p)) → Type 0
  IsConnected (ok d) = IsCoherent p d
  IsConnected (err e) = IsExternal e

  connected-Agree :
      (columns rows : ℕ) (mode : PredictionMode) (initial : Terminal p)
      → Agree p
          (advance_local new).0
          (checkpoint 1 (append p.wire (resize columns rows) new_history).0)
          ((0, initial) ∷ [])
          (new_prediction mode)
  connected-Agree columns rows mode initial =
      advanced-Agree p new _ 1 _ _ _ (unfold advance_local in refl) (record {
        valid = new-IsValid;
        numbered = appended-IsNumbered p (resize columns rows) new new_history new-IsNumbered;
        stored = record { ascends = omega arith; agrees = λ n. ground arith };
        predicts = record { pending_le = omega arith; none_if_never = λ h. refl; projects = tt };
      })

  connect-IsConnected :
      (columns rows : ℕ) (mode : PredictionMode) → IsConnected (connect p columns rows mode)
  unfolding connect advance_local
  connect-IsConnected columns rows mode =
      elim (Result-cases (new_terminal p.library columns rows)) [
        | inr (x, e) ↦ rw e tt
        | inl (initial, e) ↦
            elim (Result-cases (append p.wire (resize columns rows) new_history).1) [
              | inr (y, f) ↦
                  rw (e, f)
                    (subst
                      (λ (r : Result HistoryError Unit0).
                        IsExternalResult (from_error from_history r))
                      f (append_checkpoints p (resize columns rows) new_history).1)
              | inl (done, f) ↦ elim (Result-cases (note_local_change 0 (new_scheduler 0)).1) [
                | inl (noted, g) ↦ rw (e, f, g) (connected-Agree columns rows mode initial)
                | inr (z, g) ↦ rw (e, f, g) tt
              ]
            ]
      ]

  failed-IsExternal :
      {A : Type 0} (r : Driver (Terminal p) × Result DriverError A) (x : DriverError)
      → Keeps (IsCoherent p) r
      → r.1 ≡ err x
      → IsExternal x
  unfolding Ends
  failed-IsExternal (d, ok a) x k e = absurd (ground (arith, e))
  failed-IsExternal (d, err y) x k e = subst IsExternal (ground (arith, e)) k

  ended-IsCoherent :
      {A : Type 0} (r : Driver (Terminal p) × Result DriverError A) (e : Driver (Terminal p))
      (a : A)
      → Keeps (IsCoherent p) r
      → r ≡ (e, ok a)
      → IsCoherent p e
  unfolding Ends
  ended-IsCoherent r e a k q =
      subst (λ (z : Driver (Terminal p) × Result DriverError _). Keeps (IsCoherent p) z) q k

  connected-IsCoherent :
      (columns rows : ℕ) (mode : PredictionMode) (d : Driver (Terminal p))
      → connect p columns rows mode ≡ ok d
      → IsCoherent p d
  connected-IsCoherent columns rows mode d e =
      subst IsConnected e (connect-IsConnected columns rows mode)

  module _ (consumes : ConsumesInput p.wire) where
    -- Whatever the rounds of a connected session meet, its components agree: the synchronization
    -- state is valid, the client history has a checkpoint for every local state that can be asked
    -- for, the terminal states are those of the remote states that are held, and the predictions
    -- project from their base.
    pub session-IsCoherent :
        (columns rows : ℕ) (mode : PredictionMode) (d e : Driver (Terminal p)) (rounds : List Round)
        (exit : Option SessionExit)
        → connect p columns rows mode ≡ ok d
        → run p rounds d ≡ (e, ok exit)
        → IsCoherent p e
    session-IsCoherent columns rows mode d e rounds exit connected ran =
        ended-IsCoherent (run p rounds d) e exit
          (run-Keeps p consumes rounds d (connected-IsCoherent columns rows mode d connected)) ran

    -- Whatever the network, the clock, the peer and the application do, a session never ends with
    -- an internal error, nor with one of the panics that the model has: every look-up of a client
    -- state or a terminal state in the driver finds one, no `expect` of the predictions fails, and
    -- neither the predictions nor the history drain more than they hold. Panics inside the screens
    -- and the other parameters are not covered.
    pub session-never_internal :
        (columns rows : ℕ) (mode : PredictionMode) (d : Driver (Terminal p)) (rounds : List Round)
        (x : DriverError)
        → connect p columns rows mode ≡ ok d
        → (run p rounds d).1 ≡ err x
        → (session_error x ≢ internal_state) × (session_error x ≢ session_panicked)
    session-never_internal columns rows mode d rounds x connected failed = external-category x (
        failed-IsExternal (run p rounds d) x
          (run-Keeps p consumes rounds d (connected-IsCoherent columns rows mode d connected))
          failed)
