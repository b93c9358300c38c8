-- ===== src/Session/Driver/Coherence/Commands.antt =====
-- The commands of the application and the output.
use mosh_client_rs.Prelude.{
  arith, ◌≡◌, refl, ℕ, Option, none, some, List, [], ◌∷◌, ◌++◌, Unit0, Result, ok, err, lift, null,
  Bool-cases, inl, inr, if◌then◌else◌,
}
use mosh_client_rs.Instruction.Message.{ClientOperation, input, resize}
use mosh_client_rs.Synchronization.State.{SynchronizationState}
use mosh_client_rs.Timing.Scheduler.{note_local_change}
use mosh_client_rs.Terminal.Paint.{full}
use mosh_client_rs.Terminal.Screen.{TerminalError}
use mosh_client_rs.Prediction.State.{observe_input, display, Failure, terminal_error, panic}
use mosh_client_rs.Prediction.Soundness.{observe_input-IsSound, NoPanic}
use mosh_client_rs.Session.History.{
  ClientHistory, HistoryError, append, instruction_error, missing_client_state,
}
use mosh_client_rs.Session.Log.{append-IsLog}
use mosh_client_rs.Session.Errors.{paint, from_failure, from_history}
use mosh_client_rs.Session.Driver.State.{
  Platform, Terminal, Driver, from_error, on_history, on_prediction, prediction_terminal,
  request_output,
}
use mosh_client_rs.Session.Driver.Commands.{
  SessionCommand, input_command, resize_command, repaint_command, advance_client, predict,
  run_command, handle_command, latest_terminal_state, final_or_latest, painted, emit_output,
}
use mosh_client_rs.Session.Driver.Numbered.{IsNumbered}
use mosh_client_rs.Session.Driver.Outcome.{IsExternalResult, Ends, Ends-and_then, Keeps, Keeps-from}
use mosh_client_rs.Session.Driver.Coherence.{
  IsCoherent, Keeps-and_then, Keeps-pure, external, held-lookup, on_scheduler-Keeps, when-Keeps,
}
use mosh_client_rs.Session.Driver.Coherence.Planning.{on_sync-advance_local}
use mosh_client_rs.Session.Driver.Coherence.Sending.{clock-Keeps}
use mosh_client_rs.Session.Driver.Coherence.Receiving.{held-Ends, cleared-Agree}

module _ (p : Platform) where
  pub append_checkpoints :
      (operation : ClientOperation) (h : ClientHistory)
      → ((append p.wire operation h).0.checkpoints ≡ h.checkpoints)
        × IsExternalResult (from_error from_history (append p.wire operation h).1)
  unfolding append
  append_checkpoints operation h = (ground arith, refused _ (λ e. ground arith) (λ e. ground arith))
    where
      refused :
          (r : Result HistoryError Unit0)
          → (r ≡ err missing_client_state → ⊥)
          → (r ≡ err HistoryError.drain_panicked → ⊥)
          → IsExternalResult (from_error from_history r)
      refused (ok a) h k = tt
      refused (err (instruction_error e)) h k = tt
      refused (err HistoryError.operation_index_exhausted) h k = tt
      refused (err missing_client_state) h k = h refl
      refused (err HistoryError.drain_panicked) h k = k refl

  pub appended-IsNumbered :
      (operation : ClientOperation) (s : SynchronizationState) (h : ClientHistory)
      → IsNumbered s h
      → IsNumbered s (append p.wire operation h).0
  appended-IsNumbered operation s h n =
      let same = (append_checkpoints operation h).0 in
      elim (append-IsLog p.wire h n.log operation n.is_log) [
        | inl (done, logged) ↦ record {
          log = n.log ++ operation ∷ [];
          is_log = logged;
          below = rw same n.below;
          has_known = rw same n.has_known;
          has_latest = rw same n.has_latest;
          has_sent = λ k x. rw same (n.has_sent k x);
        }
        | inr (e, failed) ↦ rw failed n
      ]

  append-Keeps :
      (operation : ClientOperation) (d : Driver (Terminal p))
      → IsCoherent p d
      → Keeps (IsCoherent p) (on_history (append p.wire operation) d)
  append-Keeps operation d i =
      Keeps-from (IsCoherent p) (on_history (append p.wire operation) d)
        (append_checkpoints operation d.client_history).1
        (record {
          valid = i.valid;
          numbered = appended-IsNumbered operation d.sync d.client_history i.numbered;
          stored = i.stored;
          predicts = i.predicts;
        })

  advance_client-Keeps :
      (operation : ClientOperation) (now : ℕ) (d : Driver (Terminal p))
      → IsCoherent p d
      → Keeps (IsCoherent p) (advance_client p operation now d)
  unfolding advance_client
  advance_client-Keeps operation now d i =
      Keeps-and_then p _ _ (append-Keeps operation d i) λ _ e1 _ c1.
        Ends-and_then _ (λ _. IsCoherent p) _ _ (on_sync-advance_local p e1 c1)
          λ state e2 _ c2.
            Keeps-and_then p _ _ (on_scheduler-Keeps p (note_local_change now) _ c2)
              λ _ e3 _ c3. Keeps-pure p state e3 c3

  no_panic :
      {A : Type 0} (r : Result (Failure TerminalError) A)
      → NoPanic (prediction_terminal p.library) r
      → IsExternalResult (from_error from_failure r)
  no_panic (ok a) h = tt
  no_panic (err (terminal_error e)) h = tt
  no_panic (err panic) h = h

  observe_input-Keeps :
      (client_state now : ℕ) (bytes : List ℕ) (authoritative : Terminal p) (d : Driver (Terminal p))
      → IsCoherent p d
      → Keeps (IsCoherent p) (
          on_prediction
            (observe_input (prediction_terminal p.library) client_state bytes authoritative now)
            d)
  observe_input-Keeps client_state now bytes authoritative d i =
      let (sound, fine) =
        observe_input-IsSound (prediction_terminal p.library) d.prediction client_state bytes
          authoritative now i.predicts in
      Keeps-from (IsCoherent p) _ (no_panic _ fine)
        (record { valid = i.valid; numbered = i.numbered; stored = i.stored; predicts = sound })

  predict-Keeps :
      (client_state : ℕ) (bytes : List ℕ) (now : ℕ) (d : Driver (Terminal p))
      → IsCoherent p d
      → Keeps (IsCoherent p) (predict p client_state bytes now d)
  unfolding predict
  predict-Keeps client_state bytes now d i =
      Keeps-and_then p _ _
        (held-Ends p (IsCoherent p) d.sync.remote_latest d i i.valid.receiver.latest_kept i)
        λ authoritative e1 _ c1.
          Keeps-and_then p _ _ (observe_input-Keeps client_state now bytes authoritative e1 c1)
            λ shown e2 _ c2. when-Keeps p shown request_output e2 c2 (Keeps-pure p tt _ c2)

  run_command-Keeps :
      (c : SessionCommand) (now : ℕ) (d : Driver (Terminal p))
      → IsCoherent p d
      → Keeps (IsCoherent p) (run_command p c now d)
  unfolding run_command
  run_command-Keeps (input_command bytes) now d i = elim (Bool-cases (null bytes)) [
    | inl nothing ↦ rw nothing (Keeps-pure p tt d i)
    | inr some_bytes ↦ rw some_bytes (
        Keeps-and_then p _ _ (advance_client-Keeps (input bytes) now d i)
          λ state e _ c. predict-Keeps state bytes now e c)
  ]
  run_command-Keeps (resize_command columns rows) now d i =
      Keeps-and_then p _ _ (advance_client-Keeps (resize columns rows) now d i)
        λ state e _ c. predict-Keeps e.sync.local_latest [] now e c
  run_command-Keeps repaint_command now d i = Keeps-pure p tt _ (cleared-Agree p d i)

  pub handle_command-Keeps :
      (c : SessionCommand) (elapsed : ℕ) (d : Driver (Terminal p))
      → IsCoherent p d
      → Keeps (IsCoherent p) (handle_command p c elapsed d)
  unfolding handle_command
  handle_command-Keeps c elapsed d i =
      Keeps-and_then p _ _ (clock-Keeps p elapsed d i) λ now e _ k. run_command-Keeps c now e k

  latest :
      (d : Driver (Terminal p))
      → IsCoherent p d
      → (x : Terminal p) × (latest_terminal_state p d ≡ ok x)
  unfolding latest_terminal_state
  latest d i = go d.final_terminal
    where
      go : (o : Option (Terminal p)) → (x : Terminal p) × (final_or_latest p o d ≡ ok x)
      go none = held-lookup p d.sync.remote_latest d i i.valid.receiver.latest_kept
      go (some final) = (final, refl)

  latest-Keeps :
      (d : Driver (Terminal p))
      → IsCoherent p d
      → Keeps (IsCoherent p) (lift (latest_terminal_state p d) d)
  unfolding Ends
  latest-Keeps d i = let (x, e) = latest d i in rw e i

  pub emit_output-Keeps :
      (d : Driver (Terminal p)) → IsCoherent p d → Keeps (IsCoherent p) (emit_output p d)
  unfolding emit_output
  emit_output-Keeps d i = Keeps-and_then p _ _ (latest-Keeps d i) λ authoritative e1 _ c1.
      Keeps-and_then p _ _
        (external p paint
          (if d.force_full_repaint
            then full p.library (display d.prediction authoritative)
            else painted p d.painted_state (display d.prediction authoritative))
          e1 (λ x. tt) c1)
        λ chunk e2 _ c2. Keeps-pure p tt _ c2
