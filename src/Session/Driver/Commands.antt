-- ===== src/Session/Driver/Commands.antt =====
-- session/driver.rs: the commands of the application, and the output.
use mosh_client_rs.Prelude.{
  ℕ, true, false, Option, none, some, List, [], ◌∷◌, Unit0, Result, ok, ok_or, null, get, lift,
  modify, pure, if◌then◌else◌, ◌>>=◌, ◌>>◌,
}
use mosh_client_rs.Instruction.Message.{ClientOperation, input, resize}
use mosh_client_rs.Synchronization.Sender.{advance_local}
use mosh_client_rs.Timing.Scheduler.{note_local_change}
use mosh_client_rs.Terminal.Paint.{full, incremental, PaintError}
use mosh_client_rs.Prediction.State.{clear, display, observe_input}
use mosh_client_rs.Session.History.{append, checkpoint}
use mosh_client_rs.Session.Errors.{DriverError, paint, missing_terminal_state}
use mosh_client_rs.Session.Driver.State.{
  Platform, Terminal, Driver, D, lookup_terminal, prediction_terminal, from_error, on_sync,
  on_scheduler, on_history, on_prediction, request_output, when, now_ms,
}

pub data SessionCommand : Type 0 where
  input_command : List ℕ → SessionCommand
  resize_command : (columns rows : ℕ) → SessionCommand
  repaint_command : SessionCommand

module _ (p : Platform) where
  unfoldable pub advance_client : ClientOperation → (now : ℕ) → D (Terminal p) ℕ
  advance_client operation now = do
    on_history (append p.wire operation)
    state ← on_sync advance_local
    modify (λ d. record d { client_history = checkpoint state d.client_history })
    on_scheduler (note_local_change now)
    pure state

  -- The predictions see an input, and ask for output where what is displayed may change.
  unfoldable pub predict : (client_state : ℕ) → List ℕ → (now : ℕ) → D (Terminal p) Unit0
  predict client_state bytes now = do
    d ← get
    authoritative ←
        lift (ok_or (lookup_terminal d.sync.remote_latest d.terminal_states) missing_terminal_state)
    shown ←
        on_prediction
          (observe_input (prediction_terminal p.library) client_state bytes authoritative now)
    when shown request_output

  -- `handle_command` at the time that the clock gave.
  unfoldable pub run_command : SessionCommand → (now : ℕ) → D (Terminal p) Unit0
  unfolding advance_client predict
  run_command (input_command bytes) now =
      if null bytes
      then pure tt
      else (do state ← advance_client (input bytes) now; predict state bytes now)
  run_command (resize_command columns rows) now = do
    _ ← advance_client (resize columns rows) now
    d ← get
    predict d.sync.local_latest [] now
  run_command repaint_command now = modify (λ d. record d {
    prediction = (clear d.prediction).0;
    output_requested = true;
    force_full_repaint = true;
  })

  unfoldable pub handle_command : SessionCommand → (elapsed : ℕ) → D (Terminal p) Unit0
  unfolding run_command
  handle_command command elapsed = do now ← lift (now_ms elapsed); run_command command now

  -- The terminal state of the shutdown, or else the latest one.
  abbrev pub final_or_latest :
      (final : Option (Terminal p)) → Driver (Terminal p) → Result DriverError (Terminal p)
  final_or_latest (some final) d = ok final
  final_or_latest none d =
      ok_or (lookup_terminal d.sync.remote_latest d.terminal_states) missing_terminal_state

  unfoldable pub latest_terminal_state : Driver (Terminal p) → Result DriverError (Terminal p)
  latest_terminal_state d = final_or_latest d.final_terminal d

  abbrev pub painted :
      (previous : Option (Terminal p)) → (current : Terminal p) → Result PaintError (List ℕ)
  painted none current = full p.library current
  painted (some previous) current = incremental p.library previous current

  -- `emit_output`, with a permit to send one chunk.
  unfoldable pub emit_output : D (Terminal p) Unit0
  unfolding latest_terminal_state
  emit_output = do
    d ← get
    authoritative ← lift (latest_terminal_state d)
    let current = display d.prediction authoritative
    chunk ← lift (
        from_error paint (
          if d.force_full_repaint then full p.library current else painted d.painted_state current))
    modify (λ e. record e {
      output = chunk ∷ e.output;
      painted_state = some current;
      output_requested = false;
      force_full_repaint = false;
    })
