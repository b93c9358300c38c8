-- ===== src/Session/Handle.antt =====
-- session.rs: the handle of a session. Where a call waits for room in the queue of commands, whether it
-- got a permit is an input of the call; the other methods are the receiving ends of channels.
use mosh_client_rs.Prelude.{
  ℕ, Bool, true, false, ◌||◌, not, List, [], ◌∷◌, ◌++◌, Unit0, M, Result, ok, err, ltb,
  if◌then◌else◌, length, fail,
}
use mosh_client_rs.Limits.{max_input_command_bytes}
use mosh_client_rs.Terminal.State.{is_valid_size}
use mosh_client_rs.Session.Errors.{DriverError, SessionError, session_error}
use mosh_client_rs.Session.Driver.State.{SessionState, connecting, active, closed}
use mosh_client_rs.Session.Driver.Commands.{
  SessionCommand, input_command, resize_command, repaint_command,
}

pub data SessionCommandError : Type 0 where
  input_too_large invalid_terminal_size command_closed : SessionCommandError

-- The queue is in order; the flags are those that the task watches, and `task_ended` that its sender of
-- states is gone.
pub record Session : Type 0 where
  pub commands : List SessionCommand
  pub cancellation : Bool
  pub graceful_close : Bool
  pub close_requested : Bool
  pub current_state : SessionState
  pub task_ended : Bool

abbrev pub is_closed : SessionState → Bool
is_closed closed = true
is_closed connecting = false
is_closed active = false

unfoldable pub state : Session → SessionState
state s = if s.task_ended then closed else s.current_state

abbrev pub Call : Type 0
Call = M Session SessionCommandError Unit0

unfoldable pub send_command : (has_permit : Bool) → SessionCommand → Call
unfolding state
send_command has_permit c s =
    if not has_permit
    then fail command_closed s
    else if s.close_requested || s.cancellation || is_closed (state s)
    then fail command_closed s
    else (record s { commands = s.commands ++ c ∷ [] }, ok tt)

unfoldable pub send_input : (has_permit : Bool) → List ℕ → Call
unfolding send_command
send_input has_permit bytes s =
    if ltb max_input_command_bytes (length bytes)
    then fail input_too_large s
    else send_command has_permit (input_command bytes) s

unfoldable pub resize : (has_permit : Bool) → (columns rows : ℕ) → Call
unfolding send_command
resize has_permit columns rows s =
    if not (is_valid_size columns rows)
    then fail invalid_terminal_size s
    else send_command has_permit (resize_command columns rows) s

unfoldable pub request_repaint : (has_permit : Bool) → Call
unfolding send_command
request_repaint has_permit s = send_command has_permit repaint_command s

unfoldable pub close : Session → Session
close s =
    if s.close_requested then s else record s { close_requested = true; graceful_close = true }

unfoldable pub cancel : Session → Session
cancel s = record s { cancellation = true }

-- The end of `SessionTask::run`, with what the driver's loop returned.
unfoldable pub finish_task :
    {A : Type 0} → Result DriverError A → Session → Session × Result SessionError A
finish_task (ok exit) s = (record s { current_state = closed; task_ended = true }, ok exit)
finish_task (err e) s =
    (record s { current_state = closed; task_ended = true }, err (session_error e))
