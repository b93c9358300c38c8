-- ===== src/Session/Examples.antt =====
-- Runs of the reachability tracker and the client history, and the theorems at concrete inputs. The
-- encoders of the runs write one byte for each operation.
use mosh_client_rs.Prelude.{
  ◌≡◌, ◌≢◌, ◌⊎◌, refl, arith, ℕ, ◌-◌, ◌≤◌, ◌<◌, Option, none, some, [], ◌∷◌, ok, length, take, drop,
}
use mosh_client_rs.Prelude.{true, false, List, All}
use mosh_client_rs.Session.Handle.{Session, send_input, resize, close}
use mosh_client_rs.Session.Calls.{
  Act, sends, resizes, repaints, closes, takes, act, acts, IsAcceptable, acts-IsAcceptable,
  acts-close,
}
use mosh_client_rs.Terminal.State.{is_valid_size}
use mosh_client_rs.Session.Driver.State.{active}
use mosh_client_rs.Session.Driver.Commands.{resize_command}
use mosh_client_rs.Instruction.Message.{ClientOperation, input}
use mosh_client_rs.Instruction.Encoding.{WireFormat, stream_end, encode_client_difference}
use mosh_client_rs.Session.Reachability.{
  SessionReachability, awaiting_peer, responsive, ReachabilityTracker, calculate, next_deadline_ms,
  next_deadline_at, contact_deadline_ms,
}
use mosh_client_rs.Session.Deadlines.{IsCurrent, next_deadline-exact}
use mosh_client_rs.Session.History.{ClientHistory, difference, from_instruction}
use mosh_client_rs.Session.Log.{IsLog, difference-log}

abbrev attached : ReachabilityTracker
attached = record { current = responsive; last_contact_ms = some 1000; last_reply_ms = 400 }

attached-IsCurrent : IsCurrent attached 1200
unfolding calculate
attached-IsCurrent = refl

attached_deadline : (d : ℕ) × (next_deadline_ms attached ≡ ok (some d))
unfolding next_deadline_ms next_deadline_at contact_deadline_ms
attached_deadline = (_, refl)

abbrev at_7500 : Option ℕ
at_7500 = some 7500

next_deadline-exact_example :
    ((at_7500 ≡ none) × IsCurrent attached 8000)
    ⊎ ((responsive ≡ awaiting_peer) × IsCurrent attached 8000)
    ⊎ ((deadline : ℕ) × (at_7500 ≡ some deadline)
        × (((8000 < deadline) × IsCurrent attached 8000)
            ⊎ ((deadline ≤ 8000)
                × ((next : SessionReachability) × (calculate attached 8000 ≡ ok next)
                    × (next ≢ responsive)))))
unfolding next_deadline_ms next_deadline_at contact_deadline_ms
next_deadline-exact_example =
    next_deadline-exact attached 1200 8000 at_7500 attached-IsCurrent (omega arith) refl

abbrev byte_format : WireFormat
byte_format = record {
  encode_difference = λ os. elim os [ [] ↦ [] | o ∷ rest ↦ length rest ∷ [] ];
  encode_instruction = λ i. i.state_difference;
  decode_instruction = λ bytes. none;
  compress = λ bytes. bytes;
  InflateState = Unit;
  fresh = tt;
  inflate = λ s bytes writable. record {
    state = s;
    bytes_consumed = length bytes;
    written = bytes;
    status = stream_end;
  };
}

abbrev key_a : ClientOperation
key_a = input (97 ∷ [])

abbrev key_b : ClientOperation
key_b = input (98 ∷ [])

-- Two states, of one operation each.
abbrev after_two : ClientHistory
after_two = record {
  operation_offset = 0;
  next_operation = 2;
  operations = key_a ∷ key_b ∷ [];
  checkpoints = (0, 0) ∷ (1, 1) ∷ (2, 2) ∷ [];
}

after_two-IsLog : IsLog after_two (key_a ∷ key_b ∷ [])
after_two-IsLog = record {
  operations_eq = refl;
  offset_le = omega arith;
  next_eq = refl;
  points = ground arith;
}

difference-log_example :
    difference byte_format after_two 1 2
    ≡ from_instruction
        (encode_client_difference byte_format (take (2 - 1) (drop 1 (key_a ∷ key_b ∷ []))))
difference-log_example =
    difference-log byte_format after_two (key_a ∷ key_b ∷ []) 1 2 1 2 after_two-IsLog refl refl
      (omega arith)

abbrev new_session : Session
new_session = record {
  commands = [];
  cancellation = false;
  graceful_close = false;
  close_requested = false;
  current_state = active;
  task_ended = false;
}

-- Two commands, a close, and an input that comes too late.
abbrev some_calls : List Act
some_calls = sends true (97 ∷ []) ∷ resizes true 80 24 ∷ closes ∷ sends true (98 ∷ []) ∷ takes ∷ []

some_calls-commands : (acts some_calls new_session).commands ≡ resize_command 80 24 ∷ []
unfolding send_input resize close is_valid_size
some_calls-commands = refl

acts-IsAcceptable_example : All IsAcceptable (acts some_calls new_session).commands
acts-IsAcceptable_example = acts-IsAcceptable some_calls new_session tt

acts-close_example :
    (n : ℕ) × ((acts
        (sends true (98 ∷ []) ∷ takes ∷ [])
        (close (act (repaints true) new_session))).commands
      ≡ drop n (act (repaints true) new_session).commands)
acts-close_example =
    acts-close (sends true (98 ∷ []) ∷ takes ∷ []) (act (repaints true) new_session)
