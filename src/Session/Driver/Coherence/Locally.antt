-- ===== src/Session/Driver/Coherence/Locally.antt =====
-- The rounds of the local shutdown, whatever they meet.
use mosh_client_rs.Prelude.{ℕ, not, Option, none, some, List, [], ◌∷◌, leb, Bool-cases, inl, inr}
use mosh_client_rs.Instruction.Message.{TransportInstruction}
use mosh_client_rs.Instruction.Termination.{ConsumesInput}
use mosh_client_rs.Limits.{graceful_close_ack_timeout_ms}
use mosh_client_rs.Session.Errors.{clock_exhausted}
use mosh_client_rs.Session.Driver.State.{Platform, Terminal, Driver, D}
use mosh_client_rs.Session.Driver.Closing.{
  Datagram, Wake, command, datagram, output_permit, owner_gone, wake_cancelled, graceful_close,
  timer, Round, Local, exits, goes_on, closing_instruction, closing_datagram, handle_closing_wake,
  local_wait, local_wake_ms, local_round, local_round_at, local_rounds, unless_exits,
  run_local_shutdown,
}
use mosh_client_rs.Session.Driver.Outcome.{Keeps}
use mosh_client_rs.Session.Driver.Coherence.{
  IsCoherent, Keeps-and_then, Keeps-pure, reject_if-Keeps,
}
use mosh_client_rs.Session.Driver.Coherence.Sending.{clock-Keeps}
use mosh_client_rs.Session.Driver.Coherence.Datagrams.{
  classify_receive-Keeps, decode_datagram-Keeps,
}
use mosh_client_rs.Session.Driver.Coherence.Closing.{
  deadline-Keeps, request_if_due-Keeps, handle_closing_instruction-Keeps,
}
use mosh_client_rs.Session.Driver.Coherence.Commands.{handle_command-Keeps, emit_output-Keeps}

module _ (p : Platform) (w : ConsumesInput p.wire) where
  closing_instruction-Keeps :
      (r : Round) (o : Option TransportInstruction) (next_send_ms : ℕ) (d : Driver (Terminal p))
      → IsCoherent p d
      → Keeps (IsCoherent p) (closing_instruction p r o next_send_ms d)
  closing_instruction-Keeps r none next_send_ms d i = Keeps-pure p _ d i
  closing_instruction-Keeps r (some x) next_send_ms d i =
      handle_closing_instruction-Keeps p r x next_send_ms d i

  closing_datagram-Keeps :
      (r : Round) (o : Option Datagram) (next_send_ms : ℕ) (d : Driver (Terminal p))
      → IsCoherent p d
      → Keeps (IsCoherent p) (closing_datagram p r o next_send_ms d)
  closing_datagram-Keeps r none next_send_ms d i = Keeps-pure p _ d i
  closing_datagram-Keeps r (some (from_server, bytes)) next_send_ms d i =
      Keeps-and_then p _ _ (decode_datagram-Keeps p w from_server bytes r.datagram_elapsed d i)
        λ o e _ c. closing_instruction-Keeps r o next_send_ms e c

  handle_closing_wake-Keeps :
      (r : Round) (x : Wake) (next_send_ms : ℕ) (d : Driver (Terminal p))
      → IsCoherent p d
      → Keeps (IsCoherent p) (handle_closing_wake p r x next_send_ms d)
  unfolding handle_closing_wake
  handle_closing_wake-Keeps r (command c) next_send_ms d i =
      Keeps-and_then p _ _ (handle_command-Keeps p c r.instruction_elapsed d i)
        λ _ e _ k. Keeps-pure p _ e k
  handle_closing_wake-Keeps r (datagram result) next_send_ms d i =
      Keeps-and_then p _ _ (classify_receive-Keeps p result r.failed_elapsed d i)
        λ received e _ c. closing_datagram-Keeps r received next_send_ms e c
  handle_closing_wake-Keeps r output_permit next_send_ms d i =
      Keeps-and_then p _ _ (emit_output-Keeps p d i) λ _ e _ k. Keeps-pure p _ e k
  handle_closing_wake-Keeps r owner_gone next_send_ms d i = Keeps-pure p _ d i
  handle_closing_wake-Keeps r wake_cancelled next_send_ms d i = Keeps-pure p _ d i
  handle_closing_wake-Keeps r graceful_close next_send_ms d i = Keeps-pure p _ d i
  handle_closing_wake-Keeps r timer next_send_ms d i = Keeps-pure p _ d i

  local_wait-Keeps :
      (deadline_ms now : ℕ) (r : Round) (l : Local) (d : Driver (Terminal p))
      → IsCoherent p d
      → Keeps (IsCoherent p) (local_wait p deadline_ms now r l d)
  local_wait-Keeps deadline_ms now r (exits exit) d i = Keeps-pure p _ d i
  local_wait-Keeps deadline_ms now r (goes_on next_send_ms) d i =
      Keeps-and_then p _ _
        (reject_if-Keeps p
          (not (r.is_representable (local_wake_ms p deadline_ms next_send_ms now d)))
          clock_exhausted d tt i)
        λ _ e _ c. handle_closing_wake-Keeps r r.wake next_send_ms e c

  local_round_at-Keeps :
      (deadline_ms next_send_ms now : ℕ) (r : Round) (d : Driver (Terminal p))
      → IsCoherent p d
      → Keeps (IsCoherent p) (local_round_at p deadline_ms next_send_ms now r d)
  unfolding local_round_at
  local_round_at-Keeps deadline_ms next_send_ms now r d i =
      elim (Bool-cases (leb deadline_ms now)) [
        | inl over ↦ rw over (Keeps-pure p _ d i)
        | inr before ↦ rw before (
            Keeps-and_then p _ _ (request_if_due-Keeps p r now next_send_ms d i)
              λ l e _ c. local_wait-Keeps deadline_ms now r l e c)
      ]

  local_round-Keeps :
      (deadline_ms next_send_ms : ℕ) (r : Round) (d : Driver (Terminal p))
      → IsCoherent p d
      → Keeps (IsCoherent p) (local_round p deadline_ms next_send_ms r d)
  unfolding local_round
  local_round-Keeps deadline_ms next_send_ms r d i = elim (Bool-cases r.is_cancelled) [
    | inl stop ↦ rw stop (Keeps-pure p _ d i)
    | inr go_on ↦ rw go_on (
        Keeps-and_then p _ _ (clock-Keeps p r.elapsed d i)
          λ now e _ c. local_round_at-Keeps deadline_ms next_send_ms now _ e c)
  ]

  unless_exits-Keeps :
      (stood : Local) (go_on : ℕ → D (Terminal p) Local)
      → ((next : ℕ) (e : Driver (Terminal p))
          → IsCoherent p e
          → Keeps (IsCoherent p) (go_on next e))
      → (d : Driver (Terminal p)) → IsCoherent p d
      → Keeps (IsCoherent p) (unless_exits p stood go_on d)
  unless_exits-Keeps (exits exit) go_on k d i = Keeps-pure p _ d i
  unless_exits-Keeps (goes_on next) go_on k d i = k next d i

  local_rounds-Keeps :
      (deadline_ms next_send_ms : ℕ) (rs : List Round) (d : Driver (Terminal p))
      → IsCoherent p d
      → Keeps (IsCoherent p) (local_rounds p deadline_ms next_send_ms rs d)
  unfolding local_rounds
  local_rounds-Keeps deadline_ms next_send_ms [] d i = Keeps-pure p _ d i
  local_rounds-Keeps deadline_ms next_send_ms (r ∷ rs) d i =
      Keeps-and_then p _ _ (local_round-Keeps deadline_ms next_send_ms r d i) λ stood e _ c.
        unless_exits-Keeps stood _ (λ next f k. local_rounds-Keeps deadline_ms next rs f k) e c

  pub run_local_shutdown-Keeps :
      (elapsed : ℕ) (rs : List Round) (d : Driver (Terminal p))
      → IsCoherent p d
      → Keeps (IsCoherent p) (run_local_shutdown p elapsed rs d)
  unfolding run_local_shutdown
  run_local_shutdown-Keeps elapsed rs d i =
      Keeps-and_then p _ _ (clock-Keeps p elapsed d i) λ started e1 _ c1.
        Keeps-and_then p _ _ (deadline-Keeps p started graceful_close_ack_timeout_ms e1 c1)
          λ deadline e2 _ c2. local_rounds-Keeps deadline started rs e2 c2
