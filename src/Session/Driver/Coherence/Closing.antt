-- ===== src/Session/Driver/Coherence/Closing.antt =====
-- The end of a session keeps the driver coherent and meets no internal error.
use mosh_client_rs.Prelude.{
  ℕ, Bool, true, false, ◌||◌, Option, none, some, ok_or, lift, pure, leb, ◌==◌, checked_add,
  Bool-cases, inl, inr, if◌then◌else◌,
}
use mosh_client_rs.Instruction.Message.{TransportInstruction, is_shutdown, shutdown_state}
use mosh_client_rs.Session.Errors.{clock_exhausted}
use mosh_client_rs.Session.Driver.State.{Platform, Terminal, Driver}
use mosh_client_rs.Session.Driver.Sending.{
  TransportSendOutcome, sent, cancelled, deferred, io_retry_ms,
}
use mosh_client_rs.Session.Driver.Receiving.{ordinary}
use mosh_client_rs.Session.Driver.Closing.{
  SessionExit, local_closed, exit_cancelled, Permit, granted, cancel_changed, canceller_dropped,
  consumer_dropped, Round, exits, end_with, finish_graceful_close, next_send, request_if_due,
  close_or_go_on, is_some, handle_closing_instruction,
}
use mosh_client_rs.Session.Driver.Outcome.{IsExternalResult, Keeps}
use mosh_client_rs.Session.Driver.Coherence.{IsCoherent, Keeps-and_then, Keeps-pure, lift-Keeps}
use mosh_client_rs.Session.Driver.Coherence.Sending.{
  clock-Keeps, send_shutdown_request-Keeps, send_shutdown_acknowledgement-Keeps,
}
use mosh_client_rs.Session.Driver.Coherence.Receiving.{
  handle_normal_instruction-Keeps, handle_remote_shutdown-Keeps,
}
use mosh_client_rs.Session.Driver.Coherence.Commands.{emit_output-Keeps}

module _ (p : Platform) where
  end_with-Keeps :
      (exit : SessionExit) (permit : Permit) (d : Driver (Terminal p))
      → IsCoherent p d
      → Keeps (IsCoherent p) (end_with p exit permit d)
  end_with-Keeps exit granted d i =
      Keeps-and_then p _ _ (emit_output-Keeps p d i) λ _ e _ c. Keeps-pure p exit e c
  end_with-Keeps exit cancel_changed d i = Keeps-pure p _ d i
  end_with-Keeps exit canceller_dropped d i = Keeps-pure p _ d i
  end_with-Keeps exit consumer_dropped d i = Keeps-pure p _ d i

  pub finish_graceful_close-Keeps :
      (exit : SessionExit) (is_cancelled : Bool) (permit : Permit) (d : Driver (Terminal p))
      → IsCoherent p d
      → Keeps (IsCoherent p) (finish_graceful_close p exit is_cancelled permit d)
  unfolding finish_graceful_close
  finish_graceful_close-Keeps exit true permit d i = elim (Bool-cases d.output_requested) [
    | inl wanted ↦ rw wanted (Keeps-pure p _ _ i)
    | inr nothing ↦ rw nothing (Keeps-pure p _ _ i)
  ]
  finish_graceful_close-Keeps exit false permit d i = elim (Bool-cases d.output_requested) [
    | inl wanted ↦ rw wanted (end_with-Keeps exit permit _ i)
    | inr nothing ↦ rw nothing (Keeps-pure p _ _ i)
  ]

  -- A deadline that the clock cannot hold is an error from outside.
  pub deadline-Keeps :
      (now delay : ℕ) (d : Driver (Terminal p))
      → IsCoherent p d
      → Keeps (IsCoherent p) (lift (ok_or (checked_add now delay) clock_exhausted) d)
  deadline-Keeps now delay d i = lift-Keeps p _ d (go (checked_add now delay)) i
    where
      go : (o : Option ℕ) → IsExternalResult (ok_or o clock_exhausted)
      go none = tt
      go (some n) = tt

  next_send-Keeps :
      (now failed_elapsed : ℕ) (o : TransportSendOutcome) (d : Driver (Terminal p))
      → IsCoherent p d
      → Keeps (IsCoherent p) (next_send p now failed_elapsed o d)
  next_send-Keeps now failed_elapsed sent d i =
      Keeps-and_then p _ _
        (deadline-Keeps now d.datagram_timing.estimator.retransmission_timeout_ms d i)
        λ next e _ c. Keeps-pure p _ e c
  next_send-Keeps now failed_elapsed cancelled d i = Keeps-pure p _ d i
  next_send-Keeps now failed_elapsed deferred d i =
      Keeps-and_then p _ _ (clock-Keeps p failed_elapsed d i) λ failed_at e _ c.
        Keeps-and_then p _ _ (deadline-Keeps failed_at (io_retry_ms e) e c)
          λ next f _ c'. Keeps-pure p _ f c'

  pub request_if_due-Keeps :
      (r : Round) (now next_send_ms : ℕ) (d : Driver (Terminal p))
      → IsCoherent p d
      → Keeps (IsCoherent p) (request_if_due p r now next_send_ms d)
  unfolding request_if_due
  request_if_due-Keeps r now next_send_ms d i = elim (Bool-cases (leb next_send_ms now)) [
    | inl due ↦ rw due (
        Keeps-and_then p _ _ (send_shutdown_request-Keeps p r.network now d i)
          λ o e _ c. next_send-Keeps now r.after_send_elapsed o e c)
    | inr early ↦ rw early (Keeps-pure p _ d i)
  ]

  close_or_go_on-Keeps :
      (r : Round) (acknowledged : Bool) (next_send_ms : ℕ) (d : Driver (Terminal p))
      → IsCoherent p d
      → Keeps (IsCoherent p) (close_or_go_on p r acknowledged next_send_ms d)
  close_or_go_on-Keeps r acknowledged next_send_ms d i =
      elim (Bool-cases (acknowledged || is_some p d.final_terminal)) [
        | inl closes ↦ rw closes (
            Keeps-and_then p _ _
              (finish_graceful_close-Keeps local_closed r.is_cancelled_at_close r.permit d i)
              λ exit e _ c. Keeps-pure p _ e c)
        | inr waits ↦ rw waits (Keeps-pure p _ d i)
      ]

  after_shutdown_acknowledgement-Keeps :
      (r : Round) (acknowledged goes : Bool) (next_send_ms : ℕ) (d : Driver (Terminal p))
      → IsCoherent p d
      → Keeps (IsCoherent p) (
          (if goes
              then close_or_go_on p r acknowledged next_send_ms
              else pure (exits exit_cancelled))
            d)
  after_shutdown_acknowledgement-Keeps r acknowledged true next_send_ms d i =
      close_or_go_on-Keeps r acknowledged next_send_ms d i
  after_shutdown_acknowledgement-Keeps r acknowledged false next_send_ms d i = Keeps-pure p _ d i

  pub handle_closing_instruction-Keeps :
      (r : Round) (instruction : TransportInstruction) (next_send_ms : ℕ) (d : Driver (Terminal p))
      → IsCoherent p d
      → Keeps (IsCoherent p) (handle_closing_instruction p r instruction next_send_ms d)
  unfolding handle_closing_instruction
  handle_closing_instruction-Keeps r instruction next_send_ms d i =
      elim (Bool-cases (is_shutdown instruction)) [
        | inl last ↦ rw last (
            Keeps-and_then p _ _ (handle_remote_shutdown-Keeps p instruction d i) λ _ e1 _ c1.
              Keeps-and_then p _ _ (clock-Keeps p r.closing_elapsed e1 c1) λ now e2 _ c2.
                Keeps-and_then p _ _
                  (send_shutdown_acknowledgement-Keeps p r.close_network now e2 c2)
                  λ goes e3 _ c3.
                    after_shutdown_acknowledgement-Keeps r
                      (instruction.acknowledged_state == shutdown_state) goes next_send_ms e3 c3)
        | inr normal ↦ rw normal (
            Keeps-and_then p _ _
              (handle_normal_instruction-Keeps p (ordinary p instruction d) r.instruction_elapsed d
                i)
              λ _ e _ c. close_or_go_on-Keeps r _ next_send_ms e c)
      ]
