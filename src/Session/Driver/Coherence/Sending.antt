-- ===== src/Session/Driver/Coherence/Sending.antt =====
-- Whatever the network answers, sending keeps the driver coherent and meets no internal error.
use mosh_client_rs.Prelude.{
  leb, u64_max, ◌≡◌, refl, ap, sym, subst, ℕ, suc, true, false, Option, none, some, List, [], ◌∷◌,
  Result, ok, err, lift, ltb, ◌==◌, ◌&&◌, length, Bool-cases, inl, inr,
}
use mosh_client_rs.Session.Errors.{
  DriverError, ErrorKind, from_history, fragment, packet, instruction,
  fragment_identifier_exhausted, is_recoverable_established_io_error,
}
use mosh_client_rs.Session.Driver.State.{
  Platform, Terminal, Driver, D, from_error, is_active, now_ms,
}
use mosh_client_rs.Synchronization.State.{SendPlan, instruction as plan_instruction}
use mosh_client_rs.Timing.Scheduler.{WakePlan, defer_send, commit_send as commit_wake}
use mosh_client_rs.Session.History.{difference}
use mosh_client_rs.Session.Driver.Coherence.Planning.{
  IsKnown, plan_or_advance-Ends, plan_send-Ends, known-difference, commit_plan-Keeps,
  advance_checkpoint-Keeps,
}
use mosh_client_rs.Session.Driver.Sending.{
  Network, TransportSendOutcome, handed_over, send_fragments, send_transport_instruction,
  take_identifier, fragment_of, sent, cancelled, deferred, defer_temporary_send, after_send,
  send_instruction, send_shutdown_request, send_shutdown_acknowledgement, after_acknowledgement,
  io_retry_ms, initial_chaff,
}
use mosh_client_rs.Instruction.Message.{TransportInstruction}
use mosh_client_rs.Timing.Datagram.{OutgoingTimestamps, outgoing}
use mosh_client_rs.Packet.Codec.{seal, client_to_server}
use mosh_client_rs.Fragment.Codec.{encode}
use mosh_client_rs.Limits.{max_datagram_bytes}
use mosh_client_rs.Instruction.Encoding.{encode_zlib}
use mosh_client_rs.Packet.Window.{take_sequence}
use mosh_client_rs.Session.Driver.Outcome.{IsExternalResult, Ends, Ends-and_then, Keeps}
use mosh_client_rs.Session.Driver.Coherence.{
  IsCoherent, Keeps-and_then, Keeps-pure, reject_if-Keeps, external, on_scheduler-Keeps,
  on_timing-Keeps, on_sequence-Keeps, lift-Keeps,
}

module _ (p : Platform) where
  pub clock-Keeps :
      (elapsed : ℕ) (d : Driver (Terminal p))
      → IsCoherent p d
      → Keeps (IsCoherent p) (lift (now_ms elapsed) d)
  unfolding now_ms Ends
  clock-Keeps elapsed d i = elim (Bool-cases (leb elapsed u64_max)) [
    | inl fits ↦ rw fits i
    | inr late ↦ rw late tt
  ]

  take_identifier-Keeps :
      (d : Driver (Terminal p)) → IsCoherent p d → Keeps (IsCoherent p) (take_identifier d)
  unfolding take_identifier Ends
  take_identifier-Keeps d i = go d.fragment_identifier refl
    where
      go : (o : Option ℕ) → d.fragment_identifier ≡ o → Keeps (IsCoherent p) (take_identifier d)
      go none e = rw e tt
      go (some n) e = rw e i

  handed_over-Keeps :
      (datagram : List ℕ) (r : Result ErrorKind ℕ) (rest : D (Terminal p) TransportSendOutcome)
      (d : Driver (Terminal p))
      → IsCoherent p d
      → ((e : Driver (Terminal p)) → IsCoherent p e → Keeps (IsCoherent p) (rest e))
      → Keeps (IsCoherent p) (handed_over datagram r rest d)
  unfolding handed_over Ends
  handed_over-Keeps datagram (err kind) rest d i k =
      elim (Bool-cases (is_active d.session_state && is_recoverable_established_io_error kind)) [
        | inl later ↦ rw later i
        | inr fatal ↦ rw fatal tt
      ]
  handed_over-Keeps datagram (ok count) rest d i k = elim (Bool-cases (count == length datagram)) [
    | inl whole ↦ rw whole (k _ i)
    | inr partly ↦ rw partly tt
  ]

  module _ (n : Network) where
    send_fragments-Keeps :
        (t : OutgoingTimestamps) (identifier count number : ℕ) (bodies : List (List ℕ))
        (d : Driver (Terminal p))
        → IsCoherent p d
        → Keeps (IsCoherent p) (send_fragments p n t identifier count number bodies d)
    unfolding send_fragments
    send_fragments-Keeps t identifier count number [] d i = Keeps-pure p _ d i
    send_fragments-Keeps t identifier count number (body ∷ bodies) d i =
        elim (Bool-cases (n.is_cancelled number)) [
          | inl stop ↦ rw stop (Keeps-pure p _ d i)
          | inr go_on ↦ rw go_on (
              Keeps-and_then p _ _
                (reject_if-Keeps p (ltb 65535 number) fragment_identifier_exhausted d tt i)
                λ _ e1 _ i1.
                  Keeps-and_then p _ _
                    (external p fragment
                      (encode (fragment_of t identifier count number body) max_datagram_bytes) e1
                      (λ x. tt) i1)
                    λ plaintext e2 _ i2.
                      Keeps-and_then p _ _ (on_sequence-Keeps p take_sequence e2 i2)
                        λ sequence e3 _ i3.
                          Keeps-and_then p _ _
                            (external p packet
                              (seal p.crypto client_to_server sequence plaintext max_datagram_bytes)
                              e3 (λ x. tt) i3)
                            λ datagram e4 _ i4.
                              handed_over-Keeps datagram (n.send_to number datagram) _ e4 i4
                                (send_fragments-Keeps t identifier count (suc number) bodies))
        ]

    send_transport_instruction-Keeps :
        (i : TransportInstruction) (now : ℕ) (d : Driver (Terminal p))
        → IsCoherent p d
        → Keeps (IsCoherent p) (send_transport_instruction p n i now d)
    unfolding send_transport_instruction
    send_transport_instruction-Keeps i now d c =
        Keeps-and_then p _ _ (external p instruction (encode_zlib p.wire i) d (λ x. tt) c)
          λ compressed e1 _ c1.
            Keeps-and_then p _ _ (on_timing-Keeps p (outgoing now) e1 c1) λ timestamps e2 _ c2.
              Keeps-and_then p _ _ (take_identifier-Keeps e2 c2)
                λ identifier e3 _ c3. send_fragments-Keeps timestamps identifier _ 0 _ e3 c3

    defer_temporary_send-Keeps :
        (now : ℕ) (d : Driver (Terminal p))
        → IsCoherent p d
        → Keeps (IsCoherent p) (defer_temporary_send now d)
    unfolding defer_temporary_send
    defer_temporary_send-Keeps now d i = on_scheduler-Keeps p (defer_send now (io_retry_ms d)) d i

    after_send-Keeps :
        (plan : SendPlan) (wake : WakePlan) (elapsed : ℕ) (o : TransportSendOutcome)
        (d : Driver (Terminal p))
        → IsCoherent p d
        → Keeps (IsCoherent p) (after_send p n plan wake elapsed o d)
    after_send-Keeps plan wake elapsed sent d i =
        Keeps-and_then p _ _ (commit_plan-Keeps p plan d i)
          λ _ e _ c. on_scheduler-Keeps p (commit_wake wake) e c
    after_send-Keeps plan wake elapsed cancelled d i = Keeps-pure p tt d i
    after_send-Keeps plan wake elapsed deferred d i =
        Keeps-and_then p _ _ (clock-Keeps elapsed d i)
          λ failed_at e _ c. defer_temporary_send-Keeps failed_at e c

    pub send_instruction-Keeps :
        (wake : WakePlan) (now elapsed : ℕ) (d : Driver (Terminal p))
        → IsCoherent p d
        → Keeps (IsCoherent p) (send_instruction p n wake now elapsed d)
    unfolding send_instruction
    send_instruction-Keeps wake now elapsed d i =
        Ends-and_then (λ plan e. IsKnown p plan.base_state plan.target_state e) (λ _. IsCoherent p)
          _ _ (plan_or_advance-Ends p now d i)
          λ plan e _ k.
            Keeps-and_then p _ _
              (lift-Keeps p
                (from_error from_history
                  (difference p.wire e.client_history plan.base_state plan.target_state))
                e (known-difference p plan.base_state plan.target_state e k) k.coherent)
              λ bytes f _ c.
                Keeps-and_then p _ _
                  (send_transport_instruction-Keeps (plan_instruction plan bytes initial_chaff) now
                    f c)
                  λ o g _ c'. after_send-Keeps plan wake elapsed o g c'

    pub send_shutdown_request-Keeps :
        (now : ℕ) (d : Driver (Terminal p))
        → IsCoherent p d
        → Keeps (IsCoherent p) (send_shutdown_request p n now d)
    unfolding send_shutdown_request
    send_shutdown_request-Keeps now d i =
        Keeps-and_then p _ _
          (lift-Keeps p
            (from_error from_history
              (difference p.wire d.client_history d.sync.known_receiver_state d.sync.local_latest))
            d
            (known-difference p d.sync.known_receiver_state d.sync.local_latest d (record {
              coherent = i;
              base_known = i.numbered.has_known;
              target_known = i.numbered.has_latest;
              in_order = i.valid.sender.known_le;
            }))
            i)
          λ bytes e _ c. send_transport_instruction-Keeps _ now e c

    after_acknowledgement-Keeps :
        (plan : SendPlan) (o : TransportSendOutcome) (d : Driver (Terminal p))
        → IsCoherent p d
        → Keeps (IsCoherent p) (after_acknowledgement p n plan o d)
    after_acknowledgement-Keeps plan sent d i =
        Keeps-and_then p _ _ (commit_plan-Keeps p plan d i) λ _ e _ c. Keeps-pure p true e c
    after_acknowledgement-Keeps plan cancelled d i = Keeps-pure p false d i
    after_acknowledgement-Keeps plan deferred d i = Keeps-pure p true d i

    pub send_shutdown_acknowledgement-Keeps :
        (now : ℕ) (d : Driver (Terminal p))
        → IsCoherent p d
        → Keeps (IsCoherent p) (send_shutdown_acknowledgement p n now d)
    unfolding send_shutdown_acknowledgement
    send_shutdown_acknowledgement-Keeps now d i =
        Keeps-and_then p _ _ (advance_checkpoint-Keeps p d i) λ state e _ c.
          Ends-and_then (λ plan f. IsKnown p plan.base_state plan.target_state f)
            (λ _. IsCoherent p) _ _
            (plan_send-Ends p now e.datagram_timing.estimator.retransmission_timeout_ms e c)
            λ plan f q k.
              Keeps-and_then p _ _
                (lift-Keeps p
                  (from_error from_history
                    (difference p.wire e.client_history plan.base_state plan.target_state))
                  f
                  (subst
                    (λ (x : Driver (Terminal p)). IsExternalResult (
                      from_error from_history
                        (difference p.wire x.client_history plan.base_state plan.target_state)))
                    (sym (ap (λ (r : Driver (Terminal p) × Result DriverError SendPlan). r.0) q))
                    (known-difference p plan.base_state plan.target_state f k))
                  k.coherent)
                λ bytes g _ c'.
                  Keeps-and_then p _ _ (send_transport_instruction-Keeps _ now g c')
                    λ o h _ c''. after_acknowledgement-Keeps plan o h c''
