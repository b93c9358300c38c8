-- ===== src/Session/Driver/Coherence/Datagrams.antt =====
-- Whatever bytes arrive, and whatever the socket answers.
use mosh_client_rs.Prelude.{
  ◌≡◌, refl, ℕ, Bool, Option, none, some, List, Result, ok, err, try, ◌&&◌, Bool-cases, inl, inr,
  checked_add,
}
use mosh_client_rs.Packet.Window.{PacketError}
use mosh_client_rs.Packet.Codec.{OpenedPacket, receive_from}
use mosh_client_rs.Fragment.Codec.{decode}
use mosh_client_rs.Fragment.Reassembly.{ReassemblyOutcome, pending, duplicate, complete, push}
use mosh_client_rs.Instruction.Message.{TransportInstruction, is_shutdown}
use mosh_client_rs.Instruction.Encoding.{decode_zlib, decode_message}
use mosh_client_rs.Instruction.Termination.{ConsumesInput, decode_zlib_total}
use mosh_client_rs.Timing.Datagram.{observe_received}
use mosh_client_rs.Session.Errors.{
  ErrorKind, instruction, fragment, is_recoverable_established_io_error,
}
use mosh_client_rs.Session.Driver.State.{Platform, Terminal, Driver, is_active}
use mosh_client_rs.Session.Driver.Sending.{io_retry_ms}
use mosh_client_rs.Session.Driver.Receiving.{
  defer_receive, classify_receive, from_fuel, completed, read_packet, after_open, is_dropped,
  decode_datagram, handle_instruction, handle_datagram, continue, remote_shutdown,
}
use mosh_client_rs.Session.Driver.Outcome.{IsExternalResult, Ends, Keeps}
use mosh_client_rs.Session.Driver.Coherence.{
  IsCoherent, Keeps-and_then, Keeps-pure, external, from_error-IsExternal, on_timing-Keeps,
  on_reassembler-Keeps, lift-Keeps,
}
use mosh_client_rs.Session.Driver.Coherence.Sending.{clock-Keeps}
use mosh_client_rs.Session.Driver.Coherence.Receiving.{
  handle_normal_instruction-Keeps, handle_remote_shutdown-Keeps,
}

module _ (p : Platform) where
  defer_receive-Keeps :
      (now : ℕ) (d : Driver (Terminal p))
      → IsCoherent p d
      → Keeps (IsCoherent p) (defer_receive now d)
  unfolding defer_receive Ends
  defer_receive-Keeps now d i = go (checked_add now (io_retry_ms d)) refl
    where
      go :
          (o : Option ℕ)
          → checked_add now (io_retry_ms d) ≡ o
          → Keeps (IsCoherent p) (defer_receive now d)
      go none e = rw e tt
      go (some n) e = rw e i

  pub classify_receive-Keeps :
      {A : Type 0} (r : Result ErrorKind A) (elapsed : ℕ) (d : Driver (Terminal p))
      → IsCoherent p d
      → Keeps (IsCoherent p) (classify_receive r elapsed d)
  unfolding classify_receive
  classify_receive-Keeps (ok received) elapsed d i = Keeps-pure p (some received) _ i
  classify_receive-Keeps (err kind) elapsed d i =
      elim (Bool-cases (is_active d.session_state && is_recoverable_established_io_error kind)) [
        | inl later ↦ rw later (
            Keeps-and_then p _ _ (clock-Keeps p elapsed d i) λ now e _ c.
              Keeps-and_then p _ _ (defer_receive-Keeps now e c) λ _ f _ c'. Keeps-pure p none f c')
        | inr fatal ↦ rw fatal (unfold Ends in tt)
      ]

  module _ (w : ConsumesInput p.wire) where
    decoded : (bytes : List ℕ) → IsExternalResult (from_fuel (decode_zlib p.wire bytes))
    decoded bytes = elim (decode_zlib_total p.wire w bytes) [
      | inl (over, e) ↦ rw e tt
      | inr (under, (r, returns, small, e)) ↦
          rw e (from_error-IsExternal instruction (try r (decode_message p.wire)) (λ x. tt))
    ]

    completed-Keeps :
        (o : ReassemblyOutcome) (d : Driver (Terminal p))
        → IsCoherent p d
        → Keeps (IsCoherent p) (completed p o d)
    completed-Keeps pending d i = Keeps-pure p none d i
    completed-Keeps duplicate d i = Keeps-pure p none d i
    completed-Keeps (complete bytes) d i =
        Keeps-and_then p _ _
          (lift-Keeps p (from_fuel (decode_zlib p.wire bytes)) d (decoded bytes) i)
          λ i' e _ c. Keeps-pure p (some i') e c

    read_packet-Keeps :
        (opened : OpenedPacket) (now : ℕ) (d : Driver (Terminal p))
        → IsCoherent p d
        → Keeps (IsCoherent p) (read_packet p opened now d)
    unfolding read_packet
    read_packet-Keeps opened now d i =
        Keeps-and_then p _ _ (external p fragment (decode opened.plaintext) d (λ x. tt) i)
          λ f e1 _ c1.
            Keeps-and_then p _ _
              (on_timing-Keeps p
                (observe_received opened.sequence f.timestamp f.timestamp_reply now) e1 c1)
              λ _ e2 _ c2.
                Keeps-and_then p _ _ (on_reassembler-Keeps p (push now f) e2 c2)
                  λ outcome e3 _ c3. completed-Keeps outcome e3 c3

    after_open-Keeps :
        (r : Result PacketError OpenedPacket) (now : ℕ) (d : Driver (Terminal p))
        → IsCoherent p d
        → Keeps (IsCoherent p) (after_open p r now d)
    after_open-Keeps (ok opened) now d i = read_packet-Keeps opened now d i
    after_open-Keeps (err e) now d i = elim (Bool-cases (is_dropped e)) [
      | inl dropped ↦ rw dropped (Keeps-pure p none d i)
      | inr refused ↦ rw refused (unfold Ends in tt)
    ]

    pub decode_datagram-Keeps :
        (from_server : Bool) (bytes : List ℕ) (elapsed : ℕ) (d : Driver (Terminal p))
        → IsCoherent p d
        → Keeps (IsCoherent p) (decode_datagram p from_server bytes elapsed d)
    unfolding decode_datagram
    decode_datagram-Keeps from_server bytes elapsed d i =
        Keeps-and_then p _ _ (clock-Keeps p elapsed d i) λ now e _ c.
          after_open-Keeps (receive_from p.crypto from_server bytes e.packet_receiver).1 now _ c

    handle_instruction-Keeps :
        (o : Option TransportInstruction) (elapsed : ℕ) (d : Driver (Terminal p))
        → IsCoherent p d
        → Keeps (IsCoherent p) (handle_instruction p o elapsed d)
    handle_instruction-Keeps none elapsed d i = Keeps-pure p continue d i
    handle_instruction-Keeps (some i') elapsed d i = elim (Bool-cases (is_shutdown i')) [
      | inl last ↦ rw last (
          Keeps-and_then p _ _ (handle_remote_shutdown-Keeps p i' d i)
            λ _ e _ c. Keeps-pure p remote_shutdown e c)
      | inr normal ↦ rw normal (
          Keeps-and_then p _ _ (handle_normal_instruction-Keeps p i' elapsed d i)
            λ _ e _ c. Keeps-pure p continue e c)
    ]

    pub handle_datagram-Keeps :
        (from_server : Bool) (bytes : List ℕ) (elapsed later : ℕ) (d : Driver (Terminal p))
        → IsCoherent p d
        → Keeps (IsCoherent p) (handle_datagram p from_server bytes elapsed later d)
    unfolding handle_datagram
    handle_datagram-Keeps from_server bytes elapsed later d i =
        Keeps-and_then p _ _ (decode_datagram-Keeps from_server bytes elapsed d i)
          λ o e _ c. handle_instruction-Keeps o later e c
