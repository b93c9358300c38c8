-- ===== src/Session/Driver/State.antt =====
-- session/driver.rs: the state of `SessionDriver`, and how its methods call the components. The
-- channels are fields: what was sent to the socket and to the output, in order, and the values that
-- were published.
use mosh_client_rs.Prelude.{
  ℕ, Bool, true, false, Option, none, some, List, [], ◌∷◌, Unit0, M, Result, ok, err, try, leb, ltb,
  ◌==◌, if◌then◌else◌, u64_max, modify, pure,
}
use mosh_client_rs.Packet.Window.{SendSequence, new_sequence, PacketError}
use mosh_client_rs.Packet.Codec.{PacketReceiver, new_receiver, server_to_client, SessionCrypto}
use mosh_client_rs.Fragment.Reassembly.{FragmentReassembler, new_reassembler, ReassemblyError}
use mosh_client_rs.Instruction.Encoding.{WireFormat}
use mosh_client_rs.Instruction.Message.{resize}
use mosh_client_rs.Synchronization.State.{SynchronizationState, SynchronizationError, new}
use mosh_client_rs.Synchronization.Sender.{advance_local}
use mosh_client_rs.Timing.Rtt.{TimingError}
use mosh_client_rs.Timing.Datagram.{DatagramTiming, new_timing}
use mosh_client_rs.Timing.Scheduler.{SendScheduler, new_scheduler, note_local_change}
use mosh_client_rs.Terminal.Screen.{TerminalLibrary, TerminalError}
use mosh_client_rs.Terminal.State.{
  TerminalState, with_predicted_ascii, display_equivalent, new as new_terminal,
}
use mosh_client_rs.Prediction.State.{
  TerminalInterface, PredictionMode, LocalPrediction, Failure, new_prediction,
}
use mosh_client_rs.Session.Reachability.{
  ReachabilityTracker, ReachabilityError, SessionReachability, awaiting_peer, new_tracker,
}
use mosh_client_rs.Session.History.{ClientHistory, HistoryError, new_history, append, checkpoint}
use mosh_client_rs.Session.Errors.{
  DriverError, packet, reassembly, synchronization, timing, reachability, terminal, clock_exhausted,
  from_history, from_failure,
}

-- The code that the driver calls and that is not modelled.
pub record Platform : Type 1 where
  pub library : TerminalLibrary
  pub wire : WireFormat
  pub crypto : SessionCrypto

-- The terminal, as the predictions use it.
abbrev pub prediction_terminal : TerminalLibrary → TerminalInterface
prediction_terminal l = record {
  TerminalState = TerminalState l;
  TerminalError = TerminalError;
  with_predicted_ascii = with_predicted_ascii l;
  display_equivalent = display_equivalent l;
  echo_acknowledgement = λ s. s.last_echo;
}

pub data SessionState : Type 0 where
  connecting active closed : SessionState

abbrev pub is_active : SessionState → Bool
is_active active = true
is_active _ = false

abbrev pub is_connecting : SessionState → Bool
is_connecting connecting = true
is_connecting _ = false

-- `BTreeMap<u64, TerminalState>`, in the order of its keys.
abbrev pub TerminalMap : Type 0 → Type 0
TerminalMap S = List (ℕ × S)

module _ {S : Type 0} where
  abbrev pub lookup_terminal : ℕ → TerminalMap S → Option S
  lookup_terminal n [] = none
  lookup_terminal n ((k, s) ∷ m) = if k == n then some s else lookup_terminal n m

  abbrev pub insert_terminal : ℕ → S → TerminalMap S → TerminalMap S
  insert_terminal n s [] = (n, s) ∷ []
  insert_terminal n s ((k, t) ∷ m) =
      if ltb n k
      then (n, s) ∷ (k, t) ∷ m
      else if n == k
      then (n, s) ∷ m
      else (k, t) ∷ insert_terminal n s m

  abbrev pub remove_terminal : ℕ → TerminalMap S → TerminalMap S
  remove_terminal n [] = []
  remove_terminal n ((k, t) ∷ m) = if n == k then m else (k, t) ∷ remove_terminal n m

pub record Driver (S : Type 0) : Type 0 where
  pub packet_receiver : PacketReceiver
  pub send_sequence : SendSequence
  pub fragment_identifier : Option ℕ
  pub reassembler : FragmentReassembler
  pub sync : SynchronizationState
  pub scheduler : SendScheduler
  pub datagram_timing : DatagramTiming
  pub client_history : ClientHistory
  pub terminal_states : TerminalMap S
  pub prediction : LocalPrediction S
  pub painted_state : Option S
  pub output_requested : Bool
  pub force_full_repaint : Bool
  pub receive_not_before_ms : ℕ
  pub session_state : SessionState
  pub tracker : ReachabilityTracker
  pub published : SessionReachability
  pub final_terminal : Option S
  -- The datagrams that the socket was given, and the chunks of output, the last one first.
  pub socket : List (List ℕ)
  pub output : List (List ℕ)

-- `now_ms`, at the milliseconds since the start.
unfoldable pub now_ms : ℕ → Result DriverError ℕ
now_ms elapsed = if leb elapsed u64_max then ok elapsed else err clock_exhausted

-- `map_err(DriverError::from)?` on a result.
abbrev pub from_error : {E A : Type 0} → (E → DriverError) → Result E A → Result DriverError A
from_error f (ok a) = ok a
from_error f (err e) = err (f e)

-- A method of the driver.
abbrev pub D : Type 0 → Type 0 → Type 0
D S A = M (Driver S) DriverError A

module _ {S : Type 0} where
  -- A call of a method of a component, with `?`.
  abbrev pub on_sync : {A : Type 0} → M SynchronizationState SynchronizationError A → D S A
  on_sync m d = let (s, r) = m d.sync in (record d { sync = s }, from_error synchronization r)

  abbrev pub on_scheduler : {A : Type 0} → M SendScheduler TimingError A → D S A
  on_scheduler m d = let (s, r) = m d.scheduler in (record d { scheduler = s }, from_error timing r)

  abbrev pub on_timing : {A : Type 0} → M DatagramTiming TimingError A → D S A
  on_timing m d =
      let (s, r) = m d.datagram_timing in (record d { datagram_timing = s }, from_error timing r)

  abbrev pub on_history : {A : Type 0} → M ClientHistory HistoryError A → D S A
  on_history m d =
      let (s, r) = m d.client_history in
      (record d { client_history = s }, from_error from_history r)

  abbrev pub on_reassembler : {A : Type 0} → M FragmentReassembler ReassemblyError A → D S A
  on_reassembler m d =
      let (s, r) = m d.reassembler in (record d { reassembler = s }, from_error reassembly r)

  abbrev pub on_tracker : {A : Type 0} → M ReachabilityTracker ReachabilityError A → D S A
  on_tracker m d = let (s, r) = m d.tracker in (record d { tracker = s }, from_error reachability r)

  abbrev pub on_sequence : {A : Type 0} → M SendSequence PacketError A → D S A
  on_sequence m d =
      let (s, r) = m d.send_sequence in (record d { send_sequence = s }, from_error packet r)

  abbrev pub on_prediction : {A : Type 0} → M (LocalPrediction S) (Failure TerminalError) A → D S A
  on_prediction m d =
      let (s, r) = m d.prediction in (record d { prediction = s }, from_error from_failure r)

  -- A step under a test.
  abbrev pub when : Bool → D S Unit0 → D S Unit0
  when b m = if b then m else pure tt

  abbrev pub request_output : D S Unit0
  request_output = modify (λ d. record d { output_requested = true })

module _ (p : Platform) where
  abbrev pub Terminal : Type 0
  Terminal = TerminalState p.library

  -- `connect`, but for the socket and the channels.
  unfoldable pub connect :
      (columns rows : ℕ) → PredictionMode → Result DriverError (Driver Terminal)
  connect columns rows mode =
      try (from_error terminal (new_terminal p.library columns rows)) λ initial.
        let (history, appended) = append p.wire (resize columns rows) new_history in
        try (from_error from_history appended) λ _.
          let (sync, advanced) = advance_local new in
          try (from_error synchronization advanced) λ initial_state.
            let (scheduler, noted) = note_local_change 0 (new_scheduler 0) in
            try (from_error timing noted) λ _. ok (record {
              packet_receiver = new_receiver server_to_client;
              send_sequence = new_sequence;
              fragment_identifier = some 0;
              reassembler = new_reassembler 0;
              sync = sync;
              scheduler = scheduler;
              datagram_timing = new_timing 0;
              client_history = checkpoint initial_state history;
              terminal_states = (0, initial) ∷ [];
              prediction = new_prediction mode;
              painted_state = none;
              output_requested = false;
              force_full_repaint = false;
              receive_not_before_ms = 0;
              session_state = connecting;
              tracker = new_tracker;
              published = awaiting_peer;
              final_terminal = none;
              socket = [];
              output = [];
            })
