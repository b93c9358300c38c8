-- ===== src/Session/Driver/Coherence.antt =====
-- The invariant of the driver: its components agree on the state numbers that they share.
pub mod Sending
pub mod Planning
pub mod Synchronizing
pub mod Receiving
pub mod Datagrams
pub mod Commands
pub mod Closing
pub mod Locally
pub mod Running
pub mod Sessions
use mosh_client_rs.Prelude.{
  ◌≡◌, ap, ℕ, lift, ok_or, and_then, reject_if, ◌>>=◌, ◌>>◌, Bool, true, false, Option, none, some,
  Unit0, M, Result, ok, err,
}
use mosh_client_rs.Synchronization.State.{SynchronizationState, SynchronizationError}
use mosh_client_rs.Synchronization.Invariant.{IsValid}
use mosh_client_rs.Timing.Rtt.{TimingError}
use mosh_client_rs.Timing.Datagram.{DatagramTiming}
use mosh_client_rs.Timing.Scheduler.{SendScheduler}
use mosh_client_rs.Packet.Window.{SendSequence, PacketError}
use mosh_client_rs.Fragment.Reassembly.{FragmentReassembler, ReassemblyError}
use mosh_client_rs.Session.Reachability.{ReachabilityTracker, ReachabilityError}
use mosh_client_rs.Prediction.Soundness.{IsSound}
use mosh_client_rs.Session.Errors.{
  DriverError, timing, packet, reassembly, reachability, synchronization, missing_terminal_state,
}
use mosh_client_rs.Session.Driver.State.{
  Platform, Terminal, Driver, D, TerminalMap, lookup_terminal, prediction_terminal, from_error,
  on_scheduler, on_timing, on_reassembler, on_tracker, on_sequence, when, request_output,
}
use mosh_client_rs.Session.Driver.Outcome.{
  IsExternal, IsExternalResult, Ends, Ends-and_then, Keeps, Keeps-from,
}
use mosh_client_rs.Session.Driver.Numbered.{IsNumbered}
use mosh_client_rs.Session.Driver.Stored.{IsStored, IsStored-lookup}
use mosh_client_rs.Session.History.{ClientHistory}
use mosh_client_rs.Synchronization.Receiver.{contains}
use mosh_client_rs.Prediction.State.{LocalPrediction}

pub from_error-IsExternal :
    {E A : Type 0} (f : E → DriverError) (r : Result E A)
    → ((e : E) → IsExternal (f e))
    → IsExternalResult (from_error f r)
from_error-IsExternal f (ok a) h = tt
from_error-IsExternal f (err e) h = h e

module _ (p : Platform) where
  -- The parts that share state numbers.
  pub record Agree (s : SynchronizationState) (h : ClientHistory) (m : TerminalMap (Terminal p))
      (q : LocalPrediction (Terminal p)) : Type 0 where
    pub valid : IsValid s
    pub numbered : IsNumbered s h
    pub stored : IsStored s m
    pub predicts : IsSound (prediction_terminal p.library) q

  abbrev pub IsCoherent : Driver (Terminal p) → Type 0
  IsCoherent d = Agree d.sync d.client_history d.terminal_states d.prediction

  pub Keeps-and_then :
      {A B : Type 0} (r : Driver (Terminal p) × Result DriverError A) (f : A → D (Terminal p) B)
      → Keeps IsCoherent r
      → ((a : A) (e : Driver (Terminal p))
          → r ≡ (e, ok a)
          → IsCoherent e
          → Keeps IsCoherent (f a e))
      → Keeps IsCoherent (and_then r f)
  Keeps-and_then r f h k = Ends-and_then (λ _. IsCoherent) (λ _. IsCoherent) r f h k

  pub Keeps-pure :
      {A : Type 0} (a : A) (d : Driver (Terminal p)) → IsCoherent d → Keeps IsCoherent (d, ok a)
  unfolding Ends
  Keeps-pure a d i = i

  pub reject_if-Keeps :
      (b : Bool) (e : DriverError) (d : Driver (Terminal p))
      → IsExternal e
      → IsCoherent d
      → Keeps IsCoherent (reject_if b e d)
  unfolding Ends
  reject_if-Keeps true e d x i = x
  reject_if-Keeps false e d x i = i

  pub on_scheduler-Keeps :
      {A : Type 0} (m : M SendScheduler TimingError A) (d : Driver (Terminal p))
      → IsCoherent d
      → Keeps IsCoherent (on_scheduler m d)
  on_scheduler-Keeps m d i =
      Keeps-from IsCoherent (on_scheduler m d)
        (from_error-IsExternal timing (m d.scheduler).1 (λ e. tt)) i

  pub on_timing-Keeps :
      {A : Type 0} (m : M DatagramTiming TimingError A) (d : Driver (Terminal p))
      → IsCoherent d
      → Keeps IsCoherent (on_timing m d)
  on_timing-Keeps m d i =
      Keeps-from IsCoherent (on_timing m d)
        (from_error-IsExternal timing (m d.datagram_timing).1 (λ e. tt)) i

  pub on_reassembler-Keeps :
      {A : Type 0} (m : M FragmentReassembler ReassemblyError A) (d : Driver (Terminal p))
      → IsCoherent d
      → Keeps IsCoherent (on_reassembler m d)
  on_reassembler-Keeps m d i =
      Keeps-from IsCoherent (on_reassembler m d)
        (from_error-IsExternal reassembly (m d.reassembler).1 (λ e. tt)) i

  pub on_tracker-Keeps :
      {A : Type 0} (m : M ReachabilityTracker ReachabilityError A) (d : Driver (Terminal p))
      → IsCoherent d
      → Keeps IsCoherent (on_tracker m d)
  on_tracker-Keeps m d i =
      Keeps-from IsCoherent (on_tracker m d)
        (from_error-IsExternal reachability (m d.tracker).1 (λ e. tt)) i

  pub on_sequence-Keeps :
      {A : Type 0} (m : M SendSequence PacketError A) (d : Driver (Terminal p))
      → IsCoherent d
      → Keeps IsCoherent (on_sequence m d)
  on_sequence-Keeps m d i =
      Keeps-from IsCoherent (on_sequence m d)
        (from_error-IsExternal packet (m d.send_sequence).1 (λ e. tt)) i

  pub when-Keeps :
      (b : Bool) (m : D (Terminal p) Unit0) (d : Driver (Terminal p))
      → IsCoherent d
      → Keeps IsCoherent (m d)
      → Keeps IsCoherent (when b m d)
  unfolding Ends
  when-Keeps true m d i k = k
  when-Keeps false m d i k = i

  -- A result that was computed, with `?`.
  pub lift-Keeps :
      {A : Type 0} (r : Result DriverError A) (d : Driver (Terminal p))
      → IsExternalResult r
      → IsCoherent d
      → Keeps IsCoherent (lift r d)
  lift-Keeps r d x i = Keeps-from IsCoherent (d, r) x i

  pub external :
      {E A : Type 0} (f : E → DriverError) (r : Result E A) (d : Driver (Terminal p))
      → ((e : E) → IsExternal (f e))
      → IsCoherent d
      → Keeps IsCoherent (lift (from_error f r) d)
  external f r d h i = lift-Keeps (from_error f r) d (from_error-IsExternal f r h) i

  -- The terminal state of a remote state that is held.
  pub held-lookup :
      (n : ℕ) (d : Driver (Terminal p))
      → IsCoherent d
      → contains d.sync.received_states n ≡ true
      → (x : Terminal p) × (ok_or (lookup_terminal n d.terminal_states) missing_terminal_state
          ≡ ok x)
  held-lookup n d i c =
      let (x, e) = IsStored-lookup d.sync d.terminal_states n i.stored c in
      (x, ap (λ (o : Option (Terminal p)). ok_or o missing_terminal_state) e)
