-- ===== src/Session/Driver/Numbered.antt =====
-- The client's half of the driver: the history can answer for every state number that the
-- synchronization state can ask for.
use mosh_client_rs.Prelude.{
  ◌≡◌, refl, sym, subst, arith, ℕ, suc, ◌≤◌, true, List, [], ◌∷◌, ok, retain, leb, ltb, ◌⊎◌, inl,
  inr,
}
use mosh_client_rs.Instruction.Message.{ClientOperation}
use mosh_client_rs.Synchronization.State.{SynchronizationState, SentState}
use mosh_client_rs.Synchronization.Sender.{advance_local, observe_acknowledgement, is_sent}
use mosh_client_rs.Synchronization.Receiver.{
  begin_receive, begin_shutdown_receive, validate_instruction, is_invalid_shutdown,
}
use mosh_client_rs.Synchronization.Ordered.{Between}
use mosh_client_rs.Synchronization.Invariant.{IsSender, numbers}
use mosh_client_rs.Instruction.{TransportInstruction}
use mosh_client_rs.Session.History.{ClientHistory, checkpoint, acknowledge}
use mosh_client_rs.Session.Log.{KeysBelow, IsLog, checkpoint-IsLog, acknowledge-IsLog}
use mosh_client_rs.Session.Checkpoints.{
  has, has-lookup, has-insert, has-retain, KeysBelow-weaken, KeysBelow-insert, KeysBelow-retain,
}

pub record IsNumbered (s : SynchronizationState) (h : ClientHistory) : Type 0 where
  pub log : List ClientOperation
  pub is_log : IsLog h log
  pub below : KeysBelow (suc s.local_latest) h.checkpoints
  pub has_known : has s.known_receiver_state h.checkpoints ≡ true
  pub has_latest : has s.local_latest h.checkpoints ≡ true
  pub has_sent : (n : ℕ) → is_sent n s.sent_states ≡ true → has n h.checkpoints ≡ true

-- The states that a step of the sender leaves are among the earlier ones.
pub record IsNarrowed (s t : SynchronizationState) : Type 0 where
  pub same_latest : t.local_latest ≡ s.local_latest
  pub known_from :
      (t.known_receiver_state ≡ s.known_receiver_state)
      ⊎ (is_sent t.known_receiver_state s.sent_states ≡ true)
  pub sent_from : (n : ℕ) → is_sent n t.sent_states ≡ true → is_sent n s.sent_states ≡ true

is_sent-retain :
    (floor n : ℕ) (xs : List SentState)
    → is_sent n (retain (λ x. ltb floor x.number) xs) ≡ true
    → is_sent n xs ≡ true
is_sent-retain floor n [] h = h
is_sent-retain floor n (x ∷ xs) h = ground (arith, is_sent-retain floor n xs)

IsNarrowed-refl : (s : SynchronizationState) → IsNarrowed s s
IsNarrowed-refl s = record { same_latest = refl; known_from = inl refl; sent_from = λ n h. h }

observe_acknowledgement-IsNarrowed :
    (a : ℕ) (s : SynchronizationState) → IsNarrowed s (observe_acknowledgement a s).0
unfolding observe_acknowledgement
observe_acknowledgement-IsNarrowed a s = record {
  same_latest = ground arith;
  known_from = ground arith;
  sent_from = λ n h. ground (arith, is_sent-retain a n s.sent_states);
}

begin_receive-cases :
    (i : TransportInstruction) (s : SynchronizationState)
    → ((begin_receive i s).0 ≡ s)
      ⊎ ((begin_receive i s).0 ≡ (observe_acknowledgement i.acknowledged_state s).0)
unfolding begin_receive validate_instruction
begin_receive-cases i s = ground arith

begin_shutdown_receive-cases :
    (i : TransportInstruction) (s : SynchronizationState)
    → ((begin_shutdown_receive i s).0 ≡ s)
      ⊎ ((begin_shutdown_receive i s).0 ≡ (observe_acknowledgement i.acknowledged_state s).0)
unfolding begin_shutdown_receive is_invalid_shutdown
begin_shutdown_receive-cases i s = ground arith

-- A new state, once its checkpoint is there.
pub advanced-IsNumbered :
    (s t : SynchronizationState) (state : ℕ) (h : ClientHistory)
    → advance_local s ≡ (t, ok state)
    → IsNumbered s h
    → IsNumbered t (checkpoint state h)
unfolding advance_local checkpoint
advanced-IsNumbered s t state h e i = record {
  log = i.log;
  is_log = checkpoint-IsLog h i.log state i.is_log (ground (arith, e, i.below));
  below =
      KeysBelow-insert (suc t.local_latest) state h.next_operation h.checkpoints (ground (arith, e))
        (KeysBelow-weaken (suc s.local_latest) (suc t.local_latest) h.checkpoints
          (ground (arith, e)) i.below);
  has_known = ground (
    arith,
    e,
    i.has_known,
    has-insert s.known_receiver_state state h.next_operation h.checkpoints,
  );
  has_latest = ground (arith, e, has-insert t.local_latest state h.next_operation h.checkpoints);
  has_sent =
      λ n x. ground (arith, e, i.has_sent n, has-insert n state h.next_operation h.checkpoints);
}

pub IsNarrowed-IsNumbered :
    (s t : SynchronizationState) (h : ClientHistory)
    → IsNarrowed s t
    → IsNumbered s h
    → IsNumbered t h
IsNarrowed-IsNumbered s t h w i = record {
  log = i.log;
  is_log = i.is_log;
  below = rw w.same_latest i.below;
  has_known = elim w.known_from [
    | inl same ↦ rw same i.has_known
    | inr sent ↦ i.has_sent t.known_receiver_state sent
  ];
  has_latest = rw w.same_latest i.has_latest;
  has_sent = λ n x. i.has_sent n (w.sent_from n x);
}

IsNarrowed-eq : (s t u : SynchronizationState) → (u ≡ s) ⊎ (u ≡ t) → IsNarrowed s t → IsNarrowed s u
IsNarrowed-eq s t u (inl e) w = subst (IsNarrowed s) (sym e) (IsNarrowed-refl s)
IsNarrowed-eq s t u (inr e) w = subst (IsNarrowed s) (sym e) w

pub received-IsNumbered :
    (i : TransportInstruction) (s : SynchronizationState) (h : ClientHistory)
    → IsNumbered s h
    → IsNumbered (begin_receive i s).0 h
received-IsNumbered i s h n =
    IsNarrowed-IsNumbered s (begin_receive i s).0 h
      (IsNarrowed-eq s _ _ (begin_receive-cases i s)
        (observe_acknowledgement-IsNarrowed i.acknowledged_state s))
      n

pub shut_down-IsNumbered :
    (i : TransportInstruction) (s : SynchronizationState) (h : ClientHistory)
    → IsNumbered s h
    → IsNumbered (begin_shutdown_receive i s).0 h
shut_down-IsNumbered i s h n =
    IsNarrowed-IsNumbered s (begin_shutdown_receive i s).0 h
      (IsNarrowed-eq s _ _ (begin_shutdown_receive-cases i s)
        (observe_acknowledgement-IsNarrowed i.acknowledged_state s))
      n

pub is_sent-above :
    (n lo hi : ℕ) (xs : List SentState) → Between lo hi (numbers xs) → is_sent n xs ≡ true → lo ≤ n
is_sent-above n lo hi [] b h = absurd (ground arith)
is_sent-above n lo hi (x ∷ xs) b h = ground (arith, is_sent-above n (suc x.number) hi xs b.2)

acknowledge-cases :
    (state : ℕ) (h : ClientHistory)
    → ((acknowledge state h).0.checkpoints ≡ h.checkpoints)
      ⊎ ((acknowledge state h).0.checkpoints ≡ retain (λ c. leb state c.0) h.checkpoints)
unfolding acknowledge
acknowledge-cases state h = ground arith

has-acknowledge :
    (n state : ℕ) (h : ClientHistory)
    → state ≤ n
    → has n h.checkpoints ≡ true
    → has n (acknowledge state h).0.checkpoints ≡ true
has-acknowledge n state h le x = elim (acknowledge-cases state h) [
  | inl e ↦ rw e x
  | inr e ↦ rw e (has-retain n state h.checkpoints le x)
]

KeysBelow-acknowledge :
    (n state : ℕ) (h : ClientHistory)
    → KeysBelow n h.checkpoints
    → KeysBelow n (acknowledge state h).0.checkpoints
KeysBelow-acknowledge n state h x = elim (acknowledge-cases state h) [
  | inl e ↦ rw e x
  | inr e ↦ rw e (KeysBelow-retain n state h.checkpoints x)
]

-- The acknowledged state is always one that the history knows, and what is forgotten with it is not
-- asked for again.
pub acknowledged-IsNumbered :
    (s : SynchronizationState) (h : ClientHistory)
    → IsSender s
    → IsNumbered s h
    → ((acknowledge s.known_receiver_state h).1 ≡ ok tt)
      × IsNumbered s (acknowledge s.known_receiver_state h).0
acknowledged-IsNumbered s h v i =
    let known = s.known_receiver_state in
    let (place, e) = has-lookup known h.checkpoints i.has_known in
    let (done, logged) = acknowledge-IsLog h i.log known place i.is_log e in
    (
      done,
      record {
        log = i.log;
        is_log = logged;
        below = KeysBelow-acknowledge (suc s.local_latest) known h i.below;
        has_known = has-acknowledge known known h (omega arith) i.has_known;
        has_latest = has-acknowledge s.local_latest known h v.known_le i.has_latest;
        has_sent = λ n x.
            has-acknowledge n known h
              (omega
                (arith, is_sent-above n (suc known) s.local_latest s.sent_states v.sent_ordered x))
              (i.has_sent n x);
      },
    )
