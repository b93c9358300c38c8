-- ===== src/Session/Driver/Stored.antt =====
-- The server's half of the driver: the terminal states are exactly the remote states that the
-- synchronization state says it holds.
use mosh_client_rs.Prelude.{
  ◌≡◌, refl, ◌∙◌, arith, ℕ, suc, ◌≤◌, ◌<◌, Bool, true, false, Option, none, some, [], ◌∷◌, ok,
  retain, leb, ◌==◌, if◌then◌else◌, inl, inr, Bool-cases,
}
use mosh_client_rs.Synchronization.State.{SynchronizationState, ApplyPlan, ReceiveCommit}
use mosh_client_rs.Synchronization.Receiver.{contains, commit_receive}
use mosh_client_rs.Synchronization.Invariant.{IsReceiver, IsIssued}
use mosh_client_rs.Synchronization.Halves.{SameReceiver}
use mosh_client_rs.Synchronization.Contents.{is_some_of}
use mosh_client_rs.Synchronization.Committed.{commit_receive-contents}
use mosh_client_rs.Session.Driver.State.{
  TerminalMap, lookup_terminal, insert_terminal, remove_terminal,
}
use mosh_client_rs.Session.Driver.Receiving.{discard_terminal_states}

module _ {S : Type 0} where
  abbrev pub holds : ℕ → TerminalMap S → Bool
  holds n [] = false
  holds n ((k, s) ∷ m) = if k == n then true else holds n m

  -- The keys ascend, as those of a `BTreeMap` do.
  abbrev pub Ascends : ℕ → TerminalMap S → Type 0
  Ascends lo [] = Unit
  Ascends lo ((k, s) ∷ m) = (lo ≤ k) × Ascends (suc k) m

  holds-lookup :
      (n : ℕ) (m : TerminalMap S) → holds n m ≡ true → (s : S) × (lookup_terminal n m ≡ some s)
  holds-lookup n [] h = absurd (ground arith)
  holds-lookup n ((k, s) ∷ m) h = elim (Bool-cases (k == n)) [
    | inl here ↦ (s, ground (arith, here))
    | inr there ↦
        let (t, e) = holds-lookup n m (ground (arith, there)) in (t, ground (arith, there, e))
  ]

  holds-insert :
      (n t : ℕ) (s : S) (m : TerminalMap S)
      → holds n (insert_terminal t s m) ≡ (if t == n then true else holds n m)
  holds-insert n t s [] = refl
  holds-insert n t s ((k, u) ∷ m) = ground (arith, holds-insert n t s m)

  Ascends-insert :
      (lo t : ℕ) (s : S) (m : TerminalMap S)
      → lo ≤ t
      → Ascends lo m
      → Ascends lo (insert_terminal t s m)
  Ascends-insert lo t s [] h a = (h, tt)
  Ascends-insert lo t s ((k, u) ∷ m) h a = ground (arith, Ascends-insert (suc k) t s m, a.1)

  Ascends-weaken : (lo lo' : ℕ) (m : TerminalMap S) → lo' ≤ lo → Ascends lo m → Ascends lo' m
  Ascends-weaken lo lo' [] h a = tt
  Ascends-weaken lo lo' ((k, u) ∷ m) h a = (omega (arith, a.0), a.1)

  holds_below : (n lo : ℕ) (m : TerminalMap S) → n < lo → Ascends lo m → holds n m ≡ false
  holds_below n lo [] h a = refl
  holds_below n lo ((k, u) ∷ m) h a = ground (arith, holds_below n (suc k) m)

  Ascends-retain :
      (lo floor : ℕ) (m : TerminalMap S) → Ascends lo m → Ascends lo (retain (λ e. leb floor e.0) m)
  Ascends-retain lo floor [] a = tt
  Ascends-retain lo floor ((k, u) ∷ m) a = ground (
    arith,
    Ascends-retain (suc k) floor m a.1,
    Ascends-weaken (suc k) lo (retain (λ e. leb floor e.0) m),
  )

  holds-retain :
      (n floor : ℕ) (m : TerminalMap S)
      → holds n (retain (λ e. leb floor e.0) m) ≡ (if leb floor n then holds n m else false)
  holds-retain n floor [] = ground arith
  holds-retain n floor ((k, u) ∷ m) = ground (arith, holds-retain n floor m)

  Ascends-remove : (lo t : ℕ) (m : TerminalMap S) → Ascends lo m → Ascends lo (remove_terminal t m)
  Ascends-remove lo t [] a = tt
  Ascends-remove lo t ((k, u) ∷ m) a =
      ground (arith, Ascends-remove (suc k) t m a.1, Ascends-weaken (suc k) lo m)

  holds-remove :
      (n t lo : ℕ) (m : TerminalMap S)
      → Ascends lo m
      → holds n (remove_terminal t m) ≡ (if t == n then false else holds n m)
  holds-remove n t lo [] a = ground arith
  holds-remove n t lo ((k, u) ∷ m) a =
      ground (arith, holds-remove n t (suc k) m a.1, holds_below n (suc k) m)

  -- What the driver discards is what the commit says.
  discard_terminal_states-holds :
      (floor n : ℕ) (evicted : Option ℕ) (m : TerminalMap S)
      → Ascends 0 m
      → Ascends 0 (discard_terminal_states floor evicted m)
        × (holds n (discard_terminal_states floor evicted m)
            ≡ (if is_some_of evicted n then false else if leb floor n then holds n m else false))
  unfolding discard_terminal_states
  discard_terminal_states-holds floor n none m a =
      (Ascends-retain 0 floor m a, holds-retain n floor m)
  discard_terminal_states-holds floor n (some e) m a =
      let kept = Ascends-retain 0 floor m a in
      (
        Ascends-remove 0 e (retain (λ x. leb floor x.0) m) kept,
        ground (
          arith,
          holds-remove n e 0 (retain (λ x. leb floor x.0) m) kept,
          holds-retain n floor m,
        ),
      )

  pub record IsStored (s : SynchronizationState) (m : TerminalMap S) : Type 0 where
    pub ascends : Ascends 0 m
    pub agrees : (n : ℕ) → holds n m ≡ contains s.received_states n

  pub SameReceiver-IsStored :
      (s t : SynchronizationState) (m : TerminalMap S)
      → SameReceiver s t
      → IsStored s m
      → IsStored t m
  SameReceiver-IsStored s t m e i = record {
    ascends = i.ascends;
    agrees = λ n. rw e.same_received (i.agrees n);
  }

  -- Every remote state that the synchronization state holds has a terminal state.
  pub IsStored-lookup :
      (s : SynchronizationState) (m : TerminalMap S) (n : ℕ)
      → IsStored s m
      → contains s.received_states n ≡ true
      → (x : S) × (lookup_terminal n m ≡ some x)
  IsStored-lookup s m n i c = holds-lookup n m (i.agrees n ∙ c)

  -- After a commit the terminal states still are those of the states that are held.
  pub commit_receive-IsStored :
      (plan : ApplyPlan) (s t : SynchronizationState) (c : ReceiveCommit) (x : S)
      (m : TerminalMap S)
      → commit_receive plan s ≡ (t, ok c)
      → IsReceiver s
      → IsIssued plan s
      → IsStored s m
      → IsStored t (
          discard_terminal_states c.discard_before_state c.capacity_evicted_state
            (insert_terminal plan.target_state x m))
  commit_receive-IsStored plan s t c x m e v g i =
      let inserted = insert_terminal plan.target_state x m in
      let kept = Ascends-insert 0 plan.target_state x m (omega arith) i.ascends in
      record {
        ascends =
            (discard_terminal_states-holds c.discard_before_state 0 c.capacity_evicted_state
              inserted kept).0;
        agrees = λ n.
            (discard_terminal_states-holds c.discard_before_state n c.capacity_evicted_state
              inserted kept).1
            ∙ ground (
              arith,
              holds-insert n plan.target_state x m,
              i.agrees n,
              commit_receive-contents plan s t c n e v g,
            );
      }
