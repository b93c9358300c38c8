-- ===== src/Session/Driver/Sent.antt =====
-- What the history must keep when a plan is made and committed: the states that the plan joins, and
-- every state but the one that the capacity pushed out.
use mathlib.Core.List.{reverse-cons}
use mosh_client_rs.Prelude.{
  ◌≡◌, refl, sym, ◌∙◌, subst, arith, ℕ, suc, ◌≤◌, ◌<◌, true, Option, none, some, List, [], ◌∷◌,
  ◌++◌, ok, reverse, ◌==◌, if◌then◌else◌, ◌⊎◌, inl, inr,
}
use mosh_client_rs.Synchronization.State.{SynchronizationState, SentState, SendPlan, SendCommit}
use mosh_client_rs.Synchronization.Sender.{
  commit_send, record_sent, is_sent, is_stale_send, touch, plan_send, choose_base,
}
use mosh_client_rs.Synchronization.Ordered.{Between}
use mosh_client_rs.Synchronization.Invariant.{IsSender, numbers}
use mosh_client_rs.Synchronization.Planning.{plan_send-from, plan_from-IsPlanned}
use mosh_client_rs.Session.History.{ClientHistory, remove_checkpoint}
use mosh_client_rs.Session.Checkpoints.{has, has-remove, KeysBelow-remove, remove_checkpoint-IsLog}
use mosh_client_rs.Session.Driver.Numbered.{IsNumbered, is_sent-above}

is_sent-append :
    (n : ℕ) (xs : List SentState) (y : SentState)
    → is_sent n (xs ++ y ∷ []) ≡ (if is_sent n xs then true else y.number == n)
is_sent-append n [] y = ground arith
is_sent-append n (x ∷ xs) y = ground (arith, is_sent-append n xs y)

is_sent-touch : (n k at_ms : ℕ) (xs : List SentState) → is_sent n (touch k at_ms xs) ≡ is_sent n xs
unfolding touch
is_sent-touch n k at_ms [] = refl
is_sent-touch n k at_ms (x ∷ xs) = ground (arith, is_sent-touch n k at_ms xs)

is_sent-reverse : (n : ℕ) (xs : List SentState) → is_sent n (reverse xs) ≡ is_sent n xs
is_sent-reverse n [] = refl
is_sent-reverse n (x ∷ xs) =
    rw (reverse-cons x xs) (ground (arith, is_sent-append n (reverse xs) x, is_sent-reverse n xs))

choose_base-from :
    (now rto known base : ℕ) (xs : List SentState)
    → choose_base now rto known xs ≡ ok base
    → (base ≡ known) ⊎ (is_sent base xs ≡ true)
unfolding choose_base
choose_base-from now rto known base [] h = ground arith
choose_base-from now rto known base (x ∷ xs) h =
    ground (arith, choose_base-from now rto known base xs)

-- A plan joins two states that the history knows, an earlier one and the latest one.
pub plan_send-IsNumbered :
    (s : SynchronizationState) (h : ClientHistory) (now rto : ℕ) (plan : SendPlan)
    → plan_send s now rto ≡ ok plan
    → IsNumbered s h
    → (has plan.base_state h.checkpoints ≡ true)
      × (has plan.target_state h.checkpoints ≡ true)
      × (plan.base_state ≤ plan.target_state)
plan_send-IsNumbered s h now rto plan e i =
    let (base, chosen, planned) = plan_send-from s now rto plan e in
    let (p, same) = plan_from-IsPlanned s now base plan planned in
    let from =
      choose_base-from now rto s.known_receiver_state base (reverse s.sent_states) chosen in
    (
      elim from [
        | inl known ↦ rw (same, known) i.has_known
        | inr sent ↦ rw same (i.has_sent base (sym (is_sent-reverse base s.sent_states) ∙ sent))
      ],
      rw p.to_latest i.has_latest,
      ground (arith, p.has_news, p.to_latest),
    )

record_sent-from :
    (known n : ℕ) (plan : SendPlan) (xs : List SentState)
    → is_sent n (record_sent known plan xs).0 ≡ true
    → (plan.target_state ≡ n) ⊎ (is_sent n xs ≡ true)
unfolding record_sent
record_sent-from known n plan [] h = ground arith
record_sent-from known n plan (x ∷ xs) h = ground (
  arith,
  is_sent-touch n plan.target_state plan.planned_at_ms (x ∷ xs),
  is_sent-append n xs (record { number = plan.target_state; sent_at_ms = plan.planned_at_ms }),
  is_sent-append n (x ∷ xs)
      (record { number = plan.target_state; sent_at_ms = plan.planned_at_ms }),
)

-- The number that is pushed out lies strictly between the acknowledged state and every other one.
record_sent-evicted :
    (known e : ℕ) (plan : SendPlan) (xs : List SentState)
    → Between (suc known) plan.target_state (numbers xs)
    → (record_sent known plan xs).1 ≡ some e
    → (known < e)
      × (e < plan.target_state)
      × ((n : ℕ) → is_sent n (record_sent known plan xs).0 ≡ true → e < n)
unfolding record_sent
record_sent-evicted known e plan [] b h = absurd (ground arith)
record_sent-evicted known e plan (x ∷ xs) b h = (
  ground arith,
  ground arith,
  λ n y. ground (
    arith,
    is_sent-append n xs (record { number = plan.target_state; sent_at_ms = plan.planned_at_ms }),
    is_sent-above n (suc x.number) plan.target_state xs b.2,
  ),
)

-- The history after a commit.
abbrev pub forgotten : Option ℕ → ClientHistory → ClientHistory
forgotten none h = h
forgotten (some e) h = remove_checkpoint e h

record IsCommitted (plan : SendPlan) (s t : SynchronizationState) (c : SendCommit) : Type 0 where
  same_latest : t.local_latest ≡ s.local_latest
  same_known : t.known_receiver_state ≡ s.known_receiver_state
  to_latest : plan.target_state ≡ s.local_latest
  now_sent : t.sent_states ≡ (record_sent s.known_receiver_state plan s.sent_states).0
  pushed_out : c.capacity_evicted_state ≡ (record_sent s.known_receiver_state plan s.sent_states).1

commit_send-IsCommitted :
    (plan : SendPlan) (s t : SynchronizationState) (c : SendCommit)
    → commit_send plan s ≡ (t, ok c)
    → IsCommitted plan s t c
unfolding commit_send is_stale_send
commit_send-IsCommitted plan s t c e = ground arith

recorded-IsNumbered :
    (plan : SendPlan) (s t : SynchronizationState) (c : SendCommit) (h : ClientHistory)
    → IsCommitted plan s t c
    → IsNumbered s h
    → IsNumbered t h
recorded-IsNumbered plan s t c h k i = record {
  log = i.log;
  is_log = i.is_log;
  below = rw k.same_latest i.below;
  has_known = rw k.same_known i.has_known;
  has_latest = rw k.same_latest i.has_latest;
  has_sent = λ n x.
      elim (record_sent-from s.known_receiver_state n plan s.sent_states
        (ground (arith, x, k.now_sent))) [
          | inl target ↦
              subst (λ (m : ℕ). has m h.checkpoints ≡ true) (sym k.to_latest ∙ target) i.has_latest
          | inr sent ↦ i.has_sent n sent
        ];
}

removed-IsNumbered :
    (s : SynchronizationState) (h : ClientHistory) (e : ℕ)
    → s.known_receiver_state < e
    → e < s.local_latest
    → ((n : ℕ) → is_sent n s.sent_states ≡ true → e < n)
    → IsNumbered s h
    → IsNumbered s (remove_checkpoint e h)
unfolding remove_checkpoint
removed-IsNumbered s h e above under others i = record {
  log = i.log;
  is_log = remove_checkpoint-IsLog h i.log e i.is_log;
  below = KeysBelow-remove (suc s.local_latest) e h.checkpoints i.below;
  has_known = has-remove s.known_receiver_state e h.checkpoints (ground arith) i.has_known;
  has_latest = has-remove s.local_latest e h.checkpoints (ground arith) i.has_latest;
  has_sent = λ n x. has-remove n e h.checkpoints (ground (arith, others n x)) (i.has_sent n x);
}

-- A commit leaves every state that can still be asked for in the history.
pub committed-IsNumbered :
    (plan : SendPlan) (s t : SynchronizationState) (c : SendCommit) (h : ClientHistory)
    → commit_send plan s ≡ (t, ok c)
    → IsSender s
    → IsNumbered s h
    → IsNumbered t (forgotten c.capacity_evicted_state h)
committed-IsNumbered plan s t c h e v i =
    let k = commit_send-IsCommitted plan s t c e in
    go c.capacity_evicted_state refl (recorded-IsNumbered plan s t c h k i)
  where
    go :
        (evicted : Option ℕ)
        → c.capacity_evicted_state ≡ evicted
        → IsNumbered t h
        → IsNumbered t (forgotten evicted h)
    go none q n = n
    go (some x) q n =
        let k = commit_send-IsCommitted plan s t c e in
        let (above, under, others) =
          record_sent-evicted s.known_receiver_state x plan s.sent_states
            (rw k.to_latest v.sent_ordered) (sym k.pushed_out ∙ q) in
        removed-IsNumbered t h x (ground (arith, above, k.same_known))
          (ground (arith, under, k.same_latest, k.to_latest))
          (λ m y. others m (ground (arith, y, k.now_sent))) n
