-- ===== src/Synchronization/Planning.antt =====
-- What `plan_send` plans, and that it fails for no other reason than having nothing new.
use mathlib.Core.List.{reverse-cons}
use mosh_client_rs.Prelude.{
  ℕ, ◌+◌, ◌≤◌, ◌<◌, ◌≡◌, refl, ap, arith, ok, err, Result, ◌⊎◌, inl, inr, List, [], ◌∷◌, ◌++◌, leb,
  All, dec_lt, reverse, Bool-cases, ◌&&◌,
}
use mosh_client_rs.Limits.{min_retransmission_timeout_ms, max_retransmission_timeout_ms}
use mosh_client_rs.Synchronization.State.{
  SynchronizationState, SynchronizationError, SendPlan, SentState, no_new_state,
  invalid_retransmission_timeout,
}
use mosh_client_rs.Synchronization.Sender.{plan_send, choose_base, plan_from}

-- What every plan of `plan_send` says.
pub record IsPlanned (s : SynchronizationState) (now : ℕ) (plan : SendPlan) : Type 0 where
  pub at_generation : plan.generation ≡ s.sender_generation
  pub to_latest : plan.target_state ≡ s.local_latest
  pub acknowledges : plan.acknowledged_state ≡ s.remote_latest
  pub throws_away : plan.throwaway_state ≡ s.known_receiver_state
  pub planned_now : plan.planned_at_ms ≡ now
  pub has_news : plan.base_state < s.local_latest

pub plan_from-IsPlanned :
    (s : SynchronizationState) (now base : ℕ) (plan : SendPlan)
    → plan_from s now base ≡ ok plan
    → IsPlanned s now plan × (plan.base_state ≡ base)
unfolding plan_from
plan_from-IsPlanned s now base plan h = ground arith

pub plan_send-from :
    (s : SynchronizationState) (now rto : ℕ) (plan : SendPlan)
    → plan_send s now rto ≡ ok plan
    → (base : ℕ) × (choose_base now rto s.known_receiver_state (reverse s.sent_states) ≡ ok base)
      × (plan_from s now base ≡ ok plan)
unfolding plan_send
plan_send-from s now rto plan h =
    go (choose_base now rto s.known_receiver_state (reverse s.sent_states)) refl
  where
    go :
        (r : Result SynchronizationError ℕ)
        → choose_base now rto s.known_receiver_state (reverse s.sent_states) ≡ r
        → (base : ℕ) × (choose_base now rto s.known_receiver_state (reverse s.sent_states)
            ≡ ok base)
          × (plan_from s now base ≡ ok plan)
    go (ok base) e = (base, e, ground (arith, h, e))
    go (err x) e = absurd (ground (arith, h, e))

-- A recent state: sent less than a timeout ago.
abbrev pub IsRecent : (now rto : ℕ) → SentState → Type 0
IsRecent now rto x = (x.sent_at_ms ≤ now) × (now < x.sent_at_ms + rto)

abbrev pub IsOld : (now rto : ℕ) → SentState → Type 0
IsOld now rto x = x.sent_at_ms + rto ≤ now

-- The base that the sent states, newest first, call for.
pub data IsBase (now rto known base : ℕ) (newest_first : List SentState) : Type 0 where
  assume :
      (newer older : List SentState) (x : SentState)
      → newest_first ≡ newer ++ x ∷ older
      → All (IsOld now rto) newer
      → IsRecent now rto x
      → base ≡ x.number
      → IsBase now rto known base newest_first
  fall_back :
      All (IsOld now rto) newest_first → base ≡ known → IsBase now rto known base newest_first

choose_base-IsBase :
    (now rto known base : ℕ) (xs : List SentState)
    → choose_base now rto known xs ≡ ok base
    → IsBase now rto known base xs
unfolding choose_base
choose_base-IsBase now rto known base [] h = fall_back tt (ground arith)
choose_base-IsBase now rto known base (x ∷ xs) h = elim (dec_lt now x.sent_at_ms) [
  | yes early ↦ absurd (ground arith)
  | no late ↦ elim (dec_lt now (x.sent_at_ms + rto)) [
    | yes recent ↦ assume [] xs x refl tt (omega arith) (ground arith)
    | no old ↦ extend (choose_base-IsBase now rto known base xs (ground arith)) (omega arith)
  ]
]
  where
    extend : IsBase now rto known base xs → IsOld now rto x → IsBase now rto known base (x ∷ xs)
    extend (assume newer older y e all r q) o =
        assume (x ∷ newer) older y (ap (◌∷◌ x) e) (o, all) r q
    extend (fall_back all q) o = fall_back (o, all) q

-- A plan goes to the latest local state, from the newest state that was sent less than a timeout
-- ago, or from the acknowledged state if there is none; and it has something new to say.
pub plan_send-IsBase :
    (s : SynchronizationState) (now rto : ℕ) (plan : SendPlan)
    → plan_send s now rto ≡ ok plan
    → IsPlanned s now plan
      × IsBase now rto s.known_receiver_state plan.base_state (reverse s.sent_states)
plan_send-IsBase s now rto plan h =
    let (base, chosen, planned) = plan_send-from s now rto plan h in
    let (p, e) = plan_from-IsPlanned s now base plan planned in
    (
      p,
      rw e (choose_base-IsBase now rto s.known_receiver_state base (reverse s.sent_states) chosen),
    )

choose_base_total :
    (now rto known : ℕ) (xs : List SentState)
    → All (λ x. x.sent_at_ms ≤ now) xs
    → (base : ℕ) × (choose_base now rto known xs ≡ ok base)
unfolding choose_base
choose_base_total now rto known [] h = (known, refl)
choose_base_total now rto known (x ∷ xs) h =
    let (base, e) = choose_base_total now rto known xs h.1 in
    elim (dec_lt now (x.sent_at_ms + rto)) [
      | yes recent ↦ (x.number, ground arith)
      | no old ↦ (base, ground (arith, e))
    ]

All-snoc :
    (P : SentState → Type 0) (xs : List SentState) (x : SentState)
    → All P xs
    → P x
    → All P (xs ++ x ∷ [])
All-snoc P [] x h p = (p, tt)
All-snoc P (y ∷ ys) x h p = (h.0, All-snoc P ys x h.1 p)

All-reverse : (P : SentState → Type 0) (xs : List SentState) → All P xs → All P (reverse xs)
All-reverse P [] h = tt
All-reverse P (x ∷ xs) h =
    rw (reverse-cons x xs) (All-snoc P (reverse xs) x (All-reverse P xs h.1) h.0)

-- With a timeout in range and no sent state from the future, `plan_send` gives a plan or reports that
-- there is nothing new; with another timeout it reports that.
pub plan_send_total :
    (s : SynchronizationState) (now rto : ℕ)
    → All (λ x. x.sent_at_ms ≤ now) s.sent_states
    → (((min_retransmission_timeout_ms ≤ rto) × (rto ≤ max_retransmission_timeout_ms))
        × (((plan : SendPlan) × (plan_send s now rto ≡ ok plan))
            ⊎ (plan_send s now rto ≡ err no_new_state)))
      ⊎ (((rto < min_retransmission_timeout_ms) ⊎ (max_retransmission_timeout_ms < rto))
          × (plan_send s now rto ≡ err invalid_retransmission_timeout))
unfolding plan_send plan_from
plan_send_total s now rto h =
    let (base, e) =
      choose_base_total now rto s.known_receiver_state (reverse s.sent_states)
        (All-reverse (λ x. x.sent_at_ms ≤ now) s.sent_states h) in
    elim (Bool-cases
      (leb min_retransmission_timeout_ms rto && leb rto max_retransmission_timeout_ms)) [
        | inr out ↦ inr (ground (arith, out), ground (arith, out))
        | inl in_range ↦ elim (Bool-cases (leb s.local_latest base)) [
          | inl nothing ↦ inl (ground (arith, in_range), inr (ground (arith, e, nothing, in_range)))
          | inr news ↦ inl (
            ground (arith, in_range),
            inl (planned s now base, ground (arith, e, news, in_range)),
          )
        ]
      ]
  where
    planned : SynchronizationState → (now base : ℕ) → SendPlan
    planned s now base = record {
      generation = s.sender_generation;
      base_state = base;
      target_state = s.local_latest;
      acknowledged_state = s.remote_latest;
      throwaway_state = s.known_receiver_state;
      planned_at_ms = now;
    }
