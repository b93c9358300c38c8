-- ===== src/Session/Deadlines.antt =====
-- The deadline of the reachability tracker is exactly the time of its next change.
use mosh_client_rs.Prelude.{
  ◌≡◌, ◌≢◌, ◌⊎◌, inl, inr, refl, arith, ℕ, ◌+◌, ◌≤◌, ◌<◌, min, true, Option, none, some, ok, err,
  dec_lt, Option-cases, Result-cases, Bool-cases,
}
use mosh_client_rs.Limits.{no_recent_contact_ms, no_recent_reply_ms}
use mosh_client_rs.Session.Reachability.{
  no_recent_contact, no_recent_reply, SessionReachability, awaiting_peer, responsive, interrupted,
  ReachabilityError, ReachabilityTracker, calculate, update, next_deadline_ms, next_deadline_at,
  contact_deadline_ms, same_reachability,
}

same_reachability-eq : (a b : SessionReachability) → same_reachability a b ≡ true → a ≡ b
same_reachability-eq awaiting_peer awaiting_peer h = refl
same_reachability-eq awaiting_peer responsive h = cc
same_reachability-eq awaiting_peer (interrupted r) h = cc
same_reachability-eq responsive awaiting_peer h = cc
same_reachability-eq responsive responsive h = refl
same_reachability-eq responsive (interrupted r) h = cc
same_reachability-eq (interrupted r) awaiting_peer h = cc
same_reachability-eq (interrupted r) responsive h = cc
same_reachability-eq (interrupted no_recent_contact) (interrupted no_recent_contact) h = refl
same_reachability-eq (interrupted no_recent_contact) (interrupted no_recent_reply) h = cc
same_reachability-eq (interrupted no_recent_reply) (interrupted no_recent_contact) h = cc
same_reachability-eq (interrupted no_recent_reply) (interrupted no_recent_reply) h = refl

same_reachability_refl : (a : SessionReachability) → same_reachability a a ≡ true
same_reachability_refl awaiting_peer = refl
same_reachability_refl responsive = refl
same_reachability_refl (interrupted no_recent_contact) = refl
same_reachability_refl (interrupted no_recent_reply) = refl

-- An update stores what is calculated, and reports it exactly if it differs from the value before; an
-- error changes nothing.
update-calculate :
    (t : ReachabilityTracker) (now : ℕ)
    → ((next : SessionReachability) × (calculate t now ≡ ok next)
        × ((update now t).0 ≡ record t { current = next })
        × (((next ≡ t.current) × ((update now t).1 ≡ ok none))
            ⊎ ((next ≢ t.current) × ((update now t).1 ≡ ok (some next)))))
      ⊎ ((e : ReachabilityError) × (calculate t now ≡ err e) × (update now t ≡ (t, err e)))
unfolding update
update-calculate t now = elim (Result-cases (calculate t now)) [
  | inr (e, h) ↦ inr (e, h, ground (arith, h))
  | inl (next, h) ↦ elim (Bool-cases (same_reachability next t.current)) [
    | inl s ↦
        let e = same_reachability-eq next t.current s in
        inl (next, h, ground (arith, h, s, e), inl (e, ground (arith, h, s)))
    | inr s ↦ inl (
      next,
      h,
      ground (arith, h, s),
      inr (
        (λ e.
            let r : same_reachability next t.current ≡ true =
              rw e (same_reachability_refl t.current) in
            ground (arith, s, r)),
        ground (arith, h, s),
      ),
    )
  ]
]

-- The value is the one that was calculated at `now`.
abbrev pub IsCurrent : ReachabilityTracker → ℕ → Type 0
IsCurrent t now = calculate t now ≡ ok t.current

deadline-at :
    (t : ReachabilityTracker) (c : SessionReachability) (now later : ℕ) (d : Option ℕ)
    → calculate t now ≡ ok c
    → now ≤ later
    → next_deadline_at c t ≡ ok d
    → ((d ≡ none) × (calculate t later ≡ ok c))
      ⊎ ((c ≡ awaiting_peer) × (calculate t later ≡ ok c))
      ⊎ ((deadline : ℕ) × (d ≡ some deadline)
          × (((later < deadline) × (calculate t later ≡ ok c))
              ⊎ ((deadline ≤ later)
                  × ((next : SessionReachability) × (calculate t later ≡ ok next) × (next ≢ c)))))
unfolding calculate next_deadline_at contact_deadline_ms
deadline-at t awaiting_peer now later d h le e = elim (Option-cases t.last_contact_ms) [
  | inl n ↦ inr (inl (refl, ground (arith, n)))
  | inr (lc, n) ↦ absurd (ground (arith, h, n))
]
deadline-at t responsive now later d h le e = elim (Option-cases t.last_contact_ms) [
  | inl n ↦ absurd (ground (arith, h, n))
  | inr (lc, n) ↦
      let deadline = min (lc + no_recent_contact_ms) (t.last_reply_ms + no_recent_reply_ms) in
      let known : d ≡ some deadline = ground (arith, e, n) in
      elim (dec_lt later deadline) [
        | yes before ↦ inr (inr (deadline, known, inl (before, ground (arith, h, n))))
        | no after ↦ elim (dec_lt later (lc + no_recent_contact_ms)) [
          | yes near ↦ inr (
              inr (
                deadline,
                known,
                inr (omega arith, (interrupted no_recent_reply, ground (arith, h, n), λ x. cc)),
              ))
          | no far ↦ inr (
              inr (
                deadline,
                known,
                inr (omega arith, (interrupted no_recent_contact, ground (arith, h, n), λ x. cc)),
              ))
        ]
      ]
]
deadline-at t (interrupted no_recent_contact) now later d h le e =
    elim (Option-cases t.last_contact_ms) [
      | inl n ↦ absurd (ground (arith, h, n))
      | inr (lc, n) ↦ inl (ground arith, ground (arith, h, n))
    ]
deadline-at t (interrupted no_recent_reply) now later d h le e =
    elim (Option-cases t.last_contact_ms) [
      | inl n ↦ absurd (ground (arith, h, n))
      | inr (lc, n) ↦
          let deadline = lc + no_recent_contact_ms in
          let known : d ≡ some deadline = ground (arith, e, n) in
          elim (dec_lt later deadline) [
            | yes before ↦ inr (inr (deadline, known, inl (before, ground (arith, h, n))))
            | no after ↦ inr (
                inr (
                  deadline,
                  known,
                  inr (omega arith, (interrupted no_recent_contact, ground (arith, h, n), λ x. cc)),
                ))
          ]
    ]

-- With nothing noted in between, a value that is current stays current for ever if there is no
-- deadline, or if no peer is attached yet; otherwise it stays current until the deadline and is
-- another from then on.
pub next_deadline-exact :
    (t : ReachabilityTracker) (now later : ℕ) (d : Option ℕ)
    → IsCurrent t now
    → now ≤ later
    → next_deadline_ms t ≡ ok d
    → ((d ≡ none) × IsCurrent t later)
      ⊎ ((t.current ≡ awaiting_peer) × IsCurrent t later)
      ⊎ ((deadline : ℕ) × (d ≡ some deadline)
          × (((later < deadline) × IsCurrent t later)
              ⊎ ((deadline ≤ later)
                  × ((next : SessionReachability) × (calculate t later ≡ ok next)
                      × (next ≢ t.current)))))
unfolding next_deadline_ms
next_deadline-exact t now later d h le e = deadline-at t t.current now later d h le e
