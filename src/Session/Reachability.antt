-- ===== src/Session/Reachability.antt =====
-- session/reachability.rs: `ReachabilityTracker`. The watch channel that publishes its value is
-- tokio's.
use mosh_client_rs.Prelude.{
  ℕ, Bool, true, false, ◌&&◌, Option, none, some, M, Result, ok, ok_or, try, leb, if◌then◌else◌,
  min, max, checked_add, checked_sub, get, lift, modify, pure, ◌>>=◌, ◌>>◌,
}
use mosh_client_rs.Limits.{initial_attachment_timeout_ms, no_recent_contact_ms, no_recent_reply_ms}

pub data SessionInterruption : Type 0 where
  no_recent_contact no_recent_reply : SessionInterruption

pub data SessionReachability : Type 0 where
  awaiting_peer responsive : SessionReachability
  interrupted : (reason : SessionInterruption) → SessionReachability

pub data ReachabilityError : Type 0 where
  time_moved_backwards timer_exhausted : ReachabilityError

abbrev pub same_interruption : SessionInterruption → SessionInterruption → Bool
same_interruption no_recent_contact no_recent_contact = true
same_interruption no_recent_reply no_recent_reply = true
same_interruption _ _ = false

abbrev pub same_reachability : SessionReachability → SessionReachability → Bool
same_reachability awaiting_peer awaiting_peer = true
same_reachability responsive responsive = true
same_reachability (interrupted a) (interrupted b) = same_interruption a b
same_reachability _ _ = false

pub record ReachabilityTracker : Type 0 where
  pub current : SessionReachability
  pub last_contact_ms : Option ℕ
  pub last_reply_ms : ℕ

abbrev pub new_tracker : ReachabilityTracker
new_tracker = record { current = awaiting_peer; last_contact_ms = none; last_reply_ms = 0 }

unfoldable pub note_contact : ℕ → ReachabilityTracker → ReachabilityTracker
note_contact now t = record t { last_contact_ms = some now }

unfoldable pub note_reply : ℕ → ReachabilityTracker → ReachabilityTracker
note_reply acknowledged_sent_at_ms t = record t {
  last_reply_ms = max t.last_reply_ms acknowledged_sent_at_ms;
}

unfoldable pub calculate : ReachabilityTracker → ℕ → Result ReachabilityError SessionReachability
calculate t now = elim t.last_contact_ms [
  | none ↦ ok awaiting_peer
  | some last_contact ↦
      try (ok_or (checked_sub now last_contact) time_moved_backwards) (λ contact_age.
        if leb no_recent_contact_ms contact_age
        then ok (interrupted no_recent_contact)
        else try (ok_or (checked_sub now t.last_reply_ms) time_moved_backwards) (λ reply_age.
          if leb no_recent_reply_ms reply_age
          then ok (interrupted no_recent_reply)
          else ok responsive))
]

unfoldable pub update : ℕ → M ReachabilityTracker ReachabilityError (Option SessionReachability)
update now = do
  t ← get
  next ← lift (calculate t now)
  (if same_reachability next t.current
      then pure none
      else (do modify (λ u. record u { current = next }); pure (some next)))

abbrev is_none : Option ℕ → Bool
is_none none = true
is_none (some x) = false

unfoldable pub attachment_timed_out : ReachabilityTracker → ℕ → Bool
attachment_timed_out t now = is_none t.last_contact_ms && leb initial_attachment_timeout_ms now

unfoldable pub contact_deadline_ms : ReachabilityTracker → Result ReachabilityError ℕ
contact_deadline_ms t =
    try (ok_or t.last_contact_ms time_moved_backwards)
      (λ contact. ok_or (checked_add contact no_recent_contact_ms) timer_exhausted)

unfoldable pub next_deadline_at :
    SessionReachability → ReachabilityTracker → Result ReachabilityError (Option ℕ)
next_deadline_at awaiting_peer t = ok (some initial_attachment_timeout_ms)
next_deadline_at responsive t = try (contact_deadline_ms t) (λ contact.
    try (ok_or (checked_add t.last_reply_ms no_recent_reply_ms) timer_exhausted)
      (λ reply. ok (some (min contact reply))))
next_deadline_at (interrupted no_recent_reply) t =
    try (contact_deadline_ms t) (λ contact. ok (some contact))
next_deadline_at (interrupted no_recent_contact) t = ok none

unfoldable pub next_deadline_ms : ReachabilityTracker → Result ReachabilityError (Option ℕ)
next_deadline_ms t = next_deadline_at t.current t
