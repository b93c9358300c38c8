-- ===== src/Prediction/Display.antt =====
-- What is displayed, and for how long.
use mosh_client_rs.Prelude.{
  ◌≡◌, refl, sym, arith, ℕ, ◌≤◌, ◌<◌, Bool, true, false, Option, some, [], ok, ◌⊎◌, inl, inr, null,
  saturating_add, dec_lt, Bool-cases,
}
use mosh_client_rs.Limits.{max_prediction_age_ms}
use mosh_client_rs.Prediction.State.{
  TerminalInterface, PredictionMode, adaptive, always, never, is_never, is_adaptive, is_confirmed,
  bool_ne, mode_displays, front_created, clear, displaying_prediction, display, expire,
  expiration_deadline_ms, update_policy, Prediction, project,
}
use mosh_client_rs.Prediction.Soundness.{IsSound, projection_of}

mode_displays-live :
    (m : PredictionMode) (slow glitched : Bool)
    → mode_displays m slow glitched ≡ true
    → is_never m ≡ false
mode_displays-live adaptive slow glitched h = refl
mode_displays-live always slow glitched h = refl
mode_displays-live never slow glitched h = sym h

module _ (t : TerminalInterface) where
  displaying-confirmed :
      (p : Prediction t)
      → displaying_prediction p ≡ true
      → (is_confirmed p.confidence ≡ true) × (null p.pending ≡ false) × (is_never p.mode ≡ false)
  unfolding displaying_prediction
  displaying-confirmed p h = (
    ground (arith, h),
    ground (arith, h),
    mode_displays-live p.mode p.adaptive_slow_link p.adaptive_glitch (ground (arith, h)),
  )

  -- What is displayed is the authoritative state, or in an epoch that the server has confirmed, and
  -- not in the mode that never predicts, the projection of all pending bytes from their base.
  pub display-project :
      (p : Prediction t) (authoritative : t.TerminalState)
      → IsSound t p
      → (display p authoritative ≡ authoritative)
        ⊎ ((is_confirmed p.confidence ≡ true)
            × (is_never p.mode ≡ false)
            × ((base : t.TerminalState) × (p.base ≡ some base)
                × (project t base p.pending ≡ ok (display p authoritative))))
  unfolding display
  display-project p authoritative i = elim (Bool-cases (displaying_prediction p)) [
    | inr hidden ↦ inl (ground (arith, hidden))
    | inl shown ↦
        let (c, n, m) = displaying-confirmed p shown in
        let (b, s, eb, es, same) = projection_of t p.base p.projected p.pending n i.projects in
        let d : display p authoritative ≡ s = ground (arith, shown, es) in
        inr (c, m, (b, eb, rw d same))
  ]

  -- Up to the deadline of the oldest prediction `expire` does nothing; from then on it drops every
  -- prediction, reports whether any was displayed, and the authoritative state is displayed.
  pub expire-display :
      (p : Prediction t) (now created : ℕ) (authoritative : t.TerminalState)
      → is_never p.mode ≡ false
      → front_created p.pending ≡ some created
      → ((now < saturating_add created max_prediction_age_ms) × (expire now p ≡ (p, false)))
        ⊎ ((saturating_add created max_prediction_age_ms ≤ now)
            × ((expire now p).0.pending ≡ [])
            × ((expire now p).1 ≡ displaying_prediction p)
            × (display (expire now p).0 authoritative ≡ authoritative))
  unfolding expire expiration_deadline_ms clear display displaying_prediction
  expire-display p now created authoritative live front =
      elim (dec_lt now (saturating_add created max_prediction_age_ms)) [
        | yes early ↦ inl (early, ground (arith, live, front))
        | no late ↦ inr (
          omega arith,
          ground (arith, live, front),
          ground (arith, live, front),
          ground (arith, live, front),
        )
      ]

  bool_ne_refl : (b : Bool) → bool_ne b b ≡ false
  bool_ne_refl true = refl
  bool_ne_refl false = refl

  -- A change of policy keeps the predictions and the invariant, and reports exactly whether a
  -- prediction is displayed now where none was before, or the reverse.
  update_policy-displaying :
      (p : Prediction t) (now : ℕ) (frame : Option ℕ)
      → IsSound t p
      → IsSound t (update_policy now frame p).0
        × ((update_policy now frame p).0.pending ≡ p.pending)
        × ((update_policy now frame p).1
            ≡ bool_ne
                (displaying_prediction p)
                (displaying_prediction (update_policy now frame p).0))
  unfolding update_policy
  update_policy-displaying p now frame i = elim (Bool-cases (is_adaptive p.mode)) [
    | inr fixed ↦ rw fixed (i, refl, sym (bool_ne_refl (displaying_prediction p)))
    | inl varies ↦ rw varies (
      record { pending_le = i.pending_le; none_if_never = i.none_if_never; projects = i.projects },
      refl,
      refl,
    )
  ]
