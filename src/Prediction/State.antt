-- ===== src/Prediction/State.antt =====
-- prediction.rs: `LocalPrediction`. The terminal state that it predicts is an interface, of the three
-- operations of terminal/state.rs that the code calls. An `expect` that fails, or a `drain` past the
-- end, is the failure `panic`.
use mosh_client_rs.Prelude.{
  ℕ, suc, Bool, true, false, not, ◌&&◌, ◌||◌, Option, none, some, List, [], ◌∷◌, ◌++◌, Unit0, M,
  Result, ok, err, try, ltb, leb, ◌==◌, if◌then◌else◌, length, drop, null, min, saturating_add,
  ◌>>=◌, ◌>>◌, modify, get, pure,
}
use mosh_client_rs.Limits.{
  adaptive_prediction_disable_frame_ms, adaptive_prediction_enable_frame_ms,
  adaptive_prediction_glitch_ms, max_pending_prediction_bytes, max_pending_prediction_scalars,
  max_prediction_age_ms,
}

pub record TerminalInterface : Type 1 where
  pub TerminalState : Type 0
  pub TerminalError : Type 0
  pub with_predicted_ascii : ℕ → TerminalState → Result TerminalError TerminalState
  pub display_equivalent : TerminalState → TerminalState → Bool
  pub echo_acknowledgement : TerminalState → Option ℕ

pub data PredictionMode : Type 0 where
  adaptive always never : PredictionMode

pub record PendingPrediction : Type 0 where
  pub client_state : ℕ
  pub created_at_ms : ℕ
  pub byte : ℕ

pub data EpochConfidence : Type 0 where
  tentative confirmed : EpochConfidence

pub record LocalPrediction (S : Type 0) : Type 0 where
  pub mode : PredictionMode
  pub confidence : EpochConfidence
  pub adaptive_slow_link : Bool
  pub adaptive_glitch : Bool
  pub pending : List PendingPrediction
  pub base : Option S
  pub projected : Option S

pub data Failure (E : Type 0) : Type 0 where
  terminal_error : E → Failure E
  panic : Failure E

abbrev pub is_never : PredictionMode → Bool
is_never never = true
is_never _ = false

abbrev pub is_adaptive : PredictionMode → Bool
is_adaptive adaptive = true
is_adaptive _ = false

abbrev pub is_confirmed : EpochConfidence → Bool
is_confirmed confirmed = true
is_confirmed tentative = false

abbrev pub bool_ne : Bool → Bool → Bool
bool_ne true b = not b
bool_ne false b = b

-- A single graphic ASCII byte, or a space.
unfoldable pub predictable_byte : List ℕ → Option ℕ
predictable_byte [] = none
predictable_byte (byte ∷ []) =
    if (leb 33 byte && leb byte 126) || byte == 32 then some byte else none
predictable_byte (byte ∷ next ∷ rest) = none

abbrev pub front_created : List PendingPrediction → Option ℕ
front_created [] = none
front_created (p ∷ ps) = some p.created_at_ms

-- How many predictions at the front are for states up to `number`.
abbrev pub echoed : ℕ → List PendingPrediction → ℕ
echoed number [] = 0
echoed number (p ∷ ps) =
    let rest = echoed number ps in if leb p.client_state number then suc rest else 0

abbrev pub acknowledged_prefix : Option ℕ → List PendingPrediction → ℕ
acknowledged_prefix none ps = 0
acknowledged_prefix (some number) ps = echoed number ps

abbrev pub new_prediction : {S : Type 0} → PredictionMode → LocalPrediction S
new_prediction mode = record {
  mode = mode;
  confidence = tentative;
  adaptive_slow_link = false;
  adaptive_glitch = false;
  pending = [];
  base = none;
  projected = none;
}

abbrev pub mode_displays : PredictionMode → (slow_link glitch : Bool) → Bool
mode_displays adaptive slow_link glitch = slow_link || glitch
mode_displays always slow_link glitch = true
mode_displays never slow_link glitch = false

abbrev pub earlier : Option ℕ → Option ℕ → Option ℕ
earlier (some a) (some b) = some (min a b)
earlier (some a) none = some a
earlier none (some b) = some b
earlier none none = none

abbrev pub reached : Option ℕ → ℕ → Bool
reached none now = false
reached (some deadline) now = leb deadline now

module _ {S : Type 0} where
  unfoldable pub displaying_prediction : LocalPrediction S → Bool
  displaying_prediction p =
      is_confirmed p.confidence
      && not (null p.pending)
      && mode_displays p.mode p.adaptive_slow_link p.adaptive_glitch

  unfoldable pub clear : LocalPrediction S → LocalPrediction S × Bool
  unfolding displaying_prediction
  clear p = (
    record p {
      confidence = tentative;
      adaptive_glitch = false;
      pending = [];
      base = none;
      projected = none;
    },
    displaying_prediction p,
  )

  -- `Ok(self.clear())`.
  abbrev pub cleared : {E : Type 0} → M (LocalPrediction S) (Failure E) Bool
  cleared p = ((clear p).0, ok (clear p).1)

  abbrev pub or_else : Option S → S → S
  or_else none s = s
  or_else (some x) s = x

  unfoldable pub display : LocalPrediction S → S → S
  unfolding displaying_prediction
  display p authoritative =
      if displaying_prediction p then or_else p.projected authoritative else authoritative

  unfoldable pub expiration_deadline_ms : LocalPrediction S → Option ℕ
  expiration_deadline_ms p = if is_never p.mode then none else elim (front_created p.pending) [
    | none ↦ none
    | some created ↦ some (saturating_add created max_prediction_age_ms)
  ]

  unfoldable pub glitch_deadline_ms : LocalPrediction S → Option ℕ
  glitch_deadline_ms p =
      if is_adaptive p.mode
        && is_confirmed p.confidence
        && not p.adaptive_slow_link
        && not p.adaptive_glitch
      then elim (front_created p.pending) [
        | none ↦ none
        | some created ↦ some (saturating_add created adaptive_prediction_glitch_ms)
      ]
      else none

  unfoldable pub next_deadline_ms : LocalPrediction S → Option ℕ
  unfolding expiration_deadline_ms glitch_deadline_ms
  next_deadline_ms p = earlier (expiration_deadline_ms p) (glitch_deadline_ms p)

  unfoldable pub expire : ℕ → LocalPrediction S → LocalPrediction S × Bool
  unfolding expiration_deadline_ms clear
  expire now p = if reached (expiration_deadline_ms p) now then clear p else (p, false)

  -- The link test of `update_policy`.
  unfoldable pub slow_link : (frame_interval_ms : Option ℕ) → LocalPrediction S → Bool
  unfolding displaying_prediction
  slow_link none p = p.adaptive_slow_link
  slow_link (some frame) p =
      if ltb adaptive_prediction_enable_frame_ms frame
      then true
      else if leb frame adaptive_prediction_disable_frame_ms && not (displaying_prediction p)
      then false
      else p.adaptive_slow_link

  -- The glitch test of `update_policy`.
  unfoldable pub glitch : ℕ → LocalPrediction S → Bool
  glitch now p = elim (front_created p.pending) [
    | none ↦ false
    | some created ↦
        if is_confirmed p.confidence
          && leb (saturating_add created adaptive_prediction_glitch_ms) now
        then true
        else p.adaptive_glitch
  ]

  unfoldable pub update_policy :
      ℕ → (frame_interval_ms : Option ℕ) → LocalPrediction S → LocalPrediction S × Bool
  unfolding displaying_prediction slow_link glitch
  update_policy now frame p =
      if not (is_adaptive p.mode)
      then (p, false)
      else (let q = record p {
        adaptive_slow_link = slow_link frame p;
        adaptive_glitch = glitch now p;
      } in
          (q, bool_ne (displaying_prediction p) (displaying_prediction q)))

module _ (t : TerminalInterface) where
  abbrev pub Prediction : Type 0
  Prediction = LocalPrediction t.TerminalState

  -- The projection of some predictions from a state.
  unfoldable pub project :
      t.TerminalState → List PendingPrediction → Result t.TerminalError t.TerminalState
  project s [] = ok s
  project s (p ∷ ps) = try (t.with_predicted_ascii p.byte s) (λ next. project next ps)

  abbrev pub project_into :
      Result t.TerminalError t.TerminalState → M Prediction (Failure t.TerminalError) Unit0
  project_into (ok s) p = (record p { projected = some s }, ok tt)
  project_into (err e) p = (p, err (terminal_error e))

  -- The new projection for one more byte.
  unfoldable pub extend :
      (byte : ℕ) → t.TerminalState → M Prediction (Failure t.TerminalError) Unit0
  extend byte authoritative p =
      if null p.pending
      then project_into (t.with_predicted_ascii byte authoritative)
          (record p { base = some authoritative })
      else elim p.projected [
        | none ↦ (p, err panic)
        | some s ↦ project_into (t.with_predicted_ascii byte s) p
      ]

  unfoldable pub push_prediction :
      PendingPrediction → t.TerminalState → M Prediction (Failure t.TerminalError) Bool
  unfolding extend
  push_prediction prediction authoritative = do
    extend prediction.byte authoritative
    modify (λ q. record q { pending = q.pending ++ prediction ∷ [] })
    q ← get
    pure (displaying_prediction q)

  unfoldable pub observe_input :
      (client_state : ℕ)
      → List ℕ
      → t.TerminalState
      → (now_ms : ℕ) → M Prediction (Failure t.TerminalError) Bool
  unfolding predictable_byte push_prediction
  observe_input client_state bytes authoritative now p =
      if is_never p.mode then (p, ok false) else elim (predictable_byte bytes) [
        | none ↦ cleared p
        | some byte ↦
            if length p.pending == max_pending_prediction_scalars
              || length p.pending == max_pending_prediction_bytes
            then cleared p
            else push_prediction
                (record { client_state = client_state; created_at_ms = now; byte = byte })
                authoritative p
      ]

  -- The loop of `longest_matching_prefix`.
  unfoldable pub match_from :
      (authoritative expected : t.TerminalState)
      → (index : ℕ) → (matched_prefix : Option ℕ) → List PendingPrediction
      → Result t.TerminalError (Option ℕ)
  match_from authoritative expected index matched [] = ok matched
  match_from authoritative expected index matched (p ∷ ps) =
      try (t.with_predicted_ascii p.byte expected) (λ next.
        match_from authoritative next (suc index)
          (if t.display_equivalent next authoritative then some (suc index) else matched) ps)

  unfoldable pub longest_matching_prefix :
      (authoritative base : t.TerminalState)
      → List PendingPrediction
      → Result t.TerminalError (Option ℕ)
  unfolding match_from
  longest_matching_prefix authoritative base ps =
      match_from authoritative base 0
        (if t.display_equivalent base authoritative then some 0 else none) ps

  -- The end of `observe_authoritative`, where some predictions are confirmed.
  unfoldable pub confirm :
      (matched_prefix : ℕ) → t.TerminalState → M Prediction (Failure t.TerminalError) Unit0
  unfolding project
  confirm matched authoritative p =
      let q = record p { confidence = confirmed; pending = drop matched p.pending } in
      if ltb (length p.pending) matched
      then (record p { confidence = confirmed }, err panic)
      else if null q.pending
      then (record q { base = none; projected = none; adaptive_glitch = false }, ok tt)
      else elim (project authoritative q.pending) [
        | err e ↦ (q, err (terminal_error e))
        | ok s ↦ (record q { base = some authoritative; projected = some s }, ok tt)
      ]

  unfoldable pub settle :
      (matched_prefix : ℕ) → t.TerminalState → M Prediction (Failure t.TerminalError) Unit0
  unfolding confirm
  settle matched authoritative p =
      let acknowledged = acknowledged_prefix (t.echo_acknowledgement authoritative) p.pending in
      if ltb matched acknowledged
      then ((clear p).0, ok tt)
      else if acknowledged == 0
      then (p, ok tt)
      else confirm matched authoritative p

  -- `observe_authoritative` once the prefix is found.
  abbrev pub settle_found :
      Result t.TerminalError (Option ℕ)
      → t.TerminalState
      → M Prediction (Failure t.TerminalError) Unit0
  settle_found (err e) authoritative p = (p, err (terminal_error e))
  settle_found (ok none) authoritative p = ((clear p).0, ok tt)
  settle_found (ok (some matched)) authoritative p = settle matched authoritative p

  unfoldable pub compare_base :
      (base : t.TerminalState) → t.TerminalState → M Prediction (Failure t.TerminalError) Unit0
  compare_base base authoritative p =
      settle_found (longest_matching_prefix authoritative base p.pending) authoritative p

  unfoldable pub observe_authoritative :
      t.TerminalState → M Prediction (Failure t.TerminalError) Unit0
  unfolding compare_base
  observe_authoritative authoritative p =
      if is_never p.mode || null p.pending
      then (p, ok tt)
      else elim p.base [ none ↦ (p, err panic) | some base ↦ compare_base base authoritative p ]
