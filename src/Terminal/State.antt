-- ===== src/Terminal/State.antt =====
-- terminal/state.rs: `TerminalState`, the authoritative screen and the echo acknowledgement.
use mosh_client_rs.Prelude.{
  bytes_eq, ℕ, zero, suc, ◌*◌, ◌||◌, ◌&&◌, Bool, true, false, Option, none, some, List, [], ◌∷◌,
  Unit0, Result, ok, err, try, ltb, ◌==◌, if◌then◌else◌,
}
use mosh_client_rs.Limits.{
  max_terminal_columns, max_terminal_rows, max_terminal_visible_cells, max_unicode_scalars_per_cell,
}
use mosh_client_rs.Terminal.Screen.{
  TerminalError, invalid_operation, invalid_terminal_size, too_many_scalars_in_cell,
  unsupported_character, unsupported_control, unsupported_escape, unsupported_osc, unsupported_csi,
  Unhandled, unhandled_char, unhandled_control, unhandled_escape, unhandled_osc, unhandled_csi,
  TerminalLibrary,
}
use mosh_client_rs.Terminal.Difference.{TerminalOperation, host_bytes, resize, echo_acknowledgement}
use mosh_client_rs.Terminal.Budget.{validate_host_bytes}

-- The rows and columns of a size that is allowed. With the limits, both fit 16 bits.
unfoldable pub checked_size : (columns rows : ℕ) → Result TerminalError (ℕ × ℕ)
checked_size columns rows =
    if columns == 0
      || ltb max_terminal_columns columns
      || rows == 0
      || ltb max_terminal_rows rows
      || ltb max_terminal_visible_cells (columns * rows)
    then err invalid_terminal_size
    else ok (rows, columns)

abbrev is_ok {ℓ κ} : {E : Type ℓ} {A : Type κ} → Result E A → Bool
is_ok (ok a) = true
is_ok (err e) = false

unfoldable pub is_valid_size : (columns rows : ℕ) → Bool
unfolding checked_size
is_valid_size columns rows = is_ok (checked_size columns rows)

abbrev first_parameter : List (List ℕ) → Option ℕ
first_parameter [] = none
first_parameter ([] ∷ ps) = none
first_parameter ((n ∷ ns) ∷ ps) = some n

abbrev is_question_mark : Option ℕ → Bool
is_question_mark none = false
is_question_mark (some c) = c == b'?'

-- One parameter of one number.
abbrev only_parameter : List (List ℕ) → Option ℕ
only_parameter ((n ∷ []) ∷ []) = some n
only_parameter _ = none

abbrev suppressed_parameter : Option ℕ → (final_character : ℕ) → Bool
suppressed_parameter none final_character = false
suppressed_parameter (some n) final_character =
    (n == 1001 || n == 1004 || n == 1015) && final_character == b'l'
    || n == 1004 && final_character == b'h'

unfoldable pub is_suppressed_external_policy_sequence :
    (intermediate : Option ℕ) → List (List ℕ) → (final_character : ℕ) → Bool
is_suppressed_external_policy_sequence intermediate params final_character =
    is_question_mark intermediate && suppressed_parameter (only_parameter params) final_character

-- The callbacks: what they leave in `unsupported_sequence`.
unfoldable pub note_unhandled : Unhandled → Option TerminalError → Option TerminalError
unfolding is_suppressed_external_policy_sequence
note_unhandled unhandled_char e = some unsupported_character
note_unhandled unhandled_control e = some unsupported_control
note_unhandled unhandled_escape e = some unsupported_escape
note_unhandled unhandled_osc e = some unsupported_osc
note_unhandled (unhandled_csi intermediate params c) e =
    if is_suppressed_external_policy_sequence intermediate params c
    then e
    else some (unsupported_csi intermediate (first_parameter params) c)

unfoldable pub unsupported_sequence : List Unhandled → Option TerminalError → Option TerminalError
unfolding note_unhandled
unsupported_sequence [] e = e
unsupported_sequence (u ∷ us) e = unsupported_sequence us (note_unhandled u e)

-- Does a cell hold too many scalars? Where there is no cell, it does not.
abbrev too_many : Option ℕ → Bool
too_many none = false
too_many (some count) = ltb max_unicode_scalars_per_cell count

-- `0..count`, from its end: is the test true of one?
abbrev pub any_below : (ℕ → Bool) → ℕ → Bool
any_below test zero = false
any_below test (suc n) = any_below test n || test n

module _ (l : TerminalLibrary) where
  pub record TerminalState : Type 0 where
    pub screen : l.Screen
    pub last_echo : Option ℕ

  unfoldable pub new : (columns rows : ℕ) → Result TerminalError TerminalState
  new columns rows =
      try (checked_size columns rows)
        (λ size. ok (record { screen = l.new_screen size.0 size.1; last_echo = none }))

  unfoldable pub validate_screen : l.Screen → Result TerminalError Unit0
  validate_screen screen =
      let (rows, columns) = l.screen_size screen in
      if any_below
        (λ row. any_below (λ column. too_many (l.cell_scalars screen row column)) columns) rows
      then err too_many_scalars_in_cell
      else ok tt

  -- `apply_host_bytes` once vt100 has processed the bytes.
  abbrev pub accept_screen :
      l.Screen × List Unhandled → TerminalState → Result TerminalError TerminalState
  accept_screen (screen, unhandled) s = elim (unsupported_sequence unhandled none) [
    | some e ↦ err e
    | none ↦ try (validate_screen screen) (λ _. ok (record s { screen = screen }))
  ]

  unfoldable pub apply_host_bytes : List ℕ → TerminalState → Result TerminalError TerminalState
  apply_host_bytes bytes s =
      try (validate_host_bytes l bytes) (λ _. accept_screen (l.process bytes s.screen) s)

  abbrev pub decreases : ℕ → Option ℕ → Bool
  decreases number none = false
  decreases number (some current) = ltb number current

  unfoldable pub apply_operation :
      TerminalOperation → TerminalState → Result TerminalError TerminalState
  apply_operation (host_bytes bytes) s = apply_host_bytes bytes s
  apply_operation (resize columns rows) s =
      try (checked_size columns rows)
        (λ size. ok (record s { screen = l.set_size size.0 size.1 s.screen }))
  apply_operation (echo_acknowledgement number) s =
      if decreases number s.last_echo
      then err invalid_operation
      else ok (record s { last_echo = some number })

  unfoldable pub apply : List TerminalOperation → TerminalState → Result TerminalError TerminalState
  unfolding apply_operation
  apply [] s = ok s
  apply (o ∷ os) s = try (apply_operation o s) (λ next. apply os next)

  unfoldable pub with_predicted_ascii : ℕ → TerminalState → Result TerminalError TerminalState
  with_predicted_ascii byte s = apply_host_bytes (byte ∷ []) s

  unfoldable pub display_equivalent : TerminalState → TerminalState → Bool
  display_equivalent a b = bytes_eq (l.state_formatted a.screen) (l.state_formatted b.screen)
