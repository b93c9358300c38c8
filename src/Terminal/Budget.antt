-- ===== src/Terminal/Budget.antt =====
-- terminal/state.rs: `ScalarBudget` and `validate_host_bytes`, which keep each cell within what the
-- screen can hold.
use mosh_client_rs.Prelude.{
  ℕ, ◌+◌, Bool, false, not, ◌||◌, Option, none, some, List, [], ◌∷◌, Unit0, Result, ok, err, leb,
  ◌==◌, if◌then◌else◌,
}
use mosh_client_rs.Limits.{max_unicode_scalars_per_cell}
use mosh_client_rs.Terminal.Screen.{
  TerminalError, invalid_utf8, incomplete_sequence, unsupported_control, too_many_scalars_in_cell,
  cell_encoding_too_large, VteEvent, print, execute, hook, osc_dispatch, esc_dispatch, csi_dispatch,
  TerminalLibrary,
}
use mosh_client_rs.Terminal.Width.{width}

abbrev pub vt100_cell_content_bytes : ℕ
vt100_cell_content_bytes = 22

abbrev pub max_bytes_before_combining_append : ℕ
max_bytes_before_combining_append = 18

pub record ScalarBudget : Type 0 where
  pub scalars : ℕ
  pub utf8_bytes : ℕ
  pub prints : ℕ
  pub last_printed : Option ℕ
  pub error : Option TerminalError

abbrev pub new_budget : ScalarBudget
new_budget = record { scalars = 0; utf8_bytes = 0; prints = 0; last_printed = none; error = none }

unfoldable pub reset_cluster : ScalarBudget → ScalarBudget
reset_cluster b = record b { scalars = 0; utf8_bytes = 0 }

-- `print` of a character of no width, with the length of its encoding.
unfoldable pub combine : (bytes : ℕ) → ScalarBudget → ScalarBudget
combine bytes b =
    if b.scalars == 0 || b.scalars == max_unicode_scalars_per_cell
    then record b { error = some too_many_scalars_in_cell }
    else if leb max_bytes_before_combining_append b.utf8_bytes
    then record b { error = some cell_encoding_too_large }
    else record b { scalars = b.scalars + 1; utf8_bytes = b.utf8_bytes + bytes }

abbrev pub print_width : Option ℕ → (bytes : ℕ) → ScalarBudget → ScalarBudget
print_width none bytes b = record b { error = some unsupported_control }
print_width (some width) bytes b =
    if width == 0 then combine bytes b else record b { scalars = 1; utf8_bytes = bytes }

abbrev same_character : Option ℕ → ℕ → Bool
same_character none c = false
same_character (some d) c = d == c

module _ (l : TerminalLibrary) where
  unfoldable pub perform : VteEvent → ScalarBudget → ScalarBudget
  unfolding combine reset_cluster
  perform (print c) b =
      print_width (width l c) (l.len_utf8 c)
        (record b { prints = b.prints + 1; last_printed = some c })
  perform execute b = reset_cluster b
  perform hook b = reset_cluster b
  perform osc_dispatch b = reset_cluster b
  perform esc_dispatch b = reset_cluster b
  perform (csi_dispatch action) b = if action == b'm' then b else reset_cluster b

  unfoldable pub perform_all : List VteEvent → ScalarBudget → ScalarBudget
  unfolding perform
  perform_all [] b = b
  perform_all (e ∷ es) b = perform_all es (perform e b)

  -- The end of `validate_host_bytes`: `b` after the bytes, `after` also after the sentinel `X`.
  abbrev pub judge_sentinel : (b after : ScalarBudget) → Result TerminalError Unit0
  judge_sentinel b after = elim after.error [
    | some e ↦ err e
    | none ↦
        if not (after.prints == b.prints + 1) || not (same_character after.last_printed b'X')
        then err incomplete_sequence
        else ok tt
  ]

  unfoldable pub validate_host_bytes : List ℕ → Result TerminalError Unit0
  unfolding perform_all
  validate_host_bytes bytes =
      if not (l.is_utf8 bytes)
      then err invalid_utf8
      else (let (state, events) = l.vte_advance bytes l.vte_new in
          let b = perform_all events new_budget in
          judge_sentinel b (perform_all (l.vte_advance (b'X' ∷ []) state).1 b))
