-- ===== src/Terminal/Paint.antt =====
-- terminal/paint.rs: `TerminalPainter`.
use mosh_client_rs.Prelude.{
  ℕ, Bool, ◌&&◌, List, [], ◌∷◌, ◌++◌, Result, ok, err, ltb, ◌==◌, if◌then◌else◌, length,
}
use mosh_client_rs.Limits.{max_output_chunk_bytes}
use mosh_client_rs.Terminal.Screen.{TerminalLibrary}
use mosh_client_rs.Terminal.State.{TerminalState}

pub data PaintError : Type 0 where
  output_too_large : PaintError

-- `ESC [ ? n l` for the numbers 1001, 1004 and 1015.
abbrev pub initial_profile_policy_reset : List ℕ
initial_profile_policy_reset =
    27 ∷ b'[' ∷ b'?' ∷ b'1' ∷ b'0' ∷ b'0' ∷ b'1' ∷ b'l' ∷ 27 ∷ b'[' ∷ b'?' ∷ b'1' ∷ b'0' ∷ b'0'
    ∷ b'4' ∷ b'l' ∷ 27 ∷ b'[' ∷ b'?' ∷ b'1' ∷ b'0' ∷ b'1' ∷ b'5' ∷ b'l' ∷ []

unfoldable pub bounded : List ℕ → Result PaintError (List ℕ)
bounded output =
    if ltb max_output_chunk_bytes (length output) then err output_too_large else ok output

module _ (l : TerminalLibrary) where
  unfoldable pub full : TerminalState l → Result PaintError (List ℕ)
  unfolding bounded
  full s = bounded (initial_profile_policy_reset ++ l.state_formatted s.screen)

  abbrev same_size : ℕ × ℕ → ℕ × ℕ → Bool
  same_size (rows, columns) (rows', columns') = rows == rows' && columns == columns'

  unfoldable pub incremental : (previous current : TerminalState l) → Result PaintError (List ℕ)
  unfolding full bounded
  incremental previous current =
      if same_size (l.screen_size previous.screen) (l.screen_size current.screen)
      then bounded (l.state_diff previous.screen current.screen)
      else full current
