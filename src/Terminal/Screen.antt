-- ===== src/Terminal/Screen.antt =====
-- What the terminal calls of code that is not modelled: the screens of vt100, the parser of vte, the
-- messages of prost and the width tables. Also the errors of terminal/mod.rs.
use mosh_client_rs.Prelude.{ℕ, Bool, Option, List}

pub data TerminalError : Type 0 where
  difference_too_large : TerminalError
  too_many_operations : TerminalError
  invalid_message : TerminalError
  invalid_operation : TerminalError
  invalid_terminal_size : TerminalError
  invalid_utf8 : TerminalError
  incomplete_sequence : TerminalError
  unsupported_character : TerminalError
  unsupported_control : TerminalError
  unsupported_escape : TerminalError
  unsupported_csi : (intermediate parameter : Option ℕ) (final_character : ℕ) → TerminalError
  unsupported_osc : TerminalError
  too_many_scalars_in_cell : TerminalError
  cell_encoding_too_large : TerminalError

-- The three messages that an operation of a difference may carry.
pub record WireHostOperation : Type 0 where
  pub host_bytes : Option (List ℕ)
  pub size : Option (ℕ × ℕ)
  pub wire_echo : Option ℕ

-- What vte reports of the bytes that it reads. A printed character comes with its code point.
pub data VteEvent : Type 0 where
  print : (character : ℕ) → VteEvent
  execute hook osc_dispatch esc_dispatch : VteEvent
  csi_dispatch : (action : ℕ) → VteEvent

-- What vt100 could not carry out: its `Callbacks`.
pub data Unhandled : Type 0 where
  unhandled_char unhandled_control unhandled_escape unhandled_osc : Unhandled
  unhandled_csi : (intermediate : Option ℕ) (params : List (List ℕ)) (character : ℕ) → Unhandled

pub record TerminalLibrary : Type 1 where
  pub Screen : Type 0
  -- `Parser::new(rows, columns, 0)`.
  pub new_screen : (rows columns : ℕ) → Screen
  pub screen_size : Screen → ℕ × ℕ
  pub set_size : (rows columns : ℕ) → Screen → Screen
  -- The screen after some bytes, and what was not handled, in order.
  pub process : List ℕ → Screen → Screen × List Unhandled
  -- How many scalars a cell holds, where there is one.
  pub cell_scalars : Screen → (row column : ℕ) → Option ℕ
  pub state_formatted : Screen → List ℕ
  -- `state_diff`: from the previous screen to the current one.
  pub state_diff : (previous current : Screen) → List ℕ
  pub VteState : Type 0
  pub vte_new : VteState
  pub vte_advance : List ℕ → VteState → VteState × List VteEvent
  pub is_utf8 : List ℕ → Bool
  -- The length of a character's encoding, and the width that `unicode-width` gives it, if any.
  pub len_utf8 : ℕ → ℕ
  pub unicode_width : ℕ → Option ℕ
  pub decode_host_difference : List ℕ → Option (List WireHostOperation)
