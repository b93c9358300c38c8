-- ===== src/Terminal/Examples.antt =====
-- A screen that is no more than its size, and the theorems at concrete inputs.
use mosh_client_rs.Prelude.{◌≡◌, refl, arith, ℕ, true, some, [], ◌∷◌, map, ok}
use mosh_client_rs.Terminal.Screen.{TerminalLibrary, print, csi_dispatch}
use mosh_client_rs.Terminal.Difference.{resize, echo_acknowledgement, latest_echo_acknowledgement}
use mosh_client_rs.Terminal.Budget.{new_budget, perform_all}
use mosh_client_rs.Terminal.State.{TerminalState, apply, apply_operation, checked_size}
use mosh_client_rs.Terminal.Cells.{FitsCell, perform_all-FitsCell}
use mosh_client_rs.Terminal.Echo.{apply-last_echo, or_else, NotBelow}

abbrev pub bare_library : TerminalLibrary
bare_library = record {
  Screen = ℕ × ℕ;
  new_screen = λ rows columns. (rows, columns);
  screen_size = λ s. s;
  set_size = λ rows columns s. (rows, columns);
  process = λ bytes s. (s, []);
  cell_scalars = λ s row column. some 1;
  state_formatted = λ s. s.0 ∷ s.1 ∷ [];
  state_diff = λ previous current. [];
  VteState = Unit;
  vte_new = tt;
  vte_advance = λ bytes s. (tt, map print bytes);
  is_utf8 = λ bytes. true;
  len_utf8 = λ c. 2;
  unicode_width = λ c. some 1;
  decode_host_difference = λ bytes. some [];
}

perform_all-FitsCell_example :
    FitsCell (perform_all bare_library (print 7 ∷ print 0x2d7f ∷ csi_dispatch 109 ∷ []) new_budget)
perform_all-FitsCell_example =
    perform_all-FitsCell bare_library (λ c. omega arith)
      (print 7 ∷ print 0x2d7f ∷ csi_dispatch 109 ∷ [])

abbrev small : TerminalState bare_library
small = record { screen = (2, 2); last_echo = some 3 }

abbrev larger : TerminalState bare_library
larger = record { screen = (5, 4); last_echo = some 9 }

larger_eq :
    apply bare_library (echo_acknowledgement 8 ∷ resize 4 5 ∷ echo_acknowledgement 9 ∷ []) small
    ≡ ok larger
unfolding apply apply_operation checked_size
larger_eq = refl

apply-last_echo_example :
    (some 9
      ≡ or_else
          (latest_echo_acknowledgement
            (echo_acknowledgement 8 ∷ resize 4 5 ∷ echo_acknowledgement 9 ∷ []))
          (some 3))
    × NotBelow (some 3) (some 9)
apply-last_echo_example =
    apply-last_echo bare_library (echo_acknowledgement 8 ∷ resize 4 5 ∷ echo_acknowledgement 9 ∷ [])
      small larger larger_eq
