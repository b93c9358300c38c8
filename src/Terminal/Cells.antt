-- ===== src/Terminal/Cells.antt =====
-- The bytes of one cell fit what the screen can hold.
use mosh_client_rs.Prelude.{arith, ℕ, ◌≤◌, ◌<◌, Option, none, some, List, [], ◌∷◌}
use mosh_client_rs.Limits.{max_unicode_scalars_per_cell}
use mosh_client_rs.Terminal.Screen.{
  TerminalLibrary, VteEvent, print, execute, hook, osc_dispatch, esc_dispatch, csi_dispatch,
}
use mosh_client_rs.Terminal.Width.{width}
use mosh_client_rs.Terminal.Budget.{
  ScalarBudget, new_budget, reset_cluster, combine, print_width, perform, perform_all,
  vt100_cell_content_bytes,
}

-- A cluster that a cell can hold.
pub record FitsCell (b : ScalarBudget) : Type 0 where
  pub scalars_le : b.scalars ≤ max_unicode_scalars_per_cell
  pub bytes_lt : b.utf8_bytes < vt100_cell_content_bytes

print_width-FitsCell :
    (w : Option ℕ) (bytes : ℕ) (b : ScalarBudget)
    → bytes ≤ 4
    → FitsCell b
    → FitsCell (print_width w bytes b)
unfolding combine
print_width-FitsCell none bytes b h f = record { scalars_le = f.scalars_le; bytes_lt = f.bytes_lt }
print_width-FitsCell (some width) bytes b h f = ground (arith, f.scalars_le, f.bytes_lt)

module _ (l : TerminalLibrary) (short : (c : ℕ) → l.len_utf8 c ≤ 4) where
  perform-FitsCell : (e : VteEvent) (b : ScalarBudget) → FitsCell b → FitsCell (perform l e b)
  unfolding perform reset_cluster
  perform-FitsCell (print c) b f =
      print_width-FitsCell (width l c) (l.len_utf8 c) _ (short c)
        (record { scalars_le = f.scalars_le; bytes_lt = f.bytes_lt })
  perform-FitsCell execute b f = record { scalars_le = omega arith; bytes_lt = omega arith }
  perform-FitsCell hook b f = record { scalars_le = omega arith; bytes_lt = omega arith }
  perform-FitsCell osc_dispatch b f = record { scalars_le = omega arith; bytes_lt = omega arith }
  perform-FitsCell esc_dispatch b f = record { scalars_le = omega arith; bytes_lt = omega arith }
  perform-FitsCell (csi_dispatch action) b f = ground (arith, f.scalars_le, f.bytes_lt)

  all-FitsCell :
      (es : List VteEvent) (b : ScalarBudget) → FitsCell b → FitsCell (perform_all l es b)
  unfolding perform_all
  all-FitsCell [] b f = f
  all-FitsCell (e ∷ es) b f = all-FitsCell es (perform l e b) (perform-FitsCell e b f)

  -- Whatever the parser reports, the cluster that is counted never has more than eight scalars nor
  -- as many bytes as the contents of a cell, where an encoding has four bytes at most.
  pub perform_all-FitsCell : (es : List VteEvent) → FitsCell (perform_all l es new_budget)
  perform_all-FitsCell es =
      all-FitsCell es new_budget (record { scalars_le = omega arith; bytes_lt = omega arith })
