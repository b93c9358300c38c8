-- ===== src/Terminal/Difference.antt =====
-- terminal/mod.rs: `TerminalDifference`.
use mosh_client_rs.Prelude.{
  ℕ, ◌+◌, not, Option, none, some, List, [], ◌∷◌, Result, ok, err, ok_or, try, ltb, ◌==◌,
  if◌then◌else◌, length,
}
use mosh_client_rs.Limits.{max_state_difference_bytes, max_terminal_operations_per_difference}
use mosh_client_rs.Terminal.Screen.{
  TerminalError, difference_too_large, too_many_operations, invalid_message, invalid_operation,
  WireHostOperation, TerminalLibrary,
}

pub data TerminalOperation : Type 0 where
  host_bytes : List ℕ → TerminalOperation
  resize : (columns rows : ℕ) → TerminalOperation
  echo_acknowledgement : ℕ → TerminalOperation

abbrev pub present {ℓ} : {A : Type ℓ} → Option A → ℕ
present none = 0
present (some x) = 1

-- How many of the three messages an operation carries.
unfoldable pub known_fields : WireHostOperation → ℕ
known_fields o = present o.host_bytes + present o.size + present o.wire_echo

-- The first of the three that is there; one is, where exactly one field is known.
abbrev pub operation_of : Option (List ℕ) → Option (ℕ × ℕ) → Option ℕ → Option TerminalOperation
operation_of (some bytes) size echo = some (host_bytes bytes)
operation_of none (some (columns, rows)) echo = some (resize columns rows)
operation_of none none (some number) = some (echo_acknowledgement number)
operation_of none none none = none

unfoldable pub read_operation : WireHostOperation → Result TerminalError TerminalOperation
unfolding known_fields
read_operation o =
    if not (known_fields o == 1)
    then err invalid_operation
    else ok_or (operation_of o.host_bytes o.size o.wire_echo) invalid_operation

unfoldable pub read_operations :
    List WireHostOperation → Result TerminalError (List TerminalOperation)
unfolding read_operation
read_operations [] = ok []
read_operations (o ∷ os) =
    let rest = read_operations os in try (read_operation o) (λ p. try rest (λ ps. ok (p ∷ ps)))

module _ (l : TerminalLibrary) where
  unfoldable pub decode : List ℕ → Result TerminalError (List TerminalOperation)
  unfolding read_operations
  decode bytes =
      if ltb max_state_difference_bytes (length bytes)
      then err difference_too_large
      else try (ok_or (l.decode_host_difference bytes) invalid_message) (λ operations.
        if ltb max_terminal_operations_per_difference (length operations)
        then err too_many_operations
        else read_operations operations)

-- What was found later in the list, or else this.
abbrev pub or_some : Option ℕ → ℕ → Option ℕ
or_some none n = some n
or_some (some later) n = some later

-- The last acknowledgement among the operations.
unfoldable pub latest_echo_acknowledgement : List TerminalOperation → Option ℕ
latest_echo_acknowledgement [] = none
latest_echo_acknowledgement (echo_acknowledgement number ∷ os) =
    or_some (latest_echo_acknowledgement os) number
latest_echo_acknowledgement (host_bytes bytes ∷ os) = latest_echo_acknowledgement os
latest_echo_acknowledgement (resize columns rows ∷ os) = latest_echo_acknowledgement os
