-- ===== src/Bootstrap/Examples.antt =====
-- The output of a server whose key decodes to its first sixteen bytes.
use mosh_client_rs.Prelude.{◌≡◌, refl, arith, ℕ, List, [], ◌∷◌, ◌++◌, some, Option, ok, take}
use mosh_client_rs.Bootstrap.Record.{parse_connect_record, parse_port, parse_key}
use mosh_client_rs.Bootstrap.Output.{
  parse, physical_line_count, find_candidate, line_of, looks_like_connect_record,
}
use mosh_client_rs.Bootstrap.Accepted.{IsAccepted, parse-IsAccepted}
use mosh_client_rs.Bootstrap.RoundTrip.{written, parse_connect_record-written}

abbrev first_bytes : List ℕ → Option (List ℕ)
first_bytes bytes = some (take 16 bytes)

abbrev digits_60054 : List ℕ
digits_60054 = 6 ∷ 0 ∷ 0 ∷ 5 ∷ 4 ∷ []

abbrev port_60054 : List ℕ
port_60054 = b'6' ∷ b'0' ∷ b'0' ∷ b'5' ∷ b'4' ∷ []

abbrev eleven : List ℕ
eleven = 65 ∷ 66 ∷ 67 ∷ 68 ∷ 69 ∷ 70 ∷ 71 ∷ 72 ∷ 73 ∷ 74 ∷ 75 ∷ []

abbrev some_key : List ℕ
some_key = eleven ++ eleven

parse_connect_record-written_example :
    parse_connect_record first_bytes (written port_60054 some_key) ≡ ok (60054, take 16 some_key)
parse_connect_record-written_example =
    parse_connect_record-written first_bytes digits_60054 some_key (take 16 some_key) (omega arith)
      (omega arith) (omega arith) (omega arith) refl refl refl refl

abbrev server_output : List ℕ
server_output = 13 ∷ 10 ∷ (written port_60054 some_key ++ 13 ∷ 10 ∷ 104 ∷ 105 ∷ [])

accepted : parse first_bytes server_output ≡ ok (60054, take 16 some_key)
unfolding parse physical_line_count find_candidate line_of looks_like_connect_record
    parse_connect_record parse_port parse_key
accepted = refl

parse-IsAccepted_example : IsAccepted first_bytes server_output (60054, take 16 some_key)
parse-IsAccepted_example =
    parse-IsAccepted first_bytes server_output (60054, take 16 some_key) accepted
