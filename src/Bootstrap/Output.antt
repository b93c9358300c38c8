-- ===== src/Bootstrap/Output.antt =====
-- bootstrap.rs: the lines of the output, and the record among them.
use mosh_client_rs.Prelude.{
  ℕ, ◌+◌, ◌-◌, Bool, false, not, ◌&&◌, Option, none, some, List, [], ◌∷◌, Result, ok, err, try, ltb,
  ◌==◌, if◌then◌else◌, length, retain, null, bytes_eq,
}
use mosh_client_rs.Limits.{max_bootstrap_bytes, max_bootstrap_lines}
use mosh_client_rs.Bootstrap.Record.{
  BootstrapError, output_too_large, too_many_lines, missing_connect_record,
  ambiguous_connect_record, mosh_word, connect_word, is_ascii_whitespace, on_first, split,
  parse_connect_record,
}

abbrev cons_some : ℕ → Option (List ℕ) → Option (List ℕ)
cons_some b none = none
cons_some b (some bs) = some (b ∷ bs)

-- `strip_suffix` of one byte.
abbrev pub strip_suffix : ℕ → List ℕ → Option (List ℕ)
strip_suffix suffix [] = none
strip_suffix suffix (b ∷ []) = if b == suffix then some [] else none
strip_suffix suffix (b ∷ c ∷ cs) = cons_some b (strip_suffix suffix (c ∷ cs))

abbrev pub is_present : Option (List ℕ) → ℕ
is_present none = 0
is_present (some line) = 1

-- A line more, where the output does not end with a line feed.
unfoldable pub physical_line_count : List ℕ → ℕ
physical_line_count [] = 0
physical_line_count (b ∷ bs) =
    length (retain (λ c. c == 10) (b ∷ bs)) + (1 - is_present (strip_suffix 10 (b ∷ bs)))

-- `split_inclusive` at line feeds.
abbrev pub split_inclusive : List ℕ → List (List ℕ)
split_inclusive [] = []
split_inclusive (b ∷ bs) =
    let rest = split_inclusive bs in if b == 10 then (b ∷ []) ∷ rest else on_first b rest

abbrev unwrap_or : Option (List ℕ) → List ℕ → List ℕ
unwrap_or none line = line
unwrap_or (some stripped) line = stripped

abbrev without_return : Option (List ℕ) → (raw : List ℕ) → List ℕ
without_return none raw = raw
without_return (some line) raw = unwrap_or (strip_suffix 13 line) line

-- A line without its end: a line feed, and a carriage return before it.
unfoldable pub line_of : List ℕ → List ℕ
line_of raw = without_return (strip_suffix 10 raw) raw

abbrev starts_with_words : List (List ℕ) → Bool
starts_with_words (first ∷ second ∷ rest) = bytes_eq first mosh_word && bytes_eq second connect_word
starts_with_words _ = false

unfoldable pub looks_like_connect_record : List ℕ → Bool
looks_like_connect_record line =
    starts_with_words (retain (λ word. not (null word)) (split is_ascii_whitespace line))

-- The candidate after a line.
abbrev pub note_line : Option (List ℕ) → (line : List ℕ) → Result BootstrapError (Option (List ℕ))
note_line none line = if looks_like_connect_record line then ok (some line) else ok none
note_line (some earlier) line =
    if looks_like_connect_record line then err ambiguous_connect_record else ok (some earlier)

-- The loop of `parse` over the lines.
unfoldable pub find_candidate :
    (candidate : Option (List ℕ)) → List (List ℕ) → Result BootstrapError (Option (List ℕ))
unfolding line_of
find_candidate candidate [] = ok candidate
find_candidate candidate (raw ∷ raws) =
    try (note_line candidate (line_of raw)) (λ next. find_candidate next raws)

abbrev pub parse_candidate :
    (List ℕ → Option (List ℕ)) → Option (List ℕ) → Result BootstrapError (ℕ × List ℕ)
parse_candidate decode_slice none = err missing_connect_record
parse_candidate decode_slice (some line) = parse_connect_record decode_slice line

-- `Bootstrap::parse`, but for the address that it is given.
unfoldable pub parse : (List ℕ → Option (List ℕ)) → List ℕ → Result BootstrapError (ℕ × List ℕ)
unfolding physical_line_count find_candidate
parse decode_slice output =
    if ltb max_bootstrap_bytes (length output)
    then err output_too_large
    else if ltb max_bootstrap_lines (physical_line_count output)
    then err too_many_lines
    else try (find_candidate none (split_inclusive output))
        (λ candidate. parse_candidate decode_slice candidate)
