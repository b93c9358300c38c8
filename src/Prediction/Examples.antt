-- ===== src/Prediction/Examples.antt =====
-- Runs of the local predictions, and the theorems at concrete inputs. The terminal of the runs is the
-- line that was typed so far, and echoes the state of its length.
use mosh_client_rs.Prelude.{
  ◌≡◌, ◌⊎◌, refl, arith, ℕ, ◌≤◌, ◌<◌, true, false, Option, none, some, List, [], ◌∷◌, ◌++◌, ok,
  length, ◌==◌, saturating_add,
}
use mosh_client_rs.Prediction.State.{
  TerminalInterface, always, PendingPrediction, LocalPrediction, confirmed, observe_authoritative,
  project, longest_matching_prefix, match_from, display, displaying_prediction, expire,
  is_confirmed, is_never,
}
use mosh_client_rs.Prediction.Prefix.{Matches, NoneLonger, longest_matching_prefix_lem}
use mosh_client_rs.Prediction.Soundness.{IsSound, IsKept, observe_authoritative-IsKept}
use mosh_client_rs.Prediction.Display.{display-project, expire-display}

abbrev typed_line : TerminalInterface
typed_line = record {
  TerminalState = List ℕ;
  TerminalError = Unit;
  with_predicted_ascii = λ byte line. ok (line ++ byte ∷ []);
  display_equivalent = λ a b. length a == length b;
  echo_acknowledgement = λ line. some (length line);
}

abbrev two_pending : List PendingPrediction
two_pending =
    record { client_state = 1; created_at_ms = 0; byte = 97 }
    ∷ record { client_state = 2; created_at_ms = 5; byte = 98 }
    ∷ []

abbrev after_two : LocalPrediction (List ℕ)
after_two = record {
  mode = always;
  confidence = confirmed;
  adaptive_slow_link = false;
  adaptive_glitch = false;
  pending = two_pending;
  base = some [];
  projected = some (97 ∷ 98 ∷ []);
}

after_two-IsSound : IsSound typed_line after_two
unfolding project
after_two-IsSound = record {
  pending_le = omega arith;
  none_if_never = λ h. absurd (ground (arith, h));
  projects = ([], 97 ∷ 98 ∷ [], refl, refl, refl);
}

longest_of_two : longest_matching_prefix typed_line (97 ∷ []) [] two_pending ≡ ok (some 1)
unfolding longest_matching_prefix match_from
longest_of_two = refl

abbrev one : Option ℕ
one = some 1

longest_matching_prefix_lem_example :
    ((one ≡ none)
      × ((j : ℕ) → j ≤ length two_pending → ¬ Matches typed_line (97 ∷ []) [] two_pending j))
    ⊎ ((k : ℕ) × (one ≡ some k)
        × (k ≤ length two_pending)
        × Matches typed_line (97 ∷ []) [] two_pending k
        × NoneLonger typed_line (97 ∷ []) [] two_pending k)
longest_matching_prefix_lem_example =
    longest_matching_prefix_lem typed_line (97 ∷ []) [] one two_pending longest_of_two

observe_authoritative-IsKept_example :
    IsKept typed_line (observe_authoritative typed_line (97 ∷ []) after_two)
observe_authoritative-IsKept_example =
    observe_authoritative-IsKept typed_line after_two (97 ∷ []) after_two-IsSound

display-project_example :
    (display after_two [] ≡ [])
    ⊎ ((is_confirmed confirmed ≡ true)
        × (is_never always ≡ false)
        × ((base : List ℕ) × (after_two.base ≡ some base)
            × (project typed_line base two_pending ≡ ok (display after_two []))))
display-project_example = display-project typed_line after_two [] after_two-IsSound

expire-display_example :
    ((20000 < saturating_add 0 10000) × (expire 20000 after_two ≡ (after_two, false)))
    ⊎ ((saturating_add 0 10000 ≤ 20000)
        × ((expire 20000 after_two).0.pending ≡ [])
        × ((expire 20000 after_two).1 ≡ displaying_prediction after_two)
        × (display (expire 20000 after_two).0 [] ≡ []))
expire-display_example = expire-display typed_line after_two 20000 0 [] refl refl
