-- ===== src/Prediction/Matched.antt =====
-- The matched prefix of the predictions is no longer than they are.
use mosh_client_rs.Prelude.{
  ◌≡◌, arith, ℕ, ◌≤◌, Bool, true, false, Option, some, List, [], ◌∷◌, ok, inl, inr, length,
  Bool-cases, Result-cases, suc, ◌+◌, if◌then◌else◌,
}
use mosh_client_rs.Prediction.State.{
  TerminalInterface, PendingPrediction, match_from, longest_matching_prefix,
}

module _ (t : TerminalInterface) where
  -- The prefix found is one of the predictions.
  match_from-le :
      (authoritative expected : t.TerminalState) (index : ℕ) (matched : Option ℕ)
      (ps : List PendingPrediction) (m : ℕ)
      → ((k : ℕ) → matched ≡ some k → k ≤ index)
      → match_from t authoritative expected index matched ps ≡ ok (some m)
      → m ≤ index + length ps
  unfolding match_from
  match_from-le authoritative expected index matched [] m h e =
      omega (arith, h m (ground (arith, e)))
  match_from-le authoritative expected index matched (p ∷ ps) m h e =
      elim (Result-cases (t.with_predicted_ascii p.byte expected)) [
        | inr (x, f) ↦ absurd (ground (arith, e, f))
        | inl (next, f) ↦ omega (
          arith,
          match_from-le authoritative next (suc index)
              (if t.display_equivalent next authoritative then some (suc index) else matched) ps m
              (kept index matched (t.display_equivalent next authoritative) h)
              (ground (arith, e, f)),
        )
      ]
    where
      kept :
          (index : ℕ) (matched : Option ℕ) (shown : Bool)
          → ((k : ℕ) → matched ≡ some k → k ≤ index)
          → (k : ℕ) → (if shown then some (suc index) else matched) ≡ some k
          → k ≤ suc index
      kept index matched true h k e = ground (arith, e)
      kept index matched false h k e = omega (arith, h k e)

  pub longest_matching_prefix-le :
      (authoritative base : t.TerminalState) (ps : List PendingPrediction) (m : ℕ)
      → longest_matching_prefix t authoritative base ps ≡ ok (some m)
      → m ≤ length ps
  unfolding longest_matching_prefix
  longest_matching_prefix-le authoritative base ps m e = omega (
    arith,
    match_from-le authoritative base 0 _ ps m
        (elim (Bool-cases (t.display_equivalent base authoritative)) [
          | inl same ↦ λ k f. ground (arith, f, same)
          | inr other ↦ λ k f. absurd (ground (arith, f, other))
        ])
        e,
  )
