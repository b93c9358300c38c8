-- ===== src/Prediction/Prefix.antt =====
-- The prefix that `longest_matching_prefix` finds.
use mosh_client_rs.Prelude.{
  ◌≡◌, refl, arith, ℕ, zero, suc, ◌+◌, ◌≤◌, ◌<◌, true, false, Option, none, some, List, [], ◌∷◌, ok,
  ◌⊎◌, inl, inr, if◌then◌else◌, length, take, Bool-cases, Result-cases,
}
use mosh_client_rs.Prediction.State.{
  TerminalInterface, PendingPrediction, project, match_from, longest_matching_prefix,
}

module _ (t : TerminalInterface) where
  -- The projection of the first `k` predictions is what the server shows.
  abbrev pub Matches : (authoritative base : t.TerminalState) → List PendingPrediction → ℕ → Type 0
  Matches authoritative base ps k =
      (s : t.TerminalState) × (project t base (take k ps) ≡ ok s)
      × (t.display_equivalent s authoritative ≡ true)

  -- No prefix longer than `k` matches.
  abbrev pub NoneLonger :
      (authoritative base : t.TerminalState) → List PendingPrediction → ℕ → Type 0
  NoneLonger authoritative base ps k =
      (j : ℕ) → k < j → j ≤ length ps → ¬ Matches authoritative base ps j

  project-ok :
      (p : PendingPrediction) (base next s : t.TerminalState) (ps : List PendingPrediction)
      → t.with_predicted_ascii p.byte base ≡ ok next
      → project t base (p ∷ ps) ≡ ok s
      → project t next ps ≡ ok s
  unfolding project
  project-ok p base next s ps e h = ground (arith, e, h)

  Matches-suc :
      (p : PendingPrediction) (authoritative base next : t.TerminalState)
      (ps : List PendingPrediction) (k : ℕ)
      → t.with_predicted_ascii p.byte base ≡ ok next
      → Matches authoritative next ps k
      → Matches authoritative base (p ∷ ps) (suc k)
  unfolding project
  Matches-suc p authoritative base next ps k e (s, h, q) = (s, ground (arith, e, h), q)

  Matches-pred :
      (p : PendingPrediction) (authoritative base next : t.TerminalState)
      (ps : List PendingPrediction) (k : ℕ)
      → t.with_predicted_ascii p.byte base ≡ ok next
      → Matches authoritative base (p ∷ ps) (suc k)
      → Matches authoritative next ps k
  Matches-pred p authoritative base next ps k e (s, h, q) =
      (s, project-ok p base next s (take k ps) e h, q)

  NoneLonger-suc :
      (p : PendingPrediction) (authoritative base next : t.TerminalState)
      (ps : List PendingPrediction) (k : ℕ)
      → t.with_predicted_ascii p.byte base ≡ ok next
      → NoneLonger authoritative next ps k
      → NoneLonger authoritative base (p ∷ ps) (suc k)
  NoneLonger-suc p authoritative base next ps k e f zero lt le m = absurd (omega arith)
  NoneLonger-suc p authoritative base next ps k e f (suc j) lt le m =
      f j (omega arith) (omega arith) (Matches-pred p authoritative base next ps j e m)

  Matches-zero :
      (authoritative base : t.TerminalState) (ps : List PendingPrediction)
      → t.display_equivalent base authoritative ≡ true
      → Matches authoritative base ps 0
  unfolding project
  Matches-zero authoritative base ps h = (base, refl, h)

  zero-Matches :
      (authoritative base : t.TerminalState) (ps : List PendingPrediction)
      → Matches authoritative base ps 0
      → t.display_equivalent base authoritative ≡ true
  unfolding project
  zero-Matches authoritative base ps (s, e, h) = let f : base ≡ s = ground (arith, e) in rw f h

  -- None matches at all if none longer does, nor the empty one.
  none_at_all :
      (authoritative base : t.TerminalState) (ps : List PendingPrediction)
      → t.display_equivalent base authoritative ≡ false
      → NoneLonger authoritative base ps 0
      → (j : ℕ) → j ≤ length ps
      → ¬ Matches authoritative base ps j
  none_at_all authoritative base ps h n zero le m =
      let f = zero-Matches authoritative base ps m in absurd (ground (arith, f, h))
  none_at_all authoritative base ps h n (suc j) le m = n (suc j) (omega arith) le m

  NoneLonger-pred :
      (p : PendingPrediction) (authoritative base next : t.TerminalState)
      (ps : List PendingPrediction)
      → t.with_predicted_ascii p.byte base ≡ ok next
      → t.display_equivalent next authoritative ≡ false
      → NoneLonger authoritative next ps 0
      → NoneLonger authoritative base (p ∷ ps) 0
  NoneLonger-pred p authoritative base next ps e h n zero lt le m = absurd (omega arith)
  NoneLonger-pred p authoritative base next ps e h n (suc j) lt le m =
      none_at_all authoritative next ps h n j (omega arith)
        (Matches-pred p authoritative base next ps j e m)

  match_from-longest :
      (authoritative expected : t.TerminalState) (index : ℕ) (matched found : Option ℕ)
      (ps : List PendingPrediction)
      → match_from t authoritative expected index matched ps ≡ ok found
      → ((found ≡ matched) × NoneLonger authoritative expected ps 0)
        ⊎ ((k : ℕ) × (found ≡ some (index + k))
            × (k ≤ length ps)
            × Matches authoritative expected ps k
            × NoneLonger authoritative expected ps k)
  unfolding match_from
  match_from-longest authoritative expected index matched found [] h =
      inl (ground (arith, h), λ j lt le. absurd (omega arith))
  match_from-longest authoritative expected index matched found (p ∷ ps) h =
      elim (Result-cases (t.with_predicted_ascii p.byte expected)) [
        | inr (e, w) ↦ absurd (ground (arith, h, w))
        | inl (next, w) ↦
            elim (match_from-longest authoritative next (suc index)
              (if t.display_equivalent next authoritative then some (suc index) else matched) found
              ps (ground (arith, h, w))) [
                | inr (k, f, le, m, n) ↦ inr (
                  suc k,
                  ground (arith, f),
                  omega arith,
                  Matches-suc p authoritative expected next ps k w m,
                  NoneLonger-suc p authoritative expected next ps k w n,
                )
                | inl (f, n) ↦ elim (Bool-cases (t.display_equivalent next authoritative)) [
                  | inl same ↦ inr (
                    1,
                    ground (arith, f, same),
                    omega arith,
                    Matches-suc p authoritative expected next ps 0 w
                        (Matches-zero authoritative next ps same),
                    NoneLonger-suc p authoritative expected next ps 0 w n,
                  )
                  | inr differs ↦ inl (
                    ground (arith, f, differs),
                    NoneLonger-pred p authoritative expected next ps w differs n,
                  )
                ]
              ]
      ]

  -- Where the projections succeed, the prefix found is the longest one whose projection from the base
  -- is displayed as the authoritative state is; none is found exactly if no prefix is, the empty one
  -- included.
  pub longest_matching_prefix_lem :
      (authoritative base : t.TerminalState) (found : Option ℕ) (ps : List PendingPrediction)
      → longest_matching_prefix t authoritative base ps ≡ ok found
      → ((found ≡ none) × ((j : ℕ) → j ≤ length ps → ¬ Matches authoritative base ps j))
        ⊎ ((k : ℕ) × (found ≡ some k)
            × (k ≤ length ps)
            × Matches authoritative base ps k
            × NoneLonger authoritative base ps k)
  unfolding longest_matching_prefix
  longest_matching_prefix_lem authoritative base found ps h =
      elim (match_from-longest authoritative base 0
        (if t.display_equivalent base authoritative then some 0 else none) found ps h) [
          | inr (k, f, le, m, n) ↦ inr (k, ground (arith, f), le, m, n)
          | inl (f, n) ↦ elim (Bool-cases (t.display_equivalent base authoritative)) [
            | inl same ↦ inr (
              0,
              ground (arith, f, same),
              omega arith,
              Matches-zero authoritative base ps same,
              n,
            )
            | inr differs ↦
                inl (ground (arith, f, differs), none_at_all authoritative base ps differs n)
          ]
        ]
