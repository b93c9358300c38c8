-- ===== src/Prediction/Soundness.antt =====
-- The invariant of the local predictions: the projection is always that of the pending bytes.
use mosh_client_rs.Prelude.{
  ◌≡◌, refl, arith, ℕ, ◌≤◌, ◌<◌, true, false, Option, none, some, List, [], ◌∷◌, ◌++◌, Result, ok,
  err, ◌⊎◌, inl, inr, length, length-append, drop, length-drop, null, ltb, ◌==◌, Bool-cases,
  Option-cases, Result-cases, Unit0, M, and_then,
}
use mosh_client_rs.Limits.{max_pending_prediction_bytes}
use mosh_client_rs.Prediction.State.{
  TerminalInterface, PendingPrediction, Failure, terminal_error, panic, is_never, clear, project,
  extend, push_prediction, observe_input, predictable_byte, longest_matching_prefix, confirm,
  settle, settle_found, compare_base, observe_authoritative, acknowledged_prefix, Prediction,
}
use mosh_client_rs.Prediction.Matched.{longest_matching_prefix-le}

module _ (t : TerminalInterface) where
  -- Where predictions are pending, there is a base, and the projection is theirs from it.
  abbrev pub Projects : (base projected : Option t.TerminalState) → List PendingPrediction → Type 0
  Projects base projected [] = Unit
  Projects base projected (p ∷ ps) =
      (b : t.TerminalState) × (s : t.TerminalState) × (base ≡ some b)
      × (projected ≡ some s)
      × (project t b (p ∷ ps) ≡ ok s)

  pub record IsSound (p : Prediction t) : Type 0 where
    pub pending_le : length p.pending ≤ max_pending_prediction_bytes
    pub none_if_never : is_never p.mode ≡ true → p.pending ≡ []
    pub projects : Projects p.base p.projected p.pending

  pub clear-IsSound : (p : Prediction t) → IsSound (clear p).0
  unfolding clear
  clear-IsSound p = record { pending_le = omega arith; none_if_never = λ h. refl; projects = tt }

  project-snoc :
      (b s next : t.TerminalState) (ps : List PendingPrediction) (q : PendingPrediction)
      → project t b ps ≡ ok s
      → t.with_predicted_ascii q.byte s ≡ ok next
      → project t b (ps ++ q ∷ []) ≡ ok next
  unfolding project
  project-snoc b s next [] q h e = ground (arith, h, e)
  project-snoc b s next (p ∷ ps) q h e = elim (Result-cases (t.with_predicted_ascii p.byte b)) [
    | inr (x, w) ↦ absurd (ground (arith, h, w))
    | inl (c, w) ↦
        let r = project-snoc c s next ps q (ground (arith, h, w)) e in ground (arith, w, r)
  ]

  Projects-snoc :
      (b s : t.TerminalState) (base projected : Option t.TerminalState)
      (ps : List PendingPrediction) (q : PendingPrediction)
      → base ≡ some b
      → projected ≡ some s
      → project t b (ps ++ q ∷ []) ≡ ok s
      → Projects base projected (ps ++ q ∷ [])
  Projects-snoc b s base projected [] q e f h = (b, s, e, f, h)
  Projects-snoc b s base projected (p ∷ ps) q e f h = (b, s, e, f, h)

  Projects-of :
      (b s : t.TerminalState) (base projected : Option t.TerminalState)
      (ps : List PendingPrediction)
      → base ≡ some b
      → projected ≡ some s
      → project t b ps ≡ ok s
      → Projects base projected ps
  Projects-of b s base projected [] e f h = tt
  Projects-of b s base projected (p ∷ ps) e f h = (b, s, e, f, h)

  Projects-null :
      (base projected : Option t.TerminalState) (ps : List PendingPrediction)
      → null ps ≡ true
      → Projects base projected ps
  Projects-null base projected [] h = tt
  Projects-null base projected (p ∷ ps) h = absurd (ground (arith, h))

  -- `extend` gives a projection for one more byte, or fails as the terminal does.
  extend-cases :
      (p : Prediction t) (q : PendingPrediction) (authoritative : t.TerminalState)
      → IsSound p
      → ((b : t.TerminalState) × (s : t.TerminalState) × (extend t q.byte authoritative p
            ≡ (record p { base = some b; projected = some s }, ok tt))
          × (project t b (p.pending ++ q ∷ []) ≡ ok s))
        ⊎ ((e : t.TerminalError) × ((extend t q.byte authoritative p).1 ≡ err (terminal_error e))
            × ((extend t q.byte authoritative p).0.pending ≡ p.pending)
            × ((extend t q.byte authoritative p).0.mode ≡ p.mode)
            × Projects
                (extend t q.byte authoritative p).0.base
                (extend t q.byte authoritative p).0.projected
                p.pending)
  unfolding extend project
  extend-cases p q authoritative i = go p.pending refl i.projects
    where
      go :
          (ps : List PendingPrediction)
          → p.pending ≡ ps
          → Projects p.base p.projected ps
          → ((b : t.TerminalState) × (s : t.TerminalState) × (extend t q.byte authoritative p
                ≡ (record p { base = some b; projected = some s }, ok tt))
              × (project t b (ps ++ q ∷ []) ≡ ok s))
            ⊎ ((e : t.TerminalError) × ((extend t q.byte authoritative p).1
                  ≡ err (terminal_error e))
                × ((extend t q.byte authoritative p).0.pending ≡ ps)
                × ((extend t q.byte authoritative p).0.mode ≡ p.mode)
                × Projects
                    (extend t q.byte authoritative p).0.base
                    (extend t q.byte authoritative p).0.projected
                    ps)
      go [] e r = elim (Result-cases (t.with_predicted_ascii q.byte authoritative)) [
        | inl (s, w) ↦ inl (authoritative, s, ground (arith, e, w), ground (arith, w))
        | inr (x, w) ↦ inr (x, ground (arith, e, w), ground (arith, e, w), ground (arith, e, w), tt)
      ]
      go (first ∷ ps) e (b, s, eb, es, h) = elim (Result-cases (t.with_predicted_ascii q.byte s)) [
        | inl (next, w) ↦
            inl (b, next, ground (arith, e, eb, es, w), project-snoc b s next (first ∷ ps) q h w)
        | inr (x, w) ↦ inr (
          x,
          ground (arith, e, es, w),
          ground (arith, e, es, w),
          ground (arith, e, es, w),
          Projects-of b s _ _ (first ∷ ps) (ground (arith, e, es, w, eb)) (ground (arith, e, es, w))
              h,
        )
      ]

  -- The result is an answer, or an error of the terminal; never a panic.
  abbrev pub NoPanic : {A : Type 0} → Result (Failure t.TerminalError) A → Type 0
  NoPanic (ok a) = Unit
  NoPanic (err (terminal_error e)) = Unit
  NoPanic (err panic) = ⊥

  failed_first :
      {A B : Type 0} (m : Prediction t × Result (Failure t.TerminalError) A)
      (f : A → M (Prediction t) (Failure t.TerminalError) B) (e : Failure t.TerminalError)
      → m.1 ≡ err e
      → and_then m f ≡ (m.0, err e)
  failed_first (s, ok a) f e h = absurd (ground (arith, h))
  failed_first (s, err x) f e h = ground (arith, h)

  push_prediction-IsSound :
      (p : Prediction t) (q : PendingPrediction) (authoritative : t.TerminalState)
      → IsSound p
      → is_never p.mode ≡ false
      → length p.pending < max_pending_prediction_bytes
      → IsSound (push_prediction t q authoritative p).0
        × NoPanic (push_prediction t q authoritative p).1
  unfolding push_prediction
  push_prediction-IsSound p q authoritative i live room = elim (extend-cases p q authoritative i) [
    | inl (b, s, e, h) ↦ rw e (
      record {
        pending_le = omega (arith, length-append p.pending (q ∷ []), room);
        none_if_never = λ never. absurd (ground (arith, live, never));
        projects = Projects-snoc b s (some b) (some s) p.pending q refl refl h;
      },
      tt,
    )
    | inr (x, e, same, mode, r) ↦
        rw (failed_first (extend t q.byte authoritative p) _ (terminal_error x) e) (
          record {
            pending_le = rw same i.pending_le;
            none_if_never = λ never. absurd (ground (arith, live, never, mode));
            projects = rw same r;
          },
          tt,
        )
  ]

  pub observe_input-IsSound :
      (p : Prediction t) (client_state : ℕ) (bytes : List ℕ) (authoritative : t.TerminalState)
      (now : ℕ)
      → IsSound p
      → IsSound (observe_input t client_state bytes authoritative now p).0
        × NoPanic (observe_input t client_state bytes authoritative now p).1
  unfolding observe_input
  observe_input-IsSound p client_state bytes authoritative now i =
      elim (Bool-cases (is_never p.mode)) [
        | inl never ↦ rw never (i, tt)
        | inr live ↦ elim (Option-cases (predictable_byte bytes)) [
          | inl none_at ↦ rw (live, none_at) (clear-IsSound p, tt)
          | inr (byte, at) ↦ elim (Bool-cases (length p.pending == 32)) [
            | inl full ↦ rw (live, at, full) (clear-IsSound p, tt)
            | inr room ↦
                rw (live, at, room)
                  (push_prediction-IsSound p _ authoritative i live
                    (ground (arith, i.pending_le, room)))
          ]
        ]
      ]

  -- Either a sound state, or an error of the terminal; never a panic.
  abbrev pub IsKept : Prediction t × Result (Failure t.TerminalError) Unit0 → Type 0
  IsKept r =
      ((r.1 ≡ ok tt) × IsSound r.0) ⊎ ((e : t.TerminalError) × (r.1 ≡ err (terminal_error e)))

  confirm-IsKept :
      (p : Prediction t) (matched : ℕ) (authoritative : t.TerminalState)
      → matched ≤ length p.pending
      → IsSound p
      → is_never p.mode ≡ false
      → IsKept (confirm t matched authoritative p)
  unfolding confirm
  confirm-IsKept p matched authoritative inside i live =
      let fits : ltb (length p.pending) matched ≡ false = ground (arith, inside) in
      let short : length (drop matched p.pending) ≤ max_pending_prediction_bytes =
        omega (arith, length-drop matched p.pending, i.pending_le) in
      elim (Bool-cases (null (drop matched p.pending))) [
        | inl done ↦
            rw (fits, done)
              (inl (
                refl,
                record {
                  pending_le = short;
                  none_if_never = λ never. absurd (ground (arith, live, never));
                  projects = Projects-null none none (drop matched p.pending) done;
                },
              ))
        | inr some_left ↦ elim (Result-cases (project t authoritative (drop matched p.pending))) [
          | inr (e, failed) ↦ rw (fits, some_left, failed) (inr (e, refl))
          | inl (s, projected) ↦
              rw (fits, some_left, projected)
                (inl (
                  refl,
                  record {
                    pending_le = short;
                    none_if_never = λ never. absurd (ground (arith, live, never));
                    projects =
                        Projects-of authoritative s (some authoritative) (some s)
                          (drop matched p.pending) refl refl projected;
                  },
                ))
        ]
      ]

  settle-IsKept :
      (p : Prediction t) (matched : ℕ) (authoritative : t.TerminalState)
      → matched ≤ length p.pending
      → IsSound p
      → is_never p.mode ≡ false
      → IsKept (settle t matched authoritative p)
  unfolding settle
  settle-IsKept p matched authoritative inside i live =
      let acknowledged = acknowledged_prefix (t.echo_acknowledgement authoritative) p.pending in
      elim (Bool-cases (ltb matched acknowledged)) [
        | inl wrong ↦ rw wrong (inl (refl, clear-IsSound p))
        | inr right ↦ elim (Bool-cases (acknowledged == 0)) [
          | inl early ↦ rw (right, early) (inl (refl, i))
          | inr echoed ↦ rw (right, echoed) (confirm-IsKept p matched authoritative inside i live)
        ]
      ]

  compare_base-IsKept :
      (p : Prediction t) (base authoritative : t.TerminalState)
      → IsSound p
      → is_never p.mode ≡ false
      → IsKept (compare_base t base authoritative p)
  unfolding compare_base
  compare_base-IsKept p base authoritative i live =
      go (longest_matching_prefix t authoritative base p.pending)
        (longest_matching_prefix-le t authoritative base p.pending)
    where
      go :
          (found : Result t.TerminalError (Option ℕ))
          → ((m : ℕ) → found ≡ ok (some m) → m ≤ length p.pending)
          → IsKept (settle_found t found authoritative p)
      go (err e) h = inr (e, refl)
      go (ok none) h = inl (refl, clear-IsSound p)
      go (ok (some matched)) h = settle-IsKept p matched authoritative (h matched refl) i live

  pub projection_of :
      (base projected : Option t.TerminalState) (ps : List PendingPrediction)
      → null ps ≡ false
      → Projects base projected ps
      → (b : t.TerminalState) × (s : t.TerminalState) × (base ≡ some b)
        × (projected ≡ some s)
        × (project t b ps ≡ ok s)
  projection_of base projected [] h r = absurd (ground (arith, h))
  projection_of base projected (p ∷ ps) h r = r

  -- What the server shows keeps the invariant, unless the terminal fails; no `expect`
  -- fails, and no more predictions are drained than there are.
  pub observe_authoritative-IsKept :
      (p : Prediction t) (authoritative : t.TerminalState)
      → IsSound p
      → IsKept (observe_authoritative t authoritative p)
  unfolding observe_authoritative
  observe_authoritative-IsKept p authoritative i = elim (Bool-cases (is_never p.mode)) [
    | inl never ↦ rw never (inl (refl, i))
    | inr live ↦ elim (Bool-cases (null p.pending)) [
      | inl idle ↦ rw (live, idle) (inl (refl, i))
      | inr busy ↦
          let (base, s, e, _, _) = projection_of p.base p.projected p.pending busy i.projects in
          rw (live, busy, e) (compare_base-IsKept p base authoritative i live)
    ]
  ]
