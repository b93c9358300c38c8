-- ===== src/Terminal/Echo.antt =====
-- The acknowledgement of echoes through the operations of a difference.
use mosh_client_rs.Prelude.{
  ◌≡◌, refl, sym, arith, ap, ◌∙◌, ℕ, ◌≤◌, Option, none, some, List, [], ◌∷◌, ok, Result-cases, inl,
  inr,
}
use mosh_client_rs.Terminal.Screen.{TerminalLibrary}
use mosh_client_rs.Terminal.Difference.{
  TerminalOperation, host_bytes, resize, echo_acknowledgement, latest_echo_acknowledgement, or_some,
}
use mosh_client_rs.Terminal.State.{TerminalState, apply, apply_operation, apply_host_bytes}

-- The first of two that is there.
abbrev pub or_else : Option ℕ → Option ℕ → Option ℕ
or_else none o = o
or_else (some n) o = some n

-- No later number is smaller than an earlier one.
abbrev pub NotBelow : (earlier later : Option ℕ) → Type 0
NotBelow none later = Unit
NotBelow (some n) none = ⊥
NotBelow (some n) (some m) = n ≤ m

NotBelow-refl : (o : Option ℕ) → NotBelow o o
NotBelow-refl none = tt
NotBelow-refl (some n) = omega arith

NotBelow-trans : (a b c : Option ℕ) → NotBelow a b → NotBelow b c → NotBelow a c
NotBelow-trans none b c h k = tt
NotBelow-trans (some n) none c h k = absurd h
NotBelow-trans (some n) (some m) none h k = k
NotBelow-trans (some n) (some m) (some o) h k = omega (arith, h, k)

or_else-or_some : (a b : Option ℕ) (n : ℕ) → or_else (or_some a n) b ≡ or_else a (some n)
or_else-or_some none b n = refl
or_else-or_some (some m) b n = refl

latest_first :
    (o : TerminalOperation) (os : List TerminalOperation) (b : Option ℕ)
    → or_else (latest_echo_acknowledgement os) (or_else (latest_echo_acknowledgement (o ∷ [])) b)
      ≡ or_else (latest_echo_acknowledgement (o ∷ os)) b
unfolding latest_echo_acknowledgement
latest_first (host_bytes bytes) os b = refl
latest_first (resize columns rows) os b = refl
latest_first (echo_acknowledgement number) os b =
    sym (or_else-or_some (latest_echo_acknowledgement os) b number)

module _ (l : TerminalLibrary) where
  apply_host_bytes-last_echo :
      (bytes : List ℕ) (s t : TerminalState l)
      → apply_host_bytes l bytes s ≡ ok t
      → t.last_echo ≡ s.last_echo
  unfolding apply_host_bytes
  apply_host_bytes-last_echo bytes s t e = ground arith

  apply_operation-last_echo :
      (o : TerminalOperation) (s t : TerminalState l)
      → apply_operation l o s ≡ ok t
      → (t.last_echo ≡ or_else (latest_echo_acknowledgement (o ∷ [])) s.last_echo)
        × NotBelow s.last_echo t.last_echo
  unfolding apply_operation latest_echo_acknowledgement
  apply_operation-last_echo (host_bytes bytes) s t e =
      let same = apply_host_bytes-last_echo bytes s t e in
      (same, rw same (NotBelow-refl s.last_echo))
  apply_operation-last_echo (resize columns rows) s t e = ground (arith, NotBelow-refl s.last_echo)
  apply_operation-last_echo (echo_acknowledgement number) s t e = go s.last_echo refl
    where
      go :
          (o : Option ℕ)
          → s.last_echo ≡ o
          → (t.last_echo ≡ some number) × NotBelow s.last_echo t.last_echo
      go none q = ground (arith, q)
      go (some n) q = ground (arith, q)

  -- After a difference the acknowledgement is the last one among its operations, or the earlier one
  -- where there is none; and it never falls.
  pub apply-last_echo :
      (os : List TerminalOperation) (s t : TerminalState l)
      → apply l os s ≡ ok t
      → (t.last_echo ≡ or_else (latest_echo_acknowledgement os) s.last_echo)
        × NotBelow s.last_echo t.last_echo
  unfolding apply latest_echo_acknowledgement
  apply-last_echo [] s t e = ground (arith, e, NotBelow-refl s.last_echo)
  apply-last_echo (o ∷ os) s t e = elim (Result-cases (apply_operation l o s)) [
    | inr (x, f) ↦ absurd (ground (arith, e, f))
    | inl (next, f) ↦
        let (first, up) = apply_operation-last_echo o s next f in
        let (rest, on) = apply-last_echo os next t (ground (arith, e, f)) in
        (
          rest
              ∙ ap (or_else (latest_echo_acknowledgement os)) first
              ∙ latest_first o os s.last_echo,
          NotBelow-trans s.last_echo next.last_echo t.last_echo up on,
        )
  ]
