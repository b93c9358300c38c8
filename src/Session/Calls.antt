-- ===== src/Session/Calls.antt =====
-- The calls of a handle, in any order and with the task's steps between them.
use mosh_client_rs.Prelude.{
  ◌≡◌, refl, sym, subst, ◌∙◌, ap, zero, suc, drop, arith, ℕ, ◌≤◌, Bool, true, false, ◌||◌, List, [],
  ◌∷◌, ◌++◌, length, ltb, All, Bool-cases, inl, inr,
}
use mosh_client_rs.Limits.{max_input_command_bytes}
use mosh_client_rs.Terminal.State.{is_valid_size}
use mosh_client_rs.Session.Driver.State.{SessionState}
use mosh_client_rs.Session.Driver.Commands.{
  SessionCommand, input_command, resize_command, repaint_command,
}
use mosh_client_rs.Session.Handle.{
  Session, state, is_closed, send_command, send_input, resize, request_repaint, close, cancel,
}

-- A call of the application, or a step of the task: it publishes a state, takes the first command, or
-- ends.
pub data Act : Type 0 where
  sends : (has_permit : Bool) → List ℕ → Act
  resizes : (has_permit : Bool) → (columns rows : ℕ) → Act
  repaints : (has_permit : Bool) → Act
  closes cancels takes ends : Act
  publishes : SessionState → Act

abbrev tail : List SessionCommand → List SessionCommand
tail [] = []
tail (c ∷ cs) = cs

abbrev pub act : Act → Session → Session
act (sends has_permit bytes) s = (send_input has_permit bytes s).0
act (resizes has_permit columns rows) s = (resize has_permit columns rows s).0
act (repaints has_permit) s = (request_repaint has_permit s).0
act closes s = close s
act cancels s = cancel s
act takes s = record s { commands = tail s.commands }
act ends s = record s { task_ended = true }
act (publishes st) s = record s { current_state = st }

abbrev pub acts : List Act → Session → Session
acts [] s = s
acts (a ∷ later) s = acts later (act a s)

-- A command that the driver's encoder has room for.
abbrev pub IsAcceptable : SessionCommand → Type 0
IsAcceptable (input_command bytes) = length bytes ≤ max_input_command_bytes
IsAcceptable (resize_command columns rows) = is_valid_size columns rows ≡ true
IsAcceptable repaint_command = Unit

All-snoc :
    (cs : List SessionCommand) (c : SessionCommand)
    → All IsAcceptable cs
    → IsAcceptable c
    → All IsAcceptable (cs ++ c ∷ [])
All-snoc [] c h p = (p, tt)
All-snoc (d ∷ cs) c h p = (h.0, All-snoc cs c h.1 p)

send_command-IsAcceptable :
    (has_permit : Bool) (c : SessionCommand) (s : Session)
    → All IsAcceptable s.commands
    → IsAcceptable c
    → All IsAcceptable (send_command has_permit c s).0.commands
unfolding send_command
send_command-IsAcceptable false c s h p = h
send_command-IsAcceptable true c s h p =
    elim (Bool-cases (s.close_requested || s.cancellation || is_closed (state s))) [
      | inl done ↦ rw done h
      | inr open_still ↦ rw open_still (All-snoc s.commands c h p)
    ]

send_input-IsAcceptable :
    (has_permit : Bool) (bytes : List ℕ) (s : Session)
    → All IsAcceptable s.commands
    → All IsAcceptable (send_input has_permit bytes s).0.commands
unfolding send_input
send_input-IsAcceptable has_permit bytes s h =
    elim (Bool-cases (ltb max_input_command_bytes (length bytes))) [
      | inl big ↦ rw big h
      | inr small ↦
          rw small
            (send_command-IsAcceptable has_permit (input_command bytes) s h (ground (arith, small)))
    ]

resize-IsAcceptable :
    (has_permit : Bool) (columns rows : ℕ) (s : Session)
    → All IsAcceptable s.commands
    → All IsAcceptable (resize has_permit columns rows s).0.commands
unfolding resize
resize-IsAcceptable has_permit columns rows s h = elim (Bool-cases (is_valid_size columns rows)) [
  | inl valid ↦
      rw valid (send_command-IsAcceptable has_permit (resize_command columns rows) s h valid)
  | inr invalid ↦ rw invalid h
]

close-commands : (s : Session) → (close s).commands ≡ s.commands
unfolding close
close-commands s = ground arith

tail-IsAcceptable : (cs : List SessionCommand) → All IsAcceptable cs → All IsAcceptable (tail cs)
tail-IsAcceptable [] h = tt
tail-IsAcceptable (c ∷ cs) h = h.1

act-IsAcceptable :
    (a : Act) (s : Session) → All IsAcceptable s.commands → All IsAcceptable (act a s).commands
unfolding request_repaint cancel
act-IsAcceptable (sends has_permit bytes) s h = send_input-IsAcceptable has_permit bytes s h
act-IsAcceptable (resizes has_permit columns rows) s h =
    resize-IsAcceptable has_permit columns rows s h
act-IsAcceptable (repaints has_permit) s h =
    send_command-IsAcceptable has_permit repaint_command s h tt
act-IsAcceptable closes s h = subst (All IsAcceptable) (sym (close-commands s)) h
act-IsAcceptable cancels s h = h
act-IsAcceptable takes s h = tail-IsAcceptable s.commands h
act-IsAcceptable ends s h = h
act-IsAcceptable (publishes st) s h = h

-- Whatever is called, every command that waits for the driver is an input within the limit, a resize to
-- a valid size, or a repaint.
pub acts-IsAcceptable :
    (calls : List Act) (s : Session)
    → All IsAcceptable s.commands
    → All IsAcceptable (acts calls s).commands
acts-IsAcceptable [] s h = h
acts-IsAcceptable (a ∷ later) s h = acts-IsAcceptable later (act a s) (act-IsAcceptable a s h)

send_command-closed :
    (has_permit : Bool) (c : SessionCommand) (s : Session)
    → s.close_requested ≡ true
    → (send_command has_permit c s).0 ≡ s
unfolding send_command
send_command-closed false c s h = refl
send_command-closed true c s h = rw h refl

send_input-closed :
    (has_permit : Bool) (bytes : List ℕ) (s : Session)
    → s.close_requested ≡ true
    → (send_input has_permit bytes s).0 ≡ s
unfolding send_input
send_input-closed has_permit bytes s h =
    elim (Bool-cases (ltb max_input_command_bytes (length bytes))) [
      | inl big ↦ rw big refl
      | inr small ↦ rw small (send_command-closed has_permit (input_command bytes) s h)
    ]

resize-closed :
    (has_permit : Bool) (columns rows : ℕ) (s : Session)
    → s.close_requested ≡ true
    → (resize has_permit columns rows s).0 ≡ s
unfolding resize
resize-closed has_permit columns rows s h = elim (Bool-cases (is_valid_size columns rows)) [
  | inl valid ↦ rw valid (send_command-closed has_permit (resize_command columns rows) s h)
  | inr invalid ↦ rw invalid refl
]

close-close_requested : (s : Session) → (close s).close_requested ≡ true
unfolding close
close-close_requested s = elim (Bool-cases s.close_requested) [
  | inl again ↦ rw again refl
  | inr first ↦ rw first refl
]

-- What is left of a queue after some commands were taken, of a handle that was asked to close.
abbrev IsClosedWith : (earlier : List SessionCommand) → Session → Type 0
IsClosedWith earlier s = (s.close_requested ≡ true) × (n : ℕ) × (s.commands ≡ drop n earlier)

unchanged :
    (cs : List SessionCommand) (s r : Session) → r ≡ s → IsClosedWith cs s → IsClosedWith cs r
unchanged cs s r e h = subst (IsClosedWith cs) (sym e) h

tail-drop : (n : ℕ) (cs : List SessionCommand) → tail (drop n cs) ≡ drop (suc n) cs
tail-drop zero [] = refl
tail-drop (suc n) [] = refl
tail-drop zero (c ∷ cs) = refl
tail-drop (suc n) (c ∷ cs) = tail-drop n cs

act-closed :
    (a : Act) (cs : List SessionCommand) (s : Session)
    → IsClosedWith cs s
    → IsClosedWith cs (act a s)
unfolding request_repaint cancel
act-closed (sends has_permit bytes) cs s h =
    unchanged cs s _ (send_input-closed has_permit bytes s h.0) h
act-closed (resizes has_permit columns rows) cs s h =
    unchanged cs s _ (resize-closed has_permit columns rows s h.0) h
act-closed (repaints has_permit) cs s h =
    unchanged cs s _ (send_command-closed has_permit repaint_command s h.0) h
act-closed closes cs s (h, n, e) = (close-close_requested s, n, close-commands s ∙ e)
act-closed cancels cs s h = h
act-closed takes cs s (h, n, e) = (h, suc n, ap tail e ∙ tail-drop n cs)
act-closed ends cs s h = h
act-closed (publishes st) cs s h = h

acts-IsClosedWith :
    (calls : List Act) (cs : List SessionCommand) (s : Session)
    → IsClosedWith cs s
    → IsClosedWith cs (acts calls s)
acts-IsClosedWith [] cs s h = h
acts-IsClosedWith (a ∷ later) cs s h = acts-IsClosedWith later cs (act a s) (act-closed a cs s h)

-- From a close on, whatever is called, no command joins those that wait for the driver: they are the
-- last ones of those that were accepted before, in their order.
pub acts-close :
    (calls : List Act) (s : Session)
    → (n : ℕ) × ((acts calls (close s)).commands ≡ drop n s.commands)
acts-close calls s =
    let h =
      acts-IsClosedWith calls s.commands (close s) (close-close_requested s, 0, close-commands s) in
    (h.1, h.2)
