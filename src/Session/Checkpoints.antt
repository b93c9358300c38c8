-- ===== src/Session/Checkpoints.antt =====
-- The checkpoints that the synchronization state can ask the client history for, and that each call
-- of the driver keeps them.
use mosh_client_rs.Prelude.{
  ◌≡◌, refl, arith, ℕ, suc, ◌≤◌, ◌<◌, Bool, true, false, some, List, [], ◌∷◌, retain, leb, ◌==◌,
  if◌then◌else◌, length, inl, inr, Bool-cases,
}
use mosh_client_rs.Instruction.Message.{ClientOperation}
use mosh_client_rs.Session.History.{
  ClientHistory, Checkpoints, lookup, insert, remove, remove_checkpoint,
}
use mosh_client_rs.Session.Log.{Points, KeysBelow, IsLog}

abbrev pub has : ℕ → Checkpoints → Bool
has n [] = false
has n ((k, v) ∷ m) = if k == n then true else has n m

pub has-lookup : (n : ℕ) (m : Checkpoints) → has n m ≡ true → (v : ℕ) × (lookup n m ≡ some v)
has-lookup n [] h = absurd (ground arith)
has-lookup n ((k, v) ∷ m) h = elim (Bool-cases (k == n)) [
  | inl here ↦ (v, ground (arith, here))
  | inr there ↦ let (u, e) = has-lookup n m (ground (arith, there)) in (u, ground (arith, there, e))
]

pub has-insert :
    (n s v : ℕ) (m : Checkpoints) → has n (insert s v m) ≡ (if s == n then true else has n m)
has-insert n s v [] = refl
has-insert n s v ((k, u) ∷ m) = ground (arith, has-insert n s v m)

pub has-remove :
    (n e : ℕ) (m : Checkpoints) → e == n ≡ false → has n m ≡ true → has n (remove e m) ≡ true
has-remove n e [] d h = h
has-remove n e ((k, u) ∷ m) d h = ground (arith, has-remove n e m d)

pub has-retain :
    (n floor : ℕ) (m : Checkpoints)
    → floor ≤ n
    → has n m ≡ true
    → has n (retain (λ c. leb floor c.0) m) ≡ true
has-retain n floor [] d h = h
has-retain n floor ((k, u) ∷ m) d h = ground (arith, has-retain n floor m d)

pub KeysBelow-weaken : (n k : ℕ) (m : Checkpoints) → n ≤ k → KeysBelow n m → KeysBelow k m
KeysBelow-weaken n k [] h b = tt
KeysBelow-weaken n k ((x, u) ∷ m) h b = (omega (arith, b.0), KeysBelow-weaken n k m h b.1)

pub KeysBelow-insert :
    (n s v : ℕ) (m : Checkpoints) → s < n → KeysBelow n m → KeysBelow n (insert s v m)
KeysBelow-insert n s v [] h b = (h, tt)
KeysBelow-insert n s v ((k, u) ∷ m) h b = ground (arith, KeysBelow-insert n s v m h)

pub KeysBelow-remove : (n e : ℕ) (m : Checkpoints) → KeysBelow n m → KeysBelow n (remove e m)
KeysBelow-remove n e [] b = tt
KeysBelow-remove n e ((k, u) ∷ m) b = ground (arith, KeysBelow-remove n e m)

pub KeysBelow-retain :
    (n floor : ℕ) (m : Checkpoints) → KeysBelow n m → KeysBelow n (retain (λ c. leb floor c.0) m)
KeysBelow-retain n floor [] b = tt
KeysBelow-retain n floor ((k, u) ∷ m) b = ground (arith, KeysBelow-retain n floor m)

Points-weaken_low :
    (lo lo' lv lv' hi : ℕ) (m : Checkpoints)
    → lo' ≤ lo
    → lv' ≤ lv
    → Points lo lv hi m
    → Points lo' lv' hi m
Points-weaken_low lo lo' lv lv' hi [] p q r = tt
Points-weaken_low lo lo' lv lv' hi ((k, u) ∷ m) p q r = (omega arith, omega arith, r.2, r.3)

Points-remove :
    (lo lv hi e : ℕ) (m : Checkpoints) → Points lo lv hi m → Points lo lv hi (remove e m)
Points-remove lo lv hi e [] p = tt
Points-remove lo lv hi e ((k, u) ∷ m) p = ground (
  arith,
  Points-remove (suc k) u hi e m p.3,
  Points-weaken_low (suc k) lo u lv hi m (omega arith) p.1 p.3,
)

-- The places of checkpoints ascend with their states.
pub Points-ascend :
    (lo lv hi s t a b : ℕ) (m : Checkpoints)
    → Points lo lv hi m
    → lookup s m ≡ some a
    → lookup t m ≡ some b
    → s ≤ t
    → a ≤ b
Points-ascend lo lv hi s t a b [] p x y h = absurd (ground arith)
Points-ascend lo lv hi s t a b ((k, u) ∷ m) p x y h = ground (
  arith,
  Points-ascend (suc k) u hi s t a b m p.3,
  low (suc k) u hi t b m p.3,
  low (suc k) u hi s a m p.3,
)
  where
    low :
        (lo lv hi t b : ℕ) (m : Checkpoints)
        → Points lo lv hi m
        → lookup t m ≡ some b
        → (lo ≤ t) × (lv ≤ b)
    low lo lv hi t b [] p e = absurd (ground arith)
    low lo lv hi t b ((k, u) ∷ m) p e = ground (arith, low (suc k) u hi t b m p.3)

pub remove_checkpoint-IsLog :
    (h : ClientHistory) (log : List ClientOperation) (state : ℕ)
    → IsLog h log
    → IsLog (remove_checkpoint state h) log
unfolding remove_checkpoint
remove_checkpoint-IsLog h log state i = record {
  operations_eq = i.operations_eq;
  offset_le = i.offset_le;
  next_eq = i.next_eq;
  points = Points-remove 0 h.operation_offset (length log) state h.checkpoints i.points;
}
