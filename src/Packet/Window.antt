-- ===== src/Packet/Window.antt =====
-- packet.rs: `ReplayWindow` and `SendSequence`.
use Prim.Native.Nat.{bit_and, bit_or}
use mosh_client_rs.Prelude.{
  ℕ, ◌-◌, ◌*◌, ◌%◌, ◌^◌, not, Option, none, some, Unit0, M, ok, err, ok_or, ltb, leb, ◌==◌,
  if◌then◌else◌, checked_add, get, lift, modify, pure, ◌>>=◌, ◌>>◌,
}

pub data PacketError : Type 0 where
  datagram_too_short : PacketError
  datagram_too_large : PacketError
  plaintext_too_large : PacketError
  output_too_small : PacketError
  invalid_sequence : PacketError
  wrong_direction : PacketError
  authentication_failed : PacketError
  replay : PacketError
  too_old : PacketError
  sequence_exhausted : PacketError
  unexpected_source : PacketError

abbrev pub max_sequence : ℕ
max_sequence = 2 ^ 63 - 1

abbrev pub replay_window_bits : ℕ
replay_window_bits = 64

-- Bit `d` of `seen` stands for the sequence number `highest - d`.
pub record ReplayWindow : Type 0 where
  pub highest : Option ℕ
  pub seen : ℕ

abbrev pub empty_window : ReplayWindow
empty_window = record { highest = none; seen = 0 }

-- `(seen << shift) | 1` on a `u64`.
unfoldable pub shift_seen : (seen shift : ℕ) → ℕ
shift_seen seen shift =
    if leb replay_window_bits shift then 1 else bit_or (seen * 2 ^ shift % 2 ^ 64) 1

-- `accept` for a number that is not above the highest.
unfoldable pub accept_old : (sequence highest : ℕ) → M ReplayWindow PacketError Unit0
accept_old sequence highest w =
    let distance = highest - sequence in
    if leb replay_window_bits distance
    then (w, err too_old)
    else if not (bit_and w.seen (2 ^ distance) == 0)
    then (w, err replay)
    else (record w { seen = bit_or w.seen (2 ^ distance) }, ok tt)

unfoldable pub accept_at : Option ℕ → ℕ → M ReplayWindow PacketError Unit0
accept_at none sequence w = (record { highest = some sequence; seen = 1 }, ok tt)
accept_at (some highest) sequence w =
    if ltb highest sequence
    then (record { highest = some sequence; seen = shift_seen w.seen (sequence - highest) }, ok tt)
    else accept_old sequence highest w

unfoldable pub accept : ℕ → M ReplayWindow PacketError Unit0
accept sequence w = accept_at w.highest sequence w

-- The next number to send, or nothing once the last is taken.
pub record SendSequence : Type 0 where
  pub next : Option ℕ

abbrev pub new_sequence : SendSequence
new_sequence = record { next = some 0 }

-- `filter`: the successor, while it is a sequence number.
abbrev within : Option ℕ → Option ℕ
within none = none
within (some n) = if leb n max_sequence then some n else none

unfoldable pub take_sequence : M SendSequence PacketError ℕ
take_sequence = do
  s ← get
  sequence ← lift (ok_or s.next sequence_exhausted)
  modify (λ t. record t { next = within (checked_add sequence 1) })
  pure sequence
