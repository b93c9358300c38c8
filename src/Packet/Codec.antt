-- ===== src/Packet/Codec.antt =====
-- packet.rs: `PacketCodec` and `PacketReceiver`. The cipher, crypto.rs over the `ocb3` crate, is a
-- parameter. A buffer that the source fills in place is the list of the bytes that it then holds.
use Prim.Native.Nat.{bit_and, bit_or}
use mosh_client_rs.Prelude.{
  ◌≡◌, ℕ, ◌+◌, ◌-◌, ◌^◌, Bool, not, Option, some, List, ◌∷◌, ◌++◌, Unit0, M, Result, ok, err, ok_or,
  ltb, ◌==◌, if◌then◌else◌, length, take, drop, to_be_bytes, from_be_bytes, get, lift, pure, try,
  ◌>>=◌, ◌>>◌, reject_if,
}
use mosh_client_rs.Limits.{max_datagram_bytes}
use mosh_client_rs.Packet.Window.{
  PacketError, datagram_too_short, datagram_too_large, plaintext_too_large, output_too_small,
  invalid_sequence, wrong_direction, authentication_failed, unexpected_source, max_sequence,
  ReplayWindow, empty_window, accept,
}

abbrev pub header_bytes : ℕ
header_bytes = 8

abbrev pub tag_bytes : ℕ
tag_bytes = 16

abbrev pub overhead_bytes : ℕ
overhead_bytes = header_bytes + tag_bytes

abbrev pub max_plaintext_bytes : ℕ
max_plaintext_bytes = max_datagram_bytes - overhead_bytes

abbrev pub direction_mask : ℕ
direction_mask = 2 ^ 63

pub data Direction : Type 0 where
  client_to_server server_to_client : Direction

abbrev pub header_bit : Direction → ℕ
header_bit client_to_server = 0
header_bit server_to_client = direction_mask

-- What the codec asks of the authenticated cipher under the session key: encryption of a buffer in
-- place with its tag, and the inverse, by a nonce.
pub record SessionCrypto : Type 0 where
  pub encrypt : (nonce buffer : List ℕ) → Option (List ℕ × List ℕ)
  pub decrypt : (nonce buffer tag : List ℕ) → Option (List ℕ)

-- The documented behaviour of the cipher.
pub record IsAead (c : SessionCrypto) : Type 0 where
  pub keeps_length :
      (nonce buffer body tag : List ℕ)
      → c.encrypt nonce buffer ≡ some (body, tag)
      → (length body ≡ length buffer) × (length tag ≡ tag_bytes)
  pub opens :
      (nonce buffer body tag : List ℕ)
      → c.encrypt nonce buffer ≡ some (body, tag)
      → c.decrypt nonce body tag ≡ some buffer

-- The header behind four zero bytes.
unfoldable pub nonce : List ℕ → List ℕ
nonce header = 0 ∷ 0 ∷ 0 ∷ 0 ∷ header

pub record OpenedPacket : Type 0 where
  pub sequence : ℕ
  pub plaintext : List ℕ

unfoldable pub header_of : Direction → ℕ → List ℕ
header_of direction sequence = to_be_bytes header_bytes (bit_or (header_bit direction) sequence)

-- `seal`: the bytes written to an output buffer of the given length.
unfoldable pub seal :
    SessionCrypto → Direction → ℕ → List ℕ → (output_len : ℕ) → Result PacketError (List ℕ)
unfolding header_of nonce
seal c direction sequence plaintext output_len =
    if ltb max_sequence sequence
    then err invalid_sequence
    else if ltb max_plaintext_bytes (length plaintext)
    then err plaintext_too_large
    else if ltb output_len (overhead_bytes + length plaintext)
    then err output_too_small
    else (let header = header_of direction sequence in
        try (ok_or (c.encrypt (nonce header) plaintext) plaintext_too_large)
          (λ sealed. ok (header ++ sealed.0 ++ sealed.1)))

unfoldable pub open_datagram : SessionCrypto → Direction → List ℕ → Result PacketError OpenedPacket
unfolding nonce
open_datagram c expected datagram =
    if ltb max_datagram_bytes (length datagram)
    then err datagram_too_large
    else if ltb (length datagram) overhead_bytes
    then err datagram_too_short
    else (let header = from_be_bytes (take header_bytes datagram) in
        let body_end = length datagram - tag_bytes in
        if not (bit_and header direction_mask == header_bit expected)
        then err wrong_direction
        else try
            (ok_or
              (c.decrypt (nonce (take header_bytes datagram))
                (drop header_bytes (take body_end datagram)) (drop body_end datagram))
              authentication_failed)
            (λ plaintext.
              ok (record { sequence = bit_and header max_sequence; plaintext = plaintext })))

pub record PacketReceiver : Type 0 where
  pub direction : Direction
  pub replay : ReplayWindow

abbrev pub new_receiver : Direction → PacketReceiver
new_receiver direction = record { direction = direction; replay = empty_window }

-- `self.replay.accept(..)?`.
abbrev accept_into : ℕ → M PacketReceiver PacketError Unit0
accept_into sequence r =
    let (w, result) = accept sequence r.replay in (record r { replay = w }, result)

unfoldable pub receive : SessionCrypto → List ℕ → M PacketReceiver PacketError OpenedPacket
receive c datagram = do
  r ← get
  packet ← lift (open_datagram c r.direction datagram)
  accept_into packet.sequence
  pure packet

-- `open_from`: the test says whether the datagram came from the expected address.
unfoldable pub receive_from :
    SessionCrypto → (from_server : Bool) → List ℕ → M PacketReceiver PacketError OpenedPacket
receive_from c from_server datagram = do
  reject_if (not from_server) unexpected_source
  receive c datagram
