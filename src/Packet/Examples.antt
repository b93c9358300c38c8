-- ===== src/Packet/Examples.antt =====
-- Runs of the replay window and the packet codec, and the theorems at concrete inputs. The cipher of
-- the runs leaves the bytes as they are.
use mosh_client_rs.Prelude.{
  ◌≡◌, refl, arith, ℕ, ◌≤◌, ◌<◌, some, List, [], ◌∷◌, ok, err, ◌⊎◌, length,
}
use mosh_client_rs.Packet.Window.{
  sequence_exhausted, wrong_direction, replay, too_old, ReplayWindow, empty_window, accept,
  take_sequence, max_sequence, accept_at,
}
use mosh_client_rs.Packet.Replay.{judge, remember, Agrees, accept-judge}
use mosh_client_rs.Packet.Stream.{
  empty-Agrees, accepted, judged, accepted-Distinct, Distinct, drawn, take_sequence-drawn,
}
use mosh_client_rs.Packet.Codec.{
  SessionCrypto, IsAead, client_to_server, server_to_client, header_of, nonce, seal, open_datagram,
  PacketReceiver, new_receiver, receive,
}
use mosh_client_rs.Packet.Sealing.{seal-open_datagram}
use mosh_client_rs.Packet.Receiver.{receives, receive_again}

abbrev zero_tag : List ℕ
zero_tag = 0 ∷ 0 ∷ 0 ∷ 0 ∷ 0 ∷ 0 ∷ 0 ∷ 0 ∷ 0 ∷ 0 ∷ 0 ∷ 0 ∷ 0 ∷ 0 ∷ 0 ∷ 0 ∷ []

abbrev pub identity_cipher : SessionCrypto
identity_cipher = record {
  encrypt = λ n buffer. some (buffer, zero_tag);
  decrypt = λ n body tag. some body;
}

identity-IsAead : IsAead identity_cipher
identity-IsAead = record {
  keeps_length = λ n buffer body tag e. (ground (arith, e), ground (arith, e));
  opens = λ n buffer body tag e. ground (arith, e);
}

abbrev datagram_5 : List ℕ
datagram_5 = 0 ∷ 0 ∷ 0 ∷ 0 ∷ 0 ∷ 0 ∷ 0 ∷ 5 ∷ 7 ∷ 9 ∷ zero_tag

seal_5 : seal identity_cipher client_to_server 5 (7 ∷ 9 ∷ []) 100 ≡ ok datagram_5
unfolding seal header_of nonce
seal_5 = refl

seal-open_datagram_example :
    (open_datagram identity_cipher client_to_server datagram_5
      ≡ ok (record { sequence = 5; plaintext = 7 ∷ 9 ∷ [] }))
    × (open_datagram identity_cipher server_to_client datagram_5 ≡ err wrong_direction)
    × (length datagram_5 ≤ 100)
    × (length datagram_5 ≤ 2048)
seal-open_datagram_example =
    seal-open_datagram identity_cipher identity-IsAead client_to_server 5 (7 ∷ 9 ∷ []) datagram_5
      100 seal_5

abbrev window_5 : ReplayWindow
window_5 = record { highest = some 5; seen = 1 }

window_5-Agrees : Agrees window_5 (5 ∷ [])
unfolding judge accept accept_at
window_5-Agrees = (accept-judge empty_window [] 5 empty-Agrees).1

accept-judge_example :
    ((accept 3 window_5).1 ≡ judge (5 ∷ []) 3)
    × Agrees (accept 3 window_5).0 (remember (judge (5 ∷ []) 3) 3 (5 ∷ []))
accept-judge_example = accept-judge window_5 (5 ∷ []) 3 window_5-Agrees

accepted-Distinct_example :
    (accepted empty_window [] (5 ∷ 3 ∷ 5 ∷ 70 ∷ 4 ∷ []) ≡ judged [] (5 ∷ 3 ∷ 5 ∷ 70 ∷ 4 ∷ []))
    × Distinct (accepted empty_window [] (5 ∷ 3 ∷ 5 ∷ 70 ∷ 4 ∷ []))
accepted-Distinct_example = accepted-Distinct (5 ∷ 3 ∷ 5 ∷ 70 ∷ 4 ∷ [])

take_sequence-drawn_example :
    ((2 ≤ max_sequence) × ((take_sequence (drawn 2)).1 ≡ ok 2))
    ⊎ ((max_sequence < 2) × ((take_sequence (drawn 2)).1 ≡ err sequence_exhausted))
take_sequence-drawn_example = take_sequence-drawn 2

abbrev server_receiver : PacketReceiver
server_receiver = new_receiver client_to_server

abbrev after_5 : PacketReceiver
after_5 = record { direction = client_to_server; replay = window_5 }

receive_5 :
    receive identity_cipher datagram_5 server_receiver
    ≡ (after_5, ok (record { sequence = 5; plaintext = 7 ∷ 9 ∷ [] }))
unfolding receive open_datagram accept accept_at nonce
receive_5 = refl

receive_again_example :
    ((receive identity_cipher datagram_5 (receives identity_cipher (datagram_5 ∷ []) after_5)).1
      ≡ err replay)
    ⊎ ((receive identity_cipher datagram_5 (receives identity_cipher (datagram_5 ∷ []) after_5)).1
        ≡ err too_old)
receive_again_example =
    receive_again identity_cipher client_to_server [] (datagram_5 ∷ []) datagram_5 server_receiver
      after_5 (record { sequence = 5; plaintext = 7 ∷ 9 ∷ [] }) refl receive_5
