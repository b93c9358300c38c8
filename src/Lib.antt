-- ===== src/Lib.antt =====
-- A verification library for the mosh client: the state machines and codecs of the client side of the
-- State Synchronization Protocol.
--
-- The program. A session driver (src/session/driver.rs) holds one state per component and calls
-- it for each event. Bytes from the user are appended to the client history
-- (src/session/client_history.rs), numbered by the synchronization state (src/synchronization.rs), and
-- sent when the scheduler (src/timing.rs) says so: as an instruction (src/instruction.rs), compressed,
-- cut into fragments (src/fragment.rs), each sealed in a datagram (src/packet.rs, src/crypto.rs). What
-- comes from the server goes the other way: opened, checked against the replay window, reassembled,
-- decoded, judged by the synchronization state, and applied to the terminal (src/terminal). The
-- reachability tracker (src/session/reachability.rs) says whether the server still answers, and the
-- local predictions (src/prediction.rs) what is shown in the meantime.
--
-- The files. Prelude has the results, lists, bits and bytes that the components share; `Result E A` is
-- Rust's, and a method on `&mut self` is a function from the state to the state it leaves, also where
-- it fails, and a result. Limits has the constants of src/limits.rs.
--   Synchronization: State has the types of src/synchronization.rs, Sender the sending half
--     (`advance_local`, `plan_send`, `commit_send`, `observe_acknowledgement`), Receiver the receiving
--     half (`begin_receive`, `begin_shutdown_receive`, `commit_receive`). The other files are proofs:
--     Ordered, Invariant, Halves, Steps, Progress, Planning, Acknowledgement, Delivery, Contents, Committed.
--   Timing: Rtt, Datagram and Scheduler are `RttEstimator`, `DatagramTiming` and `SendScheduler` of
--     src/timing.rs; Bounds, Exchange, Received, Due, Polling and Waiting are proofs.
--   Packet: Window has `ReplayWindow` and `SendSequence` of src/packet.rs, Codec has `PacketCodec` and
--     `PacketReceiver`; Replay, Stream, Sealing and Receiver are proofs.
--   Fragment: Codec has `encode` and `decode` of src/fragment.rs, Reassembly its
--     `FragmentReassembler`; RoundTrip, Outcomes, Assembly, Collected and Delivered are proofs.
--   Bootstrap: Record and Output are src/bootstrap.rs, without the address that `parse` is given;
--     Accepted and RoundTrip are proofs.
--   Instruction: Message and Encoding are src/instruction.rs; Termination is a proof.
--   Terminal: Screen has what src/terminal calls of other code, Difference is src/terminal/mod.rs,
--     Width src/terminal_width.rs, Budget and State src/terminal/state.rs, Paint
--     src/terminal/paint.rs; Cells and Echo are proofs.
--   Session: Reachability and History are src/session/reachability.rs and
--     src/session/client_history.rs, Errors the errors of src/session/driver.rs and their categories,
--     Handle the handle that the application holds, of src/session.rs; Deadlines, Log, Checkpoints and
--     Calls are proofs.
--   Session/Driver: src/session/driver.rs. State has the record `SessionDriver` and `connect`, Sending
--     and Receiving the methods on either side of the socket, Commands those of the application and the
--     output, Running the loop `run`, Closing `run_local_shutdown`. A method is a function on the
--     record that calls the components with their own operations. Outcome, Numbered, Sent, Stored,
--     Pieces and the files of Coherence are proofs.
--   Prediction: State is src/prediction.rs; Matched, Prefix, Soundness and Display are proofs.
-- Each Examples file runs its component on concrete inputs.
--
-- Numbers are natural numbers. Where the source checks, saturates or wraps, so does the model: checked
-- operations fail above 2 ^ 64 - 1, wire timestamps are taken modulo 2 ^ 16, and a shift of the replay
-- window modulo 2 ^ 64. A `BTreeMap` is an association list in the order of its keys, a buffer that is
-- filled in place is the list of its bytes.
--
-- Fuel. Two loops run on fuel. Every round of the loop of `decompress_exact_zlib` that goes on
-- consumes a byte of the input or writes one to the output, so the length of the input and the
-- limit of the output bound the rounds. The split of an instruction into the pieces of its
-- fragments takes at least one byte each time, so its length bounds the pieces.
--
-- Time and events. A round of a loop of the driver is a record of what it meets: the flag of
-- cancellation, each reading of the clock, which times its `Instant` can hold, what the socket
-- answers to each fragment, and what the wait ends with (a command, a datagram or an error of the
-- socket, a permit to send output, the end of a channel, the timer). `run` takes any list of
-- rounds, so its theorems hold for every order of events; where no round is left it gives no exit.
-- The datagrams that were sent and the chunks of output are lists in the state of the driver.
--
-- Parameters. The decoder of Base64 is a function that writes bytes or fails. The cipher (the
-- `ocb3` crate behind src/crypto.rs) is a record of encryption and decryption, with the laws of
-- authenticated encryption as hypotheses where they are needed. The `prost` messages and the
-- `miniz_oxide` codec are a record of functions, of which the termination of the decompression
-- needs that no step consumes more input than there is. The screens of vt100, the parser of the
-- `vte` crate and the widths of `unicode-width` are a record of functions without laws, but for the
-- length of an encoded character where it is needed. The predictions see a terminal through the
-- three operations of src/terminal/state.rs that they call, which the driver gives them; an
-- `expect` that would fail, or a `drain` past the end, is an error of its own.
--
-- Not modelled. The receiving ends of the session handle (src/session.rs) and the order in which the
-- driver's wait polls its channels are asynchronous code over tokio, src/crypto.rs wraps the cipher, and
-- src/vt100 is a copy of another project's library.
pub mod Prelude
pub mod Limits
pub mod Bootstrap
pub mod Instruction
pub mod Synchronization
pub mod Timing
pub mod Packet
pub mod Fragment
pub mod Terminal
pub mod Session
pub mod Prediction
