-- ===== src/Limits.antt =====
-- limits.rs: the protocol limits, numbers of bytes, items or milliseconds.
use Prim.Native.Nat.{ℕ, ◌*◌}

abbrev pub max_bootstrap_bytes : ℕ
max_bootstrap_bytes = 4 * 1024

abbrev pub max_bootstrap_lines : ℕ
max_bootstrap_lines = 64

abbrev pub encoded_key_bytes : ℕ
encoded_key_bytes = 22

abbrev pub decoded_key_bytes : ℕ
decoded_key_bytes = 16

abbrev pub max_datagram_bytes : ℕ
max_datagram_bytes = 2 * 1024

abbrev pub max_fragment_body_bytes : ℕ
max_fragment_body_bytes = 1400

abbrev pub max_fragments_per_instruction : ℕ
max_fragments_per_instruction = 749

abbrev pub incomplete_instruction_lifetime_ms : ℕ
incomplete_instruction_lifetime_ms = 10000

abbrev pub max_compressed_instruction_bytes : ℕ
max_compressed_instruction_bytes = 1024 * 1024

abbrev pub max_decompressed_instruction_bytes : ℕ
max_decompressed_instruction_bytes = 2 * 1024 * 1024

abbrev pub max_state_difference_bytes : ℕ
max_state_difference_bytes = 2 * 1024 * 1024

abbrev pub max_input_command_bytes : ℕ
max_input_command_bytes = 64 * 1024

abbrev pub max_client_operations_after_ack : ℕ
max_client_operations_after_ack = 4096

abbrev pub session_command_queue_capacity : ℕ
session_command_queue_capacity = 64

abbrev pub pending_output_chunks : ℕ
pending_output_chunks = 1

abbrev pub max_terminal_rows : ℕ
max_terminal_rows = 200

abbrev pub max_terminal_columns : ℕ
max_terminal_columns = 500

abbrev pub max_terminal_visible_cells : ℕ
max_terminal_visible_cells = 100000

abbrev pub max_unicode_scalars_per_cell : ℕ
max_unicode_scalars_per_cell = 8

abbrev pub max_terminal_operations_per_difference : ℕ
max_terminal_operations_per_difference = 4096

abbrev pub max_output_chunk_bytes : ℕ
max_output_chunk_bytes = 2 * 1024 * 1024

abbrev pub max_pending_prediction_scalars : ℕ
max_pending_prediction_scalars = 32

abbrev pub max_pending_prediction_bytes : ℕ
max_pending_prediction_bytes = 32

abbrev pub max_prediction_age_ms : ℕ
max_prediction_age_ms = 10000

abbrev pub adaptive_prediction_disable_frame_ms : ℕ
adaptive_prediction_disable_frame_ms = 20

abbrev pub adaptive_prediction_enable_frame_ms : ℕ
adaptive_prediction_enable_frame_ms = 30

abbrev pub adaptive_prediction_glitch_ms : ℕ
adaptive_prediction_glitch_ms = 250

abbrev pub max_sent_states_after_ack : ℕ
max_sent_states_after_ack = 32

abbrev pub max_received_reference_states : ℕ
max_received_reference_states = 32

abbrev pub min_retransmission_timeout_ms : ℕ
min_retransmission_timeout_ms = 50

abbrev pub max_retransmission_timeout_ms : ℕ
max_retransmission_timeout_ms = 5000

abbrev pub initial_retransmission_timeout_ms : ℕ
initial_retransmission_timeout_ms = 1000

abbrev pub max_rtt_sample_ms : ℕ
max_rtt_sample_ms = 60000

abbrev pub min_frame_interval_ms : ℕ
min_frame_interval_ms = 20

abbrev pub max_frame_interval_ms : ℕ
max_frame_interval_ms = 250

abbrev pub state_change_collection_ms : ℕ
state_change_collection_ms = 15

abbrev pub max_acknowledgement_delay_ms : ℕ
max_acknowledgement_delay_ms = 100

abbrev pub heartbeat_interval_ms : ℕ
heartbeat_interval_ms = 3000

abbrev pub no_recent_contact_ms : ℕ
no_recent_contact_ms = 6500

abbrev pub no_recent_reply_ms : ℕ
no_recent_reply_ms = 10000

abbrev pub initial_attachment_timeout_ms : ℕ
initial_attachment_timeout_ms = 15000

abbrev pub graceful_close_ack_timeout_ms : ℕ
graceful_close_ack_timeout_ms = 4000

abbrev pub max_timestamp_reply_age_ms : ℕ
max_timestamp_reply_age_ms = 1000
