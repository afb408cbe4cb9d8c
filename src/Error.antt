-- ===== src/Error.antt =====
-- Error codes (include/edge_runtime/common/error.hpp).

-- The codes keep the order of the enumeration.
pub data ErrorCode : Type 0 where
  invalid_name invalid_options not_found permission_denied already_owned : ErrorCode
  consumer_already_owned initialization_incomplete corrupt_header abi_mismatch : ErrorCode
  schema_mismatch unsupported_platform no_new_sample no_writable_slot read_contention : ErrorCode
  timeout data_stale producer_offline recovery_blocked stale_handle payload_corrupt : ErrorCode
  payload_encode_failed payload_decode_failed corrupt_slot name_race_detected : ErrorCode
  clock_anomaly sequence_exhausted concurrent_handle_use system_error producer_stalled : ErrorCode
  transport_failed supervision_exhausted queue_full queue_empty queue_contention : ErrorCode
  buffer_pool_full buffer_pool_contention buffer_invalid_handle : ErrorCode
  buffer_state_mismatch : ErrorCode
