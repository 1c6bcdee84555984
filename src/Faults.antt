-- ===== src/Faults.antt =====
-- The errors and panics of the package minecraft, from the connection's handlers and the resource
-- pack queue. The four panics are nil_pointer, divide_by_zero, closed_twice and misused. A
-- goroutine that waits for a channel for good is blocked.
pub data Fault : Type 0 where
  closed malformed undecodable : Fault
  incompatible_protocol unknown_compression unknown_status unknown_response : Fault
  bad_login not_authenticated bad_public_key bad_server_token no_encryption_key : Fault
  unknown_pack unexpected_pack unexpected_chunk short_chunk unread_chunk no_packs : Fault
  bad_chunk_radius runtime_id_mismatch rejected : Fault
  nil_pointer divide_by_zero closed_twice misused blocked : Fault
