-- ===== src/Errors.antt =====
-- What the readers and writers of minecraft/protocol fail with: errors returned, and panics with an
-- error, which `packetData.decode` recovers from.
pub data Error : Type 0 where
  eof unexpected_eof : Error
  varint_overflow : Error
  string_too_long negative_length exceeds_remaining slice_too_long : Error
  empty_packet too_many_packets too_large : Error
  bad_header bad_checksum missing_algorithm unknown_algorithm unexpected_algorithm : Error
  compression unread_bytes unknown_packet too_short index_out_of_range : Error
