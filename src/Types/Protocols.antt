-- ===== src/Types/Protocols.antt =====
-- servercc/types/include/protocols.h
use servercc.Common.{ℕ}

abbrev pub connect_request_protocol : ℕ
connect_request_protocol = 0x00

abbrev pub connect_ack_request_protocol : ℕ
connect_ack_request_protocol = 0x01

abbrev pub connect_ack_response_protocol : ℕ
connect_ack_response_protocol = 0x02

abbrev pub internal_request_protocol : ℕ
internal_request_protocol = 0x10

abbrev pub internal_request_end_protocol : ℕ
internal_request_end_protocol = 0x11

abbrev pub internal_response_protocol : ℕ
internal_response_protocol = 0x13

abbrev pub internal_response_end_protocol : ℕ
internal_response_end_protocol = 0x14

abbrev pub internal_error_protocol : ℕ
internal_error_protocol = 0x15
