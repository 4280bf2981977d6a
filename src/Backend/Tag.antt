-- ===== src/Backend/Tag.antt =====
-- The first byte of each message of the server.
use rust_opengauss.Prelude.{ℕ}

abbrev pub parse_complete_tag : ℕ
parse_complete_tag = b'1'

abbrev pub bind_complete_tag : ℕ
bind_complete_tag = b'2'

abbrev pub close_complete_tag : ℕ
close_complete_tag = b'3'

abbrev pub notification_response_tag : ℕ
notification_response_tag = b'A'

abbrev pub copy_done_tag : ℕ
copy_done_tag = b'c'

abbrev pub command_complete_tag : ℕ
command_complete_tag = b'C'

abbrev pub copy_data_tag : ℕ
copy_data_tag = b'd'

abbrev pub data_row_tag : ℕ
data_row_tag = b'D'

abbrev pub error_response_tag : ℕ
error_response_tag = b'E'

abbrev pub copy_in_response_tag : ℕ
copy_in_response_tag = b'G'

abbrev pub copy_out_response_tag : ℕ
copy_out_response_tag = b'H'

abbrev pub empty_query_response_tag : ℕ
empty_query_response_tag = b'I'

abbrev pub backend_key_data_tag : ℕ
backend_key_data_tag = b'K'

abbrev pub no_data_tag : ℕ
no_data_tag = b'n'

abbrev pub notice_response_tag : ℕ
notice_response_tag = b'N'

abbrev pub authentication_tag : ℕ
authentication_tag = b'R'

abbrev pub portal_suspended_tag : ℕ
portal_suspended_tag = b's'

abbrev pub parameter_status_tag : ℕ
parameter_status_tag = b'S'

abbrev pub parameter_description_tag : ℕ
parameter_description_tag = b't'

abbrev pub row_description_tag : ℕ
row_description_tag = b'T'

abbrev pub ready_for_query_tag : ℕ
ready_for_query_tag = b'Z'

abbrev pub negotiate_protocol_version_tag : ℕ
negotiate_protocol_version_tag = b'v'
