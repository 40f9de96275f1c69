-- ===== src/Message/Kind.antt =====
-- messages.go: the type bytes of messages.
use go_pg.Base.{ℕ}

abbrev pub command_complete_msg : ℕ
command_complete_msg = b'C'

abbrev pub error_response_msg : ℕ
error_response_msg = b'E'

abbrev pub notice_response_msg : ℕ
notice_response_msg = b'N'

abbrev pub parameter_status_msg : ℕ
parameter_status_msg = b'S'

abbrev pub authentication_ok_msg : ℕ
authentication_ok_msg = b'R'

abbrev pub backend_key_data_msg : ℕ
backend_key_data_msg = b'K'

abbrev pub no_data_msg : ℕ
no_data_msg = b'n'

abbrev pub password_message_msg : ℕ
password_message_msg = b'p'

abbrev pub terminate_msg : ℕ
terminate_msg = b'X'

abbrev pub notification_response_msg : ℕ
notification_response_msg = b'A'

abbrev pub describe_msg : ℕ
describe_msg = b'D'

abbrev pub parameter_description_msg : ℕ
parameter_description_msg = b't'

abbrev pub query_msg : ℕ
query_msg = b'Q'

abbrev pub ready_for_query_msg : ℕ
ready_for_query_msg = b'Z'

abbrev pub row_description_msg : ℕ
row_description_msg = b'T'

abbrev pub data_row_msg : ℕ
data_row_msg = b'D'

abbrev pub parse_msg : ℕ
parse_msg = b'P'

abbrev pub parse_complete_msg : ℕ
parse_complete_msg = b'1'

abbrev pub bind_msg : ℕ
bind_msg = b'B'

abbrev pub bind_complete_msg : ℕ
bind_complete_msg = b'2'

abbrev pub execute_msg : ℕ
execute_msg = b'E'

abbrev pub sync_msg : ℕ
sync_msg = b'S'

abbrev pub flush_msg : ℕ
flush_msg = b'H'

abbrev pub close_msg : ℕ
close_msg = b'C'

abbrev pub close_complete_msg : ℕ
close_complete_msg = b'3'

abbrev pub copy_in_response_msg : ℕ
copy_in_response_msg = b'G'

abbrev pub copy_out_response_msg : ℕ
copy_out_response_msg = b'H'

abbrev pub copy_data_msg : ℕ
copy_data_msg = b'd'

abbrev pub copy_done_msg : ℕ
copy_done_msg = b'c'
