-- ===== src/Frames/ErrorCode.antt =====
-- src/http2/constants.js, H2_ERROR.
use tunnelfetch.Prelude.{ℕ}

abbrev pub no_error : ℕ
no_error = 0x0

abbrev pub protocol_error : ℕ
protocol_error = 0x1

abbrev pub internal_error : ℕ
internal_error = 0x2

abbrev pub flow_control_error : ℕ
flow_control_error = 0x3

abbrev pub settings_timeout : ℕ
settings_timeout = 0x4

abbrev pub stream_closed : ℕ
stream_closed = 0x5

abbrev pub frame_size_error : ℕ
frame_size_error = 0x6

abbrev pub refused_stream : ℕ
refused_stream = 0x7

abbrev pub cancel : ℕ
cancel = 0x8

abbrev pub compression_error : ℕ
compression_error = 0x9

abbrev pub connect_error : ℕ
connect_error = 0xa

abbrev pub enhance_your_calm : ℕ
enhance_your_calm = 0xb

abbrev pub inadequate_security : ℕ
inadequate_security = 0xc

abbrev pub http_1_1_required : ℕ
http_1_1_required = 0xd
