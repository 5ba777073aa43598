-- ===== src/Frames/Setting.antt =====
-- src/http2/constants.js, SETTINGS.
use tunnelfetch.Prelude.{ℕ}

abbrev pub header_table_size : ℕ
header_table_size = 0x1

abbrev pub enable_push : ℕ
enable_push = 0x2

abbrev pub max_concurrent_streams : ℕ
max_concurrent_streams = 0x3

abbrev pub initial_window_size : ℕ
initial_window_size = 0x4

abbrev pub max_frame_size : ℕ
max_frame_size = 0x5

abbrev pub max_header_list_size : ℕ
max_header_list_size = 0x6
