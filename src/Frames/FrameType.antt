-- ===== src/Frames/FrameType.antt =====
-- src/http2/constants.js, FRAME: the frame types that this client sends.
use tunnelfetch.Prelude.{ℕ}

abbrev pub data_frames : ℕ
data_frames = 0x0

abbrev pub headers : ℕ
headers = 0x1

abbrev pub rst_stream : ℕ
rst_stream = 0x3

abbrev pub settings : ℕ
settings = 0x4

abbrev pub ping : ℕ
ping = 0x6

abbrev pub goaway : ℕ
goaway = 0x7

abbrev pub window_update : ℕ
window_update = 0x8

abbrev pub continuation : ℕ
continuation = 0x9
