-- ===== src/Frames.antt =====
-- src/http2/frames.js: frames to bytes, and bytes to frames.
pub mod FrameType
pub mod Flag
pub mod Setting
pub mod ErrorCode
pub mod Reading
pub mod Payloads
use tunnelfetch.Prelude.{ℕ, zero, suc, ◌+◌, ◌-◌, ◌*◌, ◌/◌, ◌%◌, ◌^◌, Bool, true, false, not}
use tunnelfetch.Prelude.{
  Option, none, some, List, [], ◌∷◌, ◌++◌, ltb, leb, ◌==◌, if◌then◌else◌, length, drop, take,
}
use tunnelfetch.Prelude.Words.{ushr, octet}
use tunnelfetch.Bytes.{Bytes, at, read_u16, read_u32}
use tunnelfetch.Errors.{
  Result, ok, err, Failure, http2_error, http2_protocol, http2_frame_size, unexpected_eof, ◌>>=◌,
}
use tunnelfetch.Reader.{ByteReader, Read, read_exactly, and_then}
use Prim.Native.Nat.{bit_and, bit_or}

pub record Frame : Type 0 where
  pub type : ℕ
  pub flags : ℕ
  pub stream_id : ℕ
  pub payload : Bytes

-- `x & 0x7fffffff`
abbrev pub low_31 : ℕ → ℕ
low_31 x = x % 2 ^ 31

-- What nine bytes of header say. The shifted bytes share no bit, so `|` adds them.
abbrev pub header_length : Bytes → ℕ
header_length h = at h 0 * 2 ^ 16 + at h 1 * 2 ^ 8 + at h 2

abbrev pub header_stream : Bytes → ℕ
header_stream h = low_31 (read_u32 h 5)

abbrev pub frame_of : Bytes → Bytes → Frame
frame_of h payload = record {
  type = at h 3;
  flags = at h 4;
  stream_id = header_stream h;
  payload = payload;
}

-- The payload has come, or the stream has ended in it.
abbrev pub with_payload : Bytes → Result Bytes → Result (Option Frame)
with_payload h (ok payload) = ok (some (frame_of h payload))
with_payload h (err e) = err e

-- The stream ended in the header: between two frames that is a clean end, `none`.
abbrev pub without_header : Failure → Result (Option Frame)
without_header (unexpected_eof wanted zero) = ok none
without_header e = err e

read_payload : Bytes → Read (Option Frame)
read_payload h r =
    if header_length h == 0
    then some (ok (some (frame_of h [])), r)
    else and_then (read_exactly (header_length h) r) (λ x r'. some (with_payload h x, r'))

after_header : ℕ → Result Bytes → Read (Option Frame)
after_header max_frame_size (err e) r = some (without_header e, r)
after_header max_frame_size (ok h) r =
    if ltb max_frame_size (header_length h)
    then some (err (http2_error http2_frame_size), r)
    else read_payload h r

pub read_frame : ℕ → Read (Option Frame)
read_frame max_frame_size r = and_then (read_exactly 9 r) (after_header max_frame_size)

-- `putHeader`; a Uint8Array keeps the low eight bits of the type and of the flags.
unfoldable pub put_header : ℕ → ℕ → ℕ → ℕ → Bytes
put_header size type flags stream_id =
    octet size 16
    ∷ octet size 8
    ∷ size % 256
    ∷ type % 256
    ∷ flags % 256
    ∷ ushr stream_id 24 % 128
    ∷ octet stream_id 16
    ∷ octet stream_id 8
    ∷ stream_id % 256
    ∷ []

unfoldable pub serialize_frame : ℕ → ℕ → ℕ → Bytes → Bytes
serialize_frame type flags stream_id payload =
    put_header (length payload) type flags stream_id ++ payload

-- The four bytes of a 32-bit number, and of one whose top bit is cleared.
abbrev word : ℕ → Bytes
word n = octet n 24 ∷ octet n 16 ∷ octet n 8 ∷ n % 256 ∷ []

abbrev word_31 : ℕ → Bytes
word_31 n = ushr n 24 % 128 ∷ octet n 16 ∷ octet n 8 ∷ n % 256 ∷ []

-- The payload that the loop of `settingsFrame` fills, six bytes for an entry.
unfoldable pub settings_payload : List (ℕ × ℕ) → Bytes
settings_payload [] = []
settings_payload ((id, value) ∷ entries) =
    octet id 8
    ∷ id % 256
    ∷ octet value 24
    ∷ octet value 16
    ∷ octet value 8
    ∷ value % 256
    ∷ settings_payload entries

pub settings_frame : List (ℕ × ℕ) → Bool → Bytes
settings_frame entries ack =
    if ack
    then serialize_frame FrameType.settings Flag.ack 0 []
    else serialize_frame FrameType.settings 0 0 (settings_payload entries)

unfoldable pub window_update_payload : ℕ → Bytes
window_update_payload increment = word_31 increment

pub window_update_frame : ℕ → ℕ → Bytes
window_update_frame stream_id increment =
    serialize_frame FrameType.window_update 0 stream_id (window_update_payload increment)

unfoldable pub rst_stream_payload : ℕ → Bytes
rst_stream_payload error_code = word error_code

pub rst_stream_frame : ℕ → ℕ → Bytes
rst_stream_frame stream_id error_code =
    serialize_frame FrameType.rst_stream 0 stream_id (rst_stream_payload error_code)

pub ping_frame : Bytes → Bool → Bytes
ping_frame opaque ack = serialize_frame FrameType.ping (if ack then Flag.ack else 0) 0 opaque

unfoldable pub goaway_payload : ℕ → ℕ → Bytes → Bytes
goaway_payload last_stream_id error_code debug =
    word_31 last_stream_id ++ (word error_code ++ debug)

pub goaway_frame : ℕ → ℕ → Bytes → Bytes
goaway_frame last_stream_id error_code debug =
    serialize_frame FrameType.goaway 0 0 (goaway_payload last_stream_id error_code debug)

pub record Priority : Type 0 where
  pub exclusive : Bool
  pub stream_dependency : ℕ
  pub weight : ℕ

-- The top bit of the first byte is free, so `|` adds it.
abbrev priority_bytes : Priority → Bytes
priority_bytes p =
    (ushr p.stream_dependency 24 % 128 + (if p.exclusive then 0x80 else 0))
    ∷ octet p.stream_dependency 16
    ∷ octet p.stream_dependency 8
    ∷ p.stream_dependency % 256
    ∷ p.weight % 256
    ∷ []

unfoldable pub headers_flags : Bool → Bool → Option Priority → ℕ
headers_flags end_stream end_headers priority =
    bit_or
      (bit_or (if end_stream then Flag.end_stream else 0)
        (if end_headers then Flag.end_headers else 0))
      (elim priority [ none ↦ 0 | some p ↦ Flag.priority ])

unfoldable pub headers_payload : Option Priority → Bytes → Bytes
headers_payload none block = block
headers_payload (some p) block = priority_bytes p ++ block

unfoldable pub headers_frame : ℕ → Bytes → Bool → Bool → Option Priority → Bytes
headers_frame stream_id block end_stream end_headers priority =
    serialize_frame FrameType.headers (headers_flags end_stream end_headers priority) stream_id
      (headers_payload priority block)

unfoldable pub continuation_frame : ℕ → Bytes → Bool → Bytes
continuation_frame stream_id block end_headers =
    serialize_frame FrameType.continuation (if end_headers then Flag.end_headers else 0) stream_id
      block

pub data_frame : ℕ → Bytes → Bool → Bytes
data_frame stream_id payload end_stream =
    serialize_frame FrameType.data_frames (if end_stream then Flag.end_stream else 0) stream_id
      payload

-- The data, and the pad length.
unfoldable pub strip_padding : Bytes → Result (Bytes × ℕ)
strip_padding [] = err (http2_error http2_protocol)
strip_padding (pad_length ∷ rest) =
    if leb (suc (length rest)) pad_length
    then err (http2_error http2_protocol)
    else ok (take (suc (length rest) - pad_length - 1) rest, pad_length)

abbrev pub has_flag : ℕ → ℕ → Bool
has_flag flags flag = not (bit_and flags flag == 0)

strip_priority : Bytes → Result Bytes
strip_priority p = if ltb (length p) 5 then err (http2_error http2_frame_size) else ok (drop 5 p)

unfoldable pub headers_block_fragment : Bytes → ℕ → Result Bytes
unfolding strip_padding strip_priority
headers_block_fragment payload flags = do
  p ← (if has_flag flags Flag.padded then (do s ← strip_padding payload; ok (s.0)) else ok payload)
  if has_flag flags Flag.priority then strip_priority p else ok p

-- The loop of `parseSettings` from offset `o`, for so many entries.
settings_loop : ℕ → ℕ → Bytes → List (ℕ × ℕ)
settings_loop zero o payload = []
settings_loop (suc n) o payload =
    (read_u16 payload o, read_u32 payload (o + 2)) ∷ settings_loop n (o + 6) payload

unfoldable pub parse_settings : Bytes → Result (List (ℕ × ℕ))
unfolding settings_loop
parse_settings payload =
    if length payload % 6 == 0
    then ok (settings_loop (length payload / 6) 0 payload)
    else err (http2_error http2_frame_size)

unfoldable pub parse_window_update : Bytes → Result ℕ
parse_window_update payload =
    if length payload == 4
    then ok (low_31 (read_u32 payload 0))
    else err (http2_error http2_frame_size)

unfoldable pub parse_rst_stream : Bytes → Result ℕ
parse_rst_stream payload =
    if length payload == 4 then ok (read_u32 payload 0) else err (http2_error http2_frame_size)

pub record Goaway : Type 0 where
  pub last_stream_id : ℕ
  pub error_code : ℕ
  pub debug : Bytes

unfoldable pub parse_goaway : Bytes → Result Goaway
parse_goaway payload =
    if ltb (length payload) 8
    then err (http2_error http2_frame_size)
    else ok (record {
      last_stream_id = low_31 (read_u32 payload 0);
      error_code = read_u32 payload 4;
      debug = drop 8 payload;
    })
