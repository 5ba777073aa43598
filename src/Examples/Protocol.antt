-- ===== src/Examples/Protocol.antt =====
-- Bytes of TLS, of HTTP/2 frames and of HPACK.
use tunnelfetch.Prelude.{
  ℕ, ◌+◌, ◌*◌, ◌^◌, ◌<◌, ◌≡◌, arith, true, none, [], ◌∷◌, ◌++◌, length, drop, take,
}
use tunnelfetch.Bytes
use tunnelfetch.Bytes.{Bytes}
use tunnelfetch.Errors.{ok}
use tunnelfetch.Wire.Cursor
use tunnelfetch.Wire.Cursor.{Cursor, one, two, three, malformed}
use tunnelfetch.Wire.Builder
use tunnelfetch.Wire.Builder.{max_length}
use tunnelfetch.Wire.RoundTrip.{
  octets, behind, length_prefix, vector_bytes, vector-vector, handshake_message_bytes,
}
use tunnelfetch.Wire.Bounds.{Inside, vector-Inside}
use tunnelfetch.Frames.{
  parse_settings, settings_payload, headers_block_fragment, headers_payload, headers_flags,
  strip_padding, parse_goaway, goaway_payload, parse_rst_stream, rst_stream_payload,
  parse_window_update, window_update_payload,
}
use tunnelfetch.Frames.Setting
use tunnelfetch.Frames.ErrorCode
use tunnelfetch.Frames.Payloads.{
  parse_settings-settings_payload, headers_block_fragment-headers_payload, control_payloads,
  strip_padding-padded,
}
use tunnelfetch.Hpack.{new_decoder, decode_integer, encode_integer}
use tunnelfetch.Hpack.Table.{new_decoder-IsBounded}
use tunnelfetch.Hpack.Integers.{decode-encode, decode_integer_takes}
use tunnelfetch.Hpack.Blocks.{decode}
use tunnelfetch.Hpack.Blocks.Bounds.{Decodes, decode-Decodes}

abbrev body : Bytes
body = 7 ∷ 8 ∷ []

abbrev prefixed : Bytes
prefixed = length_prefix two 2 ++ body

prefixed_built : Builder.vector two body ≡ ok prefixed
prefixed_built = vector_bytes two body

vector-vector_example :
    Cursor.vector two (behind (1 ∷ []) (prefixed ++ (9 ∷ [])))
    ≡ ok (body, behind (1 ∷ prefixed) (9 ∷ []))
vector-vector_example = vector-vector two (1 ∷ []) body (9 ∷ []) prefixed (vector_bytes two body)

vector-Inside_example :
    Inside (behind (1 ∷ prefixed) (9 ∷ []))
    × ((behind (1 ∷ prefixed) (9 ∷ [])).bytes ≡ (behind (1 ∷ []) (prefixed ++ (9 ∷ []))).bytes)
    × ((behind (1 ∷ prefixed) (9 ∷ [])).pos
        ≡ (behind (1 ∷ []) (prefixed ++ (9 ∷ []))).pos + octets two + length body)
    × (body
        ≡ take (length body) (
            drop
              ((behind (1 ∷ []) (prefixed ++ (9 ∷ []))).pos + octets two)
              (behind (1 ∷ []) (prefixed ++ (9 ∷ []))).bytes))
vector-Inside_example =
    vector-Inside two (behind (1 ∷ []) (prefixed ++ (9 ∷ []))) (behind (1 ∷ prefixed) (9 ∷ [])) body
      (omega arith) (vector-vector two (1 ∷ []) body (9 ∷ []) prefixed (vector_bytes two body))

message_built :
    Builder.handshake_message 1 body ≡ ok (Bytes.u8 1 ++ (length_prefix three 2 ++ body))
message_built = handshake_message_bytes 1 body

-- INITIAL_WINDOW_SIZE and MAX_FRAME_SIZE.
parse_settings-settings_payload_example :
    parse_settings (
      settings_payload
        ((Setting.initial_window_size, 65535) ∷ (Setting.max_frame_size, 16384) ∷ []))
    ≡ ok ((Setting.initial_window_size, 65535) ∷ (Setting.max_frame_size, 16384) ∷ [])
parse_settings-settings_payload_example =
    parse_settings-settings_payload
      ((Setting.initial_window_size, 65535) ∷ (Setting.max_frame_size, 16384) ∷ [])
      ((omega arith, omega arith), ((omega arith, omega arith), tt))

headers_block_fragment-headers_payload_example :
    headers_block_fragment (headers_payload none (0x82 ∷ [])) (headers_flags true true none)
    ≡ ok (0x82 ∷ [])
headers_block_fragment-headers_payload_example =
    headers_block_fragment-headers_payload true true none (0x82 ∷ [])

control_payloads_read :
    (parse_goaway (goaway_payload 3 ErrorCode.internal_error body)
      ≡ ok (record { last_stream_id = 3; error_code = ErrorCode.internal_error; debug = body }))
    × (parse_rst_stream (rst_stream_payload ErrorCode.internal_error) ≡ ok ErrorCode.internal_error)
    × (parse_window_update (window_update_payload 65535) ≡ ok 65535)
control_payloads_read =
    control_payloads 3 ErrorCode.internal_error 65535 body (omega arith) (omega arith) (omega arith)

padding_stripped : strip_padding (3 ∷ (body ++ (0 ∷ 0 ∷ 0 ∷ []))) ≡ ok (body, 3)
padding_stripped = strip_padding-padded body (0 ∷ 0 ∷ 0 ∷ [])

-- RFC 7541, C.1.2.
decode-encode_example :
    decode_integer (encode_integer 1337 5 (5 * 2 ^ 5) ++ (9 ∷ [])) 5 ≡ ok (1337, 9 ∷ [])
decode-encode_example = decode-encode 1337 5 5 (9 ∷ []) (omega arith) (omega arith)

decode_integer_takes_example :
    (1337 < 2 ^ 43)
    × (length {A = ℕ} (9 ∷ []) < length (encode_integer 1337 5 (5 * 2 ^ 5) ++ (9 ∷ [])))
decode_integer_takes_example =
    decode_integer_takes (encode_integer 1337 5 (5 * 2 ^ 5) ++ (9 ∷ [])) 5 1337 (9 ∷ [])
      (omega arith) (decode-encode 1337 5 5 (9 ∷ []) (omega arith) (omega arith))

-- For ASCII, a text has the octets as its code units.
abbrev ascii : Bytes → Bytes
ascii bytes = bytes

decode-Decodes_example :
    Decodes ascii
      (new_decoder 4096 262144)
      (decode ascii (0x82 ∷ 0x40 ∷ 1 ∷ 97 ∷ 1 ∷ 98 ∷ []) (new_decoder 4096 262144))
decode-Decodes_example =
    decode-Decodes ascii (0x82 ∷ 0x40 ∷ 1 ∷ 97 ∷ 1 ∷ 98 ∷ []) (new_decoder 4096 262144)
      (new_decoder-IsBounded 4096 262144)
