-- ===== src/Http1/Chunked.antt =====
-- src/http1/chunked.js: the decoder of chunked bodies, over the byte reader. What waits for a consumer
-- is the event that a pull gives. `Headers` is the platform's.
use tunnelfetch.Prelude.{
  ℕ, zero, suc, ◌+◌, ◌-◌, ◌^◌, min, Bool, true, false, not, ◌&&◌, ◌||◌, Option, none, some, [], ◌∷◌,
  ltb, leb, ◌==◌, if◌then◌else◌, length,
}
use tunnelfetch.Prelude.Texts.{Text}
use tunnelfetch.Bytes.{Bytes}
use tunnelfetch.Errors.{
  Result, ok, err, Failure, http_error, limit_error, unexpected_eof, http_chunk, http_trailer,
  http_body_truncated, limit_body, ◌>>=◌,
}
use tunnelfetch.Reader.{ByteReader, Read, and_then, read_until, read_some, read_exactly}
use tunnelfetch.Reader.Drain.{exceeds}
use tunnelfetch.Identity.Addresses.{hex_value, hexadecimal}
use tunnelfetch.Connection.State.{Deferred, pending, settle_resolve, settle_reject, FieldList}
use tunnelfetch.Connection.Fields.{Platform}
use tunnelfetch.Http1.Fields.{all, is_empty, drop_blanks, chop_line, field_line}

-- `LF`
abbrev pub line_feed : Bytes
line_feed = 10 ∷ []

-- `CHUNK_LINE_MAX`
abbrev pub chunk_line_max : ℕ
chunk_line_max = 1024

abbrev pub is_hex : ℕ → Bool
is_hex c = elim (hex_value c) [ none ↦ false | some v ↦ true ]

-- The hexadecimal digits at the front, and what is behind them.
unfoldable pub take_hex : Text → Text × Text
take_hex [] = ([], [])
take_hex (c ∷ cs) =
    let rest = take_hex cs in if is_hex c then (c ∷ rest.0, rest.1) else ([], c ∷ cs)

abbrev semicolon_first : Text → Bool
semicolon_first [] = false
semicolon_first (c ∷ cs) = c == 59

-- What may stand behind the digits: nothing, or an extension. `.` matches no CR and no LF.
unfoldable pub is_extension : Text → Bool
unfolding drop_blanks
is_extension t =
    is_empty t || (semicolon_first (drop_blanks t) && all (λ c. not (c == 13 || c == 10)) t)

-- `SIZE_LINE_RE`, and then `parseInt`, which must give a safe integer.
unfoldable pub chunk_size : Text → Result ℕ
unfolding take_hex is_extension
chunk_size line =
    if is_empty ((take_hex line).0) || not (is_extension ((take_hex line).1))
    then err (http_error http_chunk)
    else elim (hexadecimal 0 ((take_hex line).0)) [
      | none ↦ err (http_error http_chunk)
      | some size ↦ if leb (2 ^ 53) size then err (http_error http_chunk) else ok size
    ]

-- The errors of the reader, as `readChunkLine` and the decoder name them.
unfoldable pub chunk_line_failure : Failure → Failure
chunk_line_failure (unexpected_eof wanted got) = http_error http_body_truncated
chunk_line_failure (limit_error code) = http_error http_chunk
chunk_line_failure e = e

unfoldable pub truncated_failure : Failure → Failure
truncated_failure (unexpected_eof wanted got) = http_error http_body_truncated
truncated_failure e = e

-- What is done with a result that the reader gave at once.
abbrev pub return : {A : Type 0} → Result A → Read A
return x r = some (x, r)

abbrev chopped : Result Bytes → Result Text
chopped (err e) = err (chunk_line_failure e)
chopped (ok raw) = chop_line (http_error http_chunk) raw

unfoldable pub read_chunk_line : Read Text
unfolding chunk_line_failure chop_line
read_chunk_line r = and_then (read_until line_feed chunk_line_max r) (λ raw. return (chopped raw))

abbrev pub bad_trailer : Failure
bad_trailer = http_error http_trailer

module _ (platform : Platform) where
  -- What `readTrailers` does with a line that is not empty.
  abbrev pub add_trailer : FieldList → Text → Result FieldList
  add_trailer trailers line =
      field_line bad_trailer line >>= λ (name, value). platform.append name value trailers

  -- The loop of `readTrailers`; each line that is read costs a byte of `left` or more.
  unfoldable pub trailers_loop : ℕ → ℕ → FieldList → Read FieldList
  unfolding truncated_failure chop_line
  trailers_loop zero left trailers r = none
  trailers_loop (suc fuel) left trailers r = and_then (read_until line_feed left r) (λ raw r'.
      elim raw [
        | err e ↦ some (err (truncated_failure e), r')
        | ok bytes ↦ elim (chop_line bad_trailer bytes) [
          | err e ↦ some (err e, r')
          | ok line ↦
              if is_empty line then some (ok trailers, r') else elim (add_trailer trailers line) [
                | err e ↦ some (err e, r')
                | ok more ↦ trailers_loop fuel (left - length bytes) more r'
              ]
        ]
      ])

  unfoldable pub read_trailers : ℕ → Read FieldList
  unfolding trailers_loop
  read_trailers max_trailer_bytes r = trailers_loop (suc max_trailer_bytes) max_trailer_bytes [] r

pub data State : Type 0 where
  size in_data data_crlf done : State

-- The variables of `decodeChunked`, with `t`, the promise of the trailers.
pub record Decoder : Type 0 where
  pub state : State
  pub remaining : ℕ
  pub total : ℕ
  pub trailers : Deferred (Option FieldList)

-- `none` is Infinity.
pub record ChunkedOptions : Type 0 where
  pub max_bytes : Option ℕ
  pub max_chunk_size : ℕ
  pub max_trailer_bytes : ℕ

abbrev pub new_decoder : Decoder
new_decoder = record { state = size; remaining = 0; total = 0; trailers = pending }

-- What a pull does to the stream: `enqueue` or `close`.
pub data Event : Type 0 where
  enqueued : Bytes → Event
  closed : Event

-- The variables behind a piece of the data.
abbrev pub after_data : Decoder → Bytes → Decoder
after_data d chunk = record d {
  remaining = d.remaining - length chunk;
  total = d.total + length chunk;
  state = if d.remaining - length chunk == 0 then data_crlf else in_data;
}

module _ (platform : Platform) (options : ChunkedOptions) where
  -- The round in the state `data`, which ends the pull.
  unfoldable pub drive_data : Decoder → Read (Event × Decoder)
  drive_data d r = and_then (read_some (min d.remaining 65536) r) (λ taken r'. elim taken [
    | err e ↦ some (err e, r')
    | ok none ↦ some (err (http_error http_body_truncated), r')
    | ok (some chunk) ↦ some (ok (enqueued chunk, after_data d chunk), r')
  ])

  -- The tests on the size that a line gives.
  unfoldable pub checked_size : Decoder → Result Text → Result ℕ
  unfolding chunk_size
  checked_size d line = line >>= λ text. chunk_size text >>= λ n.
      if ltb options.max_chunk_size n
      then err (http_error http_chunk)
      else if n == 0
      then ok 0
      else if exceeds (d.total + n) options.max_bytes
      then err (limit_error limit_body)
      else ok n

  -- The trailers behind the chunk of size 0.
  unfoldable pub after_trailers : Decoder → Result FieldList → Read (Event × Decoder)
  after_trailers d (err e) r = some (err e, r)
  after_trailers d (ok fields) r = some (
    ok (closed, record d { state = done; trailers = settle_resolve (some fields) d.trailers }),
    r,
  )

  unfoldable pub drive_trailers : Decoder → Read (Event × Decoder)
  unfolding read_trailers after_trailers
  drive_trailers d r =
      and_then (read_trailers platform options.max_trailer_bytes r) (after_trailers d)

  -- The round in the state `size`, and the round that follows it.
  unfoldable pub after_size : Decoder → Result ℕ → Read (Event × Decoder)
  unfolding drive_trailers drive_data
  after_size d (err e) r = some (err e, r)
  after_size d (ok n) r =
      if n == 0
      then drive_trailers d r
      else drive_data (record d { remaining = n; state = in_data }) r

  unfoldable pub drive_size : Decoder → Read (Event × Decoder)
  unfolding read_chunk_line checked_size after_size
  drive_size d r = and_then (read_chunk_line r) (λ line. after_size d (checked_size d line))

  -- The round in the state `data-crlf`, and those that follow it.
  unfoldable pub drive_crlf : Decoder → Read (Event × Decoder)
  unfolding truncated_failure drive_size
  drive_crlf d r = and_then (read_exactly 2 r) (λ two r'. elim two [
    | err e ↦ some (err (truncated_failure e), r')
    | ok [] ↦ some (err (http_error http_chunk), r')
    | ok (a ∷ []) ↦ some (err (http_error http_chunk), r')
    | ok (a ∷ b ∷ cs) ↦
        if not (a == 13) || not (b == 10)
        then some (err (http_error http_chunk), r')
        else drive_size (record d { state = size }) r'
  ])

  -- The loop of `drive` runs at most three rounds: `data-crlf`, `size`, and then `data` or the end.
  unfoldable pub drive_from : State → Decoder → Read (Event × Decoder)
  unfolding drive_size drive_data drive_crlf
  drive_from size d r = drive_size d r
  drive_from in_data d r = drive_data d r
  drive_from data_crlf d r = drive_crlf d r
  drive_from done d r = some (ok (closed, d), r)

  unfoldable pub drive : Decoder → Read (Event × Decoder)
  unfolding drive_from
  drive d r = drive_from d.state d r

-- What `pull` of the stream makes of a drive: the event or the error that the stream gets, and the
-- decoder. After an error no variable but `state` and `t` is read again.
unfoldable pub settled :
    Decoder
    → Option (Result (Event × Decoder) × ByteReader)
    → Option ((Result Event × Decoder) × ByteReader)
settled d none = none
settled d (some (err e, r)) =
    some ((err e, record d { state = done; trailers = settle_reject e d.trailers }), r)
settled d (some (ok (event, d'), r)) = some ((ok event, d'), r)

unfoldable pub pull :
    Platform
    → ChunkedOptions
    → Decoder
    → ByteReader
    → Option ((Result Event × Decoder) × ByteReader)
unfolding drive settled
pull platform options d r = settled d (drive platform options d r)

-- `cancel` of the stream.
unfoldable pub cancel : Decoder → Decoder
cancel d = record d { state = done; trailers = settle_resolve none d.trailers }
