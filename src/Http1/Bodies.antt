-- ===== src/Http1/Bodies.antt =====
-- src/http1/response.js, readResponseBody: the streams of bodies. `completed` is the promise of that
-- name; the stream of a chunked body is Http1.Chunked's.
use tunnelfetch.Prelude.{
  ℕ, ◌+◌, ◌-◌, ◌^◌, min, Bool, true, false, Option, none, some, leb, ◌==◌, if◌then◌else◌, length,
}
use tunnelfetch.Bytes.{Bytes}
use tunnelfetch.Errors.{
  Result, ok, err, Failure, http_error, limit_error, config_error, http_body_truncated, limit_body,
  config_invalid,
}
use tunnelfetch.Reader.{ByteReader, read_some}
use tunnelfetch.Reader.Drain.{exceeds}
use tunnelfetch.Connection.State.{Deferred, pending, resolved, settle_resolve, settle_reject}

-- What a pull does to the stream: `enqueue`, `close`, both, or `error`.
pub data BodyEvent : Type 0 where
  enqueued last_enqueued : Bytes → BodyEvent
  closed : BodyEvent
  errored : Failure → BodyEvent

-- `remaining` and `done` of a body of declared length.
pub record CountedBody : Type 0 where
  pub remaining : ℕ
  pub completed : Deferred Bool

-- The body of a declared length is refused before a byte is read, or is there; one of length 0 is
-- complete at once.
unfoldable pub open_counted : ℕ → Option ℕ → Result CountedBody
open_counted size max_bytes =
    if leb (2 ^ 53) size
    then err (config_error config_invalid)
    else if exceeds size max_bytes
    then err (limit_error limit_body)
    else ok record { remaining = size; completed = if size == 0 then resolved true else pending }

abbrev counted_failed : Failure → CountedBody → BodyEvent × CountedBody
counted_failed e b = (errored e, record b { completed = settle_reject e b.completed })

-- What a pull does with what the reader gave.
unfoldable pub counted_taken : Result (Option Bytes) → CountedBody → BodyEvent × CountedBody
counted_taken (err e) b = counted_failed e b
counted_taken (ok none) b = counted_failed (http_error http_body_truncated) b
counted_taken (ok (some chunk)) b =
    let left = b.remaining - length chunk in
    (
      if left == 0 then last_enqueued chunk else enqueued chunk,
      record b {
        remaining = left;
        completed = if left == 0 then settle_resolve true b.completed else b.completed;
      },
    )

unfoldable pub counted_read :
    CountedBody
    → Option (Result (Option Bytes) × ByteReader)
    → Option ((BodyEvent × CountedBody) × ByteReader)
unfolding counted_taken
counted_read b none = none
counted_read b (some (taken, r)) = some (counted_taken taken b, r)

unfoldable pub pull_counted :
    CountedBody → ByteReader → Option ((BodyEvent × CountedBody) × ByteReader)
unfolding counted_read
pull_counted b r =
    if b.remaining == 0
    then some ((closed, record b { completed = settle_resolve true b.completed }), r)
    else counted_read b (read_some (min b.remaining 65536) r)

unfoldable pub cancel_counted : CountedBody → CountedBody
cancel_counted b = record b { completed = settle_resolve false b.completed }

-- `total` and `done` of a body that the end of the stream ends.
pub record OpenBody : Type 0 where
  pub total : ℕ
  pub completed : Deferred Bool

abbrev open_failed : Failure → OpenBody → BodyEvent × OpenBody
open_failed e b = (errored e, record b { completed = settle_reject e b.completed })

unfoldable pub open_taken : Option ℕ → Result (Option Bytes) → OpenBody → BodyEvent × OpenBody
open_taken max_bytes (err e) b = open_failed e b
open_taken max_bytes (ok none) b =
    (closed, record b { completed = settle_resolve true b.completed })
open_taken max_bytes (ok (some chunk)) b =
    let total = b.total + length chunk in
    if exceeds total max_bytes
    then open_failed (limit_error limit_body) (record b { total = total })
    else (enqueued chunk, record b { total = total })

unfoldable pub pull_open :
    Option ℕ → OpenBody → ByteReader → Option ((BodyEvent × OpenBody) × ByteReader)
unfolding open_taken
pull_open max_bytes b r = elim (read_some 65536 r) [
  | none ↦ none
  | some (taken, r') ↦ some (open_taken max_bytes taken b, r')
]

unfoldable pub cancel_open : OpenBody → OpenBody
cancel_open b = record b { completed = settle_resolve false b.completed }
