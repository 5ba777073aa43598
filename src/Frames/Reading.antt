-- ===== src/Frames/Reading.antt =====
-- readFrame.
use tunnelfetch.Prelude.{ℕ, suc, ◌^◌, ◌≤◌, ◌<◌, ◌≡◌, refl, ap, ◌∙◌, arith}
use tunnelfetch.Prelude.{Option, some, [], ◌∷◌, ◌++◌, ltb, ◌==◌, if◌then◌else◌, length}
use tunnelfetch.Prelude.{
  Bool-cases, inl, inr, le→ltb, length-append, take-append, drop-append, append_assoc, ne→==,
}
use tunnelfetch.Bytes.{Bytes, at, read_u32}
use tunnelfetch.Errors.{Result, ok, err, http2_error, http2_frame_size}
use tunnelfetch.Reader.{ByteReader}
use tunnelfetch.Reader.Buffer.{Valid, pending}
use tunnelfetch.Reader.Exact.{exactly_spec, read_exactly-Ends}
use tunnelfetch.Reader.Refines.{Ends, spec_then, Ends-then, Ends-pure}
use tunnelfetch.Frames.{
  Frame, header_length, header_stream, frame_of, with_payload, without_header, read_payload,
  after_header, read_frame, put_header, serialize_frame,
}
use mathlib.Core.Path.{subst}

abbrev payload_spec : Bytes → Bytes → Result (Option Frame) × Bytes
payload_spec h s =
    if header_length h == 0
    then (ok (some (frame_of h [])), s)
    else spec_then (exactly_spec (header_length h) s) (λ x s'. (with_payload h x, s'))

abbrev header_spec : ℕ → Result Bytes → Bytes → Result (Option Frame) × Bytes
header_spec max_frame_size (err e) s = (without_header e, s)
header_spec max_frame_size (ok h) s =
    if ltb max_frame_size (header_length h)
    then (err (http2_error http2_frame_size), s)
    else payload_spec h s

-- `readFrame` on the bytes to come: nine bytes of header, and so many bytes of payload as it says.
abbrev pub frame_spec : ℕ → Bytes → Result (Option Frame) × Bytes
frame_spec max_frame_size s = spec_then (exactly_spec 9 s) (header_spec max_frame_size)

read_payload-Ends :
    (h : Bytes) (r : ByteReader)
    → Valid r
    → Ends (Option Frame) (read_payload h r) (payload_spec h (pending r))
unfolding read_payload
read_payload-Ends h r v = elim (Bool-cases (header_length h == 0)) [
  | inl e ↦ rw e (Ends-pure (Option Frame) _ r v)
  | inr e ↦ rw e (
      Ends-then Bytes (Option Frame) _ _ _ (λ x s'. (with_payload h x, s'))
        (read_exactly-Ends (header_length h) r v)
        (λ x r' v'. Ends-pure (Option Frame) (with_payload h x) r' v'))
]

after_header-Ends :
    (max_frame_size : ℕ) (x : Result Bytes) (r : ByteReader)
    → Valid r
    → Ends
        (Option Frame)
        (after_header max_frame_size x r)
        (header_spec max_frame_size x (pending r))
unfolding after_header
after_header-Ends max_frame_size (err e) r v = Ends-pure (Option Frame) (without_header e) r v
after_header-Ends max_frame_size (ok h) r v =
    elim (Bool-cases (ltb max_frame_size (header_length h))) [
      | inl e ↦ rw e (Ends-pure (Option Frame) _ r v)
      | inr e ↦ rw e (read_payload-Ends h r v)
    ]

-- On every valid reader `read_frame` ends, and what it gives and leaves is decided by the bytes to
-- come and not by how they are chunked.
pub read_frame-Ends :
    (max_frame_size : ℕ) (r : ByteReader)
    → Valid r
    → Ends (Option Frame) (read_frame max_frame_size r) (frame_spec max_frame_size (pending r))
unfolding read_frame
read_frame-Ends max_frame_size r v =
    Ends-then Bytes (Option Frame) _ _ _ (header_spec max_frame_size) (read_exactly-Ends 9 r v)
      (after_header-Ends max_frame_size)

-- The header says what `put_header` was given.
header_put :
    (size type flags stream_id : ℕ)
    → size < 2 ^ 24
    → type < 256
    → flags < 256
    → stream_id < 2 ^ 31
    → (header_length (put_header size type flags stream_id) ≡ size)
      × (at (put_header size type flags stream_id) 3 ≡ type)
      × (at (put_header size type flags stream_id) 4 ≡ flags)
      × (header_stream (put_header size type flags stream_id) ≡ stream_id)
unfolding put_header read_u32
header_put size type flags stream_id a b c d = omega arith

exactly-append : (n : ℕ) (xs ys : Bytes) → length xs ≡ n → exactly_spec n (xs ++ ys) ≡ (ok xs, ys)
exactly-append n xs ys e = rw (← e) (
    rw
      (
        le→ltb (length (xs ++ ys)) (length xs) (omega (arith, length-append xs ys)),
        take-append xs ys,
        drop-append xs ys,
      )
      refl)

-- A header that is whole, with its payload behind it.
header_spec-payload :
    (max_frame_size : ℕ) (h payload rest : Bytes)
    → header_length h ≡ length payload
    → length payload ≤ max_frame_size
    → header_spec max_frame_size (ok h) (payload ++ rest) ≡ (ok (some (frame_of h payload)), rest)
header_spec-payload max_frame_size h [] rest e fits =
    rw (e, le→ltb max_frame_size 0 (omega arith)) refl
header_spec-payload max_frame_size h (x ∷ xs) rest e fits =
    rw (e, le→ltb max_frame_size (suc (length xs)) fits, ne→== (suc (length xs)) 0 (omega arith))
      (ap (λ (q : Result Bytes × Bytes). (with_payload h q.0, q.1))
        (exactly-append (suc (length xs)) (x ∷ xs) rest refl))

frame_spec-serialize :
    (max_frame_size type flags stream_id : ℕ) (payload rest : Bytes)
    → length payload ≤ max_frame_size
    → length payload < 2 ^ 24
    → type < 256
    → flags < 256
    → stream_id < 2 ^ 31
    → frame_spec max_frame_size (serialize_frame type flags stream_id payload ++ rest) ≡ (
      ok (some (record { type = type; flags = flags; stream_id = stream_id; payload = payload })),
      rest,
    )
unfolding serialize_frame
frame_spec-serialize max_frame_size type flags stream_id payload rest fits short t f s =
    ap (frame_spec max_frame_size) (append_assoc h payload rest)
    ∙ ap (λ q. spec_then q (header_spec max_frame_size)) (exactly-append 9 h (payload ++ rest) nine)
    ∙ header_spec-payload max_frame_size h payload rest (said.0) fits
    ∙ ap (λ x. (ok (some x), rest))
        (λ i. record { type = said.1 i; flags = said.2 i; stream_id = said.3 i; payload = payload })
  where
    h : Bytes
    h = put_header (length payload) type flags stream_id

    nine : length h ≡ 9
    nine = unfold put_header in refl

    said :
        (header_length h ≡ length payload)
        × (at h 3 ≡ type)
        × (at h 4 ≡ flags)
        × (header_stream h ≡ stream_id)
    said = header_put (length payload) type flags stream_id short t f s

-- A frame that `serialize_frame` wrote, of a length within the limit and with numbers that fit
-- their fields, is read back whole from any valid reader on which it comes first, however the
-- bytes are chunked; what follows it is left to be read.
pub read_frame-serialize_frame :
    (max_frame_size type flags stream_id : ℕ) (payload rest : Bytes) (r : ByteReader)
    → Valid r
    → pending r ≡ serialize_frame type flags stream_id payload ++ rest
    → length payload ≤ max_frame_size
    → length payload < 2 ^ 24
    → type < 256
    → flags < 256
    → stream_id < 2 ^ 31
    → Ends (Option Frame) (read_frame max_frame_size r) (
      ok (some (record { type = type; flags = flags; stream_id = stream_id; payload = payload })),
      rest,
    )
read_frame-serialize_frame max_frame_size type flags stream_id payload rest r v p fits short t f s =
    subst (Ends (Option Frame) (read_frame max_frame_size r))
      (ap (frame_spec max_frame_size) p
        ∙ frame_spec-serialize max_frame_size type flags stream_id payload rest fits short t f s)
      (read_frame-Ends max_frame_size r v)
