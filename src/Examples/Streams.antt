-- ===== src/Examples/Streams.antt =====
-- Readers over streams that arrive in pieces: src/util/bytes.js and src/http2/frames.js.
use tunnelfetch.Prelude.{arith, Option, some, [], ◌∷◌, ◌++◌}
use tunnelfetch.Bytes.{Bytes}
use tunnelfetch.Errors.{ok}
use tunnelfetch.Reader.{ByteReader, open_reader, read_until}
use tunnelfetch.Reader.Buffer.{pending, open_reader-Valid, pending-whole}
use tunnelfetch.Reader.Refines.{Ends}
use tunnelfetch.Reader.Delimited.{until_spec, read_until-Ends}
use tunnelfetch.Frames.{Frame, read_frame, serialize_frame}
use tunnelfetch.Frames.Reading.{frame_spec, read_frame-Ends, read_frame-serialize_frame}

abbrev crlf : Bytes
crlf = 13 ∷ 10 ∷ []

-- A line of which the end is cut in two.
abbrev pieces : ByteReader
pieces = open_reader ((72 ∷ 105 ∷ 13 ∷ []) ∷ [] ∷ (10 ∷ 33 ∷ []) ∷ [])

read_until-Ends_example :
    Ends Bytes (read_until crlf 16 pieces) (until_spec crlf 16 (pending pieces))
read_until-Ends_example =
    read_until-Ends crlf 16 pieces
      (open_reader-Valid ((72 ∷ 105 ∷ 13 ∷ []) ∷ [] ∷ (10 ∷ 33 ∷ []) ∷ [])) (omega arith)

read_frame-Ends_example :
    Ends (Option Frame) (read_frame 16384 pieces) (frame_spec 16384 (pending pieces))
read_frame-Ends_example =
    read_frame-Ends 16384 pieces
      (open_reader-Valid ((72 ∷ 105 ∷ 13 ∷ []) ∷ [] ∷ (10 ∷ 33 ∷ []) ∷ []))

-- A DATA frame that ends stream 3, and a byte of what follows.
abbrev framed : Bytes
framed = serialize_frame 0 1 3 (7 ∷ 8 ∷ []) ++ (9 ∷ [])

read_frame-serialize_frame_example :
    Ends
      (Option Frame)
      (read_frame 16384 (open_reader (framed ∷ [])))
      (ok (some (record { type = 0; flags = 1; stream_id = 3; payload = 7 ∷ 8 ∷ [] })), 9 ∷ [])
read_frame-serialize_frame_example =
    read_frame-serialize_frame 16384 0 1 3 (7 ∷ 8 ∷ []) (9 ∷ []) (open_reader (framed ∷ []))
      (open_reader-Valid (framed ∷ [])) (pending-whole framed) (omega arith) (omega arith)
      (omega arith) (omega arith) (omega arith)
