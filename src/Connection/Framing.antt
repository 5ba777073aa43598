-- ===== src/Connection/Framing.antt =====
-- src/http2/connection.js: how a header block is cut into frames.
use tunnelfetch.Prelude.{
  ℕ, zero, suc, ◌≤◌, arith, Bool, true, false, ◌≡◌, refl, bool_holds, if_cases, List, [], ◌∷◌, ◌++◌,
  leb, leb→le, leb→lt, Option, none, some, All, ◌+◌, length, take, drop, length-take, length-drop,
  take-append-drop,
}
use mathlib.Core.Path.{subst}
use tunnelfetch.Bytes.{Bytes}
use tunnelfetch.Frames.{
  Priority, headers_frame, continuation_frame, serialize_frame, put_header, headers_payload,
}
use tunnelfetch.Connection.State.{Written, headers, continuation, wire}
use tunnelfetch.Connection.Sending.{continuations, header_frames}

-- What is left of a header block, as CONTINUATION frames of one stream whose fragments are no longer
-- than allowed, of which the last and no other ends the headers.
pub data Continues (max id : ℕ) : Bytes → List Written → Type 0 where
  last : (b : Bytes) → length b ≤ max → Continues max id b (continuation id b true ∷ [])
  more :
      (b rest : Bytes) (ws : List Written)
      → length b ≤ max
      → Continues max id rest ws
      → Continues max id (b ++ rest) (continuation id b false ∷ ws)

-- A header block, as a HEADERS frame with what continues it. The priority is not counted in the length
-- of the fragment.
pub data HeaderRun (max id : ℕ) (end_stream : Bool) (priority : Option Priority)
    : Bytes → List Written → Type 0 where
  whole :
      (b : Bytes)
      → length b ≤ max
      → HeaderRun max id end_stream priority b (headers id b end_stream true priority ∷ [])
  split :
      (b rest : Bytes) (ws : List Written)
      → length b ≤ max
      → Continues max id rest ws
      → HeaderRun max id end_stream priority
          (b ++ rest)
          (headers id b end_stream false priority ∷ ws)

pub drop_le : (n : ℕ) (xs : Bytes) → length xs ≤ n → drop n xs ≡ []
drop_le zero [] h = refl
drop_le zero (x ∷ xs) h = absurd (omega arith)
drop_le (suc n) [] h = refl
drop_le (suc n) (x ∷ xs) h = drop_le n xs (omega arith)

take_le : (n : ℕ) (xs : Bytes) → length xs ≤ n → take n xs ≡ xs
take_le zero [] h = refl
take_le zero (x ∷ xs) h = absurd (omega arith)
take_le (suc n) [] h = refl
take_le (suc n) (x ∷ xs) h = rw (take_le n xs (omega arith))

continuations-nil : (fuel max id : ℕ) → continuations fuel max id [] ≡ []
unfolding continuations
continuations-nil zero max id = refl
continuations-nil (suc fuel) max id = refl

one_left :
    (fuel max id : ℕ) (rest : Bytes)
    → length rest ≤ max
    → Continues max id rest
        (continuation id (take max rest) true ∷ continuations fuel max id (drop max rest))
one_left fuel max id rest le =
    rw (take_le max rest le, drop_le max rest le, continuations-nil fuel max id) (last rest le)

continuations-Continues :
    (fuel max id : ℕ) (rest : Bytes)
    → 1 ≤ max
    → 1 ≤ length rest
    → length rest ≤ fuel
    → Continues max id rest (continuations fuel max id rest)
unfolding continuations
continuations-Continues zero max id rest m l f = absurd (omega arith)
continuations-Continues (suc fuel) max id [] m l f = absurd (omega arith)
continuations-Continues (suc fuel) max id (b ∷ bs) m l f =
    let rest = b ∷ bs in
    bool_holds
      (λ end.
        Continues max id rest
          (continuation id (take max rest) end ∷ continuations fuel max id (drop max rest)))
      (leb (length rest) max) (λ y. one_left fuel max id rest (leb→le (length rest) max y))
      (λ n.
        let over = leb→lt (length rest) max n in
        let taken = length-take max rest in
        let left = length-drop max rest in
        subst
          (λ c.
            Continues max id c
              (continuation id (take max rest) false ∷ continuations fuel max id (drop max rest)))
          (take-append-drop max rest)
          (more (take max rest) (drop max rest) _ (omega (arith, taken)) (
            continuations-Continues fuel max id (drop max rest) m (omega (arith, left, over))
              (omega (arith, left, f)))))

split_header :
    (max id : ℕ) (block : Bytes) (end_stream : Bool) (priority : Option Priority)
    → 1 ≤ max
    → HeaderRun max id end_stream priority block (header_frames max id block end_stream priority)
unfolding header_frames
split_header max id block end_stream priority m =
    if_cases (HeaderRun max id end_stream priority block) (leb (length block) max)
      (λ e. whole block (leb→le (length block) max e))
      (λ e.
        let rest = drop max block in
        let long = leb→lt (length block) max e in
        let taken = length-take max block in
        let left = length-drop max block in
        subst
          (λ b. HeaderRun max id end_stream priority b (
            headers id (take max block) end_stream false priority
            ∷ continuations (length block) max id rest))
          (take-append-drop max block)
          (split (take max block) rest _ (omega (arith, taken)) (
            continuations-Continues (length block) max id rest m (omega (arith, left, long))
              (omega (arith, left)))))

-- The bytes that a priority adds to a HEADERS frame.
abbrev pub priority_length : Option Priority → ℕ
priority_length none = 0
priority_length (some p) = 5

-- The bytes of a frame on the wire, its header of nine included.
abbrev pub Fits : ℕ → Written → Type 0
Fits n w = length (wire w) ≤ 9 + n

length-headers :
    (id : ℕ) (b : Bytes) (end_stream end_headers : Bool) (priority : Option Priority)
    → length (wire (headers id b end_stream end_headers priority))
      ≡ 9 + (priority_length priority + length b)
unfolding wire headers_frame serialize_frame put_header headers_payload
length-headers id b end_stream end_headers none = omega arith
length-headers id b end_stream end_headers (some p) = omega arith

length-continuation :
    (id : ℕ) (b : Bytes) (end_headers : Bool)
    → length (wire (continuation id b end_headers)) ≡ 9 + length b
unfolding wire continuation_frame serialize_frame put_header
length-continuation id b end_headers = omega arith

Continues-Fits :
    {max id : ℕ} {block : Bytes} {ws : List Written} (n : ℕ)
    → Continues max id block ws
    → All (Fits (n + max)) ws
Continues-Fits {id = id} n (last b le) = (omega (arith, le, length-continuation id b true), tt)
Continues-Fits {id = id} n (more b rest ws le run) =
    (omega (arith, le, length-continuation id b false), Continues-Fits n run)

HeaderRun-Fits :
    {max id : ℕ} {end_stream : Bool} {priority : Option Priority} {block : Bytes}
    {ws : List Written}
    → HeaderRun max id end_stream priority block ws
    → All (Fits (priority_length priority + max)) ws
HeaderRun-Fits {id = id} {end_stream = es} {priority = p} (whole b le) =
    (omega (arith, le, length-headers id b es true p), tt)
HeaderRun-Fits {id = id} {end_stream = es} {priority = p} (split b rest ws le run) =
    (omega (arith, le, length-headers id b es false p), Continues-Fits (priority_length p) run)

-- For a frame size of a byte at least, `_sendHeaderBlock` writes a header block of any length as a
-- HEADERS frame with the CONTINUATION frames it needs: no fragment is longer than the frame size,
-- together they are the block, the last frame and no other ends the headers, and the end of the stream
-- and the priority are on the first. On the wire no frame has a payload of more than the frame size,
-- or, if a priority is given, of more than the frame size and five bytes.
pub header_frames-HeaderRun :
    (max id : ℕ) (block : Bytes) (end_stream : Bool) (priority : Option Priority)
    → 1 ≤ max
    → let ws = header_frames max id block end_stream priority in
      HeaderRun max id end_stream priority block ws × All (Fits (priority_length priority + max)) ws
header_frames-HeaderRun max id block end_stream priority m =
    let run = split_header max id block end_stream priority m in (run, HeaderRun-Fits run)
