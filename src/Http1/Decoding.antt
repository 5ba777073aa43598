-- ===== src/Http1/Decoding.antt =====
-- src/http1/chunked.js: the decoder on a body that is framed as RFC 9112 wants it, however the stream
-- is cut.
use tunnelfetch.Prelude.{
  ℕ, ◌+◌, ◌-◌, ◌≤◌, ◌<◌, ◌≡◌, ◌⊎◌, inl, inr, refl, sym, ap, ◌∙◌, min, Bool, true, false, Option,
  none, some, List, [], ◌∷◌, ◌++◌, append_assoc, ◌==◌, if_false, le→ltb, ne→==, length, All, arith,
  length-append,
}
use tunnelfetch.Prelude.Texts.{Text, includes}
use mathlib.Core.Path.{subst}
use tunnelfetch.Bytes.{Bytes}
use tunnelfetch.Errors.{Result, ok}
use tunnelfetch.Reader.{ByteReader, and_then, read_some}
use tunnelfetch.Reader.Drain.{exceeds}
use tunnelfetch.Reader.Buffer.{Valid, pending}
use tunnelfetch.Reader.Refines.{Ends}
use tunnelfetch.Reader.Exact.{exactly_spec, read_exactly-Ends}
use tunnelfetch.Reader.Somes.{IsPiece, read_some-Gives}
use tunnelfetch.Reader.Delimited.{until_spec, read_until-Ends}
use tunnelfetch.Connection.State.{resolved, settle_resolve, FieldList, pending as unsettled}
use tunnelfetch.Connection.Fields.{Platform}
use tunnelfetch.Http1.Fields.{chop_line}
use tunnelfetch.Http1.Chunked.{
  State, size, in_data, data_crlf, done, Decoder, after_data, ChunkedOptions, Event, enqueued,
  closed, chunk_size, read_chunk_line, line_feed, chunk_line_max, trailers_loop, read_trailers,
  checked_size, drive_data, drive_trailers, drive_size, after_size, after_trailers, drive_crlf,
  drive_from, drive,
}
use tunnelfetch.Http1.Lines.{crlf, chop_line-crlf, until_line}

-- A chunk as it is sent: its size line, which may have an extension, and its data.
pub record Chunk : Type 0 where
  pub line : Text
  pub body : Bytes

-- The line gives the size of the data, and is within the limits of the decoder.
pub record IsChunk (options : ChunkedOptions) (c : Chunk) : Type 0 where
  pub sized : chunk_size c.line ≡ ok (length c.body)
  pub some_data : 0 < length c.body
  pub allowed : length c.body ≤ options.max_chunk_size
  pub one_line : includes 10 c.line ≡ false
  pub short_line : length c.line + 2 ≤ chunk_line_max

unfoldable pub payload : List Chunk → Bytes
payload [] = []
payload (c ∷ cs) = c.body ++ payload cs

-- The chunks on the wire, and what follows them.
unfoldable pub wire : List Chunk → Bytes → Bytes
wire [] tail = tail
wire (c ∷ cs) tail = c.line ++ (crlf ++ (c.body ++ (crlf ++ wire cs tail)))

-- The chunk of size 0, no trailers, the end of the body, and the bytes of the next message.
abbrev pub ending : Text → Bytes → Bytes
ending last rest = last ++ (crlf ++ (crlf ++ rest))

pub record IsLast (last : Text) : Type 0 where
  pub sized : chunk_size last ≡ ok 0
  pub one_line : includes 10 last ≡ false
  pub short_line : length last + 2 ≤ chunk_line_max

-- A cut of the same bytes at two places.
record Cut (c left x tail : Bytes) : Type 0 where
  more : Bytes
  whole : x ≡ c ++ more
  behind : left ≡ more ++ tail

Cut-front :
    (c left x tail : Bytes) → c ++ left ≡ x ++ tail → length c ≤ length x → Cut c left x tail
Cut-front [] left x tail e h = record { more = x; whole = refl; behind = e }
Cut-front (a ∷ c) left [] tail e h = absurd (omega arith)
Cut-front (a ∷ c) left (b ∷ x) tail e h =
    let same : a ≡ b = cc in
    let rest = Cut-front c left x tail (cc) (omega arith) in
    record {
      more = rest.more;
      whole = rw (same) (ap (λ ys. b ∷ ys) rest.whole);
      behind = rest.behind;
    }

exceeds_less :
    (a b : ℕ) (limit : Option ℕ) → a ≤ b → exceeds b limit ≡ false → exceeds a limit ≡ false
unfolding exceeds
exceeds_less a b none h e = refl
exceeds_less a b (some m) h e = ground arith

module _ (platform : Platform) (options : ChunkedOptions) (last : Text) (rest : Bytes) where
  -- What a decoder in this state is still to read, and what it is still to deliver.
  abbrev Awaits : State → Decoder → List Chunk → Bytes → Bytes → Type 0
  Awaits size d cs out s = (out ≡ payload cs) × (s ≡ wire cs (ending last rest))
  Awaits in_data d cs out s =
      (x : Bytes) × (d.remaining ≡ length x)
      × (0 < length x)
      × (out ≡ x ++ payload cs)
      × (s ≡ x ++ (crlf ++ wire cs (ending last rest)))
  Awaits data_crlf d cs out s = (out ≡ payload cs) × (s ≡ crlf ++ wire cs (ending last rest))
  Awaits done d cs out s = ◌≡◌ {A = Bool} true false

  pub record Ahead (d : Decoder) (out : Bytes) (r : ByteReader) : Type 0 where
    pub chunks : List Chunk
    pub framed : All (IsChunk options) chunks
    pub awaits : Awaits d.state d chunks out (pending r)
    pub within : exceeds (d.total + length out) options.max_bytes ≡ false
    pub undecided : d.trailers ≡ unsettled
    pub valid : Valid r

  -- A piece of what is to be delivered.
  pub record Delivers (out : Bytes) (o : Option (Result (Event × Decoder) × ByteReader))
      : Type 0 where
    pub piece : Bytes
    pub later : Bytes
    pub decoder : Decoder
    pub reader : ByteReader
    pub result : o ≡ some (ok (enqueued piece, decoder), reader)
    pub split : out ≡ piece ++ later
    pub positive : 0 < length piece
    pub ahead : Ahead decoder later reader

  -- The end, with the reader at the first byte behind the body.
  pub record Finishes (out : Bytes) (o : Option (Result (Event × Decoder) × ByteReader))
      : Type 0 where
    pub decoder : Decoder
    pub reader : ByteReader
    pub result : o ≡ some (ok (closed, decoder), reader)
    pub all : out ≡ []
    pub behind : pending reader ≡ rest
    pub trailers : decoder.trailers ≡ resolved (some [])
    pub valid : Valid reader

  after_data-Ahead :
      (d : Decoder) (r : ByteReader) (c more : Bytes) (cs : List Chunk)
      → d.remaining ≡ length c + length more
      → pending r ≡ more ++ (crlf ++ wire cs (ending last rest))
      → All (IsChunk options) cs
      → exceeds (d.total + length c + length (more ++ payload cs)) options.max_bytes ≡ false
      → d.trailers ≡ unsettled
      → Valid r
      → Ahead (after_data d c) (more ++ payload cs) r
  after_data-Ahead d r c [] cs left s framed within undecided valid =
      let over : d.remaining - length c ≡ 0 = omega arith in
      record {
        chunks = cs;
        framed = framed;
        awaits = rw over (refl, s);
        within = within;
        undecided = undecided;
        valid = valid;
      }
  after_data-Ahead d r c (m ∷ more) cs left s framed within undecided valid =
      let some_left : (d.remaining - length c == 0) ≡ false = ne→== _ _ (λ e. omega (arith, e)) in
      record {
        chunks = cs;
        framed = framed;
        awaits = rw some_left (m ∷ more, omega arith, omega arith, refl, s);
        within = within;
        undecided = undecided;
        valid = valid;
      }

  drive_data-Delivers :
      (d : Decoder) (r : ByteReader) (x out : Bytes) (cs : List Chunk)
      → d.remaining ≡ length x
      → 0 < length x
      → out ≡ x ++ payload cs
      → pending r ≡ x ++ (crlf ++ wire cs (ending last rest))
      → All (IsChunk options) cs
      → exceeds (d.total + length out) options.max_bytes ≡ false
      → d.trailers ≡ unsettled
      → Valid r
      → Delivers out (drive_data platform options d r)
  unfolding drive_data
  drive_data-Delivers d r x out cs left some_left whole s framed within open_ v =
      let g = read_some-Gives (min d.remaining 65536) r v (omega arith) in
      given g.taken g.reader g.result g.piece g.valid
    where
      given :
          (taken : Option Bytes) (r' : ByteReader)
          → read_some (min d.remaining 65536) r ≡ some (ok taken, r')
          → IsPiece (min d.remaining 65536) (pending r) (pending r') taken
          → Valid r'
          → Delivers out (drive_data platform options d r)
      given none r' e (empty, over) valid = absurd (
          ground (
            arith,
            ap length (sym empty ∙ s),
            length-append x (crlf ++ wire cs (ending last rest)),
          ))
      given (some c) r' e (positive, small, joined) valid =
          let cut =
            Cut-front c (pending r') x (crlf ++ wire cs (ending last rest)) (joined ∙ s)
              (omega (arith, left, small)) in
          let parts : out ≡ c ++ (cut.more ++ payload cs) =
            whole ∙ ap (λ y. y ++ payload cs) cut.whole ∙ append_assoc c cut.more (payload cs) in
          record {
            piece = c;
            later = cut.more ++ payload cs;
            decoder = after_data d c;
            reader = r';
            result = rw e refl;
            split = parts;
            positive = positive;
            ahead =
                after_data-Ahead d r' c cut.more cs
                  (omega (arith, left, ap length cut.whole, length-append c cut.more)) cut.behind
                  framed
                  (subst (λ n. exceeds n options.max_bytes ≡ false)
                    (omega (arith, ap length parts, length-append c (cut.more ++ payload cs)))
                    within)
                  open_ valid;
          }

  -- A line that ends with CRLF, as the decoder reads it.
  read_line :
      (r : ByteReader) (line more : Bytes)
      → Valid r
      → pending r ≡ line ++ (crlf ++ more)
      → includes 10 line ≡ false
      → length line + 2 ≤ chunk_line_max
      → Ends Text (read_chunk_line r) (ok line, more)
  unfolding read_chunk_line
  read_line r line more v s clean short =
      let e = read_until-Ends line_feed chunk_line_max r v (omega arith) in
      let found : until_spec line_feed chunk_line_max (pending r) ≡ (ok (line ++ crlf), more) =
        ap (until_spec line_feed chunk_line_max) s
        ∙ until_line chunk_line_max line more clean short in
      record {
        reader = e.reader;
        result = rw (e.result, found, chop_line-crlf) refl;
        left = e.left ∙ ap (λ p. p.1) found;
        valid = e.valid;
      }

  -- The empty trailer section.
  read_trailers_none :
      (limit : ℕ) (r : ByteReader)
      → Valid r
      → pending r ≡ crlf ++ rest
      → 2 ≤ limit
      → Ends FieldList (read_trailers platform limit r) (ok [], rest)
  unfolding read_trailers trailers_loop includes chop_line
  read_trailers_none limit r v s enough =
      let e = read_until-Ends line_feed limit r v (omega arith) in
      let found : until_spec line_feed limit (pending r) ≡ (ok crlf, rest) =
        ap (until_spec line_feed limit) s ∙ until_line limit [] rest refl (omega arith) in
      record {
        reader = e.reader;
        result = rw (e.result, found) refl;
        left = e.left ∙ ap (λ p. p.1) found;
        valid = e.valid;
      }

  checked_size_chunk :
      (d : Decoder) (line : Text) (n : ℕ)
      → chunk_size line ≡ ok n
      → 0 < n
      → n ≤ options.max_chunk_size
      → exceeds (d.total + n) options.max_bytes ≡ false
      → checked_size platform options d (ok line) ≡ ok n
  unfolding checked_size
  checked_size_chunk d line n sized positive allowed within =
      rw (sized, le→ltb options.max_chunk_size n allowed, ne→== n 0 (λ e. omega (arith, e)), within)
        refl

  checked_last : (d : Decoder) → IsLast last → checked_size platform options d (ok last) ≡ ok 0
  unfolding checked_size
  checked_last d l = rw (l.sized, le→ltb options.max_chunk_size 0 (omega arith)) refl

  -- The state `size`: with a chunk to come, and with none.
  drive_size-Delivers :
      (d : Decoder) (r : ByteReader) (c : Chunk) (cs : List Chunk)
      → IsChunk options c
      → All (IsChunk options) cs
      → pending r ≡ wire (c ∷ cs) (ending last rest)
      → exceeds (d.total + length (payload (c ∷ cs))) options.max_bytes ≡ false
      → d.trailers ≡ unsettled
      → Valid r
      → Delivers (payload (c ∷ cs)) (drive_size platform options d r)
  unfolding drive_size after_size wire payload
  drive_size-Delivers d r c cs k framed s within undecided v =
      let e =
        read_line r c.line (c.body ++ (crlf ++ wire cs (ending last rest))) v s k.one_line
          k.short_line in
      let fits =
        exceeds_less (d.total + length c.body) (d.total + length (payload (c ∷ cs)))
          options.max_bytes (omega (arith, length-append c.body (payload cs))) within in
      let driven : drive_size platform options d r
          ≡ drive_data platform options (record d { remaining = length c.body; state = in_data })
              e.reader =
        ap
          (λ o.
            and_then o
              (λ line. after_size platform options d (checked_size platform options d line)))
          e.result
        ∙ ap (λ n. after_size platform options d n e.reader)
            (checked_size_chunk d c.line (length c.body) k.sized k.some_data k.allowed fits)
        ∙ if_false _ _ (ne→== (length c.body) 0 (λ z. omega (arith, z, k.some_data))) in
      subst (Delivers (payload (c ∷ cs))) (sym driven) (
        drive_data-Delivers (record d { remaining = length c.body; state = in_data }) e.reader
          c.body (payload (c ∷ cs)) cs refl k.some_data refl e.left framed within undecided e.valid)

  drive_size-Finishes :
      (d : Decoder) (r : ByteReader)
      → IsLast last
      → 2 ≤ options.max_trailer_bytes
      → pending r ≡ ending last rest
      → d.trailers ≡ unsettled
      → Valid r
      → Finishes [] (drive_size platform options d r)
  unfolding drive_size after_size drive_trailers after_trailers
  drive_size-Finishes d r l enough s undecided v =
      let e = read_line r last (crlf ++ rest) v s l.one_line l.short_line in
      let t = read_trailers_none options.max_trailer_bytes e.reader e.valid e.left enough in
      let ended : Decoder = record d {
        state = done;
        trailers = settle_resolve (some []) d.trailers;
      } in
      record {
        decoder = ended;
        reader = t.reader;
        result =
            ap
              (λ o.
                and_then o
                  (λ line. after_size platform options d (checked_size platform options d line)))
              e.result
            ∙ ap (λ n. after_size platform options d n e.reader) (checked_last d l)
            ∙ ap (λ o. and_then o (after_trailers platform options d)) t.result;
        all = refl;
        behind = t.left;
        trailers = rw undecided refl;
        valid = t.valid;
      }

  -- The state `data-crlf`.
  drive_crlf_drives :
      (d : Decoder) (r : ByteReader) (more : Bytes)
      → Valid r
      → pending r ≡ crlf ++ more
      → (r' : ByteReader) × (drive_crlf platform options d r
          ≡ drive_size platform options (record d { state = size }) r')
        × (pending r' ≡ more)
        × Valid r'
  unfolding drive_crlf
  drive_crlf_drives d r more v s =
      let e = read_exactly-Ends 2 r v in
      let found : exactly_spec 2 (pending r) ≡ (ok crlf, more) =
        ap (exactly_spec 2) s ∙ ground arith in
      (e.reader, rw (e.result, found) refl, e.left ∙ ap (λ p. p.1) found, e.valid)

  size_steps :
      (d : Decoder) (r : ByteReader) (cs : List Chunk)
      → IsLast last
      → 2 ≤ options.max_trailer_bytes
      → All (IsChunk options) cs
      → pending r ≡ wire cs (ending last rest)
      → exceeds (d.total + length (payload cs)) options.max_bytes ≡ false
      → d.trailers ≡ unsettled
      → Valid r
      → Delivers (payload cs) (drive_size platform options d r)
        ⊎ Finishes (payload cs) (drive_size platform options d r)
  unfolding wire payload
  size_steps d r [] l enough framed s within undecided v =
      inr (drive_size-Finishes d r l enough s undecided v)
  size_steps d r (c ∷ cs) l enough framed s within undecided v =
      inl (drive_size-Delivers d r c cs (framed.0) (framed.1) s within undecided v)

  -- In every state a pull delivers a piece of what is to come, or ends the body.
  pub drive_steps :
      (d : Decoder) (out : Bytes) (r : ByteReader)
      → IsLast last
      → 2 ≤ options.max_trailer_bytes
      → Ahead d out r
      → Delivers out (drive platform options d r) ⊎ Finishes out (drive platform options d r)
  unfolding drive drive_from
  drive_steps d out r l enough h = by_state d.state h.awaits
    where
      Steps : Option (Result (Event × Decoder) × ByteReader) → Type 0
      Steps o = Delivers out o ⊎ Finishes out o

      fits :
          out ≡ payload h.chunks
          → exceeds (d.total + length (payload h.chunks)) options.max_bytes ≡ false
      fits same = subst (λ y. exceeds (d.total + length y) options.max_bytes ≡ false) same h.within

      by_state :
          (state : State)
          → Awaits state d h.chunks out (pending r)
          → Steps (drive_from platform options state d r)
      by_state size (same, s) =
          subst
            (λ y.
              Delivers y (drive_size platform options d r)
              ⊎ Finishes y (drive_size platform options d r))
            (sym same) (size_steps d r h.chunks l enough h.framed s (fits same) h.undecided h.valid)
      by_state in_data (x, left, some_left, whole, s) = inl (
          drive_data-Delivers d r x out h.chunks left some_left whole s h.framed h.within
            h.undecided h.valid)
      by_state data_crlf (same, s) =
          let (r', driven, s', valid) =
            drive_crlf_drives d r (wire h.chunks (ending last rest)) h.valid s in
          subst Steps (sym driven) (
            subst
              (λ y.
                Delivers y (drive_size platform options (record d { state = size }) r')
                ⊎ Finishes y (drive_size platform options (record d { state = size }) r'))
              (sym same)
              (size_steps (record d { state = size }) r' h.chunks l enough h.framed s' (fits same)
                h.undecided valid))
      by_state done w = absurd (cc w)
