-- ===== src/Frames/Payloads.antt =====
-- The payloads that the serialisers write, and the parsers.
use tunnelfetch.Prelude.{
  ℕ, zero, suc, ◌+◌, ◌-◌, ◌*◌, ◌/◌, ◌%◌, ◌^◌, ◌<◌, ◌≡◌, refl, ap, ◌∙◌, Bool, true, arith,
}
use tunnelfetch.Prelude.{Option, List, [], ◌∷◌, ◌++◌, leb, ◌==◌, length, All}
use tunnelfetch.Prelude.{Bool-cases, leb→le, inl, inr, le→ltb, length-append, take-append, ==_iff}
use tunnelfetch.Bytes.{Bytes, at, read_u16, read_u32}
use tunnelfetch.Bytes.Concat.{at-append}
use tunnelfetch.Errors.{ok}
use tunnelfetch.Frames.{
  Priority, low_31, settings_payload, settings_loop, parse_settings, window_update_payload,
  parse_window_update,
}
use tunnelfetch.Frames.{
  rst_stream_payload, parse_rst_stream, goaway_payload, parse_goaway, headers_flags,
  headers_payload, headers_block_fragment,
}
use tunnelfetch.Frames.{strip_padding}

-- An identifier of 16 bits and a value of 32.
abbrev pub FitsSetting : ℕ × ℕ → Type 0
FitsSetting (id, value) = (id < 2 ^ 16) × (value < 2 ^ 32)

length-settings : (entries : List (ℕ × ℕ)) → length (settings_payload entries) ≡ length entries * 6
unfolding settings_payload
length-settings [] = omega arith
length-settings ((id, value) ∷ entries) = omega (arith, length-settings entries)

settings_entry :
    (id value : ℕ) (rest : Bytes)
    → id < 2 ^ 16
    → value < 2 ^ 32
    → (read_u16 (settings_payload ((id, value) ∷ []) ++ rest) 0 ≡ id)
      × (read_u32 (settings_payload ((id, value) ∷ []) ++ rest) 2 ≡ value)
unfolding settings_payload read_u16 read_u32
settings_entry id value rest a b = omega arith

-- Behind a front the readers see what stands there.
read_u16-append :
    (pre xs : Bytes) (o k : ℕ) → o ≡ length pre + k → read_u16 (pre ++ xs) o ≡ read_u16 xs k
unfolding read_u16
read_u16-append pre xs o k e = omega (
  arith,
  ap (at (pre ++ xs)) e,
  at-append pre xs k,
  ap (at (pre ++ xs)) next,
  at-append pre xs (k + 1),
)
  where
    next : o + 1 ≡ length pre + (k + 1)
    next = omega arith

read_u32-append :
    (pre xs : Bytes) (o k : ℕ) → o ≡ length pre + k → read_u32 (pre ++ xs) o ≡ read_u32 xs k
unfolding read_u32
read_u32-append pre xs o k e = omega (
  arith,
  ap (at (pre ++ xs)) e,
  at-append pre xs k,
  ap (at (pre ++ xs)) (next 1),
  at-append pre xs (k + 1),
  ap (at (pre ++ xs)) (next 2),
  at-append pre xs (k + 2),
  ap (at (pre ++ xs)) (next 3),
  at-append pre xs (k + 3),
)
  where
    next : (n : ℕ) → o + n ≡ length pre + (k + n)
    next n = omega arith

settings_loop-shift :
    (n o k : ℕ) (pre xs : Bytes)
    → o ≡ length pre + k
    → settings_loop n o (pre ++ xs) ≡ settings_loop n k xs
unfolding settings_loop
settings_loop-shift zero o k pre xs e = refl
settings_loop-shift (suc n) o k pre xs e = λ i.
    (read_u16-append pre xs o k e i, read_u32-append pre xs (o + 2) (k + 2) (omega arith) i)
    ∷ settings_loop-shift n (o + 6) (k + 6) pre xs (omega arith) i

settings_loop-payload :
    (entries : List (ℕ × ℕ))
    → All FitsSetting entries
    → settings_loop (length entries) 0 (settings_payload entries) ≡ entries
unfolding settings_loop
settings_loop-payload [] fits = refl
settings_loop-payload ((id, value) ∷ entries) fits = λ i.
    ((read id value entries fits.0).0 i, (read id value entries fits.0).1 i)
    ∷ rest (settings_loop-payload entries fits.1) i
  where
    six : Bytes
    six = settings_payload ((id, value) ∷ [])

    read :
        (a b : ℕ) (es : List (ℕ × ℕ))
        → FitsSetting (a, b)
        → (read_u16 (settings_payload ((a, b) ∷ es)) 0 ≡ a)
          × (read_u32 (settings_payload ((a, b) ∷ es)) 2 ≡ b)
    read a b es f = unfold settings_payload read_u16 read_u32 in omega arith

    rest :
        settings_loop (length entries) 0 (settings_payload entries) ≡ entries
        → settings_loop (length entries) 6 (settings_payload ((id, value) ∷ entries)) ≡ entries
    rest ih =
        unfold settings_payload in
        settings_loop-shift (length entries) 6 0 six (settings_payload entries) (omega arith) ∙ ih

-- The entries of a SETTINGS frame, in order, are read back from its payload, for identifiers and
-- values that fit their fields.
pub parse_settings-settings_payload :
    (entries : List (ℕ × ℕ))
    → All FitsSetting entries
    → parse_settings (settings_payload entries) ≡ ok entries
unfolding parse_settings
parse_settings-settings_payload entries fits =
    rw (length-settings entries, whole, count_) (ap ok (settings_loop-payload entries fits))
  where
    whole : (length entries * 6 % 6 == 0) ≡ true
    whole = (==_iff _ _).1 (omega arith)

    count_ : length entries * 6 / 6 ≡ length entries
    count_ = omega arith

goaway_fields :
    (stream_id code : ℕ) (debug : Bytes)
    → stream_id < 2 ^ 31
    → code < 2 ^ 32
    → (low_31 (read_u32 (goaway_payload stream_id code debug) 0) ≡ stream_id)
      × (read_u32 (goaway_payload stream_id code debug) 4 ≡ code)
unfolding goaway_payload read_u32
goaway_fields stream_id code debug s c = omega arith

-- GOAWAY, RST_STREAM and WINDOW_UPDATE payloads are read back, for numbers that fit their fields.
pub control_payloads :
    (stream_id code increment : ℕ) (debug : Bytes)
    → stream_id < 2 ^ 31
    → code < 2 ^ 32
    → increment < 2 ^ 31
    → (parse_goaway (goaway_payload stream_id code debug)
        ≡ ok (record { last_stream_id = stream_id; error_code = code; debug = debug }))
      × (parse_rst_stream (rst_stream_payload code) ≡ ok code)
      × (parse_window_update (window_update_payload increment) ≡ ok increment)
unfolding parse_goaway goaway_payload parse_rst_stream rst_stream_payload parse_window_update
control_payloads stream_id code increment debug s c i = (
  rw (le→ltb (suc (suc (suc (suc (suc (suc (suc (suc (length debug))))))))) 8 (omega arith)) (λ j.
      ok (record {
        last_stream_id = (goaway_fields stream_id code debug s c).0 j;
        error_code = (goaway_fields stream_id code debug s c).1 j;
        debug = debug;
      })),
  ap ok (unfold read_u32 in omega arith),
  unfold window_update_payload read_u32 in ap ok (omega arith),
)

-- `strip_padding` gives the data before the padding, whatever the padding holds.
pub strip_padding-padded :
    (data_ padding : Bytes)
    → strip_padding (length padding ∷ (data_ ++ padding)) ≡ ok (data_, length padding)
unfolding strip_padding
strip_padding-padded data_ padding =
    elim (Bool-cases (leb (suc (length (data_ ++ padding))) (length padding))) [
      | inl long ↦ absurd (omega (arith, leb→le _ _ long, length-append data_ padding))
      | inr fits ↦ rw (fits, left) (ap (λ d. ok (d, length padding)) (take-append data_ padding))
    ]
  where
    left : suc (length (data_ ++ padding)) - length padding - 1 ≡ length data_
    left = omega (arith, length-append data_ padding)

-- The header block of a HEADERS frame, with priority fields or with none, is read back from its
-- payload and its flags.
pub headers_block_fragment-headers_payload :
    (end_stream end_headers : Bool) (priority : Option Priority) (block : Bytes)
    → headers_block_fragment
        (headers_payload priority block)
        (headers_flags end_stream end_headers priority)
      ≡ ok block
unfolding headers_block_fragment headers_flags headers_payload
headers_block_fragment-headers_payload end_stream end_headers priority block = ground arith
