-- ===== src/Connection/Credit/Frames.antt =====
-- src/http2/connection.js: every frame keeps the account of a stream.
use tunnelfetch.Prelude.{
  ℕ, ◌+◌, ◌%◌, Bool, false, not, ◌&&◌, ◌||◌, ◌≡◌, sym, ◌∙◌, inl, inr, Bool-cases, if_holds,
  if_cases, if_true, if_false, option_holds, Option, none, some, leb, ◌==◌, length, arith,
}
use mathlib.Core.Path.{subst}
use tunnelfetch.Bytes.{Bytes}
use tunnelfetch.Errors.{result_holds}
use tunnelfetch.Frames.{Frame, has_flag, headers_block_fragment}
use tunnelfetch.Frames.Flag
use tunnelfetch.Frames.FrameType
use tunnelfetch.Connection.State.{Http2Connection, Assembly, is_some}
use tunnelfetch.Connection.Fields.{Platform}
use tunnelfetch.Connection.Receiving.Head.{complete_header_block}
use tunnelfetch.Connection.Receiving.{
  capped, on_headers, on_continuation, on_frame, dispatch_frame, receive,
}
use tunnelfetch.Connection.Preserving.{
  on_settings_holds, on_window_update_holds, on_rst_stream_holds, on_ping_holds, on_goaway_holds,
}
use tunnelfetch.Connection.Budget.{Kept, same_Kept, Stands}
use tunnelfetch.Connection.Budget.Control.{Kept-Preserves}
use tunnelfetch.Connection.Budget.Head.{complete_header_block-Kept}
use tunnelfetch.Connection.Credit.{Ledger}
use tunnelfetch.Connection.Credit.Counting.{
  counted, Kept-Ledger, besides-Ledger, die-Ledger, die-counted,
}
use tunnelfetch.Connection.Credit.Arriving.{on_data-Ledger}

-- Frames of other kinds count nothing.
other_kind :
    (k used : ℕ) (f : Frame) (c d : Http2Connection)
    → (f.type == FrameType.data_frames) ≡ false
    → Ledger k used d
    → Ledger k (used + counted k f c) d
other_kind k used f c d n l =
    let same : used ≡ used + counted k f c = rw n (ground arith) in subst (λ u. Ledger k u d) same l

module _ (platform : Platform) (k used : ℕ) where
  complete-Ledger :
      (stream_id : ℕ) (block : Bytes) (end_stream : Bool) (c : Http2Connection)
      → Ledger k used c
      → Ledger k used (complete_header_block platform stream_id block end_stream c)
  complete-Ledger stream_id block end_stream c l =
      Kept-Ledger k used c _
        (complete_header_block-Kept c platform stream_id block end_stream c (same_Kept c)) l

  assembling-Ledger :
      (a : Option Assembly) (c : Http2Connection)
      → Ledger k used c
      → Ledger k used (record c { assembling = a })
  assembling-Ledger a c l = besides-Ledger k used c.conn_recv_window a c.expect_first_settings c l

  capped-Ledger :
      (a : Assembly) (within c : Http2Connection)
      → Ledger k used within
      → Ledger k used c
      → Ledger k used (capped a within c)
  unfolding capped
  capped-Ledger a within c w l =
      if_holds (Ledger k used) (leb a.bytes c.max_header_block_bytes) w
        (die-Ledger k used _ _ (assembling-Ledger none c l))

  on_headers-Ledger :
      (flags stream_id : ℕ) (payload : Bytes) (c : Http2Connection)
      → Ledger k used c
      → Ledger k used (on_headers platform flags stream_id payload c)
  unfolding on_headers
  on_headers-Ledger flags stream_id payload c l =
      if_holds (Ledger k used) (stream_id % 2 == 0) (die-Ledger k used _ c l) (
        result_holds (Ledger k used) (headers_block_fragment payload flags)
          (λ e _. die-Ledger k used _ c l)
          (λ fragment _.
            if_holds (Ledger k used) (has_flag flags Flag.end_headers)
              (complete-Ledger stream_id fragment _ c l)
              (capped-Ledger _ _ c (assembling-Ledger _ c l) l)))

  on_continuation-Ledger :
      (flags : ℕ) (payload : Bytes) (a : Assembly) (c : Http2Connection)
      → Ledger k used c
      → Ledger k used (on_continuation platform flags payload a c)
  unfolding on_continuation
  on_continuation-Ledger flags payload a c l =
      capped-Ledger _ _ c
        (if_holds (Ledger k used) (has_flag flags Flag.end_headers)
          (complete-Ledger _ _ _ _ (assembling-Ledger none c l)) (assembling-Ledger _ c l))
        l

  other_frame-Ledger :
      (f : Frame) (c : Http2Connection)
      → Ledger k used c
      → (f.type == FrameType.data_frames) ≡ false
      → Ledger k used (on_frame platform f c)
  unfolding on_frame
  other_frame-Ledger f c l n =
      let L : Http2Connection → Type 0 = Ledger k used in
      let K = Kept-Preserves c in
      let same = same_Kept c in
      let kept : (d : Http2Connection) → Kept c d → L d = λ d h. Kept-Ledger k used c d h l in
      if_holds L (f.type == FrameType.settings)
        (kept _ (on_settings_holds (Kept c) Stands K f.flags f.stream_id f.payload c same))
        (if_holds L (f.type == FrameType.headers)
          (on_headers-Ledger f.flags f.stream_id f.payload c l)
          (if_cases L (f.type == FrameType.data_frames) (λ y. absurd (cc (y, n)))
            (λ _.
              if_holds L (f.type == FrameType.window_update)
                (kept _ (on_window_update_holds (Kept c) Stands K f.stream_id f.payload c same))
                (if_holds L (f.type == FrameType.rst_stream)
                  (kept _ (on_rst_stream_holds (Kept c) Stands K f.stream_id f.payload c same))
                  (if_holds L (f.type == FrameType.ping)
                    (kept _ (on_ping_holds (Kept c) Stands K f.flags f.stream_id f.payload c same))
                    (if_holds L (f.type == FrameType.goaway)
                      (kept _ (on_goaway_holds (Kept c) Stands K f.payload c same))
                      (if_holds L (f.type == 5) (die-Ledger k used _ c l) (
                        if_holds L (f.type == 2)
                          (if_holds L (length f.payload == 5) l (die-Ledger k used _ c l))
                          (if_holds L (f.type == FrameType.continuation) (die-Ledger k used _ c l)
                            l)))))))))

  on_frame-Ledger :
      (f : Frame) (c : Http2Connection)
      → Ledger k used c
      → is_some c.fatal ≡ false
      → Ledger k (used + counted k f c) (on_frame platform f c)
  unfolding on_frame
  on_frame-Ledger f c l up = elim (Bool-cases (f.type == FrameType.data_frames)) [
    | inr n ↦ other_kind k used f c _ n (other_frame-Ledger f c l n)
    | inl y ↦
        let data_ : f.type ≡ FrameType.data_frames = ground arith in
        let a : (f.type == FrameType.settings) ≡ false = ground arith in
        let b : (f.type == FrameType.headers) ≡ false = ground arith in
        subst (Ledger k (used + counted k f c))
          (sym (if_false _ _ a ∙ if_false _ _ b ∙ if_true _ _ y))
          (on_data-Ledger k used f c l up data_)
  ]

  dispatch_frame-Ledger :
      (f : Frame) (c : Http2Connection)
      → Ledger k used c
      → is_some c.fatal ≡ false
      → Ledger k (used + counted k f c) (dispatch_frame platform f c)
  unfolding dispatch_frame
  dispatch_frame-Ledger f c l up =
      let P : Http2Connection → Type 0 = Ledger k (used + counted k f c) in
      option_holds P c.assembling
        (if_holds P (c.expect_first_settings && not (f.type == FrameType.settings))
          (die-counted k used f _ c l)
          (on_frame-Ledger f (record c { expect_first_settings = false })
            (besides-Ledger k used c.conn_recv_window c.assembling false c l) up))
        (λ a _.
          if_cases P (not (f.type == FrameType.continuation) || not (f.stream_id == a.stream_id))
            (λ _. die-counted k used f _ c l)
            (λ n.
              other_kind k used f c _ (ground arith)
                (on_continuation-Ledger f.flags f.payload a c l)))

  pub receive-Ledger :
      (f : Frame) (c : Http2Connection)
      → Ledger k used c
      → Ledger k (used + counted k f c) (receive platform (some f) c)
  unfolding receive
  receive-Ledger f c l =
      if_cases (Ledger k (used + counted k f c)) (is_some c.fatal)
        (λ dead.
          let same : used ≡ used + counted k f c = rw dead (omega arith) in
          subst (λ u. Ledger k u c) same l)
        (λ up. dispatch_frame-Ledger f c l up)
