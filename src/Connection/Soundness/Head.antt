-- ===== src/Connection/Soundness/Head.antt =====
-- src/http2/connection.js: header blocks, and the end of the receive half, keep every stream sound.
use tunnelfetch.Prelude.{
  ℕ, Bool, true, false, not, ◌&&◌, ◌||◌, ◌≡◌, refl, if_holds, if_cases, Option, none, some, leb,
  arith,
}
use tunnelfetch.Bytes.{Bytes}
use tunnelfetch.Errors.{Result, ok, err, result_holds}
use tunnelfetch.Hpack.{HpackDecoder}
use tunnelfetch.Hpack.Blocks.{decode}
use tunnelfetch.Connection.State.{
  Stream, Http2Connection, is_some, Declared, absent, malformed, declared, FieldList, ResponseHead,
}
use tunnelfetch.Connection.Teardown.{find_stream, maybe_close_stream, remove_stream}
use tunnelfetch.Connection.Fields.{Platform, parse_response_headers, parse_trailers}
use tunnelfetch.Connection.Receiving.Head.{
  exempt, agrees, length_agrees, end_recv, answered, answered_whole, take_answer, take_head,
  take_trailers, deliver_response_head, deliver_trailers, deliver, decoded, complete_header_block,
}
use tunnelfetch.Connection.Soundness.{
  is_sound, is_whole, is_drawn, Sound, sound_answered, find_stream-Sound, update-Sound,
  reset_stream-Sound, die-Sound, maybe_close_stream-is_sound,
}

-- The end of the receive half, where the length was compared.
pub ended-is_sound :
    (dead : Bool) (init : ℕ) (s : Stream)
    → is_sound dead init s ≡ true
    → s.response_received ≡ true
    → (exempt s || length_agrees s) ≡ true
    → is_sound dead init (record s { recv_ended = true }) ≡ true
unfolding is_sound is_whole is_drawn exempt length_agrees
ended-is_sound dead init s h r a = ground arith

pub end_recv-Sound :
    (s : Stream) (then_ : Stream → Stream) (c : Http2Connection)
    → Sound c
    → s.response_received ≡ true
    → ((exempt s || length_agrees s) ≡ true
        → is_sound (is_some c.fatal) c.our_initial_window (then_ (record s { recv_ended = true }))
          ≡ true)
    → Sound (end_recv s then_ c)
unfolding end_recv
end_recv-Sound s then_ c h r p =
    if_cases Sound (exempt s || length_agrees s)
      (λ a. update-Sound (then_ (record s { recv_ended = true })) c h (p a))
      (λ a. reset_stream-Sound s _ _ c h (ground arith))

answered-is_sound :
    (dead : Bool) (init : ℕ) (head : ResponseHead) (length_ : Declared) (s : Stream)
    → is_sound dead init s ≡ true
    → s.response_received ≡ false
    → is_sound dead init (
        answered head record s {
          response_received = true;
          status = head.status;
          declared_length = length_;
          received_length = 0;
        })
      ≡ true
unfolding is_sound is_whole is_drawn exempt length_agrees answered
answered-is_sound dead init head length_ s h r = ground arith

answered_whole-is_sound :
    (dead : Bool) (init : ℕ) (head : ResponseHead) (length_ : Declared) (s : Stream)
    → is_sound dead init s ≡ true
    → s.response_received ≡ false
    → (exempt (record s { status = head.status }) || agrees length_ 0) ≡ true
    → is_sound dead init (
        answered_whole head record s {
          response_received = true;
          status = head.status;
          declared_length = length_;
          received_length = 0;
          recv_ended = true;
        })
      ≡ true
unfolding is_sound is_whole is_drawn exempt length_agrees answered_whole maybe_close_stream
    remove_stream
answered_whole-is_sound dead init head length_ s h r a = ground arith

take_answer-Sound :
    (head : ResponseHead) (length_ : Declared) (end_stream : Bool) (s : Stream)
    (c : Http2Connection)
    → Sound c
    → is_sound (is_some c.fatal) c.our_initial_window s ≡ true
    → s.response_received ≡ false
    → Sound (
        take_answer head end_stream
          (record s {
            response_received = true;
            status = head.status;
            declared_length = length_;
            received_length = 0;
          })
          c)
unfolding take_answer exempt length_agrees
take_answer-Sound head length_ end_stream s c h p r =
    let t = record s {
      response_received = true;
      status = head.status;
      declared_length = length_;
      received_length = 0;
    } in
    let dead = is_some c.fatal in
    let init = c.our_initial_window in
    if_holds Sound end_stream
      (end_recv-Sound t (answered_whole head) c h refl
        (λ a. answered_whole-is_sound dead init head length_ s p r a))
      (update-Sound (answered head t) c h (answered-is_sound dead init head length_ s p r))

take_head-Sound :
    (head : ResponseHead) (length_ : Declared) (end_stream : Bool) (s : Stream)
    (c : Http2Connection)
    → Sound c
    → is_sound (is_some c.fatal) c.our_initial_window s ≡ true
    → s.response_received ≡ false
    → Sound (take_head head length_ end_stream s c)
unfolding take_head
take_head-Sound head malformed end_stream s c h p r = reset_stream-Sound _ _ _ c h (ground arith)
take_head-Sound head absent end_stream s c h p r =
    take_answer-Sound head absent end_stream s c h p r
take_head-Sound head (declared n) end_stream s c h p r =
    take_answer-Sound head (declared n) end_stream s c h p r

take_trailers-Sound :
    (fields : FieldList) (s : Stream) (c : Http2Connection)
    → Sound c
    → is_sound (is_some c.fatal) c.our_initial_window s ≡ true
    → s.response_received ≡ true
    → Sound (take_trailers fields s c)
unfolding take_trailers is_sound is_whole is_drawn exempt length_agrees
take_trailers-Sound fields s c h p r =
    let s' = record s { trailer_fields = some fields } in
    let dead = is_some c.fatal in
    let init = c.our_initial_window in
    end_recv-Sound s' maybe_close_stream c h r
      (λ a. maybe_close_stream-is_sound dead init _ (ended-is_sound dead init s' p r a))

module _ (platform : Platform) where
  deliver_response_head-Sound :
      (pairs : FieldList) (end_stream : Bool) (s : Stream) (c : Http2Connection)
      → Sound c
      → is_sound (is_some c.fatal) c.our_initial_window s ≡ true
      → s.response_received ≡ false
      → Sound (deliver_response_head platform pairs end_stream s c)
  unfolding deliver_response_head
  deliver_response_head-Sound pairs end_stream s c h p r =
      let a = sound_answered (is_some c.fatal) c.our_initial_window s p in
      result_holds Sound (parse_response_headers platform pairs)
        (λ e _. reset_stream-Sound s _ _ c h a)
        (λ head _.
          if_holds Sound (leb 100 head.status && leb head.status 199)
            (if_holds Sound end_stream (reset_stream-Sound s _ _ c h a) h)
            (take_head-Sound head _ end_stream s c h p r))

  deliver_trailers-Sound :
      (pairs : FieldList) (end_stream : Bool) (s : Stream) (c : Http2Connection)
      → Sound c
      → is_sound (is_some c.fatal) c.our_initial_window s ≡ true
      → s.response_received ≡ true
      → Sound (deliver_trailers platform pairs end_stream s c)
  unfolding deliver_trailers
  deliver_trailers-Sound pairs end_stream s c h p r =
      let a = sound_answered (is_some c.fatal) c.our_initial_window s p in
      if_holds Sound (not end_stream) (reset_stream-Sound s _ _ c h a) (
        result_holds Sound (parse_trailers platform pairs) (λ e _. reset_stream-Sound s _ _ c h a)
          (λ fields _. take_trailers-Sound fields s c h p r))

  decoder-Sound :
      (d : HpackDecoder) (c : Http2Connection) → Sound c → Sound (record c { decoder = d })
  unfolding Sound
  decoder-Sound d c h = h

  deliver-Sound :
      (pairs : FieldList) (end_stream : Bool) (o : Option Stream) (c : Http2Connection)
      → Sound c
      → ((s : Stream) → o ≡ some s → is_sound (is_some c.fatal) c.our_initial_window s ≡ true)
      → Sound (deliver platform pairs end_stream o c)
  unfolding deliver
  deliver-Sound pairs end_stream none c h p = h
  deliver-Sound pairs end_stream (some s) c h p =
      if_cases Sound s.response_received
        (λ r. deliver_trailers-Sound pairs end_stream s c h (p s refl) r)
        (λ r. deliver_response_head-Sound pairs end_stream s c h (p s refl) r)

  decoded-Sound :
      (stream_id : ℕ) (end_stream : Bool) (o : Option (HpackDecoder × Result FieldList))
      (c : Http2Connection)
      → Sound c
      → Sound (decoded platform stream_id end_stream o c)
  unfolding decoded
  decoded-Sound stream_id end_stream none c h = h
  decoded-Sound stream_id end_stream (some (d, err e)) c h = die-Sound _ _ (decoder-Sound d c h)
  decoded-Sound stream_id end_stream (some (d, ok pairs)) c h =
      let c' = record c { decoder = d } in
      let h' = decoder-Sound d c h in
      deliver-Sound pairs end_stream (find_stream stream_id c.streams) c' h'
        (λ s e. find_stream-Sound stream_id s c' h' e)

  pub complete_header_block-Sound :
      (stream_id : ℕ) (block : Bytes) (end_stream : Bool) (c : Http2Connection)
      → Sound c
      → Sound (complete_header_block platform stream_id block end_stream c)
  unfolding complete_header_block
  complete_header_block-Sound stream_id block end_stream c h =
      decoded-Sound stream_id end_stream (decode platform.decode_text block c.decoder) c h
