-- ===== src/Connection/Budget/Head.antt =====
-- src/http2/connection.js: header blocks leave queues and windows as they are.
use tunnelfetch.Prelude.{
  ℕ, Bool, true, not, ◌&&◌, ◌||◌, ◌≡◌, refl, inl, if_holds, Option, none, some, leb,
}
use tunnelfetch.Bytes.{Bytes}
use tunnelfetch.Errors.{Result, ok, err, result_holds}
use tunnelfetch.Hpack.{HpackDecoder}
use tunnelfetch.Hpack.Blocks.{decode}
use tunnelfetch.Connection.State.{
  Stream, Http2Connection, Declared, absent, malformed, declared, FieldList, ResponseHead,
}
use tunnelfetch.Connection.Announced.{announced, Calm}
use tunnelfetch.Connection.Teardown.{find_stream, maybe_close_stream, remove_stream}
use tunnelfetch.Connection.Fields.{Platform, parse_response_headers, parse_trailers}
use tunnelfetch.Connection.Receiving.Head.{
  exempt, length_agrees, end_recv, answered, answered_whole, take_answer, take_head, take_trailers,
  deliver_response_head, deliver_trailers, deliver, decoded, complete_header_block,
}
use tunnelfetch.Connection.Budget.{
  Kept, Stands, find_stream-Stands, update-Kept, reset_stream-Kept, die-Kept,
}

pub maybe_close_stream-Stands :
    (s : Stream) (c : Http2Connection) → Stands s c → Stands (maybe_close_stream s) c
unfolding maybe_close_stream remove_stream Stands
maybe_close_stream-Stands s c p =
    if_holds (λ (t : Stream). Stands t c) (s.recv_ended && s.local_ended) (p.0, p.1, p.2, inl refl)
      p

module _ (o : Http2Connection) where
  pub end_recv-Kept :
      (s : Stream) (then_ : Stream → Stream) (c : Http2Connection)
      → Kept o c
      → Stands s c
      → Stands (then_ (record s { recv_ended = true })) c
      → Kept o (end_recv s then_ c)
  unfolding end_recv
  end_recv-Kept s then_ c h p q =
      if_holds (Kept o) (exempt s || length_agrees s)
        (update-Kept o (then_ (record s { recv_ended = true })) c h q)
        (reset_stream-Kept o s _ _ c h p)

  take_answer-Kept :
      (head : ResponseHead) (end_stream : Bool) (s : Stream) (c : Http2Connection)
      → Kept o c
      → Stands s c
      → Kept o (take_answer head end_stream s c)
  unfolding take_answer answered answered_whole Stands
  take_answer-Kept head end_stream s c h p =
      if_holds (Kept o) end_stream
        (end_recv-Kept s (answered_whole head) c h p (maybe_close_stream-Stands _ c p))
        (update-Kept o (answered head s) c h p)

  take_head-Kept :
      (head : ResponseHead) (length_ : Declared) (end_stream : Bool) (s : Stream)
      (c : Http2Connection)
      → Kept o c
      → Stands s c
      → Kept o (take_head head length_ end_stream s c)
  unfolding take_head Stands
  take_head-Kept head malformed end_stream s c h p = reset_stream-Kept o _ _ _ c h p
  take_head-Kept head absent end_stream s c h p = take_answer-Kept head end_stream _ c h p
  take_head-Kept head (declared n) end_stream s c h p = take_answer-Kept head end_stream _ c h p

  take_trailers-Kept :
      (fields : FieldList) (s : Stream) (c : Http2Connection)
      → Kept o c
      → Stands s c
      → Kept o (take_trailers fields s c)
  unfolding take_trailers Stands
  take_trailers-Kept fields s c h p =
      end_recv-Kept (record s { trailer_fields = some fields }) maybe_close_stream c h p
        (maybe_close_stream-Stands _ c p)

  module _ (platform : Platform) where
    deliver_response_head-Kept :
        (pairs : FieldList) (end_stream : Bool) (s : Stream) (c : Http2Connection)
        → Kept o c
        → Stands s c
        → Kept o (deliver_response_head platform pairs end_stream s c)
    unfolding deliver_response_head
    deliver_response_head-Kept pairs end_stream s c h p =
        result_holds (Kept o) (parse_response_headers platform pairs)
          (λ e _. reset_stream-Kept o s _ _ c h p)
          (λ head _.
            if_holds (Kept o) (leb 100 head.status && leb head.status 199)
              (if_holds (Kept o) end_stream (reset_stream-Kept o s _ _ c h p) h)
              (take_head-Kept head _ end_stream s c h p))

    deliver_trailers-Kept :
        (pairs : FieldList) (end_stream : Bool) (s : Stream) (c : Http2Connection)
        → Kept o c
        → Stands s c
        → Kept o (deliver_trailers platform pairs end_stream s c)
    unfolding deliver_trailers
    deliver_trailers-Kept pairs end_stream s c h p =
        if_holds (Kept o) (not end_stream) (reset_stream-Kept o s _ _ c h p) (
          result_holds (Kept o) (parse_trailers platform pairs)
            (λ e _. reset_stream-Kept o s _ _ c h p)
            (λ fields _. take_trailers-Kept fields s c h p))

    decoder-Kept :
        (d : HpackDecoder) (c : Http2Connection) → Kept o c → Kept o (record c { decoder = d })
    unfolding Kept Calm announced
    decoder-Kept d c h = h

    deliver-Kept :
        (pairs : FieldList) (end_stream : Bool) (found : Option Stream) (c : Http2Connection)
        → Kept o c
        → ((s : Stream) → found ≡ some s → Stands s c)
        → Kept o (deliver platform pairs end_stream found c)
    unfolding deliver
    deliver-Kept pairs end_stream none c h p = h
    deliver-Kept pairs end_stream (some s) c h p =
        if_holds (Kept o) s.response_received
          (deliver_trailers-Kept pairs end_stream s c h (p s refl))
          (deliver_response_head-Kept pairs end_stream s c h (p s refl))

    decoded-Kept :
        (stream_id : ℕ) (end_stream : Bool) (r : Option (HpackDecoder × Result FieldList))
        (c : Http2Connection)
        → Kept o c
        → Kept o (decoded platform stream_id end_stream r c)
    unfolding decoded
    decoded-Kept stream_id end_stream none c h = h
    decoded-Kept stream_id end_stream (some (d, err e)) c h = die-Kept o _ _ (decoder-Kept d c h)
    decoded-Kept stream_id end_stream (some (d, ok pairs)) c h =
        let c' = record c { decoder = d } in
        deliver-Kept pairs end_stream (find_stream stream_id c.streams) c' (decoder-Kept d c h)
          (λ s e. find_stream-Stands stream_id s c' e)

    pub complete_header_block-Kept :
        (stream_id : ℕ) (block : Bytes) (end_stream : Bool) (c : Http2Connection)
        → Kept o c
        → Kept o (complete_header_block platform stream_id block end_stream c)
    unfolding complete_header_block
    complete_header_block-Kept stream_id block end_stream c h =
        decoded-Kept stream_id end_stream (decode platform.decode_text block c.decoder) c h
