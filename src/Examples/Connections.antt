-- ===== src/Examples/Connections.antt =====
-- A connection to a server: a request, and the frames of a server that sends little.
use tunnelfetch.Prelude.{
  length, ◌*◌, false, ◌≤◌, ◌≡◌, refl, true, not, ◌||◌, none, some, List, [], ◌∷◌, All,
}
use tunnelfetch.Errors.{ok}
use tunnelfetch.Frames.{Frame, headers_block_fragment}
use tunnelfetch.Hpack.StaticTable.{units}
use tunnelfetch.Connection.State.{Assembly, Stream, Options, new_connection, is_some}
use tunnelfetch.Connection.Teardown.{find_object, find_stream, put_stream}
use tunnelfetch.Connection.Fields.{Platform, Request}
use tunnelfetch.Connection.Receiving.Control.{on_settings}
use tunnelfetch.Connection.Receiving.{
  on_headers, on_continuation, capped, receive, dispatch_frame, on_frame,
}
use tunnelfetch.Connection.Receiving.Head.{exempt, length_agrees}
use tunnelfetch.Connection.Sending.{
  create_stream, send_from, send_body, at_limit, send_request, open_stream, request_live, request,
}
use tunnelfetch.Connection.Running.{Op, requests, arrives, apply, run}
use tunnelfetch.Connection.Soundness.{is_settled}
use tunnelfetch.Connection.Budget.{queued}
use tunnelfetch.Connection.Budget.Balance.{charged}
use tunnelfetch.Connection.Guarantees.{
  heads_settle, ended_is_whole, queues_are_bounded, header_block_is_bounded,
}

-- A platform whose texts are ASCII, and whose headers are a list without checks.
abbrev pub plain : Platform
plain = record {
  decode_text = λ bytes. bytes;
  utf8 = λ text. text;
  to_lower_case = λ text. text;
  trim = λ text. text;
  append = λ name value fields. ok ((name, value) ∷ fields);
  get = λ name fields. none;
}

abbrev pub defaults : Options
defaults = record {
  initial_window_size = some 100;
  connection_window = none;
  max_concurrent_streams = none;
  max_header_table_size = none;
  max_header_list_size = none;
  max_header_block_bytes = none;
  settings = none;
  pseudo_header_order = none;
  hpack_indexing = λ name. none;
  headers_priority = none;
  on_close = true;
}

abbrev pub get_root : Request
get_root = record {
  method = units "GET";
  scheme = units "https";
  authority = units "example.com";
  path = units "/";
  headers = [];
  body = none;
}

-- SETTINGS with ACK, and PING.
abbrev acknowledgement : Frame
acknowledgement = record { type = 4; flags = 1; stream_id = 0; payload = [] }

abbrev greeting : Frame
greeting = record {
  type = 6;
  flags = 0;
  stream_id = 0;
  payload = 1 ∷ 2 ∷ 3 ∷ 4 ∷ 5 ∷ 6 ∷ 7 ∷ 8 ∷ [];
}

abbrev exchange : List Op
exchange = requests get_root none ∷ arrives (some acknowledgement) ∷ arrives (some greeting) ∷ []

heads_settle_example :
    All
      (λ s. is_settled s.head ≡ true)
      (receive plain none (run plain exchange (new_connection defaults))).streams
heads_settle_example = heads_settle plain defaults exchange

ended_is_whole_example :
    All
      (λ s. (not s.recv_ended || is_some s.body_error || exempt s || length_agrees s) ≡ true)
      (run plain exchange (new_connection defaults)).streams
ended_is_whole_example = ended_is_whole plain defaults exchange

abbrev first_stream : Stream
first_stream = record (create_stream 1 (units "GET") (new_connection defaults)) {
  local_ended = true;
}

queues_are_bounded_example :
    queued (run plain exchange (new_connection defaults)).streams
    ≤ (run plain exchange (new_connection defaults)).our_conn_window
queues_are_bounded_example = queues_are_bounded plain defaults exchange

-- HEADERS of one byte without END_HEADERS, and a CONTINUATION that is empty.
abbrev opening : Frame
opening = record { type = 1; flags = 0; stream_id = 1; payload = 136 ∷ [] }

abbrev empty_continuation : Frame
empty_continuation = record { type = 9; flags = 0; stream_id = 1; payload = [] }

abbrev slow_headers : List Op
slow_headers =
    requests get_root none
    ∷ arrives (some acknowledgement)
    ∷ arrives (some opening)
    ∷ arrives (some empty_continuation)
    ∷ []

abbrev under_way : Assembly
under_way = record {
  stream_id = 1;
  fragments = (136 ∷ []) ∷ [] ∷ [];
  bytes = 513;
  frames = 2;
  end_stream = false;
}

slow_headers_held : (run plain slow_headers (new_connection defaults)).assembling ≡ some under_way
unfolding new_connection find_object find_stream put_stream receive dispatch_frame on_frame
    on_settings on_headers on_continuation capped headers_block_fragment create_stream send_from
    send_body at_limit send_request open_stream request_live request apply run
slow_headers_held = refl

header_block_is_bounded_example :
    (charged under_way.fragments
      ≤ (run plain slow_headers (new_connection defaults)).max_header_block_bytes)
    × (length under_way.fragments * 256
        ≤ (run plain slow_headers (new_connection defaults)).max_header_block_bytes)
header_block_is_bounded_example =
    header_block_is_bounded plain defaults slow_headers under_way slow_headers_held
