-- ===== src/Connection/State.antt =====
-- src/http2/connection.js: the state of Http2Connection and of its streams, and what it writes.
use tunnelfetch.Prelude.{ℕ, ◌-◌, Bool, true, false}
use tunnelfetch.Prelude.{Option, none, some, List, [], ◌∷◌, ◌++◌, ltb, ◌==◌, if◌then◌else◌}
use tunnelfetch.Prelude.Int.{ℤ, pos}
use tunnelfetch.Prelude.Texts.{Text}
use tunnelfetch.Bytes.{Bytes}
use tunnelfetch.Errors.{Failure}
use tunnelfetch.Frames.{
  Priority, settings_frame, window_update_frame, rst_stream_frame, ping_frame, goaway_frame,
  headers_frame, continuation_frame, data_frame,
}
use tunnelfetch.Frames.Setting
use tunnelfetch.Hpack.{HpackDecoder, new_decoder}
use tunnelfetch.Hpack.Encoder.{Indexing}
use tunnelfetch.Hpack.StaticTable.{units}

abbrev pub connection_preface : Bytes
connection_preface = units "PRI * HTTP/2.0\r\n\r\nSM\r\n\r\n"

abbrev pub default_max_frame_size : ℕ
default_max_frame_size = 16384

abbrev pub max_allowed_frame_size : ℕ
max_allowed_frame_size = 16777215

abbrev pub default_initial_window : ℕ
default_initial_window = 65535

abbrev pub max_window : ℕ
max_window = 2147483647

abbrev pub client_initial_window_size : ℕ
client_initial_window_size = 10485760

abbrev pub client_max_concurrent_streams : ℕ
client_max_concurrent_streams = 100

abbrev pub client_connection_window : ℕ
client_connection_window = 1048576000

-- A promise with its settle functions: the first to settle it wins.
pub data Deferred (A : Type 0) : Type 0 where
  pending : Deferred A
  resolved : A → Deferred A
  rejected : Failure → Deferred A

abbrev pub settle_resolve : {A : Type 0} → A → Deferred A → Deferred A
settle_resolve v pending = resolved v
settle_resolve v (resolved w) = resolved w
settle_resolve v (rejected e) = rejected e

abbrev pub settle_reject : {A : Type 0} → Failure → Deferred A → Deferred A
settle_reject e pending = rejected e
settle_reject e (resolved w) = resolved w
settle_reject e (rejected f) = rejected f

-- A list of header fields.
abbrev pub FieldList : Type 0
FieldList = List (Text × Text)

pub record ResponseHead : Type 0 where
  pub status : ℕ
  pub headers : FieldList
  pub set_cookie : List Text

-- `contentLengthOf`: null, a length, or 'malformed'.
pub data Declared : Type 0 where
  absent malformed : Declared
  declared : ℕ → Declared

-- What `_sendBody` has still to do: a body with the offset reached, or the write of its last frame,
-- which it awaits.
pub data Upload : Type 0 where
  no_upload last_write : Upload
  uploading : Bytes → ℕ → Upload

-- A stream object. `delivered` is what its body stream has given to the consumer. The functions that
-- wake a waiting pull or sender are left out: a step of either may come at any time and does nothing
-- while there is nothing to do.
pub record Stream : Type 0 where
  pub id : ℕ
  pub method : Text
  pub status : ℕ
  pub head : Deferred ResponseHead
  pub response_received : Bool
  pub recv_queue : List Bytes
  pub recv_ended : Bool
  pub declared_length : Declared
  pub received_length : ℕ
  pub body_error : Option Failure
  pub completed : Deferred Bool
  pub trailers : Deferred (Option FieldList)
  pub trailer_fields : Option FieldList
  pub recv_window : ℤ
  pub recv_consumed : ℕ
  pub send_window : ℤ
  pub local_ended : Bool
  pub cancelled : Bool
  pub closed : Bool
  pub rst_sent : Bool
  pub upload : Upload
  pub delivered : List Bytes

-- What is written, frame by frame.
pub data Written : Type 0 where
  magic : Written
  settings : List (ℕ × ℕ) → Bool → Written
  window_update : ℕ → ℕ → Written
  rst_stream : ℕ → ℕ → Written
  ping_ack : Bytes → Written
  goaway : ℕ → ℕ → Written
  headers : ℕ → Bytes → Bool → Bool → Option Priority → Written
  continuation : ℕ → Bytes → Bool → Written
  data_of : ℕ → Bytes → Bool → Written

-- The bytes of it.
unfoldable pub wire : Written → Bytes
wire magic = connection_preface
wire (settings entries ack) = settings_frame entries ack
wire (window_update id inc) = window_update_frame id inc
wire (rst_stream id code) = rst_stream_frame id code
wire (ping_ack opaque) = ping_frame opaque true
wire (goaway last code) = goaway_frame last code []
wire (headers id block end_stream end_headers priority) =
    headers_frame id block end_stream end_headers priority
wire (continuation id block end_headers) = continuation_frame id block end_headers
wire (data_of id payload end_stream) = data_frame id payload end_stream

-- `_continuation`
pub record Assembly : Type 0 where
  pub stream_id : ℕ
  pub fragments : List Bytes
  pub bytes : ℕ
  pub frames : ℕ
  pub end_stream : Bool

-- Http2ConnectionOptions; `none` is an option that is not given.
pub record Options : Type 0 where
  pub initial_window_size : Option ℕ
  pub connection_window : Option ℕ
  pub max_concurrent_streams : Option ℕ
  pub max_header_table_size : Option ℕ
  pub max_header_list_size : Option ℕ
  pub max_header_block_bytes : Option ℕ
  pub settings : Option (List (ℕ × ℕ))
  pub pseudo_header_order : Option (List Text)
  pub hpack_indexing : Text → Option Indexing
  pub headers_priority : Option Priority
  pub on_close : Bool

-- The fields of a connection. `streams` holds every stream object, the newest first: those of the map
-- `_streams` are the ones that are not closed. `written` is what was handed to the writer, in order;
-- `notices` the calls of `onClose`, with their argument; `transport_closed` that the transport was
-- closed. A limit of `none` is Infinity.
pub record Http2Connection : Type 0 where
  pub our_initial_window : ℕ
  pub our_conn_window : ℕ
  pub peer_initial_window : ℕ
  pub peer_max_frame_size : ℕ
  pub peer_max_concurrent : Option ℕ
  pub peer_header_table_size : ℕ
  pub conn_recv_window : ℤ
  pub conn_consumed : ℕ
  pub conn_send_window : ℤ
  pub decoder : HpackDecoder
  pub streams : List Stream
  pub next_stream_id : ℕ
  pub last_peer_stream_id : ℕ
  pub assembling : Option Assembly
  pub max_header_block_bytes : ℕ
  pub pseudo_header_order : Option (List Text)
  pub hpack_indexing : Text → Option Indexing
  pub headers_priority : Option Priority
  pub expect_first_settings : Bool
  pub fatal : Option Failure
  pub going_away : Option (ℕ × ℕ)
  pub closed : Bool
  pub on_close : Bool
  pub written : List Written
  pub notices : List (Option Failure)
  pub transport_closed : Bool

abbrev pub or_else {ℓ} : {A : Type ℓ} → Option A → A → A
or_else none d = d
or_else (some a) d = a

abbrev pub first_some {ℓ} : {A : Type ℓ} → Option A → Option A → Option A
first_some none o = o
first_some (some a) o = some a

abbrev pub is_some {ℓ} : {A : Type ℓ} → Option A → Bool
is_some none = false
is_some (some a) = true

-- The first value of a setting in a flight, and the last.
unfoldable pub first_setting : ℕ → List (ℕ × ℕ) → Option ℕ
first_setting id [] = none
first_setting id ((i, value) ∷ entries) = if i == id then some value else first_setting id entries

unfoldable pub last_setting : ℕ → List (ℕ × ℕ) → Option ℕ
last_setting id [] = none
last_setting id ((i, value) ∷ entries) =
    first_some (last_setting id entries) (if i == id then some value else none)

abbrev pub write : Written → Http2Connection → Http2Connection
write w c = record c { written = c.written ++ w ∷ [] }

-- The opening flight: the magic, the settings, and an update where it raises the connection window.
unfoldable pub preface : List (ℕ × ℕ) → ℕ → List Written
preface flight conn_window =
    if ltb default_initial_window conn_window
    then magic ∷ settings flight false ∷ window_update 0 (conn_window - default_initial_window) ∷ []
    else magic ∷ settings flight false ∷ []

-- The constructor, with `_sendPreface`, which it calls.
unfoldable pub new_connection : Options → Http2Connection
new_connection opts =
    let given = or_else opts.settings [] in
    let initial_window =
      or_else (first_some opts.initial_window_size (first_setting 4 given))
        client_initial_window_size in
    let conn_window = or_else opts.connection_window client_connection_window in
    let concurrent = or_else opts.max_concurrent_streams client_max_concurrent_streams in
    let table_size =
      or_else (first_some opts.max_header_table_size (last_setting Setting.header_table_size given))
        4096 in
    let flight = or_else opts.settings (
      (Setting.max_concurrent_streams, concurrent)
      ∷ (Setting.initial_window_size, initial_window)
      ∷ (Setting.enable_push, 0)
      ∷ []) in
    record {
      our_initial_window = initial_window;
      our_conn_window = conn_window;
      peer_initial_window = default_initial_window;
      peer_max_frame_size = default_max_frame_size;
      peer_max_concurrent = none;
      peer_header_table_size = 4096;
      conn_recv_window = pos conn_window;
      conn_consumed = 0;
      conn_send_window = pos default_initial_window;
      decoder = new_decoder table_size (or_else opts.max_header_list_size 262144);
      streams = [];
      next_stream_id = 1;
      last_peer_stream_id = 0;
      assembling = none;
      max_header_block_bytes = or_else opts.max_header_block_bytes 262144;
      pseudo_header_order = opts.pseudo_header_order;
      hpack_indexing = opts.hpack_indexing;
      headers_priority = opts.headers_priority;
      expect_first_settings = true;
      fatal = none;
      going_away = none;
      closed = false;
      on_close = opts.on_close;
      written = preface flight conn_window;
      notices = [];
      transport_closed = false;
    }
