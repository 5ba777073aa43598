-- ===== src/Connection/Preserving.antt =====
-- src/http2/connection.js: what the frames without headers and data keep. A predicate P of connections, with
-- one Q of their streams, that a few changes keep is kept by all of these frames.
use tunnelfetch.Prelude.{
  ℕ, Bool, true, refl, not, ◌||◌, ◌&&◌, ◌≡◌, option_holds, if_holds, Option, some, List, [], ◌∷◌,
  ltb, ◌==◌, length,
}
use tunnelfetch.Prelude.Int.{ℤ, pos, ◌-ℤ◌, ◌+ℤ◌, ltb_ℤ}
use tunnelfetch.Bytes.{Bytes}
use tunnelfetch.Errors.{Failure, result_holds, http2_error, http2_flow_control}
use tunnelfetch.Frames.{
  Goaway, has_flag, parse_settings, parse_window_update, parse_rst_stream, parse_goaway,
}
use tunnelfetch.Frames.Flag
use tunnelfetch.Frames.Setting
use tunnelfetch.Connection.State.{
  Stream, Http2Connection, Written, write, max_window, default_max_frame_size,
  max_allowed_frame_size,
}
use tunnelfetch.Connection.Announced.{is_silent}
use tunnelfetch.Connection.Teardown.{find_stream, update, fail_stream, reset_stream, die}
use tunnelfetch.Connection.Receiving.Head.{protocol}
use tunnelfetch.Connection.Receiving.Control.{
  adjust_windows, apply_setting, apply_settings, on_settings, window_update_for, window_update_conn,
  on_window_update, reset_error, on_rst_stream, on_ping, going, on_goaway,
}

pub record Preserves (P : Http2Connection → Type 0) (Q : Stream → Http2Connection → Type 0)
    : Type 0 where
  pub die : (err : Option Failure) (c : Http2Connection) → P c → P (die err c)
  pub written : (w : Written) → is_silent w ≡ true → (c : Http2Connection) → P c → P (write w c)
  pub update : (s : Stream) (c : Http2Connection) → P c → Q s c → P (update s c)
  pub reset :
      (s : Stream) (code : ℕ) (e : Failure) (c : Http2Connection)
      → P c
      → Q s c
      → P (reset_stream s code e c)
  pub failed : (e : Failure) (s : Stream) (c : Http2Connection) → Q s c → Q (fail_stream e s) c
  pub windowed :
      (w : ℤ) (s : Stream) (c : Http2Connection) → Q s c → Q (record s { send_window = w }) c
  pub found :
      (id : ℕ) (s : Stream) (c : Http2Connection) → P c → find_stream id c.streams ≡ some s → Q s c
  pub adjusted :
      (value : ℕ) (delta : ℤ) (c : Http2Connection)
      → P c
      → P (record c { peer_initial_window = value; streams = adjust_windows delta c.streams })
  pub told :
      (size table_size : ℕ) (limit : Option ℕ) (c : Http2Connection)
      → P c
      → P (record c {
        peer_max_frame_size = size;
        peer_max_concurrent = limit;
        peer_header_table_size = table_size;
      })
  pub granted : (w : ℤ) (c : Http2Connection) → P c → P (record c { conn_send_window = w })
  pub going : (g : Goaway) (c : Http2Connection) → P c → P (going g c)

module _ (P : Http2Connection → Type 0) (Q : Stream → Http2Connection → Type 0)
    (L : Preserves P Q) where
  apply_setting_holds : (id value : ℕ) (c : Http2Connection) → P c → P (apply_setting id value c).1
  unfolding apply_setting
  apply_setting_holds id value c h =
      let S : Bool × Http2Connection → Type 0 = λ r. P r.1 in
      let refused = L.die (some protocol) c h in
      if_holds S (id == Setting.initial_window_size)
        (if_holds S (ltb max_window value) (L.die (some (http2_error http2_flow_control)) c h)
          (L.adjusted value (pos value -ℤ pos c.peer_initial_window) c h))
        (if_holds S (id == Setting.max_frame_size)
          (if_holds S (ltb value default_max_frame_size || ltb max_allowed_frame_size value) refused
            (L.told value c.peer_header_table_size c.peer_max_concurrent c h))
          (if_holds S (id == Setting.max_concurrent_streams)
            (L.told c.peer_max_frame_size c.peer_header_table_size (some value) c h)
            (if_holds S (id == Setting.header_table_size)
              (L.told c.peer_max_frame_size value c.peer_max_concurrent c h)
              (if_holds S (id == Setting.enable_push && not (value == 0) && not (value == 1))
                refused h))))

  apply_settings_holds :
      (entries : List (ℕ × ℕ)) (c : Http2Connection) → P c → P (apply_settings entries c)
  unfolding apply_settings
  apply_settings_holds [] c h = L.written _ refl c h
  apply_settings_holds ((id, value) ∷ entries) c h =
      let r = apply_setting id value c in
      let h' = apply_setting_holds id value c h in
      if_holds P r.0 (apply_settings_holds entries r.1 h') h'

  pub on_settings_holds :
      (flags stream_id : ℕ) (payload : Bytes) (c : Http2Connection)
      → P c
      → P (on_settings flags stream_id payload c)
  unfolding on_settings
  on_settings_holds flags stream_id payload c h = if_holds P (not (stream_id == 0)) (L.die _ c h) (
      if_holds P (has_flag flags Flag.ack) (if_holds P (length payload == 0) h (L.die _ c h)) (
        result_holds P (parse_settings payload) (λ e _. L.die _ c h)
          (λ entries _. apply_settings_holds entries c h)))

  window_update_for_holds :
      (inc : ℕ) (s : Stream) (c : Http2Connection) → P c → Q s c → P (window_update_for inc s c)
  unfolding window_update_for
  window_update_for_holds inc s c h q =
      let w = s.send_window +ℤ pos inc in
      let s' = record s { send_window = w } in
      if_holds P (inc == 0) (L.reset s _ _ c h q) (
        if_holds P (ltb_ℤ (pos max_window) w) (L.reset s' _ _ c h (L.windowed w s c q))
          (L.update s' c h (L.windowed w s c q)))

  window_update_conn_holds : (inc : ℕ) (c : Http2Connection) → P c → P (window_update_conn inc c)
  unfolding window_update_conn
  window_update_conn_holds inc c h =
      let c' = record c { conn_send_window = c.conn_send_window +ℤ pos inc } in
      if_holds P (inc == 0) (L.die _ c h) (
        if_holds P (ltb_ℤ (pos max_window) c'.conn_send_window) (L.die _ c' (L.granted _ c h))
          (L.granted _ c h))

  pub on_window_update_holds :
      (stream_id : ℕ) (payload : Bytes) (c : Http2Connection)
      → P c
      → P (on_window_update stream_id payload c)
  unfolding on_window_update
  on_window_update_holds stream_id payload c h =
      result_holds P (parse_window_update payload) (λ e _. L.die _ c h)
        (λ inc _. if_holds P (stream_id == 0) (window_update_conn_holds inc c h) (
          option_holds P (find_stream stream_id c.streams) h
            (λ s f. window_update_for_holds inc s c h (L.found stream_id s c h f))))

  pub on_rst_stream_holds :
      (stream_id : ℕ) (payload : Bytes) (c : Http2Connection)
      → P c
      → P (on_rst_stream stream_id payload c)
  unfolding on_rst_stream
  on_rst_stream_holds stream_id payload c h =
      result_holds P (parse_rst_stream payload) (λ e _. L.die _ c h)
        (λ code _. if_holds P (stream_id == 0) (L.die _ c h) (
          option_holds P (find_stream stream_id c.streams) h (λ s f.
            L.update _ c h (L.failed (reset_error code s) s c (L.found stream_id s c h f)))))

  pub on_ping_holds :
      (flags stream_id : ℕ) (payload : Bytes) (c : Http2Connection)
      → P c
      → P (on_ping flags stream_id payload c)
  unfolding on_ping
  on_ping_holds flags stream_id payload c h = if_holds P (not (stream_id == 0)) (L.die _ c h) (
      if_holds P (not (length payload == 8)) (L.die _ c h)
        (if_holds P (has_flag flags Flag.ack) h (L.written _ refl c h)))

  pub on_goaway_holds : (payload : Bytes) (c : Http2Connection) → P c → P (on_goaway payload c)
  unfolding on_goaway
  on_goaway_holds payload c h =
      result_holds P (parse_goaway payload) (λ e _. L.die _ c h) (λ g _. L.going g c h)
