-- ===== src/Connection/Soundness/Control.antt =====
-- src/http2/connection.js: the frames that carry no headers and no data keep every stream sound.
use tunnelfetch.Prelude.{ℕ, Bool, true, ◌≡◌, if_holds, Option, List, [], ◌∷◌, All}
use tunnelfetch.Prelude.Int.{ℤ}
use tunnelfetch.Errors.{Failure}
use tunnelfetch.Frames.{Goaway}
use tunnelfetch.Connection.State.{Stream, Http2Connection, is_some}
use tunnelfetch.Connection.Teardown.{fail_stream}
use tunnelfetch.Connection.Receiving.Head.{exempt, length_agrees}
use tunnelfetch.Connection.Receiving.Control.{adjust_windows, fail_above, going}
use tunnelfetch.Connection.Preserving.{Preserves}
use tunnelfetch.Connection.Soundness.{
  is_sound, is_whole, is_drawn, Sound, sound_answered, fail_stream-is_sound, find_stream-Sound,
  write-Sound, update-Sound, reset_stream-Sound, die-Sound,
}

adjust_windows-All :
    (dead : Bool) (init : ℕ) (delta : ℤ) (ss : List Stream)
    → All (λ s. is_sound dead init s ≡ true) ss
    → All (λ s. is_sound dead init s ≡ true) (adjust_windows delta ss)
unfolding adjust_windows is_sound is_whole is_drawn exempt length_agrees
adjust_windows-All dead init delta [] h = tt
adjust_windows-All dead init delta (s ∷ ss) h = (
  if_holds (λ t. is_sound dead init t ≡ true) s.closed h.0 h.0,
  adjust_windows-All dead init delta ss h.1,
)

adjusted-Sound :
    (value : ℕ) (delta : ℤ) (c : Http2Connection)
    → Sound c
    → Sound (record c { peer_initial_window = value; streams = adjust_windows delta c.streams })
unfolding Sound
adjusted-Sound value delta c h =
    adjust_windows-All (is_some c.fatal) c.our_initial_window delta c.streams h

-- What a setting changes besides.
told-Sound :
    (size table_size : ℕ) (limit : Option ℕ) (c : Http2Connection)
    → Sound c
    → Sound (record c {
      peer_max_frame_size = size;
      peer_max_concurrent = limit;
      peer_header_table_size = table_size;
    })
unfolding Sound
told-Sound size table_size limit c h = h

granted-Sound :
    (window : ℤ) (c : Http2Connection) → Sound c → Sound (record c { conn_send_window = window })
unfolding Sound
granted-Sound window c h = h

fail_above-All :
    (dead : Bool) (init last : ℕ) (ss : List Stream)
    → All (λ s. is_sound dead init s ≡ true) ss
    → All (λ s. is_sound dead init s ≡ true) (fail_above last ss)
unfolding fail_above
fail_above-All dead init last [] h = tt
fail_above-All dead init last (s ∷ ss) h = (
  if_holds (λ t. is_sound dead init t ≡ true) _
      (fail_stream-is_sound dead init _ s (sound_answered dead init s h.0)) h.0,
  fail_above-All dead init last ss h.1,
)

going-Sound : (g : Goaway) (c : Http2Connection) → Sound c → Sound (going g c)
unfolding Sound going
going-Sound g c h = fail_above-All (is_some c.fatal) c.our_initial_window _ c.streams h

-- The streams of a connection that are sound, as the handlers of frames need them.
abbrev pub SoundIn : Stream → Http2Connection → Type 0
SoundIn s c = is_sound (is_some c.fatal) c.our_initial_window s ≡ true

failed-SoundIn :
    (e : Failure) (s : Stream) (c : Http2Connection) → SoundIn s c → SoundIn (fail_stream e s) c
failed-SoundIn e s c p =
    let dead = is_some c.fatal in
    let init = c.our_initial_window in
    fail_stream-is_sound dead init e s (sound_answered dead init s p)

windowed-SoundIn :
    (w : ℤ) (s : Stream) (c : Http2Connection)
    → SoundIn s c
    → SoundIn (record s { send_window = w }) c
unfolding is_sound is_whole is_drawn exempt length_agrees
windowed-SoundIn w s c p = p

pub Sound-Preserves : Preserves Sound SoundIn
Sound-Preserves = record {
  die = die-Sound;
  written = λ w _. write-Sound w;
  update = update-Sound;
  reset = λ s code e c h p.
      reset_stream-Sound s code e c h (sound_answered (is_some c.fatal) c.our_initial_window s p);
  failed = failed-SoundIn;
  windowed = windowed-SoundIn;
  found = find_stream-Sound;
  adjusted = adjusted-Sound;
  told = told-Sound;
  granted = granted-Sound;
  going = going-Sound;
}
