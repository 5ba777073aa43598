-- ===== src/Connection/Credit/Arriving.antt =====
-- src/http2/connection.js: a DATA frame is entered in the account of its stream.
use tunnelfetch.Prelude.{
  ℕ, ◌≤◌, ◌<◌, ◌+◌, false, not, ◌≡◌, sym, ap, if_holds, option_cases, none, some, ◌==◌,
  if◌then◌else◌, length, arith,
}
use tunnelfetch.Prelude.Int.{pos, ◌-ℤ◌, ltb_ℤ}
use mathlib.Core.Path.{subst}
use tunnelfetch.Errors.{result_holds, http2_error, http2_stream_state}
use tunnelfetch.Frames.{Frame}
use tunnelfetch.Frames.FrameType
use tunnelfetch.Frames.ErrorCode
use tunnelfetch.Connection.State.{Stream, Http2Connection, is_some}
use tunnelfetch.Connection.Teardown.{find_object, find_stream, reset_stream}
use tunnelfetch.Connection.Receiving.Replenish.{replenish_conn}
use tunnelfetch.Connection.Receiving.Data.{unpadded, data_in, data_for, on_data}
use tunnelfetch.Connection.Soundness.{find_object-All}
use tunnelfetch.Connection.Budget.{find_object-id}
use tunnelfetch.Connection.Credit.{Ledger}
use tunnelfetch.Connection.Credit.Counting.{counted, besides-Ledger, die-counted, find_stream-facts}
use tunnelfetch.Connection.Credit.Data.{reset-Ledger, data_in-Ledger, replenish_conn-Ledger}

pub Below-found :
    (k used : ℕ) (id : ℕ) (s : Stream) (c : Http2Connection)
    → Ledger k used c
    → find_object id c.streams ≡ some s
    → (1 ≤ s.id) × (s.id < c.next_stream_id)
unfolding Ledger
Below-found k used id s c l f =
    find_object-All (λ s. (1 ≤ s.id) × (s.id < c.next_stream_id)) id c.streams s l.2 f

-- What a DATA frame counts for the stream that it is for.
counted_found :
    (k : ℕ) (f : Frame) (s : Stream) (c : Http2Connection)
    → is_some c.fatal ≡ false
    → f.type ≡ FrameType.data_frames
    → find_stream f.stream_id c.streams ≡ some s
    → s.id ≡ f.stream_id
    → (if s.id == k then length f.payload else 0) ≡ counted k f c
counted_found k f s c up data_ e i = rw (up, data_, e, i) (ground arith)

counted_missing :
    (k : ℕ) (f : Frame) (c : Http2Connection)
    → find_stream f.stream_id c.streams ≡ none
    → counted k f c ≡ 0
counted_missing k f c e = rw e (ground arith)

data_for-Ledger :
    (k used : ℕ) (f : Frame) (s : Stream) (c : Http2Connection)
    → Ledger k used c
    → is_some c.fatal ≡ false
    → f.type ≡ FrameType.data_frames
    → find_stream f.stream_id c.streams ≡ some s
    → Ledger k (used + counted k f c) (data_for f.flags f.payload s c)
unfolding data_for
data_for-Ledger k used f s c l up data_ e =
    let P : Http2Connection → Type 0 = Ledger k (used + counted k f c) in
    let (there, open_) = find_stream-facts f.stream_id c.streams s e in
    let i = find_object-id f.stream_id c.streams s there in
    let this = subst (λ n. find_object n c.streams ≡ some s) (sym i) there in
    let sum = ap (λ n. used + n) (counted_found k f s c up data_ e i) in
    let flow = length f.payload in
    let stuck = http2_error http2_stream_state in
    let low = (Below-found k used f.stream_id s c l there).0 in
    if_holds P (not s.response_received)
      (subst (λ u. Ledger k u (reset_stream s ErrorCode.protocol_error stuck c)) sum
        (reset-Ledger k used flow _ s s stuck c l this))
      (result_holds P (unpadded f.flags f.payload) (λ x _. die-counted k used f (some x) c l)
        (λ body _.
          subst (λ u. Ledger k u (data_in f.flags flow body s c)) sum
            (data_in-Ledger k used f.flags flow body s c l this open_ low)))

pub on_data-Ledger :
    (k used : ℕ) (f : Frame) (c : Http2Connection)
    → Ledger k used c
    → is_some c.fatal ≡ false
    → f.type ≡ FrameType.data_frames
    → Ledger k (used + counted k f c) (on_data f.flags f.stream_id f.payload c)
unfolding on_data
on_data-Ledger k used f c l up data_ =
    let P : Http2Connection → Type 0 = Ledger k (used + counted k f c) in
    let flow = length f.payload in
    let w = c.conn_recv_window -ℤ pos flow in
    let c' = record c { conn_recv_window = w } in
    let l' = besides-Ledger k used w c.assembling c.expect_first_settings c l in
    if_holds P (f.stream_id == 0) (die-counted k used f _ c l) (
      if_holds P (ltb_ℤ w (pos 0)) (die-counted k used f _ c' l') (
        option_cases P (find_stream f.stream_id c.streams)
          (λ missing.
            let none_ : used ≡ used + counted k f c =
              omega (arith, counted_missing k f c missing) in
            subst (λ u. Ledger k u (replenish_conn flow c')) none_
              (replenish_conn-Ledger k used flow c' l'))
          (λ s e. data_for-Ledger k used f s c' l' up data_ e)))
