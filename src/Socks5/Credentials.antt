-- ===== src/Socks5/Credentials.antt =====
-- src/proxy/socks5.js: what a negotiation writes, and what it has read before.
use tunnelfetch.Prelude.{
  ℕ, ◌+◌, ◌≤◌, ◌≡◌, ◌⊎◌, inl, inr, refl, sym, ap, ◌∙◌, true, not, ◌||◌, Option, none, some, List,
  [], ◌∷◌, ◌++◌, ltb, ◌==◌, if◌then◌else◌, if_holds, length, take, drop, arith, Bool-cases, ltb→le,
}
use mathlib.Core.Path.{subst}
use tunnelfetch.Prelude.Texts.{Text}
use tunnelfetch.Bytes.{Bytes, at}
use tunnelfetch.Errors.{
  Result, ok, err, Failure, proxy_error, proxy_protocol, socks5_reply, socks5_addr_type,
  config_error, config_invalid, unexpected_eof,
}
use tunnelfetch.Reader.{ByteReader, read_exactly}
use tunnelfetch.Reader.Buffer.{Valid, pending}
use tunnelfetch.Reader.Refines.{Ends}
use tunnelfetch.Reader.Exact.{exactly_spec, read_exactly-Ends}
use tunnelfetch.Socks5.{
  Proxy, Talk, talk_then, heard, hear, has_credentials, greeting, chosen, greet, credentials,
  accepted, authenticate, bound_address_length, drain_reply, connect, answered, asked, request,
  proceed, negotiate,
}
use tunnelfetch.Socks5.Addresses.{encode_address}

-- The talk ends, and what it has written by then has the property.
pub record Writes {A : Type 0} (P : List Bytes → Type 0)
    (o : Option ((Result A × List Bytes) × ByteReader)) : Type 0 where
  pub result : Result A
  pub written : List Bytes
  pub reader : ByteReader
  pub ended : o ≡ some ((result, written), reader)
  pub holds : P written

-- Bytes are heard, if that many are to come, and nothing is written.
hear_then :
    {A : Type 0} (P : List Bytes → Type 0) (n : ℕ) (w : List Bytes) (r : ByteReader)
    (next : Bytes → Talk A)
    → Valid r
    → P w
    → ((r' : ByteReader)
        → Valid r'
        → n ≤ length (pending r)
        → pending r' ≡ drop n (pending r)
        → Writes P (next (take n (pending r)) w r'))
    → Writes P (talk_then (hear n w r) next)
unfolding talk_then hear heard
hear_then P n w r next v now later = elim (Bool-cases (ltb (length (pending r)) n)) [
  | inl short ↦
      let found : exactly_spec n (pending r)
          ≡ (err (unexpected_eof (some n) (length (pending r))), pending r) =
        rw short refl in
      record {
        result = err (proxy_error proxy_protocol);
        written = w;
        reader = e.reader;
        ended =
            ap (λ o. talk_then (heard w o) next) (e.result ∙ ap (λ s. some (s.0, e.reader)) found);
        holds = now;
      }
  | inr enough ↦
      let found : exactly_spec n (pending r) ≡ (ok (take n (pending r)), drop n (pending r)) =
        rw enough refl in
      subst (Writes P)
        (sym
          (ap (λ o. talk_then (heard w o) next) (e.result ∙ ap (λ s. some (s.0, e.reader)) found)))
        (later e.reader e.valid (ltb→le _ _ enough) (e.left ∙ ap (λ s. s.1) found))
]
  where
    e : Ends Bytes (read_exactly n r) (exactly_spec n (pending r))
    e = read_exactly-Ends n r v

talk_assoc :
    {A B C : Type 0} (o : Option ((Result A × List Bytes) × ByteReader)) (f : A → Talk B)
    (g : B → Talk C)
    → talk_then (talk_then o f) g ≡ talk_then o (λ a w r. talk_then (f a w r) g)
unfolding talk_then
talk_assoc none f g = refl
talk_assoc (some ((err e, w), r)) f g = refl
talk_assoc (some ((ok a, w), r)) f g = refl

-- What ends at once has written what it had.
at_once :
    {A : Type 0} (P : List Bytes → Type 0) (x : Result A) (w : List Bytes) (r : ByteReader)
    → P w
    → Writes P (some ((x, w), r))
at_once P x w r h = record { result = x; written = w; reader = r; ended = refl; holds = h }

-- A result is gone on with if it is not an error.
go_on :
    {A B : Type 0} (P : List Bytes → Type 0) (x : Result A) (w : List Bytes) (r : ByteReader)
    (next : A → Talk B)
    → P w
    → ((a : A) → x ≡ ok a → Writes P (next a w r))
    → Writes P (talk_then (some ((x, w), r)) next)
unfolding talk_then
go_on P (err e) w r next now later = at_once P (err e) w r now
go_on P (ok a) w r next now later = later a refl

failed :
    {A B : Type 0} (P : List Bytes → Type 0) (e : Failure) (w : List Bytes) (r : ByteReader)
    (next : A → Talk B)
    → P w
    → Writes P (talk_then (some ((err e, w), r)) next)
unfolding talk_then
failed P e w r next now = at_once P (err e) w r now

module _ (utf8 : Text → Bytes) where
  -- The rest of a reply is read, and nothing is written.
  drain_reply-Writes :
      (P : List Bytes → Type 0) (rep atyp : ℕ) (w : List Bytes) (r : ByteReader)
      → Valid r
      → P w
      → Writes P (drain_reply utf8 rep atyp w r)
  unfolding drain_reply bound_address_length
  drain_reply-Writes P rep atyp w r v now =
      if_holds (λ o. Writes P (talk_then o last)) (atyp == 1) (tail 4 r v)
        (if_holds (λ o. Writes P (talk_then o last)) (atyp == 4) (tail 16 r v)
          (if_holds (λ o. Writes P (talk_then o last)) (atyp == 3)
            (subst (Writes P) (sym (talk_assoc (hear 1 w r) _ last))
              (hear_then P 1 w r _ v now (λ r' v' fits same. tail _ r' v')))
            (failed P (proxy_error socks5_addr_type) w r last now)))
    where
      last : ℕ → Talk (Unit {0})
      last size w1 r1 = talk_then (hear (size + 2) w1 r1) (λ address w2 r2.
          some ((if not (rep == 0) then err (proxy_error socks5_reply) else ok tt, w2), r2))

      tail :
          (size : ℕ) (r' : ByteReader)
          → Valid r'
          → Writes P (talk_then (some ((ok size, w), r')) last)
      tail size r' v' =
          go_on P (ok size) w r' last now
            (λ a e. hear_then P (a + 2) w r' _ v' now (λ r2 v2 fits same. at_once P _ w r2 now))

  answered-Writes :
      (P : List Bytes → Type 0) (head : Bytes) (w : List Bytes) (r : ByteReader)
      → Valid r
      → P w
      → Writes P (answered utf8 head w r)
  unfolding answered
  answered-Writes P head w r v now =
      if_holds (λ (t : Option ((Result (Unit {0}) × List Bytes) × ByteReader)). Writes P t)
        (not (at head 0 == 5)) (at_once P _ w r now)
        (drain_reply-Writes P (at head 1) (at head 3) w r v now)

  asked-Writes :
      (P : List Bytes → Type 0) (e : Result Bytes) (w : List Bytes) (r : ByteReader)
      → Valid r
      → P w
      → ((address : Bytes) → e ≡ ok address → P (w ++ connect utf8 address ∷ []))
      → Writes P (asked utf8 e w r)
  unfolding asked
  asked-Writes P (err e) w r v now later = at_once P (err e) w r now
  asked-Writes P (ok address) w r v now later =
      let sent = w ++ connect utf8 address ∷ [] in
      hear_then P 4 sent r (answered utf8) v (later address refl)
        (λ r' v' fits same. answered-Writes P (take 4 (pending r)) sent r' v' (later address refl))

-- The answer to the greeting, for each method that is gone on with.
chosen_shape :
    (p : Proxy) (a b m : ℕ)
    → chosen p (a ∷ b ∷ []) ≡ ok m
    → ((a ≡ 5) × (b ≡ 0) × (m ≡ 0)) ⊎ ((a ≡ 5) × (b ≡ 2) × (m ≡ 2) × (has_credentials p ≡ true))
unfolding chosen
chosen_shape p a b m e = ground arith

accepted_shape :
    (utf8 : Text → Bytes) (a b : ℕ) (u : Unit {0})
    → accepted utf8 (a ∷ b ∷ []) ≡ ok u
    → (a ≡ 1) × (b ≡ 0)
unfolding accepted
accepted_shape utf8 a b u e = ground arith

two_bytes : (s : Bytes) → 2 ≤ length s → (a : ℕ) × (b : ℕ) × (take 2 s ≡ a ∷ b ∷ [])
two_bytes [] h = absurd (omega arith)
two_bytes (a ∷ []) h = absurd (omega arith)
two_bytes (a ∷ b ∷ s) h = (a, b, refl)

module _ (utf8 : Text → Bytes) (p : Proxy) (hostname : Text) (port : ℕ) where
  -- The messages `w`, and the request for the tunnel if it is written too.
  unfoldable pub AsksFor : List Bytes → List Bytes → Type 0
  AsksFor w w' =
      (w' ≡ w)
      ⊎ ((address : Bytes) × (encode_address utf8 hostname port ≡ ok address)
          × (w' ≡ w ++ connect utf8 address ∷ []))

  -- What is written for the bytes `s` that the proxy sends: always the greeting; the credentials only if
  -- there are some and the proxy chose the method 2 for them; the request only behind the choice of no
  -- method, or behind the credentials once they are accepted.
  unfoldable pub IsCareful : Bytes → List Bytes → Type 0
  unfolding AsksFor
  IsCareful s w =
      (w ≡ greeting p ∷ [])
      ⊎ ((take 2 s ≡ 5 ∷ 0 ∷ []) × AsksFor (greeting p ∷ []) w)
      ⊎ ((take 2 s ≡ 5 ∷ 2 ∷ [])
          × (has_credentials p ≡ true)
          × ((w ≡ greeting p ∷ credentials utf8 p ∷ [])
              ⊎ ((take 2 (drop 2 s) ≡ 1 ∷ 0 ∷ [])
                  × AsksFor (greeting p ∷ credentials utf8 p ∷ []) w)))

  request-Writes :
      (P : List Bytes → Type 0) (w : List Bytes) (r : ByteReader)
      → Valid r
      → ((w' : List Bytes) → AsksFor w w' → P w')
      → Writes P (request utf8 hostname port w r)
  unfolding request AsksFor
  request-Writes P w r v all =
      asked-Writes utf8 P (encode_address utf8 hostname port) w r v (all w (inl refl))
        (λ address e. all _ (inr (address, e, refl)))

  told :
      (s : Bytes) (r : ByteReader)
      → Valid r
      → take 2 s ≡ 5 ∷ 2 ∷ []
      → has_credentials p ≡ true
      → pending r ≡ drop 2 s
      → Writes
          (IsCareful s)
          (talk_then (authenticate utf8 p (greeting p ∷ []) r) (λ done. request utf8 hostname port))
  unfolding authenticate IsCareful
  told s r v method some_user behind =
      if_holds
        (λ (t : Option ((Result (Unit {0}) × List Bytes) × ByteReader)).
          Writes (IsCareful s) (talk_then t (λ done. request utf8 hostname port)))
        (ltb 255 (length (utf8 p.username)) || ltb 255 (length (utf8 p.password)))
        (failed (IsCareful s) (config_error config_invalid) (greeting p ∷ []) r
          (λ (done : Unit {0}). request utf8 hostname port) (inl refl))
        (subst (Writes (IsCareful s)) (sym (talk_assoc (hear 2 sent r) _ _)) (
          hear_then (IsCareful s) 2 sent r _ v (inr (inr (method, some_user, inl refl)))
            (λ r' v' fits same.
              go_on (IsCareful s) (accepted utf8 (take 2 (pending r))) sent r' _
                (inr (inr (method, some_user, inl refl)))
                (λ a e.
                  let (x, y, shape) = two_bytes (pending r) fits in
                  let (one, zero_) =
                    accepted_shape utf8 x y a (ap (accepted utf8) (sym shape) ∙ e) in
                  request-Writes (IsCareful s) sent r' v' (λ w' asks. inr (
                    inr (
                      method,
                      some_user,
                      inr (ap (take 2) (sym behind) ∙ shape ∙ rw (one, zero_) refl, asks),
                    )))))))
    where
      sent : List Bytes
      sent = greeting p ∷ credentials utf8 p ∷ []

  proceed-Writes :
      (s : Bytes) (m : ℕ) (r : ByteReader)
      → Valid r
      → 2 ≤ length s
      → pending r ≡ drop 2 s
      → chosen p (take 2 s) ≡ ok m
      → Writes (IsCareful s) (proceed utf8 p hostname port m (greeting p ∷ []) r)
  unfolding proceed IsCareful
  proceed-Writes s m r v fits behind e =
      let (a, b, shape) = two_bytes s fits in
      elim (chosen_shape p a b m (ap (chosen p) (sym shape) ∙ e)) [
        | inl (five, none_, plain) ↦ rw plain (
            request-Writes (IsCareful s) (greeting p ∷ []) r v
              (λ w' asks. inr (inl (shape ∙ rw (five, none_) refl, asks))))
        | inr (five, two, user, some_user) ↦
            rw user (told s r v (shape ∙ rw (five, two) refl) some_user behind)
      ]

  -- A negotiation ends, whatever the proxy sends and however it is cut, and what it has written by then
  -- is: the greeting; the user's name and password only if the proxy has chosen them, and they were
  -- offered; the request for the tunnel only once the proxy wants no credentials or has accepted them.
  pub negotiate-IsCareful :
      (r : ByteReader)
      → Valid r
      → Writes (IsCareful (pending r)) (negotiate utf8 p hostname port [] r)
  unfolding negotiate greet IsCareful
  negotiate-IsCareful r v =
      subst (Writes (IsCareful (pending r)))
        (sym (talk_assoc (hear 2 (greeting p ∷ []) r) _ (proceed utf8 p hostname port)))
        (hear_then (IsCareful (pending r)) 2 (greeting p ∷ []) r _ v (inl refl)
          (λ r' v' fits behind.
            go_on (IsCareful (pending r)) (chosen p (take 2 (pending r))) (greeting p ∷ []) r'
              (proceed utf8 p hostname port) (inl refl)
              (λ m e. proceed-Writes (pending r) m r' v' fits behind e)))
