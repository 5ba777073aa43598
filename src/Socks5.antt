-- ===== src/Socks5.antt =====
-- src/proxy/socks5.js: the negotiation with a SOCKS5 proxy, over the byte reader. What is written is
-- a list of messages; a write that fails is left out, and so are the socket and its closing.
pub mod Addresses
pub mod Credentials
use tunnelfetch.Prelude.{
  ℕ, ◌+◌, Bool, true, false, not, ◌&&◌, ◌||◌, Option, none, some, List, [], ◌∷◌, ◌++◌, ltb, ◌==◌,
  if◌then◌else◌, length, get_or,
}
use tunnelfetch.Prelude.Texts.{Text}
use tunnelfetch.Bytes.{Bytes, at}
use tunnelfetch.Errors.{
  Result, ok, err, Failure, proxy_error, config_error, config_invalid, proxy_protocol,
  proxy_auth_failed, socks5_no_acceptable_auth, socks5_reply, socks5_addr_type,
}
use tunnelfetch.Reader.{ByteReader, Read, read_exactly}
use tunnelfetch.Socks5.Addresses.{encode_address}

-- What was written so far comes and goes with the reader. `none`: the fuel of a read ran out.
abbrev pub Talk : Type 0 → Type 0
Talk A = List Bytes → ByteReader → Option ((Result A × List Bytes) × ByteReader)

-- What follows an `await` that did not throw.
unfoldable pub talk_then :
    {A B : Type 0}
    → Option ((Result A × List Bytes) × ByteReader)
    → (A → Talk B)
    → Option ((Result B × List Bytes) × ByteReader)
talk_then none next = none
talk_then (some ((err e, w), r)) next = some ((err e, w), r)
talk_then (some ((ok a, w), r)) next = next a w r

abbrev pub fail : {A : Type 0} → Failure → Talk A
fail e w r = some ((err e, w), r)

abbrev pub give : {A : Type 0} → A → Talk A
give a w r = some ((ok a, w), r)

unfoldable pub heard :
    List Bytes
    → Option (Result Bytes × ByteReader)
    → Option ((Result Bytes × List Bytes) × ByteReader)
heard w none = none
heard w (some (err e, r)) = some ((err (proxy_error proxy_protocol), w), r)
heard w (some (ok b, r)) = some ((ok b, w), r)

-- `readExactly`
unfoldable pub hear : ℕ → Talk Bytes
unfolding heard
hear n w r = heard w (read_exactly n r)

-- `username` is null or empty where there are no credentials, which is `[]` here; `password` is [] where
-- it is null.
pub record Proxy : Type 0 where
  pub username : Text
  pub password : Text

abbrev pub has_credentials : Proxy → Bool
has_credentials p = not (length p.username == 0)

abbrev pub greeting : Proxy → Bytes
greeting p = if has_credentials p then 5 ∷ 2 ∷ 0 ∷ 2 ∷ [] else 5 ∷ 1 ∷ 0 ∷ []

-- The tests on the answer to the greeting, which give the method.
unfoldable pub chosen : Proxy → Bytes → Result ℕ
chosen p reply =
    if not (at reply 0 == 5)
    then err (proxy_error proxy_protocol)
    else if at reply 1 == 0xff
    then err (proxy_error socks5_no_acceptable_auth)
    else if not (at reply 1 == 0) && not (has_credentials p && at reply 1 == 2)
    then err (proxy_error socks5_no_acceptable_auth)
    else ok (at reply 1)

abbrev lift : {A : Type 0} → Result A → Talk A
lift x w r = some ((x, w), r)

unfoldable pub greet : Proxy → Talk ℕ
unfolding hear chosen talk_then
greet p w r = talk_then (hear 2 (w ++ greeting p ∷ []) r) (λ reply. lift (chosen p reply))

module _ (utf8 : Text → Bytes) where
  abbrev pub credentials : Proxy → Bytes
  credentials p =
      (1 ∷ length (utf8 p.username) ∷ utf8 p.username)
      ++ (length (utf8 p.password) ∷ utf8 p.password)

  unfoldable pub accepted : Bytes → Result (Unit {0})
  accepted reply =
      if not (at reply 0 == 1)
      then err (proxy_error proxy_protocol)
      else if not (at reply 1 == 0)
      then err (proxy_error proxy_auth_failed)
      else ok tt

  unfoldable pub authenticate : Proxy → Talk (Unit {0})
  unfolding hear accepted talk_then
  authenticate p w r =
      if ltb 255 (length (utf8 p.username)) || ltb 255 (length (utf8 p.password))
      then fail (config_error config_invalid) w r
      else talk_then (hear 2 (w ++ credentials p ∷ []) r) (λ reply. lift (accepted reply))

  unfoldable pub bound_address_length : ℕ → Talk ℕ
  unfolding hear talk_then
  bound_address_length atyp w r =
      if atyp == 1
      then give 4 w r
      else if atyp == 4
      then give 16 w r
      else if atyp == 3
      then talk_then (hear 1 w r) (λ size. give (at size 0))
      else fail (proxy_error socks5_addr_type) w r

  -- The rest of a reply, the status `rep` being looked at once it is all read.
  unfoldable pub drain_reply : ℕ → ℕ → Talk (Unit {0})
  unfolding bound_address_length hear talk_then
  drain_reply rep atyp w r = talk_then (bound_address_length atyp w r) (λ size w1 r1.
      talk_then (hear (size + 2) w1 r1)
        (λ address. lift (if not (rep == 0) then err (proxy_error socks5_reply) else ok tt)))

  abbrev pub connect : Bytes → Bytes
  connect address = (5 ∷ 1 ∷ 0 ∷ []) ++ address

  unfoldable pub answered : Bytes → Talk (Unit {0})
  unfolding drain_reply
  answered head w r =
      if not (at head 0 == 5)
      then fail (proxy_error proxy_protocol) w r
      else drain_reply (at head 1) (at head 3) w r

  -- The request, with the address that it has or the error that it throws.
  unfoldable pub asked : Result Bytes → Talk (Unit {0})
  unfolding hear talk_then answered
  asked (err e) w r = fail e w r
  asked (ok address) w r = talk_then (hear 4 (w ++ connect address ∷ []) r) answered

  unfoldable pub request : Text → ℕ → Talk (Unit {0})
  unfolding asked encode_address
  request hostname port = asked (encode_address utf8 hostname port)

  -- What follows the choice of a method.
  unfoldable pub proceed : Proxy → Text → ℕ → ℕ → Talk (Unit {0})
  unfolding authenticate request talk_then
  proceed p hostname port method w r =
      if method == 2
      then talk_then (authenticate p w r) (λ done. request hostname port)
      else request hostname port w r

  -- `openSocks5`, once the socket is open.
  unfoldable pub negotiate : Proxy → Text → ℕ → Talk (Unit {0})
  unfolding greet proceed talk_then
  negotiate p hostname port w r = talk_then (greet p w r) (proceed p hostname port)
