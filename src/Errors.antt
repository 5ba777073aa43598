-- ===== src/Errors.antt =====
-- src/errors.js: the typed errors, without their messages. A throwing function returns a `Result`.
use tunnelfetch.Prelude.{ℕ, Bool, true, false, Option, ◌≡◌, ◌≢◌, ◌⊎◌, inl, inr, refl}

pub data Code : Type 0 where
  proxy_connect_refused proxy_auth_required proxy_auth_failed proxy_protocol proxy_unreachable :
      Code
  socks5_no_acceptable_auth socks5_reply socks5_addr_type : Code
  http_request_line http_status_line http_header http_framing_ambiguous http_chunk : Code
  http_body_truncated http_trailer http_upgrade_unexpected : Code
  tls_record tls_alert tls_handshake tls_truncated tls_version_unsupported : Code
  tls_cipher_unsupported tls_group_unsupported tls_sigalg_unsupported : Code
  tls_extension_unsupported tls_alpn tls_psk tls_ticket : Code
  http2_protocol http2_frame_size http2_settings http2_flow_control http2_stream_state : Code
  http2_stream_closed http2_goaway http2_compression http2_header http2_push_unexpected : Code
  http2_trailer : Code
  cert_parse cert_chain_incomplete cert_untrusted_root cert_signature_invalid : Code
  cert_signature_weak cert_signature_unsupported cert_expired cert_not_yet_valid : Code
  cert_name_mismatch cert_constraint cert_pin_mismatch : Code
  ocsp_parse ocsp_unverified ocsp_mismatch ocsp_stale ocsp_revoked ocsp_unknown : Code
  ocsp_required : Code
  http_content_encoding http_charset redirect_invalid_location redirect_loop redirect_scheme : Code
  cookie_invalid pool_closed connection_closed : Code
  timeout_connect timeout_handshake timeout_headers timeout_idle timeout_total : Code
  limit_body limit_header limit_redirects : Code
  config_unsatisfiable config_invalid : Code

-- The classes of errors.js that the modelled code throws. `UnexpectedEofError` (util/bytes.js)
-- keeps its two numbers, since callers read `got`; `none` is its `wanted` of -1.
pub data Failure : Type 0 where
  unexpected_eof : Option ℕ → ℕ → Failure
  tunnel_fetch_error http_error tls_error http2_error http2_retryable proxy_error : Code → Failure
  limit_error config_error certificate_error : Code → Failure

pub data Result {ℓ} (A : Type ℓ) : Type ℓ where
  err : Failure → Result A
  ok : A → Result A

-- `if (!test) throw thrown`
abbrev pub require : Bool → Failure → Result (Unit {0})
require false thrown = err thrown
require true thrown = ok tt

-- What follows a call that may throw, in the order of the source's statements.
module _ {ℓ κ} {A : Type ℓ} {B : Type κ} where
  infixl 5 ◌>>=◌
  abbrev pub ◌>>=◌ : Result A → (A → Result B) → Result B
  err thrown >>= next = err thrown
  ok value >>= next = next value

  -- A chain that succeeds has succeeded at its first step.
  pub bind_inversion :
      (first : Result A) (next : A → Result B) {y : B}
      → (first >>= next) ≡ ok y
      → (x : A) × (first ≡ ok x) × (next x ≡ ok y)
  bind_inversion (err thrown) next e = cc
  bind_inversion (ok value) next e = (value, refl, e)

module _ {ℓ} {B : Type ℓ} where
  infixl 5 ◌>>◌
  abbrev pub ◌>>◌ : Result (Unit {0}) → Result B → Result B
  test >> rest = test >>= λ passed. rest

pub ok-inj {ℓ} : {A : Type ℓ} {a b : A} → ok a ≡ ok b → a ≡ b
ok-inj h = cc

pub err≢ok {ℓ} : {A : Type ℓ} {e : Failure} {a : A} → err e ≢ ok a
err≢ok h = cc

pub Result-cases {ℓ} :
    {A : Type ℓ} (m : Result A) → ((a : A) × (m ≡ ok a)) ⊎ ((e : Failure) × (m ≡ err e))
Result-cases (ok a) = inl (a, refl)
Result-cases (err e) = inr (e, refl)

-- What is chosen by a result has what it has on both sides.
pub result_holds {κ μ} :
    {A : Type 0} {B : Type κ} (P : B → Type μ) (r : Result A) {f : Failure → B} {g : A → B}
    → ((e : Failure) → r ≡ err e → P (f e))
    → ((a : A) → r ≡ ok a → P (g a))
    → P (elim r [ err e ↦ f e | ok a ↦ g a ])
result_holds P (err e) p q = p e refl
result_holds P (ok a) p q = q a refl
