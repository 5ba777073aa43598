-- ===== src/Identity.antt =====
-- src/trust/name.js: whether a certificate is one for the host that was asked for. `===` on two
-- strings compares their units, as `equal` compares octets. `toLowerCase` is a parameter.
pub mod Addresses
pub mod Wildcards
use tunnelfetch.Prelude.{ℕ, zero, suc, ◌+◌, ◌-◌, ◌*◌, ◌%◌, ◌/◌, Bool, true, false, not, ◌&&◌, ◌||◌}
use tunnelfetch.Prelude.{
  Option, none, some, List, [], ◌∷◌, ◌++◌, ltb, leb, ◌==◌, if◌then◌else◌, length, drop, take,
  get_or,
}
use tunnelfetch.Prelude.Texts.{Text, includes, split, join}
use tunnelfetch.Bytes.{Bytes, equal}
use tunnelfetch.Errors.{
  Result, ok, err, config_error, certificate_error, config_invalid, cert_name_mismatch, ◌>>=◌,
}
use tunnelfetch.Identity.Addresses.{parse_ip, last_unit}
use Prim.Native.Nat.{bit_and}

-- `/^[\x21-\x7e]*$/`
unfoldable pub is_ascii : Text → Bool
is_ascii [] = true
is_ascii (c ∷ cs) = leb 0x21 c && leb c 0x7e && is_ascii cs

-- `subjectAltNames` of a certificate.
pub record SubjectAltNames : Type 0 where
  pub present : Bool
  pub dns : List Text
  pub ip : List Bytes

unfoldable pub some_empty : List Text → Bool
some_empty [] = false
some_empty (l ∷ ls) = length l == 0 || some_empty ls

unfoldable pub rest_of : List Text → List Text
rest_of [] = []
rest_of (l ∷ ls) = ls

unfoldable pub first_of : List Text → Text
first_of [] = []
first_of (l ∷ ls) = l

-- The wildcard rules, for what follows "*.".
unfoldable pub wildcard_matches : Text → Text → Bool
wildcard_matches rest host =
    if includes 42 rest
    then false
    else if ltb (length (split 46 rest)) 2 || some_empty (split 46 rest)
    then false
    else if not (length (split 46 host) == length (split 46 rest) + 1)
    then false
    else if length (first_of (split 46 host)) == 0
    then false
    else equal (join 46 (rest_of (split 46 host))) rest

-- `s` is the lowercased name; "*" is 42 and "." is 46.
unfoldable pub lowered_matches : Text → Text → Bool
lowered_matches s host =
    if not (includes 42 s)
    then equal s host
    else if not (equal (take 2 s) (42 ∷ 46 ∷ []))
    then false
    else wildcard_matches (drop 2 s) host

pub same_ip : Bytes → List Bytes → Bool
same_ip ip [] = false
same_ip ip (entry ∷ entries) = if equal entry ip then true else same_ip ip entries

pub strip_dot : Text → Text
strip_dot hostname =
    if last_unit hostname == 46 then take (length hostname - 1) hostname else hostname

-- iPAddress subtree: family, and each octet under its mask.
pub masked_equal : Bytes → Bytes → Bytes → Bool
masked_equal (i ∷ ip) (a ∷ addr) (m ∷ mask) =
    bit_and i m == bit_and a m && masked_equal ip addr mask
masked_equal ip addr mask = true

pub ip_within_subtree : Bytes → Bytes → Bytes → Bool
ip_within_subtree ip addr mask =
    if not (length ip == length addr) || not (length addr == length mask)
    then false
    else masked_equal ip addr mask

module _ (to_lower_case : Text → Text) where
  pub normalize_hostname : Text → Result (Option Bytes × Text)
  normalize_hostname hostname =
      if length hostname == 0 || includes 0 hostname
      then err (config_error config_invalid)
      else elim (parse_ip hostname) [
        | some ip ↦ ok (some ip, hostname)
        | none ↦
            if length (strip_dot hostname) == 0 || not (is_ascii (strip_dot hostname))
            then err (config_error config_invalid)
            else ok (none, to_lower_case (strip_dot hostname))
      ]

  unfoldable pub dns_name_matches : Text → Text → Bool
  dns_name_matches san host =
      if length san == 0 || includes 0 san || not (is_ascii san)
      then false
      else lowered_matches (to_lower_case san) host

  pub some_dns : Text → List Text → Bool
  some_dns host [] = false
  some_dns host (entry ∷ entries) =
      if dns_name_matches entry host then true else some_dns host entries

  pub match_name : SubjectAltNames → Option Bytes × Text → Result (Unit {0})
  match_name san (some ip, host) =
      if same_ip ip san.ip then ok tt else err (certificate_error cert_name_mismatch)
  match_name san (none, host) =
      if some_dns host san.dns then ok tt else err (certificate_error cert_name_mismatch)

  pub matches_identity : SubjectAltNames → Text → Result (Unit {0})
  matches_identity san hostname = normalize_hostname hostname >>= λ name.
      if not san.present then err (certificate_error cert_name_mismatch) else match_name san name

  -- `endsWith`
  pub ends_with : Text → Text → Bool
  ends_with t end = leb (length end) (length t) && equal (drop (length t - length end) t) end

  pub within_lowered : Text → Text → Bool
  within_lowered n b =
      if length b == 0
      then true
      else if get_or b 0 0 == 46
      then ltb (length b) (length n) && ends_with n b
      else equal n b || ends_with n (46 ∷ b)

  pub dns_within_subtree : Text → Text → Bool
  dns_within_subtree name base = within_lowered (to_lower_case name) (to_lower_case base)
