-- ===== src/Socks5/Addresses.antt =====
-- src/proxy/socks5.js: the addresses of requests. TextEncoder is a parameter.
use tunnelfetch.Prelude.{
  ℕ, ◌+◌, ◌-◌, ◌*◌, ◌%◌, Bool, true, false, not, ◌&&◌, ◌||◌, none, some, List, [], ◌∷◌, ◌++◌, ltb,
  leb, ◌==◌, if◌then◌else◌, length, take, replicate,
}
use tunnelfetch.Prelude.Texts.{Text, includes, split, push}
use tunnelfetch.Prelude.Words.{octet}
use tunnelfetch.Bytes.{Bytes}
use tunnelfetch.Errors.{Result, ok, err, Failure, config_error, config_invalid, ◌>>=◌}
use tunnelfetch.Identity.Addresses.{all_digits, decimal, parse_group}

abbrev pub invalid : Failure
invalid = config_error config_invalid

-- A group of the pattern of `isIpv4`, with a value that an octet holds.
abbrev is_octet : Text → Bool
is_octet o = leb 1 (length o) && leb (length o) 3 && all_digits o && leb (decimal 0 o) 255

abbrev all_octets : List Text → Bool
all_octets [] = true
all_octets (o ∷ os) = is_octet o && all_octets os

unfoldable pub is_ipv4 : Text → Bool
is_ipv4 h = length (split 46 h) == 4 && all_octets (split 46 h)

abbrev pub numbers : List Text → List ℕ
numbers [] = []
numbers (o ∷ os) = decimal 0 o ∷ numbers os

-- `replace(/^\[|\]$/g, '')`
abbrev drop_open : Text → Text
drop_open [] = []
drop_open (c ∷ cs) = if c == 91 then cs else c ∷ cs

unfoldable pub drop_close : Text → Text
drop_close [] = []
drop_close (c ∷ []) = if c == 93 then [] else c ∷ []
drop_close (c ∷ d ∷ cs) = c ∷ drop_close (d ∷ cs)

-- What stands before the zone.
unfoldable pub before_zone : Text → Text
before_zone [] = []
before_zone (c ∷ cs) = let rest = before_zone cs in if c == 37 then [] else c ∷ rest

-- The text up to the last colon, it included, and what is behind it.
unfoldable pub at_last_colon : Text → Text × Text
at_last_colon [] = ([], [])
at_last_colon (c ∷ cs) =
    let rest = at_last_colon cs in
    if includes 58 (c ∷ cs)
    then (if includes 58 cs then (c ∷ rest.0, rest.1) else (c ∷ [], cs))
    else ([], c ∷ cs)

-- `s.split('::')`
unfoldable pub split_double : Text → List Text
split_double [] = [] ∷ []
split_double (c ∷ []) = (c ∷ []) ∷ []
split_double (c ∷ d ∷ cs) = elim (c == 58 && d == 58) [
  | true ↦ [] ∷ split_double cs
  | false ↦ push c (split_double (d ∷ cs))
]

unfoldable pub parse_groups : List Text → Result (List ℕ)
parse_groups [] = ok []
parse_groups (g ∷ gs) =
    let rest = parse_groups gs in
    elim (parse_group g) [ none ↦ err invalid | some n ↦ rest >>= λ ns. ok (n ∷ ns) ]

-- `parse`
unfoldable pub parse_half : Text → Result (List ℕ)
unfolding parse_groups
parse_half [] = ok []
parse_half (c ∷ cs) = parse_groups (split 58 (c ∷ cs))

unfoldable pub groups_of : List Text → Result (List ℕ)
unfolding parse_half
groups_of (h ∷ []) = parse_half h
groups_of (h ∷ r ∷ []) = parse_half h >>= λ head. parse_half r >>= λ rest.
    if ltb 8 (length head + length rest)
    then err invalid
    else ok (head ++ replicate (8 - length head - length rest) 0 ++ rest)
groups_of halves = err invalid

abbrev is_nil : List ℕ → Bool
is_nil [] = true
is_nil (n ∷ ns) = false

abbrev group_bytes : List ℕ → Bytes
group_bytes [] = []
group_bytes (g ∷ gs) = octet g 8 ∷ g % 256 ∷ group_bytes gs

-- What is done with the groups, `tail` being those of an embedded IPv4 address.
unfoldable pub finish_groups : List ℕ → List ℕ → Result Bytes
finish_groups tail groups =
    let all = if is_nil tail then groups else take 8 (take 6 groups ++ tail) in
    if not (length all == 8) then err invalid else ok (group_bytes all)

abbrev pair_groups : List ℕ → List ℕ
pair_groups (a ∷ b ∷ c ∷ d ∷ []) = (a * 256 + b) ∷ (c * 256 + d) ∷ []
pair_groups os = []

-- The text without an embedded IPv4 address, and the groups of that.
unfoldable pub embedded : Text → Result (Text × List ℕ)
unfolding at_last_colon is_ipv4
embedded s =
    let (front, last) = at_last_colon s in
    if not (includes 46 last)
    then ok (s, [])
    else if not (is_ipv4 last)
    then err invalid
    else ok (front ++ (48 ∷ 58 ∷ 48 ∷ []), pair_groups (numbers (split 46 last)))

unfoldable pub parse_ipv6 : Text → Result Bytes
unfolding drop_close before_zone embedded split_double groups_of finish_groups
parse_ipv6 text = do
  (s, tail) ← embedded (before_zone (drop_close (drop_open text)))
  groups ← groups_of (split_double s)
  finish_groups tail groups

unfoldable pub encode_address : (Text → Bytes) → Text → ℕ → Result Bytes
unfolding is_ipv4 parse_ipv6
encode_address utf8 hostname port =
    let port_bytes = octet port 8 ∷ port % 256 ∷ [] in
    if is_ipv4 hostname
    then ok ((1 ∷ numbers (split 46 hostname)) ++ port_bytes)
    else if includes 58 hostname
    then (parse_ipv6 hostname >>= λ address. ok ((4 ∷ address) ++ port_bytes))
    else if length (utf8 hostname) == 0 || ltb 255 (length (utf8 hostname))
    then err invalid
    else ok ((3 ∷ length (utf8 hostname) ∷ utf8 hostname) ++ port_bytes)
