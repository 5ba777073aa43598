-- ===== src/Identity/Addresses.antt =====
-- The address literals of src/trust/name.js.
use tunnelfetch.Prelude.{ℕ, ◌+◌, ◌-◌, ◌*◌, ◌%◌, ◌/◌, Bool, true, false, not, ◌&&◌, ◌||◌}
use tunnelfetch.Prelude.{
  Option, none, some, List, [], ◌∷◌, ◌++◌, ltb, leb, ◌==◌, if◌then◌else◌, length, drop, take,
  get_or, replicate,
}
use tunnelfetch.Prelude.Texts.{Text, includes, split, push}
use tunnelfetch.Bytes.{Bytes}

unfoldable pub digit : ℕ → Bool
digit c = leb 48 c && leb c 57

unfoldable pub all_digits : Text → Bool
all_digits [] = true
all_digits (c ∷ cs) = digit c && all_digits cs

-- `Number` of decimal digits, behind what has been read.
unfoldable pub decimal : ℕ → Text → ℕ
decimal n [] = n
decimal n (c ∷ cs) = decimal (n * 10 + (c - 48)) cs

pub parse_octet : Text → Option ℕ
parse_octet p =
    if not (leb 1 (length p) && leb (length p) 3 && all_digits p)
    then none
    else if ltb 1 (length p) && get_or p 0 0 == 48
    then none
    else if ltb 255 (decimal 0 p)
    then none
    else some (decimal 0 p)

pub prepend : {A : Type 0} → Option A → Option (List A) → Option (List A)
prepend (some x) (some xs) = some (x ∷ xs)
prepend x xs = none

pub parse_octets : List Text → Option Bytes
parse_octets [] = some []
parse_octets (p ∷ ps) = prepend (parse_octet p) (parse_octets ps)

pub parse_ipv4 : Text → Option Bytes
parse_ipv4 text = if not (length (split 46 text) == 4) then none else parse_octets (split 46 text)

-- A hexadecimal digit's value.
unfoldable pub hex_value : ℕ → Option ℕ
hex_value c =
    if digit c
    then some (c - 48)
    else if leb 97 c && leb c 102
    then some (c - 87)
    else if leb 65 c && leb c 70
    then some (c - 55)
    else none

-- `parseInt(p, 16)` of hexadecimal digits, and nothing for others.
unfoldable pub hexadecimal : ℕ → Text → Option ℕ
hexadecimal n [] = some n
hexadecimal n (c ∷ cs) = elim (hex_value c) [ some v ↦ hexadecimal (n * 16 + v) cs | none ↦ none ]

unfoldable pub parse_group : Text → Option ℕ
parse_group p = if leb 1 (length p) && leb (length p) 4 then hexadecimal 0 p else none

pub embedded : Option Bytes → Option (List ℕ)
embedded (some (a ∷ b ∷ c ∷ d ∷ [])) = some ((a * 256 + b) ∷ (c * 256 + d) ∷ [])
embedded v4 = none

-- The loop of `parseRun`: an embedded address stands last in the tail or nowhere.
pub parse_groups : Bool → List Text → Option (List ℕ)
parse_groups is_tail [] = some []
parse_groups is_tail (p ∷ ps) =
    let rest = parse_groups is_tail ps in
    if length p == 0
    then none
    else if includes 46 p
    then (if not is_tail || ltb 0 (length ps) then none else embedded (parse_ipv4 p))
    else prepend (parse_group p) rest

pub parse_run : Text → Bool → Option (List ℕ)
parse_run run is_tail = if length run == 0 then some [] else parse_groups is_tail (split 58 run)

-- `text.split('::')`
pub split_double : Text → List Text
split_double [] = [] ∷ []
split_double (x ∷ []) = (x ∷ []) ∷ []
split_double (x ∷ y ∷ xs) =
    let past = split_double xs in
    let on = split_double (y ∷ xs) in if x == 58 && y == 58 then [] ∷ past else push x on

pub fill_groups : Option (List ℕ) → Option (List ℕ) → Option (List ℕ)
fill_groups (some left) (some right) =
    if ltb (length left + length right) 8
    then some (left ++ replicate (8 - length left - length right) 0 ++ right)
    else none
fill_groups left right = none

pub whole_groups : Option (List ℕ) → Option (List ℕ)
whole_groups none = none
whole_groups (some groups) = if length groups == 8 then some groups else none

pub groups_of : Text → List Text → Option (List ℕ)
groups_of text (left ∷ right ∷ []) = fill_groups (parse_run left false) (parse_run right true)
groups_of text (run ∷ []) = whole_groups (parse_run text true)
groups_of text halves = none

pub group_bytes : List ℕ → Bytes
group_bytes [] = []
group_bytes (g ∷ gs) = g / 256 ∷ g % 256 ∷ group_bytes gs

pub out_bytes : Option (List ℕ) → Option Bytes
out_bytes none = none
out_bytes (some groups) = some (group_bytes groups)

pub parse_ipv6 : Text → Option Bytes
parse_ipv6 text = if includes 37 text then none else out_bytes (groups_of text (split_double text))

pub last_unit : Text → ℕ
last_unit [] = 0
last_unit (c ∷ []) = c
last_unit (c ∷ d ∷ cs) = last_unit (d ∷ cs)

pub unbracket : Text → Text
unbracket t = if get_or t 0 0 == 91 && last_unit t == 93 then take (length t - 2) (drop 1 t) else t

pub dotted : Text → Bool
dotted [] = true
dotted (c ∷ cs) = (digit c || c == 46) && dotted cs

pub parse_ip : Text → Option Bytes
parse_ip text =
    let t = unbracket text in
    if includes 58 t
    then parse_ipv6 t
    else if ltb 0 (length t) && dotted t
    then parse_ipv4 t
    else none
