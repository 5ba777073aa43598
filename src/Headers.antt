-- ===== src/Headers.antt =====
-- src/client/header-order.js: the header list that keeps its order. `toLowerCase` is a parameter, and
-- `===` on strings compares their units, as `equal` compares octets.
pub mod Order
use tunnelfetch.Prelude.{
  ℕ, zero, suc, ◌+◌, Bool, true, false, not, Option, none, some, List, [], ◌∷◌, ◌++◌, ltb, leb,
  ◌==◌, if◌then◌else◌, length,
}
use tunnelfetch.Prelude.Texts.{Text}
use tunnelfetch.Bytes.{equal}
use tunnelfetch.Errors.{Result, ok, err, http_error, http_header, ◌>>=◌}
use tunnelfetch.Hpack.StaticTable.{units}

-- A name as it was written, and a value.
abbrev pub Entry : Type 0
Entry = Text × Text

pub curl_header_order : List Text
curl_header_order =
    units "host"
    ∷ units "user-agent"
    ∷ units "accept"
    ∷ units "accept-encoding"
    ∷ units "*"
    ∷ units "connection"
    ∷ units "content-length"
    ∷ units "content-type"
    ∷ []

-- `values.join(', ')`
pub join_values : Text → List Text → Text
join_values v [] = v
join_values v (w ∷ ws) = v ++ units ", " ++ join_values w ws

pub joined : List Text → Option Text
joined [] = none
joined (v ∷ vs) = some (join_values v vs)

pub append : Text → Text → List Entry → Result (List Entry)
append name value list =
    if length name == 0 then err (http_error http_header) else ok (list ++ (name, value) ∷ [])

-- The constructor, over the pairs that `init` yields.
pub append_all : List Entry → List Entry → Result (List Entry)
append_all [] list = ok list
append_all (e ∷ es) list = append e.0 e.1 list >>= append_all es

pub new_headers : List Entry → Result (List Entry)
new_headers pairs = append_all pairs []

-- `order.indexOf(name)` from position i on, and the position that a Map ends with for a name: the last.
pub position : Text → ℕ → List Text → Option ℕ
position name i [] = none
position name i (o ∷ os) = if equal o name then some i else position name (i + 1) os

pub last_position : Text → ℕ → List Text → Option ℕ
last_position name i [] = none
last_position name i (o ∷ os) = elim (last_position name (i + 1) os) [
  | some at ↦ some at
  | none ↦ if equal o name then some i else none
]

pub or_else : Option ℕ → ℕ → ℕ
or_else none d = d
or_else (some n) d = n

-- The rank of a lowercased name: "*" is no name of the map, and stands for those that are not in it.
pub rank_of : List Text → Text → ℕ
rank_of order name =
    let fallback = or_else (position (units "*") 0 order) (length order) in
    if equal name (units "*") then fallback else or_else (last_position name 0 order) fallback

module _ (to_lower_case : Text → Text) where
  pub named : Text → Entry → Bool
  named lower e = equal (to_lower_case e.0) lower

  pub index_of_name : Text → ℕ → List Entry → Option ℕ
  index_of_name lower i [] = none
  index_of_name lower i (e ∷ es) = if named lower e then some i else index_of_name lower (i + 1) es

  pub has_named : Text → List Entry → Bool
  has_named lower [] = false
  has_named lower (e ∷ es) = if named lower e then true else has_named lower es

  pub has : Text → List Entry → Bool
  has name list = has_named (to_lower_case name) list

  pub hits : Text → List Entry → List Text
  hits lower [] = []
  hits lower (e ∷ es) = if named lower e then e.1 ∷ hits lower es else hits lower es

  pub get : Text → List Entry → Option Text
  get name list = joined (hits (to_lower_case name) list)

  pub delete_named : Text → List Entry → List Entry
  delete_named lower [] = []
  delete_named lower (e ∷ es) =
      if named lower e then delete_named lower es else e ∷ delete_named lower es

  pub delete : Text → List Entry → List Entry
  delete name list = delete_named (to_lower_case name) list

  -- The first entry of the name takes the value, in its place and as its name is written, and the
  -- filter takes away the others of the name.
  pub set_named : Text → Text → List Entry → List Entry
  set_named lower value [] = []
  set_named lower value (e ∷ es) =
      if named lower e then (e.0, value) ∷ delete_named lower es else e ∷ set_named lower value es

  pub set : Text → Text → List Entry → Result (List Entry)
  set name value list =
      if has name list
      then ok (set_named (to_lower_case name) value list)
      else append name value list

  pub rank : List Text → Entry → ℕ
  rank order e = rank_of order (to_lower_case e.0)

  -- The comparison by rank and then by position never ties, so that the sort is by rank, and stable.
  pub insert_by : List Text → Entry → List Entry → List Entry
  insert_by order e [] = e ∷ []
  insert_by order e (f ∷ fs) =
      if leb (rank order e) (rank order f) then e ∷ f ∷ fs else f ∷ insert_by order e fs

  pub reorder : List Text → List Entry → List Entry
  reorder order [] = []
  reorder order (e ∷ es) = insert_by order e (reorder order es)

  pub lowercased : List Entry → List Entry
  lowercased [] = []
  lowercased (e ∷ es) = (to_lower_case e.0, e.1) ∷ lowercased es
