-- ===== src/Examples/Names.antt =====
-- The static table of HPACK and the names of certificates.
use tunnelfetch.Prelude.{ℕ, ◌≡◌, refl, true, false, List, [], ◌∷◌, some, arith}
use tunnelfetch.Prelude.Texts.{Text, includes, split, join}
use tunnelfetch.Bytes.{equal}
use tunnelfetch.Errors.{ok}
use tunnelfetch.Hpack.{new_decoder, lookup}
use tunnelfetch.Hpack.StaticTable.{units, static_table}
use tunnelfetch.Hpack.Encoder.{index, lookup_from, static_lookup}
use tunnelfetch.Hpack.Encoder.Lookups.{lookup-static_lookup}
use tunnelfetch.Identity.{
  is_ascii, some_empty, rest_of, first_of, wildcard_matches, lowered_matches, dns_name_matches,
}
use tunnelfetch.Headers.{curl_header_order, rank, reorder, get, set}
use tunnelfetch.Headers.Order.{IsPlaced, Sorted, of_rank, reorder_sorts, get-set}
use tunnelfetch.Identity.Wildcards.{Covers, dns_name_matches-Covers}

method_get : static_lookup (units ":method") (units "GET") ≡ index 2
unfolding static_lookup lookup_from static_table equal
method_get = refl

lookup-static_lookup_example :
    lookup 2 (new_decoder 4096 262144) ≡ ok (units ":method", units "GET")
lookup-static_lookup_example =
    lookup-static_lookup (units ":method") (units "GET") 2 (new_decoder 4096 262144) method_get

-- Names that are in lower case already.
abbrev in_lower_case : Text → Text
in_lower_case t = t

covered : dns_name_matches in_lower_case (units "*.example.com") (units "www.example.com") ≡ true
unfolding dns_name_matches is_ascii lowered_matches wildcard_matches includes split join equal
    some_empty rest_of first_of
covered = refl

-- One label is covered, and two are not.
bare : dns_name_matches in_lower_case (units "*.example.com") (units "a.b.example.com") ≡ false
unfolding dns_name_matches is_ascii lowered_matches wildcard_matches includes split join equal
    some_empty rest_of first_of
bare = refl

dns_name_matches-Covers_example : Covers (units "example.com") (units "www.example.com")
dns_name_matches-Covers_example =
    dns_name_matches-Covers in_lower_case (units "*.example.com") (units "example.com")
      (units "www.example.com") refl covered

abbrev fields : List (Text × Text)
fields =
    (units "x-one", units "1")
    ∷ (units "accept", units "*/*")
    ∷ (units "x-one", units "2")
    ∷ (units "host", units "a")
    ∷ []

abbrev sorted : List (Text × Text)
sorted = reorder in_lower_case curl_header_order fields

reorder_sorts_example :
    ((e : Text × Text) → IsPlaced curl_header_order e.0 (rank in_lower_case curl_header_order e))
    × Sorted in_lower_case curl_header_order sorted
    × ((r : ℕ)
        → of_rank in_lower_case curl_header_order r sorted
          ≡ of_rank in_lower_case curl_header_order r fields)
    × (get in_lower_case (units "x-one") sorted ≡ get in_lower_case (units "x-one") fields)
reorder_sorts_example = reorder_sorts in_lower_case curl_header_order (units "x-one") fields

get-set_example :
    (es : List (Text × Text)) × (set in_lower_case (units "x-one") (units "3") fields ≡ ok es)
    × (get in_lower_case (units "x-one") es ≡ some (units "3"))
get-set_example = get-set in_lower_case (units "x-one") (units "3") fields (omega arith)
