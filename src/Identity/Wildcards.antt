-- ===== src/Identity/Wildcards.antt =====
-- What a wildcard name covers.
use tunnelfetch.Prelude.{◌+◌, ◌<◌, ◌≡◌, refl, sym, ap, ◌∙◌, arith, true, false}
use tunnelfetch.Prelude.{
  some, List, [], ◌∷◌, ◌++◌, ltb, ◌==◌, if◌then◌else◌, length, ==-ne, ==_iff, ltb→le,
}
use mathlib.Core.Path.{subst}
use tunnelfetch.Prelude.Texts.{Text, includes, split, join, Words, Words-split}
use tunnelfetch.Bytes.Search.{equal-eq}
use tunnelfetch.Bytes.{equal}
use tunnelfetch.Identity.{
  wildcard_matches, lowered_matches, first_of, rest_of, dns_name_matches, SubjectAltNames,
  normalize_hostname, matches_identity, match_name, same_ip,
}
use tunnelfetch.Bytes.{Bytes}
use tunnelfetch.Errors.{ok, err, certificate_error, cert_name_mismatch}
use tunnelfetch.Prelude.{◌&&◌}

-- The host is one label, which is not empty and holds no dot, and then the name behind a dot.
pub record Covers (rest host : Text) : Type 0 where
  pub label : Text
  pub parts : host ≡ label ++ 46 ∷ rest
  pub nonempty : 0 < length label
  pub single : includes 46 label ≡ false

wildcard-tests :
    (rest host : Text)
    → wildcard_matches rest host ≡ true
    → ((length (split 46 host) == length (split 46 rest) + 1) ≡ true)
      × ((length (first_of (split 46 host)) == 0) ≡ false)
      × (equal (join 46 (rest_of (split 46 host))) rest ≡ true)
      × (ltb (length (split 46 rest)) 2 ≡ false)
unfolding wildcard_matches
wildcard-tests rest host e = ground arith

joins-Covers :
    (rest host : Text) (w : Words 46 host (split 46 host)) (v : Text) (vs : List Text)
    → w.others ≡ v ∷ vs
    → join 46 (rest_of (split 46 host)) ≡ rest
    → (length (first_of (split 46 host)) == 0) ≡ false
    → Covers rest host
unfolding join rest_of first_of
joins-Covers rest host w v vs more same full = record {
  label = w.first;
  parts =
      sym w.joined
      ∙ ap (λ o. join 46 (w.first ∷ o)) more
      ∙ ap (λ u. w.first ++ 46 ∷ u)
          (sym (ap (λ o. join 46 (rest_of o)) (w.shape ∙ ap (λ o. w.first ∷ o) more)) ∙ same);
  nonempty = let t = ==-ne _ _ (rw w.shape at full) in omega (arith, t);
  single = w.clean;
}

wildcard-Covers : (rest host : Text) → wildcard_matches rest host ≡ true → Covers rest host
wildcard-Covers rest host e =
    let t = wildcard-tests rest host e in let w = Words-split 46 host in several w w.others refl t
  where
    several :
        (w : Words 46 host (split 46 host)) (os : List Text)
        → w.others ≡ os
        → ((length (split 46 host) == length (split 46 rest) + 1) ≡ true)
          × ((length (first_of (split 46 host)) == 0) ≡ false)
          × (equal (join 46 (rest_of (split 46 host))) rest ≡ true)
          × (ltb (length (split 46 rest)) 2 ≡ false)
        → Covers rest host
    several w [] o t =
        let count_ = ap length (w.shape ∙ ap (λ os. w.first ∷ os) o) in
        let many = ltb→le _ _ t.3 in
        let same = (==_iff _ _).0 t.0 in absurd (omega (arith, count_, many, same))
    several w (v ∷ vs) o t = joins-Covers rest host w v vs o (equal-eq _ _ t.2) t.1

wildcard_rest :
    (rest host : Text)
    → lowered_matches (42 ∷ 46 ∷ rest) host ≡ true
    → wildcard_matches rest host ≡ true
unfolding lowered_matches includes equal
wildcard_rest rest host e = e

lowered :
    (to_lower_case : Text → Text) (san host : Text)
    → dns_name_matches to_lower_case san host ≡ true
    → lowered_matches (to_lower_case san) host ≡ true
unfolding dns_name_matches
lowered to_lower_case san host e = ground arith

-- A name of a certificate that lowercases to "*." and a rest matches only hosts that are one label,
-- not empty and with no dot in it, followed by a dot and that rest.
pub dns_name_matches-Covers :
    (to_lower_case : Text → Text) (san rest host : Text)
    → to_lower_case san ≡ 42 ∷ 46 ∷ rest
    → dns_name_matches to_lower_case san host ≡ true
    → Covers rest host
dns_name_matches-Covers to_lower_case san rest host low e = wildcard-Covers rest host (
    wildcard_rest rest host
      (subst (λ s. lowered_matches s host ≡ true) low (lowered to_lower_case san host e)))

-- A host that is an address is accepted only where an address of the certificate has the same octets,
-- whatever the names of the certificate are; and it is accepted there.
pub matches_identity_ip :
    (to_lower_case : Text → Text) (san : SubjectAltNames) (hostname : Text) (ip : Bytes)
    → normalize_hostname to_lower_case hostname ≡ ok (some ip, hostname)
    → matches_identity to_lower_case san hostname ≡ (
        if san.present && same_ip ip san.ip
        then ok tt
        else err (certificate_error cert_name_mismatch))
unfolding matches_identity match_name
matches_identity_ip to_lower_case san hostname ip e = rw e (ground arith)
