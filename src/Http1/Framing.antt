-- ===== src/Http1/Framing.antt =====
-- src/http1/response.js, bodyFraming: what a framing that is given stands on.
use tunnelfetch.Prelude.{
  ℕ, ◌^◌, ◌<◌, ◌≡◌, ◌⊎◌, inl, inr, refl, sym, ap, ◌∙◌, Bool, true, false, not, ◌&&◌, ◌||◌, Option,
  none, some, List, [], ◌∷◌, ◌++◌, map, leb, ◌==◌, if_cases, not-false, and_both, All, arith,
  leb→lt, Bool-cases,
}
use mathlib.Core.Path.{subst}
use tunnelfetch.Prelude.Texts.{Text, split}
use tunnelfetch.Bytes.{equal}
use tunnelfetch.Bytes.Search.{equal_refl}
use tunnelfetch.Errors.{Result, ok, ok-inj, err≢ok}
use tunnelfetch.Hpack.StaticTable.{units}
use tunnelfetch.Identity.Addresses.{all_digits, decimal}
use tunnelfetch.Connection.State.{FieldList}
use tunnelfetch.Connection.Fields.{Platform}
use tunnelfetch.Http1.Fields.{is_empty}
use tunnelfetch.Http1.Response.{
  Kind, no_body, chunked, until_close, content_length, Framing, framed, all_texts, is_coding,
  is_length, last_text, by_codings, by_lengths, list_elements, by_fields, body_framing,
}

pub equal_same : (a b : Text) → equal a b ≡ true → a ≡ b
unfolding equal
equal_same [] [] h = refl
equal_same [] (b ∷ bs) h = absurd (cc h)
equal_same (a ∷ as') [] h = absurd (cc h)
equal_same (a ∷ as') (b ∷ bs) h = ground (arith, equal_same as' bs)

-- A value of Content-Length that reads as `n`.
abbrev pub IsLengthOf : ℕ → Text → Type 0
IsLengthOf n v = (is_empty v ≡ false) × (all_digits v ≡ true) × (decimal 0 v ≡ n)

-- The only codings that can be decoded.
abbrev pub IsDecodable : Text → Type 0
IsDecodable c = (c ≡ units "chunked") ⊎ (c ≡ units "identity")

-- A Transfer-Encoding whose list, lowered, is of such codings alone and ends with this one.
abbrev pub EndsWith : Platform → Text → Option Text → Type 0
EndsWith platform last te =
    (value : Text) × (front : List Text) × (te ≡ some value)
    × (map platform.to_lower_case (list_elements platform value) ≡ front ++ last ∷ [])
    × All IsDecodable front

-- What the two fields must be for a framing of this kind. The end of the body is known, and the
-- connection may be used again, unless the body lasts until the end of the stream. A length is what
-- every value of Content-Length reads as, with no Transfer-Encoding beside it. A chunked body has no
-- Content-Length, and a Transfer-Encoding of chunked and identity alone that ends with chunked. A body
-- until the end of the stream has neither field, or such a Transfer-Encoding that ends with identity.
unfoldable pub IsStated : Platform → Option Text → Option Text → Kind → Bool → Type 0
IsStated platform te cl no_body eligible = true ≡ false
IsStated platform te cl until_close eligible =
    (eligible ≡ false) × (cl ≡ none) × ((te ≡ none) ⊎ EndsWith platform (units "identity") te)
IsStated platform te cl (content_length n) eligible =
    (eligible ≡ true)
    × (te ≡ none)
    × (n < 2 ^ 53)
    × ((value : Text) × (cl ≡ some value) × All (IsLengthOf n) (map platform.trim (split 44 value)))
IsStated platform te cl chunked eligible =
    (eligible ≡ true) × (cl ≡ none) × EndsWith platform (units "chunked") te

is_coding-IsDecodable : (c : Text) → is_coding c ≡ true → IsDecodable c
is_coding-IsDecodable c h = elim (Bool-cases (equal c (units "chunked"))) [
  | inl y ↦ inl (equal_same c (units "chunked") y)
  | inr n ↦ inr (equal_same c (units "identity") (ground arith))
]

-- Codings that are known: those before the last, and the last.
last_text_behind :
    (t : Text) (ts : List Text)
    → all_texts is_coding (t ∷ ts) ≡ true
    → ((front : List Text) × (t ∷ ts ≡ front ++ last_text t ts ∷ []) × All IsDecodable front)
      × IsDecodable (last_text t ts)
last_text_behind t [] h =
    (([], refl, tt), is_coding-IsDecodable t (and_both (is_coding t) true h).0)
last_text_behind t (u ∷ ts) h =
    let (this, others) = and_both (is_coding t) (all_texts is_coding (u ∷ ts)) h in
    let ((front, e, known), last) = last_text_behind u ts others in
    ((t ∷ front, ap (λ xs. t ∷ xs) e, (is_coding-IsDecodable t this, known)), last)

all_same_length :
    (v : Text) (n : ℕ) (vs : List Text)
    → decimal 0 v ≡ n
    → all_texts (is_length v) vs ≡ true
    → All (IsLengthOf n) vs
all_same_length v n [] e h = tt
all_same_length v n (w ∷ vs) e h =
    let (this, others) = and_both (is_length v w) (all_texts (is_length v) vs) h in
    let (front, same) = and_both (not (is_empty w) && all_digits w) (equal w v) this in
    let (some_digit, digits) = and_both (not (is_empty w)) (all_digits w) front in
    (
      (ground arith, digits, ap (decimal 0) (equal_same w v same) ∙ e),
      all_same_length v n vs e others,
    )

by_codings-IsStated :
    (platform : Platform) (value : Text) (cs : List Text) (f : Framing)
    → map platform.to_lower_case (list_elements platform value) ≡ cs
    → by_codings cs ≡ ok f
    → IsStated platform (some value) none f.kind f.keep_alive_eligible
unfolding by_codings IsStated
by_codings-IsStated platform value [] f s e = absurd (err≢ok e)
by_codings-IsStated platform value (c ∷ cs) f s e =
    if_cases P (not (all_texts is_coding (c ∷ cs))) (λ unknown q. absurd (err≢ok q))
      (λ known.
        if_cases P (equal (last_text c cs) (units "chunked")) (last_chunked (not-false known))
          (last_identity (not-false known)))
      e
  where
    Q : Framing → Type 0
    Q g = IsStated platform (some value) none g.kind g.keep_alive_eligible

    P : Result Framing → Type 0
    P r = r ≡ ok f → Q f

    ends :
        (last : Text)
        → all_texts is_coding (c ∷ cs) ≡ true
        → last_text c cs ≡ last
        → EndsWith platform last (some value)
    ends last known same =
        let (front, cut, codings) = (last_text_behind c cs known).0 in
        (value, front, refl, s ∙ cut ∙ ap (λ t. front ++ t ∷ []) same, codings)

    last_chunked :
        all_texts is_coding (c ∷ cs) ≡ true
        → equal (last_text c cs) (units "chunked") ≡ true
        → P (ok (framed chunked true))
    last_chunked known h q =
        let last = equal_same (last_text c cs) (units "chunked") h in
        subst Q (ok-inj q) (refl, refl, ends (units "chunked") known last)

    last_identity :
        all_texts is_coding (c ∷ cs) ≡ true
        → equal (last_text c cs) (units "chunked") ≡ false
        → P (ok (framed until_close false))
    last_identity known h q = elim (last_text_behind c cs known).1 [
      | inl same ↦
          absurd (cc (h, ap (λ t. equal t (units "chunked")) same, equal_refl (units "chunked")))
      | inr same ↦ subst Q (ok-inj q) (refl, refl, inr (ends (units "identity") known same))
    ]

by_lengths-IsStated :
    (platform : Platform) (value : Text) (vs : List Text) (f : Framing)
    → map platform.trim (split 44 value) ≡ vs
    → by_lengths vs ≡ ok f
    → IsStated platform none (some value) f.kind f.keep_alive_eligible
unfolding by_lengths IsStated
by_lengths-IsStated platform value [] f s e = absurd (err≢ok e)
by_lengths-IsStated platform value (v ∷ vs) f s e =
    if_cases P (not (all_texts (is_length v) (v ∷ vs))) (λ differ q. absurd (err≢ok q))
      (λ agree.
        if_cases P (leb (2 ^ 53) (decimal 0 v)) (λ wide q. absurd (err≢ok q))
          (λ safe q. subst Q (ok-inj q) (
            refl,
            refl,
            leb→lt _ _ safe,
            (
              value,
              refl,
              subst (All (IsLengthOf (decimal 0 v))) (sym s)
                  (all_same_length v (decimal 0 v) (v ∷ vs) refl (not-false agree)),
            ),
          )))
      e
  where
    Q : Framing → Type 0
    Q g = IsStated platform none (some value) g.kind g.keep_alive_eligible

    P : Result Framing → Type 0
    P r = r ≡ ok f → Q f

by_fields-IsStated :
    (platform : Platform) (te cl : Option Text) (f : Framing)
    → by_fields platform te cl ≡ ok f
    → IsStated platform te cl f.kind f.keep_alive_eligible
unfolding by_fields IsStated
by_fields-IsStated platform (some te) (some cl) f e = absurd (err≢ok e)
by_fields-IsStated platform (some te) none f e = by_codings-IsStated platform te _ f refl e
by_fields-IsStated platform none (some cl) f e = by_lengths-IsStated platform cl _ f refl e
by_fields-IsStated platform none none f e =
    subst (λ g. IsStated platform none none g.kind g.keep_alive_eligible) (ok-inj e)
      (refl, refl, inl refl)

-- A status or method for which there is never a body.
unfoldable pub is_bodiless : ℕ → Text → Bool
is_bodiless status method =
    equal method (units "HEAD")
    || (leb 100 status && leb status 199)
    || status == 204
    || status == 304

abbrev pub is_tunnel : ℕ → Text → Bool
is_tunnel status method = equal method (units "CONNECT") && leb 200 status && leb status 299

-- A framing that bodyFraming gives is the one for a message without a body, or for a tunnel, which is
-- not used again, or what the two fields state without ambiguity: never are both of them present, all
-- the lengths agree, every transfer coding is chunked or identity and the last decides, and a connection
-- may be used again only after a body whose end is known.
pub body_framing-IsStated :
    (platform : Platform) (status : ℕ) (method : Text) (headers : FieldList) (f : Framing)
    → body_framing platform status method headers ≡ ok f
    → ((is_bodiless status method ≡ true) × (f ≡ framed no_body true))
      ⊎ ((is_tunnel status method ≡ true) × (f ≡ framed no_body false))
      ⊎ IsStated platform
          (platform.get (units "transfer-encoding") headers)
          (platform.get (units "content-length") headers)
          f.kind
          f.keep_alive_eligible
unfolding body_framing is_bodiless
body_framing-IsStated platform status method headers f e =
    if_cases P (is_bodiless status method) (λ bodiless q. inl (bodiless, sym (ok-inj q)))
      (λ body.
        if_cases P (is_tunnel status method) (λ tunnel q. inr (inl (tunnel, sym (ok-inj q))))
          (λ plain q. inr (inr (by_fields-IsStated platform te cl f q))))
      e
  where
    te : Option Text
    te = platform.get (units "transfer-encoding") headers

    cl : Option Text
    cl = platform.get (units "content-length") headers

    P : Result Framing → Type 0
    P r =
        r ≡ ok f
        → ((is_bodiless status method ≡ true) × (f ≡ framed no_body true))
          ⊎ ((is_tunnel status method ≡ true) × (f ≡ framed no_body false))
          ⊎ IsStated platform te cl f.kind f.keep_alive_eligible
