-- ===== src/Der/Tiling.antt =====
-- src/trust/der.js, children: the elements fill their container, and each has one spelling.
use tunnelfetch.Prelude.{
  ℕ, zero, suc, ◌+◌, ◌-◌, ◌≤◌, ◌≡◌, refl, sym, ap, ◌∙◌, not, List, [], ◌∷◌, ◌++◌, map, leb, ltb,
  take, drop, if_cases, leb→le, ltb→le, arith, drop_add, take_add,
}
use mathlib.Core.Path.{subst}
use tunnelfetch.Bytes.{Bytes, IsBytes, concat}
use tunnelfetch.Errors.{Result, ok, bind_inversion, ok-inj, err≢ok}
use tunnelfetch.Der.{Tlv, read_tlv, content, element, subarray, children_loop, children}
use tunnelfetch.Der.Encoding.{encode}
use tunnelfetch.Der.Headers.{IsRead, read_tlv-IsRead, element_split}

-- An element again, from its content.
abbrev pub encoded : Bytes → Tlv → Bytes
encoded bytes t = encode t.cls t.constructed t.tag (content bytes t)

unfoldable pub IsTiled : Bytes → ℕ → ℕ → List Tlv → Type 0
unfolding subarray concat
IsTiled bytes p stop kids = concat (map (encoded bytes) kids) ≡ subarray bytes p stop

-- A slice is cut in two.
subarray_join :
    (bytes : Bytes) (p m q : ℕ)
    → p ≤ m
    → m ≤ q
    → subarray bytes p m ++ subarray bytes m q ≡ subarray bytes p q
unfolding subarray
subarray_join bytes p m q low high =
    let behind : p + (m - p) ≡ m = omega arith in
    let sum : (m - p) + (q - m) ≡ q - p = omega arith in
    ap (λ n. take (m - p) (drop p bytes) ++ take (q - m) (drop n bytes)) (sym behind)
    ∙ ap (λ xs. take (m - p) (drop p bytes) ++ take (q - m) xs) (drop_add p (m - p) bytes)
    ∙ sym (take_add (m - p) (q - m) (drop p bytes))
    ∙ ap (λ n. take n (drop p bytes)) sum

subarray_empty : (bytes : Bytes) (p q : ℕ) → q ≤ p → subarray bytes p q ≡ []
unfolding subarray
subarray_empty bytes p q h = let e : q - p ≡ 0 = omega arith in rw e refl

children_loop-IsTiled :
    (fuel : ℕ) (bytes : Bytes) (stop p : ℕ) (kids : List Tlv)
    → IsBytes bytes
    → stop - p ≤ fuel
    → p ≤ stop
    → children_loop fuel bytes stop p ≡ ok kids
    → IsTiled bytes p stop kids
unfolding children_loop IsTiled concat element
children_loop-IsTiled zero bytes stop p kids octets enough order e =
    subst (IsTiled bytes p stop) (ok-inj e) (sym (subarray_empty bytes p stop (omega arith)))
children_loop-IsTiled (suc fuel) bytes stop p kids octets enough order e =
    if_cases P (leb stop p)
      (λ over q.
        subst (IsTiled bytes p stop) (ok-inj q)
          (sym (subarray_empty bytes p stop (leb→le stop p over))))
      (λ more q.
        let (child, read, chain) = bind_inversion (read_tlv bytes p) _ q in
        let h = read_tlv-IsRead bytes p child octets read in
        if_cases P (ltb stop child.end) (λ overrun r. absurd (err≢ok r))
          (λ within r.
            let (out, later, done) = bind_inversion (children_loop fuel bytes stop child.end) _ r in
            let less : stop - child.end ≤ fuel = omega (arith, h.behind, h.ordered, h.ends) in
            subst (IsTiled bytes p stop) (ok-inj done) (
              join child out h (ltb→le stop child.end within) (
                children_loop-IsTiled fuel bytes stop child.end out octets less
                  (ltb→le stop child.end within) later)))
          chain)
      e
  where
    P : Result (List Tlv) → Type 0
    P r = r ≡ ok kids → IsTiled bytes p stop kids

    join :
        (child : Tlv) (out : List Tlv)
        → IsRead bytes p child
        → child.end ≤ stop
        → IsTiled bytes child.end stop out
        → IsTiled bytes p stop (child ∷ out)
    join child out h within rest =
        ap (λ xs. xs ++ concat (map (encoded bytes) out)) (sym (element_split bytes p child h))
        ∙ ap (λ xs. element bytes child ++ xs) rest
        ∙ ap (λ n. subarray bytes n child.end ++ subarray bytes child.end stop) (h.starts)
        ∙ subarray_join bytes p child.end stop (omega (arith, h.behind, h.ordered, h.ends)) within

-- The immediate children of a container, encoded again one after the other, are the content of the
-- container: none of its bytes is skipped, read twice or spelled in another way.
pub children-encoded :
    (bytes : Bytes) (t : Tlv) (kids : List Tlv)
    → IsBytes bytes
    → t.content_start ≤ t.content_end
    → children bytes t ≡ ok kids
    → concat (map (encoded bytes) kids) ≡ content bytes t
unfolding children IsTiled content
children-encoded bytes t kids octets order e =
    if_cases (λ r. r ≡ ok kids → concat (map (encoded bytes) kids) ≡ content bytes t)
      (not t.constructed) (λ primitive q. absurd (err≢ok q))
      (λ constructed q.
        children_loop-IsTiled (t.content_end - t.content_start) bytes t.content_end t.content_start
          kids octets (omega arith) order q)
      e
