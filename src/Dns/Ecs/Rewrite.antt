-- ===== src/Dns/Ecs/Rewrite.antt =====
-- The packet that `strip_edns_ecs` and `inject_or_replace_ecs` of src/dns/ecs.rs make of one with an
-- OPT record.
use pathdns.Base.{
  ℕ, zero, suc, ◌+◌, ◌-◌, ◌/◌, ◌%◌, ◌^◌, ◌≤◌, ◌<◌, ◌≡◌, ◌∙◌, List, [], ◌∷◌, ◌++◌, false, some, ok,
  reject, ltb, ◌==◌, if◌then◌else◌, length, length-append, length-take, length-drop, take_of_length,
  take, drop, set, length-set, All, Bool-cases, inl, inr, refl, ap, arith,
}
use pathdns.Base.Bytes.{IsBytes, slice_lem, put_lem, word16-lt}
use pathdns.Dns.Ecs.{
  EcsSubnet, ecs_option_code, OptLocation, located, locate_opt, cast_bytes16, replace_rdata,
  strip_opt_rdata, strip_ecs_from_opt, strip_edns_ecs, encode_ecs_option, inject_or_replace_ecs,
}
use pathdns.Dns.Ecs.Located.{LocatedAt}
use pathdns.Dns.Ecs.Options.{
  EdnsOption, IsOption, encode_all, others, has_ecs, subnet_data, encode_ecs_option-encode,
  encode_all-snoc, keep_options-encode_all, length-others,
}

-- The packet with other data, and its length, in the OPT record at `loc`.
pub with_rdata : List ℕ → OptLocation → List ℕ → List ℕ
with_rdata p loc new =
    take (loc.rdata_start - 2) p ++ (cast_bytes16 (length new) ++ (new ++ drop loc.rdata_end p))

set_pair :
    (xs ys : List ℕ) (n m a b : ℕ)
    → n + 1 ≡ m
    → n + 2 ≡ length xs
    → set (set (xs ++ ys) n a) m b ≡ take n xs ++ (a ∷ b ∷ ys)
set_pair [] ys n m a b h e = absurd (omega arith)
set_pair (x ∷ []) ys n m a b h e = absurd (omega arith)
set_pair (x ∷ y ∷ []) ys zero zero a b h e = absurd (omega arith)
set_pair (x ∷ y ∷ []) ys zero (suc zero) a b h e = refl
set_pair (x ∷ y ∷ []) ys zero (suc (suc m)) a b h e = absurd (omega arith)
set_pair (x ∷ y ∷ []) ys (suc n) m a b h e = absurd (omega arith)
set_pair (x ∷ y ∷ z ∷ xs) ys zero m a b h e = absurd (omega arith)
set_pair (x ∷ y ∷ z ∷ xs) ys (suc n) zero a b h e = absurd (omega arith)
set_pair (x ∷ y ∷ z ∷ xs) ys (suc n) (suc m) a b h e =
    ap (◌∷◌ x) (set_pair (y ∷ z ∷ xs) ys n m a b (omega arith) (omega arith))

take-take : (n m : ℕ) (xs : List ℕ) → n ≤ m → take n (take m xs) ≡ take n xs
take-take zero m xs h = refl
take-take (suc n) zero xs h = absurd (omega arith)
take-take (suc n) (suc m) [] h = refl
take-take (suc n) (suc m) (x ∷ xs) h = ap (◌∷◌ x) (take-take n m xs (omega arith))

module _ (p : List ℕ) (loc : OptLocation) (new : List ℕ) (at : LocatedAt p loc)
    (small : length new < 2 ^ 16) where
  replace_rdata-with_rdata : replace_rdata p loc new ≡ ok (with_rdata p loc new)
  unfolding replace_rdata with_rdata
  replace_rdata-with_rdata =
      let i : ℕ = loc.rdata_start - 2 in
      let front : List ℕ = take loc.rdata_start p in
      let tail : List ℕ = new ++ drop loc.rdata_end p in
      let within : loc.rdata_end ≤ length p = at.inside in
      let placed : loc.rdata_start ≡ loc.name_end + 10 = at.start_at in
      let ordered : loc.rdata_start ≤ loc.rdata_end = omega (arith, at.end_at) in
      let long : length front ≡ loc.rdata_start = omega (arith, length-take loc.rdata_start p) in
      let a = slice_lem p 0 loc.rdata_start (omega arith) (omega arith) in
      let b = slice_lem p loc.rdata_end (length p) (omega arith) (omega arith) in
      let c : take (loc.rdata_start - 0) p ≡ front = ap (λ n. take n p) (omega arith) in
      let d : take (length p - loc.rdata_end) (drop loc.rdata_end p) ≡ drop loc.rdata_end p =
        take_of_length _ _ (length-drop loc.rdata_end p) in
      let e : length new % 2 ^ 16 ≡ length new = omega (arith, small) in
      let w =
        put_lem (front ++ tail) i (length new / 256) (omega (arith, length-append front tail)) in
      let x = put_lem (set (front ++ tail) i (length new / 256)) (i + 1) (length new % 256) (
        omega (arith, length-append front tail, length-set (front ++ tail) i (length new / 256))) in
      let y : length new / 256 % 256 ≡ length new / 256 = omega (arith, small) in
      rw (a, b, c, d, e, w, x, y)
        (ap ok (
          set_pair front tail i (i + 1) (length new / 256) (length new % 256) refl (omega arith)
          ∙ ap (λ xs. xs ++ (length new / 256 ∷ length new % 256 ∷ tail))
              (take-take i loc.rdata_start p (omega arith))))

-- For a packet of bytes whose OPT record `locate_opt` finds whole in it, with data that are a
-- list of whole options, `strip_edns_ecs` returns none if no option is a client subnet, and else
-- the packet in which the data of the OPT record are the other options in order, with their
-- length in front, and all before and behind is the same.
pub strip_edns_ecs-with_rdata :
    (p : List ℕ) (loc : OptLocation) (os : List EdnsOption)
    → located p ≡ ok loc
    → LocatedAt p loc
    → take (loc.rdata_end - loc.rdata_start) (drop loc.rdata_start p) ≡ encode_all os
    → All IsOption os
    → IsBytes p
    → strip_edns_ecs p
      ≡ (if has_ecs os then ok (with_rdata p loc (encode_all (others os))) else reject)
unfolding strip_edns_ecs strip_ecs_from_opt
strip_edns_ecs-with_rdata p loc os l at o i b =
    let s = slice_lem p loc.rdata_start loc.rdata_end (omega (arith, at.end_at)) at.inside in
    let k = keep_options-encode_all os i in
    let total : length (encode_all os) < 2 ^ 16 = omega (
      arith,
      ap length o,
      length-take (loc.rdata_end - loc.rdata_start) (drop loc.rdata_start p),
      at.end_at,
      word16-lt p (loc.name_end + 8) b,
    ) in
    let r =
      replace_rdata-with_rdata p loc (encode_all (others os)) at
        (omega (arith, total, length-others os)) in
    elim (Bool-cases (has_ecs os)) [
      | inl h ↦ rw (l, s, o, k, h) r
      | inr h ↦ rw (l, s, o, k, h) refl
    ]

-- For a packet with a whole header whose OPT record `locate_opt` finds whole in it, with data
-- that are a list of whole options which stay below 2^16 bytes with the new one,
-- `inject_or_replace_ecs` returns the packet in which the data of the OPT record are the options
-- that are no client subnet, in order, and then the one of the given subnet, with their length in
-- front, and all before and behind is the same.
pub inject_or_replace_ecs-with_rdata :
    (p : List ℕ) (loc : OptLocation) (os : List EdnsOption) (subnet : EcsSubnet)
    → 12 ≤ length p
    → locate_opt p ≡ ok (some loc)
    → LocatedAt p loc
    → take (loc.rdata_end - loc.rdata_start) (drop loc.rdata_start p) ≡ encode_all os
    → All IsOption os
    → length (encode_all (others os ++ ((ecs_option_code, subnet_data subnet) ∷ []))) < 2 ^ 16
    → inject_or_replace_ecs p subnet
      ≡ ok (
          with_rdata p loc (encode_all (others os ++ ((ecs_option_code, subnet_data subnet) ∷ []))))
unfolding inject_or_replace_ecs
inject_or_replace_ecs-with_rdata p loc os subnet h l at o i small =
    let enough : ltb (length p) 12 ≡ false = ground arith in
    let s = slice_lem p loc.rdata_start loc.rdata_end (omega (arith, at.end_at)) at.inside in
    let k = keep_options-encode_all os i in
    let e : encode_all (others os) ++ encode_ecs_option subnet
        ≡ encode_all (others os ++ ((ecs_option_code, subnet_data subnet) ∷ [])) =
      ap (λ xs. encode_all (others os) ++ xs) (encode_ecs_option-encode subnet)
      ∙ encode_all-snoc (others os) (ecs_option_code, subnet_data subnet) in
    rw (enough, l, s, o, k, e)
      (replace_rdata-with_rdata p loc
        (encode_all (others os ++ ((ecs_option_code, subnet_data subnet) ∷ []))) at small)

-- `strip_opt_rdata` leaves an OPT record without data, and does nothing where it has none.
pub strip_opt_rdata-with_rdata :
    (p : List ℕ) (loc : OptLocation)
    → located p ≡ ok loc
    → LocatedAt p loc
    → strip_opt_rdata p
      ≡ (if loc.rdata_end == loc.rdata_start then reject else ok (with_rdata p loc []))
unfolding strip_opt_rdata with_rdata
strip_opt_rdata-with_rdata p loc l at = elim (Bool-cases (loc.rdata_end == loc.rdata_start)) [
  | inl e ↦ rw (l, e) refl
  | inr e ↦
      let a =
        slice_lem p 0 (loc.name_end + 8) (omega arith)
          (omega (arith, at.start_at, at.end_at, at.inside)) in
      let b = slice_lem p loc.rdata_end (length p) at.inside (omega arith) in
      let c : take (loc.name_end + 8 - 0) p ≡ take (loc.rdata_start - 2) p =
        ap (λ n. take n p) (omega (arith, at.start_at)) in
      let d : take (length p - loc.rdata_end) (drop loc.rdata_end p) ≡ drop loc.rdata_end p =
        take_of_length _ _ (length-drop loc.rdata_end p) in
      rw (l, e, a, b, c, d) refl
]
