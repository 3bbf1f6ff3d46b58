-- ===== src/Dns/Ecs/Options.antt =====
-- The options of an OPT record that are kept when the client-subnet option is left out
-- (src/dns/ecs.rs).
use mathlib.Core.List.{append_assoc, append-nil}
use mathlib.Core.Bool.{or-false, or-true}
use pathdns.Base.{
  min, length-take, ℕ, zero, suc, ◌+◌, ◌-◌, ◌/◌, ◌%◌, ◌^◌, ◌≤◌, ◌<◌, ◌≡◌, ◌∙◌, List, [], ◌∷◌, ◌++◌,
  Bool, true, false, ◌||◌, ok, Bool-cases, le→leb, leb, ltb, ◌==◌, if◌then◌else◌, length,
  length-append, take, All, drop-append_length, take-append_length, inl, inr, refl, ap, sym, arith,
}
use pathdns.Base.Bytes.{byte, word16, u16_at_lem, slice, slice_lem, byte-append_right}
use pathdns.Dns.Ecs.{
  EcsSubnet, family, addr_bytes, encode_ecs_option, ecs_option_code, cast_bytes16, keep_loop,
  keep_options,
}

-- An option is its code and its data.
abbrev pub EdnsOption : Type 0
EdnsOption = ℕ × List ℕ

unfoldable pub encode : EdnsOption → List ℕ
encode (code, body) = cast_bytes16 code ++ (cast_bytes16 (length body) ++ body)

unfoldable pub encode_all : List EdnsOption → List ℕ
encode_all [] = []
encode_all (o ∷ os) = encode o ++ encode_all os

unfoldable pub others : List EdnsOption → List EdnsOption
others [] = []
others (o ∷ os) = if o.0 == ecs_option_code then others os else o ∷ others os

pub has_ecs : List EdnsOption → Bool
has_ecs [] = false
has_ecs (o ∷ os) = o.0 == ecs_option_code || has_ecs os

abbrev pub IsOption : EdnsOption → Type 0
IsOption o = (o.0 < 2 ^ 16) × (length o.1 < 2 ^ 16)

length-encode : (o : EdnsOption) → length (encode o) ≡ 4 + length o.1
unfolding encode
length-encode (code, body) = omega arith

length-encode_all : (os : List EdnsOption) → length os ≤ length (encode_all os)
unfolding encode_all
length-encode_all [] = omega arith
length-encode_all (o ∷ os) =
    omega (arith, length-append (encode o) (encode_all os), length-encode o, length-encode_all os)

-- The numbers in front of an option, wherever it stands.
module _ (front : List ℕ) (o : EdnsOption) (rest : List ℕ) (is : IsOption o) where
  abbrev whole : List ℕ
  whole = front ++ (encode o ++ rest)

  length-whole : length whole ≡ length front + (4 + length o.1 + length rest)
  length-whole = omega (
    arith,
    length-append front (encode o ++ rest),
    length-append (encode o) rest,
    length-encode o,
  )

  byte-whole : (k j : ℕ) → length front + k ≡ j → byte whole j ≡ byte (encode o ++ rest) k
  byte-whole k j e = byte-append_right front (encode o ++ rest) k j e

  code_at : word16 whole (length front) ≡ o.0
  unfolding word16 byte encode
  code_at = omega (
    arith,
    is.0,
    byte-whole 0 (length front) (omega arith),
    byte-whole 1 (length front + 1) refl,
    code_bytes,
  )
    where
      code_bytes :
          (byte (encode o ++ rest) 0 ≡ o.0 / 256 % 256) × (byte (encode o ++ rest) 1 ≡ o.0 % 256)
      code_bytes = (refl, refl)

  len_at : word16 whole (length front + 2) ≡ length o.1
  unfolding word16 byte encode
  len_at = omega (
    arith,
    is.1,
    byte-whole 2 (length front + 2) refl,
    byte-whole 3 (length front + 2 + 1) (omega arith),
    len_bytes,
  )
    where
      len_bytes :
          (byte (encode o ++ rest) 2 ≡ length o.1 / 256 % 256)
          × (byte (encode o ++ rest) 3 ≡ length o.1 % 256)
      len_bytes = (refl, refl)

  option_at : slice whole (length front) (length front + 4 + length o.1) ≡ ok (encode o)
  option_at =
      slice_lem whole (length front) (length front + 4 + length o.1) (omega arith)
        (omega (arith, length-whole))
      ∙ ap (λ xs. ok (take (length front + 4 + length o.1 - length front) xs))
          (drop-append_length (length front) front (encode o ++ rest) refl)
      ∙ ap ok (
          take-append_length (length front + 4 + length o.1 - length front) (encode o) rest
            (omega (arith, length-encode o)))

keep_loop-encode_all :
    (os : List EdnsOption) (fuel : ℕ) (front new p : List ℕ) (pos : ℕ) (found : Bool)
    → p ≡ front ++ encode_all os
    → pos ≡ length front
    → All IsOption os
    → length os < fuel
    → keep_loop fuel p pos new found ≡ ok (new ++ encode_all (others os), found || has_ecs os)
unfolding keep_loop encode_all others has_ecs
keep_loop-encode_all [] zero front new p pos found e q i h = absurd (omega arith)
keep_loop-encode_all [] (suc fuel) front new p pos found e q i h =
    let short : leb (pos + 4) (length p) ≡ false = rw e (ground (arith, length-append front [])) in
    rw (short, append-nil new, or-false found) refl
keep_loop-encode_all (o ∷ os) zero front new p pos found e q i h = absurd (omega arith)
keep_loop-encode_all (o ∷ os) (suc fuel) front new p pos found e q i h =
    let all : List ℕ = front ++ (encode o ++ encode_all os) in
    let fits : leb (length front + 4) (length all) ≡ true =
      le→leb _ _ (omega (arith, length-whole front o (encode_all os) i.0)) in
    let inside : ltb (length all) (length front + 4 + length o.1) ≡ false =
      ground (arith, length-whole front o (encode_all os) i.0) in
    let c = code_at front o (encode_all os) i.0 in
    let l = len_at front o (encode_all os) i.0 in
    let u =
      u16_at_lem all (length front) (omega (arith, length-whole front o (encode_all os) i.0)) in
    let v =
      u16_at_lem all (length front + 2) (omega (arith, length-whole front o (encode_all os) i.0)) in
    let s = option_at front o (encode_all os) i.0 in
    let next : length front + 4 + length o.1 ≡ length (front ++ encode o) =
      omega (arith, length-append front (encode o), length-encode o) in
    elim (Bool-cases (o.0 == ecs_option_code)) [
      | inl ecs ↦
          rw (e, q)
            (rw (fits, u, v, c, l, inside, s, ecs, or-true found)
              (keep_loop-encode_all os fuel (front ++ encode o) new all
                (length front + 4 + length o.1) true
                (sym (append_assoc front (encode o) (encode_all os))) next i.1 (omega arith)))
      | inr other ↦
          rw (e, q)
            (rw
              (
                fits,
                u,
                v,
                c,
                l,
                inside,
                s,
                other,
                sym (append_assoc new (encode o) (encode_all (others os))),
              )
              (keep_loop-encode_all os fuel (front ++ encode o) (new ++ encode o) all
                (length front + 4 + length o.1) found
                (sym (append_assoc front (encode o) (encode_all os))) next i.1 (omega arith)))
    ]

-- The loop over a list of whole options keeps those that are no client subnet.
pub keep_options-encode_all :
    (os : List EdnsOption)
    → All IsOption os
    → keep_options (encode_all os) ≡ ok (encode_all (others os), has_ecs os)
unfolding keep_options
keep_options-encode_all os i =
    keep_loop-encode_all os (suc (length (encode_all os))) [] [] (encode_all os) 0 false refl refl i
      (omega (arith, length-encode_all os))

-- What is left holds no client subnet, and is no longer than before.
pub has_ecs-others : (os : List EdnsOption) → has_ecs (others os) ≡ false
unfolding has_ecs others
has_ecs-others [] = refl
has_ecs-others (o ∷ os) = ground (arith, has_ecs-others os)

pub length-others :
    (os : List EdnsOption) → length (encode_all (others os)) ≤ length (encode_all os)
unfolding encode_all others
length-others [] = omega arith
length-others (o ∷ os) = ground (
  arith,
  length-others os,
  length-append (encode o) (encode_all os),
  length-append (encode o) (encode_all (others os)),
)

-- The data of the new option: family, prefix lengths, and the octets that the prefix reaches.
unfoldable pub subnet_data : EcsSubnet → List ℕ
subnet_data subnet =
    cast_bytes16 (family subnet.addr)
    ++ (subnet.prefix_len
        ∷ 0
        ∷ take (min ((subnet.prefix_len + 7) / 8) (length (addr_bytes subnet.addr)))
            (addr_bytes subnet.addr))

pub encode_ecs_option-encode :
    (subnet : EcsSubnet) → encode_ecs_option subnet ≡ encode (ecs_option_code, subnet_data subnet)
unfolding encode_ecs_option encode subnet_data
encode_ecs_option-encode subnet =
    let count : ℕ = min ((subnet.prefix_len + 7) / 8) (length (addr_bytes subnet.addr)) in
    let e : length (take count (addr_bytes subnet.addr)) ≡ count =
      omega (arith, length-take count (addr_bytes subnet.addr)) in
    let f : suc (suc (suc (suc (length (take count (addr_bytes subnet.addr)))))) ≡ 4 + count =
      omega arith in
    rw f refl

pub encode_all-snoc :
    (os : List EdnsOption) (o : EdnsOption)
    → encode_all os ++ encode o ≡ encode_all (os ++ (o ∷ []))
unfolding encode_all
encode_all-snoc [] o = sym (append-nil (encode o))
encode_all-snoc (x ∷ os) o =
    append_assoc (encode x) (encode_all os) (encode o)
    ∙ ap (λ xs. encode x ++ xs) (encode_all-snoc os o)
