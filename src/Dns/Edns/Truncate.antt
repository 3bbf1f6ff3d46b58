-- ===== src/Dns/Edns/Truncate.antt =====
-- What `maybe_truncate_for_udp` of src/dns/mod.rs answers.
use pathdns.Base.{
  ℕ, ◌+◌, ◌-◌, ◌≤◌, ◌<◌, ◌≡◌, bit_or, List, ◌++◌, Bool, true, ok, length, length-set, length-append,
  length-take, set, take, arith, if◌then◌else◌, ◌&&◌, leb, ◌==◌,
}
use pathdns.Base.Bytes.{
  byte, at_lem, put-set, slice_lem, byte-set, byte-append_left, byte-append_right, byte-take,
}
use pathdns.Dns.Edns.{tc_opt_rr, tc_stub}

-- The header and question of the response, cleared of records.
clear : List ℕ → ℕ → List ℕ
clear a v = set (set (set (set (set a 2 v) 6 0) 7 0) 8 0) 9 0

cleared : List ℕ → ℕ → List ℕ
cleared resp qe = clear (take qe resp) (bit_or (byte (take qe resp) 2) 0x02)

length-cleared :
    (resp : List ℕ) (qe : ℕ) → 12 ≤ qe → qe ≤ length resp → length (cleared resp qe) ≡ qe
unfolding cleared clear
length-cleared resp qe h k = simp length-set (omega (arith, length-take qe resp))

pub stub_of : List ℕ → ℕ → Bool → List ℕ
stub_of resp qe edns =
    set (set (if edns then cleared resp qe ++ tc_opt_rr else cleared resp qe) 10 0) 11
      (if edns then 1 else 0)

-- The length of the stub: the OPT record has eleven bytes.
abbrev pub stub_length : ℕ → Bool → ℕ
stub_length qe edns = if edns then qe + 11 else qe

pub tc_stub-stub_of :
    (resp : List ℕ) (qe : ℕ) (edns : Bool)
    → 12 ≤ qe
    → qe ≤ length resp
    → (tc_stub resp qe edns ≡ ok (stub_of resp qe edns))
      × (length (stub_of resp qe edns) ≡ stub_length qe edns)
unfolding tc_stub stub_of cleared clear
tc_stub-stub_of resp qe edns h k =
    let a = take qe resp in
    let v = bit_or (byte a 2) 0x02 in
    let e : length a ≡ qe = omega (arith, length-take qe resp) in
    let (p2, l2) = put-set qe a 2 v e (omega arith) in
    let a2 = set a 2 v in
    let (p6, l6) = put-set qe a2 6 0 l2 (omega arith) in
    let a6 = set a2 6 0 in
    let (p7, l7) = put-set qe a6 7 0 l6 (omega arith) in
    let a7 = set a6 7 0 in
    let (p8, l8) = put-set qe a7 8 0 l7 (omega arith) in
    let a8 = set a7 8 0 in
    let (p9, l9) = put-set qe a8 9 0 l8 (omega arith) in
    let a9 = set a8 9 0 in
    let b = if edns then a9 ++ tc_opt_rr else a9 in
    let n = if edns then qe + 11 else qe in
    let lb : length b ≡ n = ground (arith, length-append a9 tc_opt_rr) in
    let (p10, l10) = put-set n b 10 0 lb (ground arith) in
    let (p11, l11) = put-set n (set b 10 0) 11 (if edns then 1 else 0) l10 (ground arith) in
    let q : qe - 0 ≡ qe = omega arith in
    (
      rw (
        slice_lem resp 0 qe (omega arith) k,
        q,
        at_lem a 2 (omega arith),
        p2,
        p6,
        p7,
        p8,
        p9,
        p10,
        p11,
      ),
      l11,
    )

-- The stub's bytes, as far as the question goes.
abbrev pub stub_byte : List ℕ → Bool → ℕ → ℕ
stub_byte resp edns j =
    if j == 2
    then bit_or (byte resp 2) 0x02
    else if leb 6 j && leb j 10
    then 0
    else if j == 11
    then (if edns then 1 else 0)
    else byte resp j

byte-cleared :
    (resp : List ℕ) (qe j : ℕ)
    → 12 ≤ qe
    → qe ≤ length resp
    → j < qe
    → byte (cleared resp qe) j ≡ (
        if leb 6 j && leb j 9 then 0 else if j == 2 then bit_or (byte resp 2) 0x02 else byte resp j)
unfolding cleared clear
byte-cleared resp qe j h k l =
    let a = take qe resp in
    let v = bit_or (byte a 2) 0x02 in
    let e : length a ≡ qe = omega (arith, length-take qe resp) in
    let (_, l2) = put-set qe a 2 v e (omega arith) in
    let a2 = set a 2 v in
    let (_, l6) = put-set qe a2 6 0 l2 (omega arith) in
    let a6 = set a2 6 0 in
    let (_, l7) = put-set qe a6 7 0 l6 (omega arith) in
    let a7 = set a6 7 0 in
    let (_, l8) = put-set qe a7 8 0 l7 (omega arith) in
    let a8 = set a7 8 0 in
    rw
      (
        byte-set a8 9 j 0 (omega arith),
        byte-set a7 8 j 0 (omega arith),
        byte-set a6 7 j 0 (omega arith),
        byte-set a2 6 j 0 (omega arith),
        byte-set a 2 j v (omega arith),
        byte-take qe resp 2 (omega arith),
        byte-take qe resp j l,
      )
      (ground arith)

pub byte-stub_of :
    (resp : List ℕ) (qe : ℕ) (edns : Bool) (j : ℕ)
    → 12 ≤ qe
    → qe ≤ length resp
    → j < qe
    → byte (stub_of resp qe edns) j ≡ stub_byte resp edns j
unfolding stub_of
byte-stub_of resp qe edns j h k l =
    let c : length (cleared resp qe) ≡ qe = length-cleared resp qe h k in
    let b = if edns then cleared resp qe ++ tc_opt_rr else cleared resp qe in
    let lb : qe ≤ length b = ground (arith, length-append (cleared resp qe) tc_opt_rr) in
    let at_b : byte b j ≡ byte (cleared resp qe) j =
      ground (arith, byte-append_left (cleared resp qe) tc_opt_rr j) in
    rw
      (
        byte-set (set b 10 0) 11 j (if edns then 1 else 0) (omega (arith, length-set b 10 0)),
        byte-set b 10 j 0 (omega arith),
        at_b,
        byte-cleared resp qe j h k l,
      )
      (ground arith)

-- The bytes behind the question are those of the OPT record.
pub byte-stub_of_opt :
    (resp : List ℕ) (qe j : ℕ)
    → 12 ≤ qe
    → qe ≤ length resp
    → j < 11
    → byte (stub_of resp qe true) (qe + j) ≡ byte tc_opt_rr j
unfolding stub_of
byte-stub_of_opt resp qe j h k l =
    let c : length (cleared resp qe) ≡ qe = length-cleared resp qe h k in
    let b = cleared resp qe ++ tc_opt_rr in
    let lb : length b ≡ qe + 11 = omega (arith, length-append (cleared resp qe) tc_opt_rr, c) in
    rw
      (
        byte-set (set b 10 0) 11 (qe + j) 1 (omega (arith, length-set b 10 0)),
        byte-set b 10 (qe + j) 0 (omega arith),
        byte-append_right (cleared resp qe) tc_opt_rr j (qe + j) (omega arith),
      )
      (ground arith)
