-- ===== src/Dns/Ecs/Stripped.antt =====
-- Taking the client subnet out of any query, `strip_edns_ecs` of src/dns/ecs.rs: the question stays
-- in front of the record that is rewritten.
use pathdns.Base.{
  ℕ, zero, suc, ◌+◌, ◌-◌, ◌/◌, ◌%◌, ◌^◌, ◌≤◌, ◌<◌, ◌≡◌, List, [], ◌++◌, Bool, true, false, Option,
  none, some, ok, reject, guard, ◌>>◌, Returns, Returns-bind, Returns-mono, Returns-ok, length,
  length-append, length-take, set, take, drop, arith, Bool-cases, ltb, leb, ◌==◌, refl, inl, inr,
}
use pathdns.Base.Bytes.{IsBytes, word16, u16_at_lem, slice_lem, put-set}
use pathdns.Base.Octets.{IsBytes-take, IsBytes-drop, IsBytes-append, IsBytes-set}
use pathdns.Dns.Name.{skip_name}
use pathdns.Dns.Name.Walk.{NameAt, NameAt-bounds, skip_name-NameAt, skip_name_iff}
use pathdns.Dns.Ecs.{
  OptLocation, skip_questions, skip_records, locate_loop, locate_opt, located, keep_loop,
  keep_options, replace_rdata, strip_ecs_from_opt, strip_edns_ecs, ecs_option_code,
}
use pathdns.Dns.Ecs.Located.{LocatedAt, located-LocatedAt}

skip_records-le :
    (n : ℕ) (p : List ℕ) (pos : ℕ) → IsBytes p → Returns (λ e. pos ≤ e) (skip_records n p pos)
unfolding skip_records
skip_records-le zero p pos b = omega arith
skip_records-le (suc n) p pos b =
    Returns-bind (λ e. NameAt p pos e) (λ e. pos ≤ e) (skip_name p pos) _ (skip_name-NameAt p pos b)
      λ e q r.
        let (near, _) = NameAt-bounds r in
        let rest = skip_records-le n p (e + (10 + word16 p (e + 8))) b in
        elim (Bool-cases (ltb (length p) (e + 10))) [
          | inl short ↦ rw short tt
          | inr fits ↦ elim (Bool-cases (leb (e + (10 + word16 p (e + 8))) (length p))) [
            | inr over ↦ rw (fits, u16_at_lem p (e + 8) (ground arith), over) tt
            | inl whole ↦
                rw (fits, u16_at_lem p (e + 8) (ground arith), whole)
                  (Returns-mono _ _ _
                    (λ (j : ℕ) (le : e + (10 + word16 p (e + 8)) ≤ j). omega arith) rest)
          ]
        ]

abbrev Behind : ℕ → Option OptLocation → Type 0
Behind pos none = Unit {0}
Behind pos (some loc) = pos ≤ loc.name_end

Behind-le : (i j : ℕ) (o : Option OptLocation) → i ≤ j → Behind j o → Behind i o
Behind-le i j none h k = tt
Behind-le i j (some loc) h k = omega arith

locate_loop-Behind :
    (n : ℕ) (p : List ℕ) (pos : ℕ) → IsBytes p → Returns (Behind pos) (locate_loop n p pos)
unfolding locate_loop
locate_loop-Behind zero p pos b = tt
locate_loop-Behind (suc k) p pos b =
    Returns-bind (λ e. NameAt p pos e) (Behind pos) (skip_name p pos) _ (skip_name-NameAt p pos b)
      λ n q r.
        let (near, _) = NameAt-bounds r in
        let rest = locate_loop-Behind k p (n + 10 + word16 p (n + 8)) b in
        elim (Bool-cases (ltb (length p) (n + 10))) [
          | inl short ↦ rw short tt
          | inr fits ↦
              let t = u16_at_lem p n (ground arith) in
              let l = u16_at_lem p (n + 8) (ground arith) in
              elim (Bool-cases (leb (n + 10 + word16 p (n + 8)) (length p))) [
                | inr over ↦ rw (fits, t, l, over) tt
                | inl whole ↦ elim (Bool-cases (word16 p n == 41)) [
                  | inl opt ↦ rw (fits, t, l, whole, opt) (omega arith)
                  | inr other ↦
                      rw (fits, t, l, whole, other)
                        (Returns-mono _ _ _
                          (λ o. Behind-le pos (n + 10 + word16 p (n + 8)) o (omega arith)) rest)
                ]
              ]
        ]

-- A packet of bytes with one question, whose name ends at `n`.
pub record OneQuestion (p : List ℕ) (n : ℕ) : Type 0 where
  pub bytes : IsBytes p
  pub name : NameAt p 12 n
  pub count : word16 p 4 ≡ 1
  pub inside : n + 4 ≤ length p

module _ (p : List ℕ) (n : ℕ) (q : OneQuestion p n) where
  one_skipped : skip_questions (word16 p 4) p 12 ≡ ok (n + 4)
  unfolding skip_questions
  one_skipped =
      let room : leb (n + 4) (length p) ≡ true = ground (arith, q.inside) in
      rw (q.count, (skip_name_iff p 12 n q.bytes).1 q.name, room) refl

  locate_opt-Behind : Returns (Behind (n + 4)) (locate_opt p)
  unfolding locate_opt
  locate_opt-Behind = elim (Bool-cases (ltb (length p) 12)) [
    | inl short ↦ rw short tt
    | inr fits ↦
        let a = u16_at_lem p 10 (ground arith) in
        let qd = u16_at_lem p 4 (ground arith) in
        let an = u16_at_lem p 6 (ground arith) in
        let ns = u16_at_lem p 8 (ground arith) in
        elim (Bool-cases (word16 p 10 == 0)) [
          | inl e ↦ rw (fits, a, e) tt
          | inr e ↦
              rw (fits, a, e, qd, an, ns, one_skipped)
                (Returns-bind (λ r. n + 4 ≤ r) (Behind (n + 4))
                  (skip_records (word16 p 6 + word16 p 8) p (n + 4)) _
                  (skip_records-le (word16 p 6 + word16 p 8) p (n + 4) q.bytes)
                  λ r y v.
                    Returns-mono _ _ _ (λ o. Behind-le (n + 4) r o v)
                      (locate_loop-Behind (word16 p 10) p r q.bytes))
        ]
  ]

  located-Behind : Returns (λ loc. n + 4 ≤ loc.name_end) (located p)
  unfolding located
  located-Behind =
      Returns-bind (Behind (n + 4)) (λ loc. n + 4 ≤ loc.name_end) (locate_opt p) _ locate_opt-Behind
        λ o e h. found o h
    where
      found :
          (o : Option OptLocation)
          → Behind (n + 4) o
          → Returns (λ loc. n + 4 ≤ loc.name_end) (elim o [ none ↦ reject | some loc ↦ ok loc ])
      found none h = tt
      found (some loc) h = h

-- Each round moves on, whatever the options are.
keep_loop-IsBytes :
    (fuel : ℕ) (rdata : List ℕ) (pos : ℕ) (kept : List ℕ) (found : Bool)
    → IsBytes rdata
    → IsBytes kept
    → length rdata < fuel + pos
    → 0 < fuel
    → Returns (λ r. IsBytes r.0) (keep_loop fuel rdata pos kept found)
unfolding keep_loop
keep_loop-IsBytes zero rdata pos kept found b c h z = absurd (omega arith)
keep_loop-IsBytes (suc fuel) rdata pos kept found b c h z =
    elim (Bool-cases (leb (pos + 4) (length rdata))) [
      | inr end ↦ rw end c
      | inl more ↦
          let code = u16_at_lem rdata pos (ground arith) in
          let len = u16_at_lem rdata (pos + 2) (ground arith) in
          let next : ℕ = pos + 4 + word16 rdata (pos + 2) in
          elim (Bool-cases (ltb (length rdata) next)) [
            | inl over ↦ rw (more, code, len, over) tt
            | inr whole ↦
                let option = slice_lem rdata pos next (omega arith) (ground arith) in
                let bytes : IsBytes (take (next - pos) (drop pos rdata)) =
                  IsBytes-take (next - pos) (drop pos rdata) (IsBytes-drop pos rdata b) in
                elim (Bool-cases (word16 rdata pos == ecs_option_code)) [
                  | inl ecs ↦
                      rw (more, code, len, whole, option, ecs)
                        (keep_loop-IsBytes fuel rdata next kept true b c (omega arith)
                          (ground arith))
                  | inr other ↦
                      rw (more, code, len, whole, option, other)
                        (keep_loop-IsBytes fuel rdata next _ found b (IsBytes-append kept _ c bytes)
                          (omega arith) (ground arith))
                ]
          ]
    ]

keep_options-IsBytes :
    (rdata : List ℕ) → IsBytes rdata → Returns (λ r. IsBytes r.0) (keep_options rdata)
unfolding keep_options
keep_options-IsBytes rdata b =
    keep_loop-IsBytes (suc (length rdata)) rdata 0 [] false b tt (omega arith) (omega arith)

-- A packet of bytes that is at least so long.
abbrev pub Reaches : ℕ → List ℕ → Type 0
Reaches n out = IsBytes out × (n ≤ length out)

replace_rdata-Reaches :
    (p : List ℕ) (loc : OptLocation) (new : List ℕ)
    → LocatedAt p loc
    → IsBytes p
    → IsBytes new
    → Returns (Reaches loc.rdata_start) (replace_rdata p loc new)
unfolding replace_rdata
replace_rdata-Reaches p loc new l b c =
    let front : List ℕ = take (loc.rdata_start - 0) p in
    let back : List ℕ = take (length p - loc.rdata_end) (drop loc.rdata_end p) in
    let x = slice_lem p 0 loc.rdata_start (omega arith) (omega (arith, l.end_at, l.inside)) in
    let y = slice_lem p loc.rdata_end (length p) l.inside (omega arith) in
    let out : List ℕ = front ++ (new ++ back) in
    let bytes : IsBytes out =
      IsBytes-append front _ (IsBytes-take _ p b)
        (IsBytes-append new back c (IsBytes-take _ _ (IsBytes-drop loc.rdata_end p b))) in
    let reach : loc.rdata_start ≤ length out = omega (
      arith,
      length-append front (new ++ back),
      length-take (loc.rdata_start - 0) p,
      l.end_at,
      l.inside,
    ) in
    let i : ℕ = loc.rdata_start - 2 in
    let high : ℕ = length new % 2 ^ 16 / 256 in
    let low : ℕ = length new % 2 ^ 16 % 256 in
    let (a, n) = put-set (length out) out i high refl (omega (arith, l.start_at)) in
    let (d, m) = put-set (length out) (set out i high) (i + 1) low n (omega (arith, l.start_at)) in
    rw (x, y, a, d)
      (
        IsBytes-set (set out i high) (i + 1) low (IsBytes-set out i high bytes (omega arith))
            (omega arith),
        omega arith,
      )

-- On a packet of bytes with one question `strip_edns_ecs` ends without a panic, and the packet that
-- it returns is of bytes and has room for the question.
pub strip_edns_ecs-Reaches :
    (p : List ℕ) (n : ℕ) → OneQuestion p n → Returns (Reaches (n + 4)) (strip_edns_ecs p)
unfolding strip_edns_ecs strip_ecs_from_opt
strip_edns_ecs-Reaches p n q =
    Returns-bind (LocatedAt p) (Reaches (n + 4)) (located p) _ (located-LocatedAt p q.bytes)
      λ loc e l.
        let near =
          Returns-ok (λ loc. n + 4 ≤ loc.name_end) (located p) loc (located-Behind p n q) e in
        let x = slice_lem p loc.rdata_start loc.rdata_end (omega (arith, l.end_at)) l.inside in
        rw (strip_ecs_from_opt, x)
          (Returns-bind (λ r. IsBytes r.0) (Reaches (n + 4)) (keep_options _) _
            (keep_options-IsBytes _ (IsBytes-take _ _ (IsBytes-drop loc.rdata_start p q.bytes)))
            λ r f u. done r.1 loc r.0 near l u)
  where
    done :
        (found : Bool) (loc : OptLocation) (new : List ℕ)
        → n + 4 ≤ loc.name_end
        → LocatedAt p loc
        → IsBytes new
        → Returns (Reaches (n + 4)) (guard found >> replace_rdata p loc new)
    done false loc new near l b = tt
    done true loc new near l b =
        Returns-mono _ _ _
          (λ (out : List ℕ) (h : Reaches loc.rdata_start out). (h.0, omega (arith, l.start_at)))
          (replace_rdata-Reaches p loc new l q.bytes b)
