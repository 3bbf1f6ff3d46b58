-- ===== src/Dns/Ecs/Located.antt =====
-- The OPT record that `locate_opt` of src/dns/ecs.rs finds.
use pathdns.Base.{
  ℕ, zero, suc, ◌+◌, ◌≤◌, ◌≡◌, List, Option, none, some, ok, reject, Returns, Returns-bind, length,
  arith, Bool-cases, ltb, leb, ◌==◌, refl, inl, inr,
}
use pathdns.Base.Bytes.{IsBytes, word16, u16_at_lem}
use pathdns.Dns.Name.{skip_name}
use pathdns.Dns.Name.Walk.{NameAt, skip_name-NameAt}
use pathdns.Dns.Ecs.{OptLocation, skip_questions, skip_records, locate_loop, locate_opt, located}

-- Whole inside the packet, behind its fixed part.
pub record LocatedAt (p : List ℕ) (loc : OptLocation) : Type 0 where
  pub owner : ℕ
  pub name : NameAt p owner loc.name_end
  pub opt_type : word16 p loc.name_end ≡ 41
  pub start_at : loc.rdata_start ≡ loc.name_end + 10
  pub end_at : loc.rdata_end ≡ loc.rdata_start + word16 p (loc.name_end + 8)
  pub inside : loc.rdata_end ≤ length p

abbrev pub LocatedOption : List ℕ → Option OptLocation → Type 0
LocatedOption p none = Unit
LocatedOption p (some loc) = LocatedAt p loc

skip_questions-Returns :
    (n : ℕ) (p : List ℕ) (pos : ℕ) → IsBytes p → Returns (λ e. Unit {0}) (skip_questions n p pos)
unfolding skip_questions
skip_questions-Returns zero p pos b = tt
skip_questions-Returns (suc n) p pos b =
    Returns-bind (λ e. NameAt p pos e) (λ e. Unit {0}) (skip_name p pos) _
      (skip_name-NameAt p pos b) λ e q r. ground (arith, skip_questions-Returns n p (e + 4) b)

skip_records-Returns :
    (n : ℕ) (p : List ℕ) (pos : ℕ) → IsBytes p → Returns (λ e. Unit {0}) (skip_records n p pos)
unfolding skip_records
skip_records-Returns zero p pos b = tt
skip_records-Returns (suc n) p pos b =
    Returns-bind (λ e. NameAt p pos e) (λ e. Unit {0}) (skip_name p pos) _
      (skip_name-NameAt p pos b)
      λ e q r.
        let rest = skip_records-Returns n p (e + (10 + word16 p (e + 8))) b in
        elim (Bool-cases (ltb (length p) (e + 10))) [
          | inl short ↦ rw short tt
          | inr fits ↦ elim (Bool-cases (leb (e + (10 + word16 p (e + 8))) (length p))) [
            | inr over ↦ rw (fits, u16_at_lem p (e + 8) (ground arith), over) tt
            | inl whole ↦ rw (fits, u16_at_lem p (e + 8) (ground arith), whole) rest
          ]
        ]

location : List ℕ → ℕ → OptLocation
location p n = record { name_end = n; rdata_start = n + 10; rdata_end = n + 10 + word16 p (n + 8) }

location-LocatedAt :
    (p : List ℕ) (i n : ℕ)
    → NameAt p i n
    → word16 p n ≡ 41
    → n + 10 + word16 p (n + 8) ≤ length p
    → LocatedAt p (location p n)
unfolding location
location-LocatedAt p i n r t h = record {
  owner = i;
  name = r;
  opt_type = t;
  start_at = refl;
  end_at = refl;
  inside = h;
}

locate_loop-LocatedOption :
    (n : ℕ) (p : List ℕ) (pos : ℕ) → IsBytes p → Returns (LocatedOption p) (locate_loop n p pos)
unfolding locate_loop location
locate_loop-LocatedOption zero p pos b = tt
locate_loop-LocatedOption (suc k) p pos b =
    Returns-bind (λ e. NameAt p pos e) (LocatedOption p) (skip_name p pos) _
      (skip_name-NameAt p pos b)
      λ n q r.
        let rest = locate_loop-LocatedOption k p (n + 10 + word16 p (n + 8)) b in
        elim (Bool-cases (ltb (length p) (n + 10))) [
          | inl short ↦ rw short tt
          | inr fits ↦ elim (Bool-cases (leb (n + 10 + word16 p (n + 8)) (length p))) [
            | inr over ↦
                rw (fits, u16_at_lem p n (ground arith), u16_at_lem p (n + 8) (ground arith), over)
                  tt
            | inl whole ↦ elim (Bool-cases (word16 p n == 41)) [
              | inl opt ↦
                  rw
                    (
                      fits,
                      u16_at_lem p n (ground arith),
                      u16_at_lem p (n + 8) (ground arith),
                      whole,
                      opt,
                    )
                    (location-LocatedAt p pos n r (ground arith) (ground arith))
              | inr other ↦
                  rw
                    (
                      fits,
                      u16_at_lem p n (ground arith),
                      u16_at_lem p (n + 8) (ground arith),
                      whole,
                      other,
                    )
                    rest
            ]
          ]
        ]

-- On any packet of bytes the search ends without a panic, and what it finds stands whole in it.
pub locate_opt-LocatedOption : (p : List ℕ) → IsBytes p → Returns (LocatedOption p) (locate_opt p)
unfolding locate_opt
locate_opt-LocatedOption p b = elim (Bool-cases (ltb (length p) 12)) [
  | inl short ↦ rw short tt
  | inr fits ↦
      let a = u16_at_lem p 10 (ground arith) in
      let qd = u16_at_lem p 4 (ground arith) in
      let an = u16_at_lem p 6 (ground arith) in
      let ns = u16_at_lem p 8 (ground arith) in
      elim (Bool-cases (word16 p 10 == 0)) [
        | inl e ↦ rw (fits, a, e) tt
        | inr e ↦
            rw (fits, a, e, qd, an, ns)
              (Returns-bind (λ q. Unit {0}) (LocatedOption p) (skip_questions (word16 p 4) p 12) _
                (skip_questions-Returns (word16 p 4) p 12 b)
                λ q x u.
                  Returns-bind (λ r. Unit {0}) (LocatedOption p)
                    (skip_records (word16 p 6 + word16 p 8) p q) _
                    (skip_records-Returns (word16 p 6 + word16 p 8) p q b)
                    λ r y v. locate_loop-LocatedOption (word16 p 10) p r b)
      ]
]

-- The record that the callers go on with.
pub located-LocatedAt : (p : List ℕ) → IsBytes p → Returns (LocatedAt p) (located p)
unfolding located
located-LocatedAt p b =
    Returns-bind (LocatedOption p) (LocatedAt p) (locate_opt p) _ (locate_opt-LocatedOption p b)
      λ o e h. found o h
  where
    found :
        (o : Option OptLocation)
        → LocatedOption p o
        → Returns (LocatedAt p) (elim o [ none ↦ reject | some loc ↦ ok loc ])
    found none h = tt
    found (some loc) h = h
