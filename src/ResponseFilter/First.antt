-- ===== src/ResponseFilter/First.antt =====
-- The filter that `first_match` of src/response_filter.rs finds.
use pathdns.Base.{
  ℕ, zero, suc, ◌+◌, ◌-◌, ◌≡◌, List, [], ◌∷◌, ◌++◌, Bool, true, false, ◌||◌, Option, none, some, ok,
  Returns-cases, Bool-cases, ltb, if◌then◌else◌, length, All, ap, inl, inr, refl, arith,
}
use pathdns.Base.Bytes.{IsBytes, u16_at_lem, word16}
use pathdns.Dns.Rr
use pathdns.Dns.Rr.{
  Rr, parse_rr, answer_ips, answer_rr_types_loop, answer_rr_types, question_qclass, IpAddr,
}
use pathdns.Dns.Rr.Bounds.{RrAt, parse_rr-RrAt}
use pathdns.Dns.Rr.Answers.{ips_of, answers, answer_ips-answers}
use pathdns.Ruleset.{RuleSetDb, is_empty, any}
use pathdns.ResponseFilter.{
  ResponseFilter, is_nil, ip_hit, ip_test, type_test, rcode_test, qclass_test, matches, find_match,
  first_match,
}

answer_rr_types_loop_total :
    (n : ℕ) (p : List ℕ) (pos : ℕ) (types : List ℕ)
    → IsBytes p
    → (ts : List ℕ) × (answer_rr_types_loop n p pos types ≡ ok ts)
unfolding answer_rr_types_loop
answer_rr_types_loop_total zero p pos types b = (types, refl)
answer_rr_types_loop_total (suc n) p pos types b =
    elim (Returns-cases (λ rr. RrAt p pos rr) (parse_rr p pos) (parse_rr-RrAt p pos b)) [
      | inr e ↦ (types, rw e refl)
      | inl (rr, e, r) ↦ rw e (
          answer_rr_types_loop_total n p rr.rr_end
            (if Rr.contains types rr.rr_type then types else types ++ (rr.rr_type ∷ [])) b)
    ]

answer_rr_types_total :
    (p : List ℕ) (q : ℕ) → IsBytes p → (ts : List ℕ) × (answer_rr_types p q ≡ ok ts)
unfolding answer_rr_types
answer_rr_types_total p q b = elim (Bool-cases (ltb (length p) 12 || ltb (length p) q)) [
  | inl s ↦ ([], rw s refl)
  | inr s ↦ rw (s, u16_at_lem p 6 (ground arith)) (answer_rr_types_loop_total (word16 p 6) p q [] b)
]

pub answer_ips_total :
    (p : List ℕ) (q : ℕ) → IsBytes p → (ips : List IpAddr) × (answer_ips p q ≡ ok ips)
answer_ips_total p q b = elim (Bool-cases (ltb (length p) 12 || ltb (length p) q)) [
  | inl s ↦ ([], unfold answer_ips in rw s refl)
  | inr s ↦ (ips_of p (answers p q), answer_ips-answers p q b (ground arith) (ground arith))
]

module _ (Regex : Type 0) (is_match : Regex → List ℕ → Bool) (wild : List ℕ → Option Regex) where
  abbrev Db : Type 0
  Db = RuleSetDb Regex is_match wild

  ip_test_total :
      (f : ResponseFilter) (db : Option Db) (p : List ℕ) (q : ℕ)
      → IsBytes p
      → (r : Bool) × (ip_test Regex is_match wild f db p q ≡ ok r)
  unfolding ip_test
  ip_test_total f db p q b = elim (Bool-cases (is_empty f.answer_ip)) [
    | inl e ↦ (true, rw e refl)
    | inr e ↦
        let (ips, h) = answer_ips_total p q b in
        (ip_hit Regex is_match wild db f.answer_ip ips, rw (e, h) refl)
  ]

  type_test_total :
      (f : ResponseFilter) (p : List ℕ) (q : ℕ)
      → IsBytes p
      → (r : Bool) × (type_test Regex is_match wild f p q ≡ ok r)
  unfolding type_test
  type_test_total f p q b = elim (Bool-cases (is_nil f.response_type)) [
    | inl e ↦ (true, rw e refl)
    | inr e ↦
        let (ts, h) = answer_rr_types_total p q b in
        (any (λ t. Rr.contains f.response_type t) ts, rw (e, h) refl)
  ]

  qclass_test_total :
      (f : ResponseFilter) (p : List ℕ) (q : ℕ)
      → (r : Bool) × (qclass_test Regex is_match wild f p q ≡ ok r)
  unfolding qclass_test question_qclass
  qclass_test_total f p q = elim (Bool-cases (is_nil f.response_qclass)) [
    | inl e ↦ (true, rw e refl)
    | inr e ↦ elim (Bool-cases (ltb q 2 || ltb (length p) q)) [
      | inl s ↦ (Rr.contains f.response_qclass 0, rw (e, question_qclass, s) refl)
      | inr s ↦ (
        Rr.contains f.response_qclass (word16 p (q - 2)),
        rw (e, question_qclass, s, u16_at_lem p (q - 2) (ground arith)) refl,
      )
    ]
  ]

  matches_total :
      (f : ResponseFilter) (db : Option Db) (p : List ℕ) (q : ℕ)
      → IsBytes p
      → (r : Bool) × (matches Regex is_match wild f db p q ≡ ok r)
  unfolding matches
  matches_total f db p q b =
      let (ip, a) = ip_test_total f db p q b in
      let (ty, c) = type_test_total f p q b in
      let (qc, d) = qclass_test_total f p q in
      go ip ty (rcode_test Regex is_match wild f p) a c d refl
    where
      go :
          {qc : Bool} (ip ty rc : Bool)
          → ip_test Regex is_match wild f db p q ≡ ok ip
          → type_test Regex is_match wild f p q ≡ ok ty
          → qclass_test Regex is_match wild f p q ≡ ok qc
          → rcode_test Regex is_match wild f p ≡ rc
          → (r : Bool) × (matches Regex is_match wild f db p q ≡ ok r)
      go false ty rc a c d e = (false, rw (matches, a) refl)
      go true false rc a c d e = (false, rw (matches, a, c) refl)
      go true true false a c d e = (false, rw (matches, a, c, e) refl)
      go {qc = qc} true true true a c d e = (qc, rw (matches, a, c, e, d) refl)

  -- No filter before the one that is found matches; none does where none is found.
  abbrev pub IsFirst :
      Option Db → List ℕ → ℕ → List ResponseFilter → ℕ → Option (ℕ × ResponseFilter) → Type 0
  IsFirst db p q fs start none = All (λ f. matches Regex is_match wild f db p q ≡ ok false) fs
  IsFirst db p q fs start (some (i, f)) =
      (before : List ResponseFilter) × (after : List ResponseFilter) × (fs ≡ before ++ (f ∷ after))
      × (start + length before ≡ i)
      × All (λ g. matches Regex is_match wild g db p q ≡ ok false) before
      × (matches Regex is_match wild f db p q ≡ ok true)

  IsFirst-cons :
      (db : Option Db) (p : List ℕ) (q : ℕ) (f : ResponseFilter) (fs : List ResponseFilter)
      (start : ℕ) (o : Option (ℕ × ResponseFilter))
      → matches Regex is_match wild f db p q ≡ ok false
      → IsFirst db p q fs (suc start) o
      → IsFirst db p q (f ∷ fs) start o
  IsFirst-cons db p q f fs start none e h = (e, h)
  IsFirst-cons db p q f fs start (some (i, g)) e (before, after, split, count, rest, hit) =
      (f ∷ before, after, ap (λ xs. f ∷ xs) split, omega arith, (e, rest), hit)

  find_match-IsFirst :
      (fs : List ResponseFilter) (start : ℕ) (db : Option Db) (p : List ℕ) (q : ℕ)
      → IsBytes p
      → (o : Option (ℕ × ResponseFilter)) × (find_match Regex is_match wild fs start db p q ≡ ok o)
        × IsFirst db p q fs start o
  unfolding find_match
  find_match-IsFirst [] start db p q b = (none, refl, tt)
  find_match-IsFirst (f ∷ fs) start db p q b =
      let (r, e) = matches_total f db p q b in go r e (find_match-IsFirst fs (suc start) db p q b)
    where
      go :
          (r : Bool)
          → matches Regex is_match wild f db p q ≡ ok r
          → (o : Option (ℕ × ResponseFilter)) × (find_match Regex is_match wild fs
                (suc start)
                db
                p
                q
              ≡ ok o)
            × IsFirst db p q fs (suc start) o
          → (o : Option (ℕ × ResponseFilter)) × (find_match Regex is_match wild
                (f ∷ fs)
                start
                db
                p
                q
              ≡ ok o)
            × IsFirst db p q (f ∷ fs) start o
      go true e h = (some (start, f), rw e refl, ([], fs, refl, omega arith, tt, e))
      go false e (o, m, h) = (o, rw e m, IsFirst-cons db p q f fs start o e h)

  -- On any response of bytes and any question end `first_match` returns, without a panic: a
  -- filter that matches, with its index, before which none does, or none if no filter matches.
  pub first_match-IsFirst :
      (fs : List ResponseFilter) (db : Option Db) (p : List ℕ) (q : ℕ)
      → IsBytes p
      → (o : Option (ℕ × ResponseFilter)) × (first_match Regex is_match wild fs db p q ≡ ok o)
        × IsFirst db p q fs 0 o
  unfolding first_match
  first_match-IsFirst fs db p q b = find_match-IsFirst fs 0 db p q b
