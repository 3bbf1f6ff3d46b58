-- ===== src/Dns/Variant/Total.antt =====
-- `extract_variant` of src/dns/mod.rs ends, without a panic, on any packet.
use pathdns.Base.{
  ℕ, zero, suc, ◌+◌, ◌-◌, ◌<◌, ◌≡◌, List, [], ◌∷◌, ◌++◌, false, not, ◌&&◌, Option, none, some,
  Outcome, ok, reject, panic, stuck, Returns, Returns-cases, leb, ltb, ◌==◌, length, take, drop,
  Bool-cases, inl, inr, refl, arith,
}
use pathdns.Base.Bytes.{IsBytes, at_lem, slice_lem, word16, u16_at_lem, get_range}
use pathdns.Dns.Edns.{find_opt_record}
use pathdns.Dns.Edns.Opt.{OptAt, find_opt_record-OptAt}
use pathdns.Dns.Variant.{
  EcsSrc, QueryVariant, parse_ecs_src, to_option, opt_data_loop, codes_hash, extract_opt_data,
  extract_variant, no_edns,
}

parse_ecs_src-Returns : (o : List ℕ) → Returns (λ _. Unit {0}) (parse_ecs_src o)
unfolding parse_ecs_src
parse_ecs_src-Returns o = ground (arith, u16_at_lem o 0, at_lem o 2)

to_option_total :
    {A : Type 0} (m : Outcome A) → Returns (λ _. Unit {0}) m → (o : Option A) × (to_option m ≡ ok o)
to_option_total (ok a) h = (some a, refl)
to_option_total reject h = (none, refl)
to_option_total panic h = absurd h
to_option_total stuck h = absurd h

opt_data_loop_total :
    (fuel : ℕ) (rdata : List ℕ) (pos : ℕ) (src : Option EcsSrc) (codes : List ℕ)
    → length rdata < pos + fuel
    → 0 < fuel
    → (r : Option EcsSrc × List ℕ) × (opt_data_loop fuel rdata pos src codes ≡ ok r)
unfolding opt_data_loop
opt_data_loop_total zero rdata pos src codes h p = absurd (omega arith)
opt_data_loop_total (suc fuel) rdata pos src codes h p =
    elim (Bool-cases (leb (pos + 4) (length rdata))) [
      | inr e ↦ rw e ((src, codes), refl)
      | inl e ↦
          let a = u16_at_lem rdata pos (ground arith) in
          let b = u16_at_lem rdata (pos + 2) (ground arith) in
          let code : ℕ = word16 rdata pos in
          let len : ℕ = word16 rdata (pos + 2) in
          elim (Bool-cases (ltb (length rdata) (pos + 4 + len))) [
            | inl l ↦ rw (e, a, b, l) ((src, codes), refl)
            | inr l ↦ elim (Bool-cases (code == 8 && leb 4 len)) [
              | inl c ↦
                  let s = slice_lem rdata (pos + 4) (pos + 4 + len) (omega arith) (ground arith) in
                  let (o, t) = to_option_total _ (
                    parse_ecs_src-Returns
                      (take (pos + 4 + len - (pos + 4)) (drop (pos + 4) rdata))) in
                  rw (e, a, b, l, c, s, t)
                    (opt_data_loop_total fuel rdata (pos + 4 + len) o codes (omega arith)
                      (ground arith))
              | inr c ↦ elim (Bool-cases (not (code == 12))) [
                | inl d ↦
                    rw (e, a, b, l, c, d)
                      (opt_data_loop_total fuel rdata (pos + 4 + len) src (codes ++ (code ∷ []))
                        (omega arith) (ground arith))
                | inr d ↦
                    rw (e, a, b, l, c, d)
                      (opt_data_loop_total fuel rdata (pos + 4 + len) src codes (omega arith)
                        (ground arith))
              ]
            ]
          ]
    ]

extract_opt_data_total :
    (rdata : List ℕ) → (r : Option EcsSrc × ℕ) × (extract_opt_data rdata ≡ ok r)
unfolding extract_opt_data
extract_opt_data_total rdata =
    let ((s, codes), e) =
      opt_data_loop_total (suc (length rdata)) rdata 0 none [] (omega arith) (omega arith) in
    rw e ((s, codes_hash codes), refl)

-- `extract_variant` returns, without a panic, on any packet of bytes and any question end.
pub extract_variant_total :
    (p : List ℕ) (question_end : ℕ)
    → IsBytes p
    → (v : QueryVariant) × (extract_variant p question_end ≡ ok v)
unfolding extract_variant
extract_variant_total p q b = elim (Bool-cases (ltb (length p) 12)) [
  | inl short ↦ rw short (no_edns false false false, refl)
  | inr long ↦
      let a = at_lem p 2 (ground arith) in
      let c = at_lem p 3 (ground arith) in
      elim (Returns-cases (OptAt p) (find_opt_record p q) (find_opt_record-OptAt p q b)) [
        | inr none_there ↦ rw (long, a, c, none_there) (_, refl)
        | inl (opt, e, o) ↦
            let v =
              at_lem p (opt.name_end + 5) (omega (arith, o.rdata_at, o.rdata_end_at, o.inside)) in
            let f =
              at_lem p (opt.name_end + 6) (omega (arith, o.rdata_at, o.rdata_end_at, o.inside)) in
            let (r, x) = extract_opt_data_total (get_range p opt.rdata_start opt.rdata_end) in
            rw (long, a, c, e, v, f, x) (_, refl)
      ]
]
