-- ===== src/Resolver/Dedupe/Follower.antt =====
-- What a follower of a query gets for what its leader publishes: `exchange_with_dedupe` of
-- src/resolver.rs.
use pathdns.Base.{
  ℕ, zero, suc, ◌+◌, ◌-◌, ◌/◌, ◌%◌, ◌^◌, ◌≤◌, ◌<◌, ◌≡◌, ◌⊎◌, inl, inr, List, [], ◌∷◌, Bool, true,
  false, ◌&&◌, Option, none, some, ok, reject, leb, ◌==◌, if◌then◌else◌, Bool-cases, length, set,
  take, drop, length-set, length-take, length-drop, get_or-take, get_or-drop, refl, sym, ap, ◌∙◌,
  arith, Returns, get_or, Returns-cases,
}
use pathdns.Base.Bytes.{IsBytes, byte, word16, slice_lem, byte-set}
use pathdns.Base.Splice.{
  splice, length-splice, byte-splice_before, byte-splice_at, byte-splice_after,
}
use pathdns.Dns.Name.{question_end, skip_name}
use pathdns.Dns.Name.Walk.{skip_name-NameAt}
use pathdns.Dns.Question.{eq_ignore_ascii_case}
use pathdns.Hasher.{to_ascii_lowercase}
use pathdns.Dns.Builder.{rcode_reply, servfail_reply}
use pathdns.Dns.Builder.Headers.{IsReplyTo, rcode_reply-IsReplyTo}
use pathdns.Cache.Serve.{set_id_lem}
use pathdns.Singleflight.{Delivery, bytes, no_reply, closed}
use pathdns.Resolver.Exchange.{QueryContext}
use pathdns.Resolver.Dedupe.{
  QueryInfo, servfail_or_empty, slices_match, has_question, restore_question, follower_reply,
}

question_end_total : (p : List ℕ) → IsBytes p → Returns (λ e. Unit {0}) (question_end p)
unfolding question_end
question_end_total p b = elim (Bool-cases (leb 12 (length p))) [
  | inr h ↦ rw h tt
  | inl h ↦ elim (Returns-cases _ (skip_name p 12) (skip_name-NameAt p 12 b)) [
    | inr e ↦ rw (h, e) tt
    | inl (n, e, r) ↦ elim (Bool-cases (leb (n + 4) (length p))) [
      | inr k ↦ rw (h, e, k) tt
      | inl k ↦ rw (h, e, k) tt
    ]
  ]
]

slices_match-lowered :
    (xs ys : List ℕ) (j : ℕ)
    → slices_match xs ys ≡ true
    → j < length xs
    → to_ascii_lowercase (get_or xs j 0) ≡ to_ascii_lowercase (get_or ys j 0)
unfolding slices_match eq_ignore_ascii_case
slices_match-lowered [] ys j h k = absurd (omega arith)
slices_match-lowered (x ∷ xs) [] j h k = cc
slices_match-lowered (x ∷ xs) (y ∷ ys) zero h k = ground arith
slices_match-lowered (x ∷ xs) (y ∷ ys) (suc j) h k =
    slices_match-lowered xs ys j (ground arith) (omega arith)

lowered-slices_match :
    (xs ys : List ℕ)
    → length xs ≡ length ys
    → ((j : ℕ)
        → j < length xs
        → to_ascii_lowercase (get_or xs j 0) ≡ to_ascii_lowercase (get_or ys j 0))
    → slices_match xs ys ≡ true
unfolding slices_match eq_ignore_ascii_case
lowered-slices_match [] [] e h = refl
lowered-slices_match [] (y ∷ ys) e h = absurd (omega arith)
lowered-slices_match (x ∷ xs) [] e h = absurd (omega arith)
lowered-slices_match (x ∷ xs) (y ∷ ys) e h =
    let first = h 0 (omega arith) in
    let rest = lowered-slices_match xs ys (omega arith) (λ j k. h (suc j) (omega arith)) in
    ground arith

module _ (ctx : QueryContext) (info : QueryInfo) where
  -- The response ends its question where the query does, and spells it in some case.
  abbrev pub HasQuestion : List ℕ → Type 0
  HasQuestion resp =
      (question_end resp ≡ ok ctx.question_end)
      × (ctx.question_end ≤ length resp)
      × ((j : ℕ)
          → 12 ≤ j
          → j < ctx.question_end
          → to_ascii_lowercase (byte resp j) ≡ to_ascii_lowercase (byte ctx.packet j))

  -- The leader's response with this client's id and spelling of the question.
  pub record IsFollowed (resp out : List ℕ) : Type 0 where
    pub same_length : length out ≡ length resp
    pub id : word16 out 0 ≡ info.id
    pub header : (j : ℕ) → 2 ≤ j → j < 12 → byte out j ≡ byte resp j
    pub question : (j : ℕ) → 12 ≤ j → j < ctx.question_end → byte out j ≡ byte ctx.packet j
    pub records : (j : ℕ) → ctx.question_end ≤ j → byte out j ≡ byte resp j

  -- What a follower answers.
  abbrev pub Follows : Delivery → Option (List ℕ) → Type 0
  Follows d none = d ≡ no_reply
  Follows d (some out) =
      ((resp : List ℕ) × (d ≡ bytes resp) × HasQuestion resp × IsFollowed resp out)
      ⊎ (IsReplyTo ctx.packet ctx.question_end 2 out
          × ((d ≡ closed) ⊎ ((resp : List ℕ) × (d ≡ bytes resp) × (HasQuestion resp → ⊥))))

  module _ (is_bytes : IsBytes ctx.packet) (lo : 12 ≤ ctx.question_end)
      (hi : ctx.question_end ≤ length ctx.packet) where
    abbrev part : List ℕ → List ℕ
    part p = take (ctx.question_end - 12) (drop 12 p)

    length-part :
        (p : List ℕ) → ctx.question_end ≤ length p → length (part p) ≡ ctx.question_end - 12
    length-part p h =
        omega (arith, length-take (ctx.question_end - 12) (drop 12 p), length-drop 12 p)

    byte-part :
        (p : List ℕ) (j k : ℕ) → 12 + j ≡ k → k < ctx.question_end → get_or (part p) j 0 ≡ byte p k
    unfolding byte
    byte-part p j k e h =
        get_or-take (ctx.question_end - 12) (drop 12 p) j 0 (omega arith)
        ∙ get_or-drop 12 p j k 0 (omega arith)

    servfail_lem :
        (r : List ℕ) × (servfail_or_empty ctx ≡ ok r) × IsReplyTo ctx.packet ctx.question_end 2 r
    unfolding servfail_or_empty servfail_reply rcode_reply
    servfail_lem =
        let (r, e, i) =
          rcode_reply-IsReplyTo ctx.packet ctx.question_end 2 is_bytes lo hi (omega arith) in
        (r, rw (servfail_or_empty, e) refl, i)

    -- The test of the response's question, in bounds.
    has_question-HasQuestion :
        (resp : List ℕ) (h : Returns (λ e. Unit {0}) (question_end resp))
        → ((has_question resp ctx ≡ ok true) × HasQuestion resp)
          ⊎ ((has_question resp ctx ≡ ok false) × (HasQuestion resp → ⊥))
    unfolding has_question
    has_question-HasQuestion resp h = elim (Returns-cases _ (question_end resp) h) [
      | inr e ↦ inr (rw (has_question, e) refl, λ q. refused e q.0)
      | inl (n, e, _) ↦
          elim (Bool-cases (n == ctx.question_end && leb ctx.question_end (length resp))) [
            | inr c ↦ inr (rw (has_question, e, c) refl, λ q. apart n (sym e ∙ q.0) q.1 c)
            | inl c ↦
                let long : ctx.question_end ≤ length resp = ground arith in
                let theirs = slice_lem resp 12 ctx.question_end lo long in
                let ours = slice_lem ctx.packet 12 ctx.question_end lo hi in
                elim (Bool-cases (slices_match (part resp) (part ctx.packet))) [
                  | inl m ↦ inl (
                    rw (has_question, e, c, theirs, ours, m) refl,
                    (
                      ends n e c,
                      long,
                      λ j a b.
                          sym (lower resp (j - 12) j (omega arith) b)
                          ∙ slices_match-lowered (part resp) (part ctx.packet) (j - 12) m
                              (omega (arith, length-part resp long))
                          ∙ lower ctx.packet (j - 12) j (omega arith) b,
                    ),
                  )
                  | inr m ↦ inr (
                    rw (has_question, e, c, theirs, ours, m) refl,
                    λ q. clash m (
                        lowered-slices_match (part resp) (part ctx.packet)
                          (length-part resp long ∙ sym (length-part ctx.packet hi))
                          (λ j k.
                            lower resp j (12 + j) refl (omega (arith, length-part resp long))
                            ∙ q.2 (12 + j) (omega arith) (omega (arith, length-part resp long))
                            ∙ sym (
                                lower ctx.packet j (12 + j) refl
                                  (omega (arith, length-part resp long))))),
                  )
                ]
          ]
    ]
      where
        refused : {n : ℕ} → question_end resp ≡ reject → question_end resp ≡ ok n → ⊥
        refused e f = cc

        clash : {b : Bool} → b ≡ false → b ≡ true → ⊥
        clash e f = cc

        ok_inj : {m n : ℕ} → ok m ≡ ok n → m ≡ n
        ok_inj e = cc

        apart :
            (n : ℕ)
            → ok n ≡ ok ctx.question_end
            → ctx.question_end ≤ length resp
            → (n == ctx.question_end && leb ctx.question_end (length resp)) ≡ false
            → ⊥
        apart n e l c = let same = ok_inj e in ground arith

        ends :
            (n : ℕ)
            → question_end resp ≡ ok n
            → (n == ctx.question_end && leb ctx.question_end (length resp)) ≡ true
            → question_end resp ≡ ok ctx.question_end
        ends n e c = let same : n ≡ ctx.question_end = ground arith in rw same at e

        lower :
            (p : List ℕ) (j k : ℕ)
            → 12 + j ≡ k
            → k < ctx.question_end
            → to_ascii_lowercase (get_or (part p) j 0) ≡ to_ascii_lowercase (byte p k)
        lower p j k e h = ap to_ascii_lowercase (byte-part p j k e h)

    module _ (small_id : info.id < 2 ^ 16) (resp : List ℕ)
        (long : ctx.question_end ≤ length resp) where
      abbrev with_id : List ℕ
      with_id = set (set resp 0 (info.id / 256)) 1 (info.id % 256)

      length-with_first : length (set resp 0 (info.id / 256)) ≡ length resp
      length-with_first = length-set resp 0 (info.id / 256)

      length-with_id : length with_id ≡ length resp
      length-with_id = length-set (set resp 0 (info.id / 256)) 1 (info.id % 256) ∙ length-with_first

      byte-with_id :
          (j : ℕ)
          → byte with_id j
            ≡ (if 1 == j then info.id % 256 else if 0 == j then info.id / 256 else byte resp j)
      byte-with_id j =
          rw
            (
              byte-set (set resp 0 (info.id / 256)) 1 j (info.id % 256)
                  (omega (arith, length-with_first)),
              byte-set resp 0 j (info.id / 256) (omega arith),
            )
            refl

      byte-with_id_rest : (j : ℕ) → 2 ≤ j → byte with_id j ≡ byte resp j
      byte-with_id_rest j h = ground (arith, byte-with_id j)

      fitting : 12 + length (part ctx.packet) ≤ length with_id
      fitting = omega (arith, length-part ctx.packet hi, length-with_id)

      abbrev sent : List ℕ
      sent = splice with_id 12 (part ctx.packet)

      word16-sent : word16 sent 0 ≡ info.id
      unfolding word16
      word16-sent = omega (
        arith,
        byte-splice_before with_id 12 (part ctx.packet) fitting 0 (omega arith),
        byte-splice_before with_id 12 (part ctx.packet) fitting 1 (omega arith),
        byte-with_id 0,
        byte-with_id 1,
      )

      sent-IsFollowed : IsFollowed resp sent
      unfolding byte
      sent-IsFollowed = record {
        same_length = length-splice with_id 12 (part ctx.packet) fitting ∙ length-with_id;
        id = word16-sent;
        header = λ j a b.
            byte-splice_before with_id 12 (part ctx.packet) fitting j b ∙ byte-with_id_rest j a;
        question = λ j a b.
            byte-splice_at with_id 12 (part ctx.packet) fitting (j - 12) j (omega arith)
              (omega (arith, length-part ctx.packet hi))
            ∙ byte-part ctx.packet (j - 12) j (omega arith) b;
        records = λ j a.
            byte-splice_after with_id 12 (part ctx.packet) fitting j
              (omega (arith, length-part ctx.packet hi))
            ∙ byte-with_id_rest j (omega arith);
      }

      restore_question_lem :
          (p : List ℕ)
          → ctx.question_end ≤ length p
          → restore_question p ctx ≡ ok (splice p 12 (part ctx.packet))
      unfolding restore_question
      restore_question_lem p h =
          rw (slice_lem ctx.packet 12 ctx.question_end lo hi, slice_lem p 12 ctx.question_end lo h)
            refl

    follower_bytes :
        (resp : List ℕ)
        → info.id < 2 ^ 16
        → IsBytes resp
        → (answer : Option (List ℕ)) × (follower_reply ctx info (bytes resp) ≡ ok answer)
          × Follows (bytes resp) answer
    unfolding follower_reply
    follower_bytes resp small b = elim (has_question-HasQuestion resp (question_end_total resp b)) [
      | inl (e, q) ↦ (
        some (sent small resp q.1),
        rw
            (
              e,
              set_id_lem resp info.id (omega (arith, q.1)),
              restore_question_lem small resp q.1 (with_id small resp q.1)
                  (omega (arith, length-with_id small resp q.1, q.1)),
            )
            refl,
        inl (resp, refl, q, sent-IsFollowed small resp q.1),
      )
      | inr (e, q) ↦
          let (r, f, i) = servfail_lem in (some r, rw (e, f) refl, inr (i, inr (resp, refl, q)))
    ]

  -- A delivered response is of bytes.
  abbrev pub OfBytes : Delivery → Type 0
  OfBytes (bytes resp) = IsBytes resp
  OfBytes no_reply = Unit {0}
  OfBytes closed = Unit {0}

  -- For a query of bytes whose question ends between 12 and its length, an id of 16 bits and any
  -- delivery, of bytes, `follower_reply` returns without a panic. It is silent only if the leader
  -- was; it answers the leader's response, with this client's id and spelling of the question,
  -- only if the response has the question in some case; and a SERVFAIL in reply to the query only
  -- if the leader was lost or its response has another question.
  pub follower_reply-Follows :
      (d : Delivery)
      → IsBytes ctx.packet
      → 12 ≤ ctx.question_end
      → ctx.question_end ≤ length ctx.packet
      → info.id < 2 ^ 16
      → OfBytes d
      → (answer : Option (List ℕ)) × (follower_reply ctx info d ≡ ok answer) × Follows d answer
  unfolding follower_reply
  follower_reply-Follows (bytes resp) b lo hi small d = follower_bytes b lo hi resp small d
  follower_reply-Follows no_reply b lo hi small d = (none, refl, refl)
  follower_reply-Follows closed b lo hi small d =
      let (r, e, i) = servfail_lem b lo hi in (some r, rw e refl, inr (i, inl refl))
