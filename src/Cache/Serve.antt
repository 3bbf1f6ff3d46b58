-- ===== src/Cache/Serve.antt =====
-- The packet that is sent for an entry of the response cache (src/cache.rs).
use pathdns.Base.{
  ℕ, ◌+◌, ◌-◌, ◌/◌, ◌%◌, ◌^◌, ◌≤◌, ◌<◌, ◌≡◌, ◌∙◌, List, length, set, take, drop, length-set,
  length-take, length-drop, get_or-take, get_or-drop, All, All-mono, true, false, ltb, ok, leb,
  le→leb, inl, refl, arith,
}
use pathdns.Base.Bytes.{byte, word16, put_lem, byte-set}
use pathdns.Base.Splice.{
  splice, length-splice, byte-splice_before, byte-splice_at, byte-splice_after,
}
use pathdns.Dns.Header.{set_id}
use pathdns.Dns.Ttl.{TtlOffsets, patch_ttls_at}
use pathdns.Dns.Ttl.Sections.{Spaced}
use pathdns.Dns.Ttl.Patch.{
  Fits, Apart, length-patch_ttls_at, byte-patch_ttls_at, word32-patch_ttls_at,
}
use pathdns.Base.Bytes.{word32}
use pathdns.Cache.{Entry, KeyedLookup, serve}

-- An entry whose offsets and lengths fit its packet and its query.
pub record IsSound (entry : Entry) : Type 0 where
  pub question_from : 12 ≤ entry.question_end
  pub question_to : entry.question_end ≤ length entry.query
  pub packet_to : entry.question_end ≤ length entry.packet
  pub behind : All (λ o. entry.question_end + 5 ≤ o.0) entry.ttl_offsets
  pub fits : Fits entry.packet entry.ttl_offsets
  pub spaced : Spaced entry.ttl_offsets
  pub small : All (λ o. o.1 < 2 ^ 32) entry.ttl_offsets

-- A packet as a client is to get it: the entry's, with the client's id and spelling of the question
-- and with TTLs that have run down.
pub record IsServed (entry : Entry) (request : KeyedLookup) (elapsed : ℕ) (out : List ℕ)
    : Type 0 where
  pub same_length : length out ≡ length entry.packet
  pub id : word16 out 0 ≡ request.client_id
  pub header : (j : ℕ) → 2 ≤ j → j < 12 → byte out j ≡ byte entry.packet j
  pub question : (j : ℕ) → 12 ≤ j → j < request.question_end → byte out j ≡ byte request.query j
  pub ttls : All (λ o. word32 out o.0 ≡ o.1 - elapsed) entry.ttl_offsets
  pub records :
      (j : ℕ)
      → request.question_end ≤ j
      → Apart j entry.ttl_offsets
      → byte out j ≡ byte entry.packet j

pub set_id_lem :
    (p : List ℕ) (id : ℕ) → 2 ≤ length p → set_id p id ≡ ok (set (set p 0 (id / 256)) 1 (id % 256))
unfolding set_id
set_id_lem p id h =
    let enough : ltb (length p) 2 ≡ false = ground arith in
    rw
      (
        enough,
        put_lem p 0 (id / 256) (omega arith),
        put_lem (set p 0 (id / 256)) 1 (id % 256) (omega (arith, length-set p 0 (id / 256))),
      )
      refl

Apart-before : (j q : ℕ) (os : TtlOffsets) → j < q → All (λ o. q + 5 ≤ o.0) os → Apart j os
Apart-before j q os h b = All-mono (λ o. q + 5 ≤ o.0) _ os (λ o k. inl (omega arith)) b

module _ (entry : Entry) (request : KeyedLookup) (elapsed : ℕ) (sound : IsSound entry)
    (small_id : request.client_id < 2 ^ 16) (same : entry.question_end ≡ request.question_end)
    (reach : request.question_end ≤ length request.query) where
  abbrev pub question : List ℕ
  question = take (request.question_end - 12) (drop 12 request.query)

  abbrev pub with_id : List ℕ
  with_id = set (set entry.packet 0 (request.client_id / 256)) 1 (request.client_id % 256)

  length-question : length question ≡ request.question_end - 12
  length-question = omega (
    arith,
    length-take (request.question_end - 12) (drop 12 request.query),
    length-drop 12 request.query,
  )

  length-with_id : length with_id ≡ length entry.packet
  length-with_id =
      length-set (set entry.packet 0 (request.client_id / 256)) 1 (request.client_id % 256)
      ∙ length-set entry.packet 0 (request.client_id / 256)

  abbrev pub unpatched : List ℕ
  unpatched = splice with_id 12 question

  fitting : 12 + length question ≤ length with_id
  fitting = omega (arith, length-question, length-with_id, sound.packet_to, sound.question_from)

  length-unpatched : length unpatched ≡ length entry.packet
  length-unpatched = length-splice with_id 12 question fitting ∙ length-with_id

  abbrev pub served : List ℕ
  served = patch_ttls_at unpatched entry.ttl_offsets elapsed

  pub serve_lem : serve entry request question elapsed ≡ ok served
  unfolding serve
  serve_lem =
      let long : leb request.question_end (length with_id) ≡ true =
        le→leb _ _ (omega (arith, length-with_id, sound.packet_to)) in
      rw
        (
          set_id_lem entry.packet request.client_id
              (omega (arith, sound.packet_to, sound.question_from)),
          long,
        )
        refl

  byte-with_id : (j : ℕ) → 2 ≤ j → byte with_id j ≡ byte entry.packet j
  byte-with_id j h = ground (
    arith,
    length-set entry.packet 0 (request.client_id / 256),
    sound.packet_to,
    sound.question_from,
    byte-set (set entry.packet 0 (request.client_id / 256)) 1 j (request.client_id % 256),
    byte-set entry.packet 0 j (request.client_id / 256),
  )

  -- Before the records nothing is patched.
  byte-served_front : (j : ℕ) → j < entry.question_end → byte served j ≡ byte unpatched j
  byte-served_front j h =
      byte-patch_ttls_at unpatched entry.ttl_offsets elapsed j
        (Apart-before j entry.question_end entry.ttl_offsets h sound.behind)

  word16-served : word16 served 0 ≡ request.client_id
  unfolding word16
  word16-served = omega (
    arith,
    byte-served_front 0 (omega (arith, sound.question_from)),
    byte-served_front 1 (omega (arith, sound.question_from)),
    byte-splice_before with_id 12 question fitting 0 (omega arith),
    byte-splice_before with_id 12 question fitting 1 (omega arith),
    length-set entry.packet 0 (request.client_id / 256),
    byte-set (set entry.packet 0 (request.client_id / 256)) 1 0 (request.client_id % 256) (
        omega (
          arith,
          length-set entry.packet 0 (request.client_id / 256),
          sound.packet_to,
          sound.question_from,
        )),
    byte-set (set entry.packet 0 (request.client_id / 256)) 1 1 (request.client_id % 256) (
        omega (
          arith,
          length-set entry.packet 0 (request.client_id / 256),
          sound.packet_to,
          sound.question_from,
        )),
    byte-set entry.packet 0 0 (request.client_id / 256)
        (omega (arith, sound.packet_to, sound.question_from)),
  )

  byte-question :
      (k j : ℕ) → 12 + k ≡ j → j < request.question_end → byte question k ≡ byte request.query j
  unfolding byte
  byte-question k j e h =
      get_or-take (request.question_end - 12) (drop 12 request.query) k 0 (omega arith)
      ∙ get_or-drop 12 request.query k j 0 e

  pub served-IsServed : IsServed entry request elapsed served
  served-IsServed = record {
    same_length = length-patch_ttls_at unpatched entry.ttl_offsets elapsed ∙ length-unpatched;
    id = word16-served;
    header = λ j a b.
        byte-served_front j (omega (arith, sound.question_from))
        ∙ byte-splice_before with_id 12 question fitting j b
        ∙ byte-with_id j a;
    question = λ j a b.
        byte-served_front j (omega (arith, same))
        ∙ byte-splice_at with_id 12 question fitting (j - 12) j (omega arith)
            (omega (arith, length-question))
        ∙ byte-question (j - 12) j (omega arith) b;
    ttls =
        word32-patch_ttls_at unpatched entry.ttl_offsets elapsed sound.spaced
          (All-mono _ _ entry.ttl_offsets (λ o h. omega (arith, length-unpatched)) sound.fits)
          sound.small;
    records = λ j a apart.
        byte-patch_ttls_at unpatched entry.ttl_offsets elapsed j apart
        ∙ byte-splice_after with_id 12 question fitting j
            (omega (arith, length-question, sound.question_from, same))
        ∙ byte-with_id j (omega (arith, sound.question_from, same));
  }
