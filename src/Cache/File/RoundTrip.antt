-- ===== src/Cache/File/RoundTrip.antt =====
-- What is loaded of a saved response cache (src/cache.rs).
use mathlib.Core.List.{append_assoc}
use pathdns.Base.{
  ℕ, ◌+◌, ◌-◌, ◌*◌, ◌^◌, min, ◌≤◌, ◌<◌, ◌≡◌, List, [], ◌∷◌, ◌++◌, true, ok, leb, length, All,
  leb→le, Bool-cases, inl, inr, refl, arith,
}
use pathdns.Base.Bytes.{get_range, le_bytes}
use pathdns.Dns.Ttl.{TtlOffsets}
use pathdns.Persist.{max_persisted_bytes}
use pathdns.Persist.Fields.{read_number-le_bytes, read_bytes-write_bytes}
use pathdns.Cache.{Entry, age_at, second}
use pathdns.Cache.File.{Stored, write_offsets, read_offsets, write_entry, read_entry, re_anchor}

-- Sizes that the fields of a file can hold.
pub record IsStorable (now_unix : ℕ) (x : ℕ × Entry × ℕ) : Type 0 where
  pub key : x.0 < 2 ^ 64
  pub expire : now_unix + x.2 < 2 ^ 64
  pub ttl : x.1.ttl < 2 ^ 32
  pub question : length (get_range x.1.query 12 x.1.question_end) ≤ max_persisted_bytes
  pub packet : length x.1.packet ≤ max_persisted_bytes
  pub query : length x.1.query ≤ max_persisted_bytes
  pub qname : length x.1.qname ≤ max_persisted_bytes
  pub count : length x.1.ttl_offsets < 2 ^ 16
  pub offsets : All (λ o. (o.0 < 2 ^ 32) × (o.1 < 2 ^ 32)) x.1.ttl_offsets
  pub rule_id : x.1.rule_id < 2 ^ 16

abbrev pub stored_of : ℕ → ℕ × Entry × ℕ → Stored
stored_of now_unix (key, entry, remaining) = record {
  key = key;
  expire_unix = now_unix + remaining;
  raw_ttl = entry.ttl;
  question = get_range entry.query 12 entry.question_end;
  packet = entry.packet;
  query = entry.query;
  qname_bytes = entry.qname;
  offsets = entry.ttl_offsets;
  entry_rule_id = entry.rule_id;
}

read_offsets-write_offsets :
    (os : TtlOffsets) (rest : List ℕ)
    → All (λ o. (o.0 < 2 ^ 32) × (o.1 < 2 ^ 32)) os
    → read_offsets (length os) (write_offsets os ++ rest) ≡ ok (os, rest)
unfolding read_offsets write_offsets
read_offsets-write_offsets [] rest h = refl
read_offsets-write_offsets ((off, t) ∷ os) rest ((a, b), h) = simp (append_assoc) (
    rw
      (
        read_number-le_bytes 4 off (le_bytes 4 t ++ (write_offsets os ++ rest)) a,
        read_number-le_bytes 4 t (write_offsets os ++ rest) b,
        read_offsets-write_offsets os rest h,
      )
      refl)

pub read_entry-write_entry :
    (now_unix : ℕ) (x : ℕ × Entry × ℕ) (rest : List ℕ)
    → IsStorable now_unix x
    → read_entry (write_entry now_unix x ++ rest) ≡ ok (stored_of now_unix x, rest)
unfolding read_entry write_entry
read_entry-write_entry now_unix (key, e, remaining) rest s =
    let few : leb (length e.ttl_offsets) (2 ^ 16 - 1) ≡ true = ground (arith, s.count) in
    simp (
      append_assoc,
      read_number-le_bytes 8 key _ s.key,
      read_number-le_bytes 8 (now_unix + remaining) _ s.expire,
      read_number-le_bytes 4 e.ttl _ s.ttl,
      read_bytes-write_bytes (get_range e.query 12 e.question_end) _ s.question,
      read_bytes-write_bytes e.packet _ s.packet,
      read_bytes-write_bytes e.query _ s.query,
      read_bytes-write_bytes e.qname _ s.qname,
      read_number-le_bytes 4 (length e.ttl_offsets) _ (omega (arith, s.count)),
      few,
      read_offsets-write_offsets e.ttl_offsets _ s.offsets,
      read_number-le_bytes 2 e.rule_id _ s.rule_id,
    )

-- The time to live that is left to a re-anchored entry, seconds after it was loaded.
pub re_anchor_left :
    (raw_ttl remaining now k : ℕ)
    → (re_anchor raw_ttl remaining now).1
        - age_at (now + k * second) (re_anchor raw_ttl remaining now).0
      ≡ min remaining raw_ttl - k
unfolding re_anchor
re_anchor_left raw_ttl remaining now k =
    elim (Bool-cases (leb ((raw_ttl - remaining) * second) now)) [
      | inl early ↦
          let le : (raw_ttl - remaining) * second ≤ now = leb→le _ _ early in rw early (omega arith)
      | inr late ↦ rw late (omega arith)
    ]
