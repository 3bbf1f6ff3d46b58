-- ===== src/Cache/File/Reload.antt =====
-- A whole response cache file, saved and loaded again (src/cache.rs).
use pathdns.Base.{
  ℕ, ◌+◌, ◌-◌, ◌*◌, ◌/◌, ◌^◌, ◌∙◌, ◌==◌, ap, min, leb→le, ◌≤◌, ◌<◌, ◌≡◌, ◌≢◌, List, [], ◌∷◌, ◌++◌,
  Bool, true, none, some, ok, reject, leb, if◌then◌else◌, length, drop, length-take, length-drop,
  All, Bool-cases, inl, inr, refl, arith,
}
use pathdns.Base.Bytes.{get_range}
use pathdns.Dns.Variant.{extract_variant}
use pathdns.Persist.{write_header}
use pathdns.Persist.Fields.{read_and_check_header-write_header, read_and_check_header-write_other}
use pathdns.Cache.Backend.{Store}
use pathdns.Persist.Passes.{Passes, leave_out, insert_all}
use pathdns.Cache.{Entry, DnsCache, age_at}
use pathdns.Cache.File.{
  magic, live_entries, write_entries, re_anchor, load_entry, save_to_file, load_loop,
  load_from_file,
}
use pathdns.Cache.File.RoundTrip.{IsStorable, stored_of, read_entry-write_entry, re_anchor_left}

-- An entry whose fields fit together: what `add` is handed and what a file can hold.
pub record IsSaved (is_utf8 : List ℕ → Bool) (now_unix : ℕ) (x : ℕ × Entry × ℕ) : Type 0 where
  pub storable : IsStorable now_unix x
  pub question_from : 12 ≤ x.1.question_end
  pub question_to : x.1.question_end ≤ length x.1.query
  pub variant : extract_variant x.1.query x.1.question_end ≡ ok x.1.variant
  pub name : is_utf8 x.1.qname ≡ true

-- The entry as it is loaded.
abbrev restored : Entry → ℕ → ℕ → Entry
restored entry left now =
    let (inserted, ttl) = re_anchor entry.ttl left now in
    record entry { inserted = inserted; ttl = ttl }

-- Saved at `saved`: the age in seconds has reached the TTL; or the entry is written with its key and
-- the seconds that are left to it.
abbrev pub HasEnded : ℕ → ℕ × Entry → Type 0
HasEnded saved x = x.1.ttl ≤ (saved - x.1.inserted) / 1000000000

abbrev pub IsWritten : ℕ → ℕ × Entry → ℕ × Entry × ℕ → Type 0
IsWritten saved (key, entry) (key', entry', left) =
    ((saved - entry.inserted) / 1000000000 < entry.ttl)
    × (key' ≡ key)
    × (entry' ≡ entry)
    × (left ≡ entry.ttl - (saved - entry.inserted) / 1000000000)

-- Loaded at `now_unix`, `now` of the monotonic clock: the deadline by the wall clock has come; or the
-- entry is put in under its key, unchanged but for the times, which leave it, `k` seconds after the
-- loading, what is left until the deadline, at most the TTL, less `k`.
abbrev pub IsPast : ℕ → ℕ → ℕ × Entry × ℕ → Type 0
IsPast saved_unix now_unix (key, entry, left) = saved_unix + left ≤ now_unix

abbrev pub IsPut : ℕ → ℕ → ℕ → ℕ × Entry × ℕ → ℕ × Entry → Type 0
IsPut saved_unix now_unix now (key, entry, left) (key', put) =
    (now_unix < saved_unix + left)
    × (key' ≡ key)
    × (put ≡ record entry { inserted = put.inserted; ttl = put.ttl })
    × ((k : ℕ)
        → put.ttl - (now + k * 1000000000 - put.inserted) / 1000000000
          ≡ min (saved_unix + left - now_unix) entry.ttl - k)

live_entries-Passes :
    (xs : List (ℕ × Entry)) (saved : ℕ)
    → Passes (HasEnded saved) (IsWritten saved) xs (live_entries xs saved)
unfolding live_entries Passes
live_entries-Passes [] saved = tt
live_entries-Passes ((key, e) ∷ xs) saved =
    let rest = live_entries-Passes xs saved in
    elim (Bool-cases (e.ttl - age_at saved e.inserted == 0)) [
      | inl ended ↦ rw (live_entries, ended) (leave_out _ _ (key, e) xs _ (ground arith) rest)
      | inr lasts ↦ rw (live_entries, lasts) (inr ((ground arith, refl, refl, refl), rest))
    ]

restored-IsPut :
    (saved_unix now_unix now : ℕ) (x : ℕ × Entry × ℕ)
    → now_unix < saved_unix + x.2
    → IsPut saved_unix now_unix now x (x.0, restored x.1 (saved_unix + x.2 - now_unix) now)
restored-IsPut saved_unix now_unix now x h =
    (h, refl, refl, λ k. re_anchor_left x.1.ttl (saved_unix + x.2 - now_unix) now k)

length-question :
    (query : List ℕ) (question_end : ℕ)
    → 12 ≤ question_end
    → question_end ≤ length query
    → 12 + length (get_range query 12 question_end) ≡ question_end
length-question query question_end h k =
    grind (arith, length-take (question_end - 12) (drop 12 query), length-drop 12 query)

load_entry-stored_of :
    (is_utf8 : List ℕ → Bool) (saved_unix now_unix now : ℕ) (x : ℕ × Entry × ℕ)
    → IsSaved is_utf8 saved_unix x
    → load_entry is_utf8 (stored_of saved_unix x) now_unix now ≡ (
        if leb (saved_unix + x.2) now_unix
        then ok none
        else ok (some (restored x.1 (saved_unix + x.2 - now_unix) now)))
unfolding load_entry
load_entry-stored_of is_utf8 saved now_unix now x s =
    let end : 12 + length (get_range x.1.query 12 x.1.question_end) ≡ x.1.question_end =
      length-question x.1.query x.1.question_end s.question_from s.question_to in
    elim (Bool-cases (leb (saved + x.2) now_unix)) [
      | inl past ↦ rw past refl
      | inr live ↦ rw (live, s.name, end, s.variant) refl
    ]

module _ (S : Store ℕ Entry) (is_utf8 : List ℕ → Bool) where
  open S use {State, insert, entries}

  load_loop-write_entries :
      (xs : List (ℕ × Entry × ℕ)) (saved_unix now_unix now : ℕ) (cache : State) (loaded : ℕ)
      → All (IsSaved is_utf8 saved_unix) xs
      → (put : List (ℕ × Entry)) × Passes
          (IsPast saved_unix now_unix)
          (IsPut saved_unix now_unix now)
          xs
          put
        × (load_loop S is_utf8 (length xs) (write_entries saved_unix xs) now_unix now cache loaded
            ≡ (insert_all S put cache, ok (loaded + length put)))
  unfolding load_loop write_entries insert_all Passes
  load_loop-write_entries [] saved now_unix now cache n h = ([], tt, ground arith)
  load_loop-write_entries (x ∷ xs) saved now_unix now cache n h =
      let read = read_entry-write_entry saved x (write_entries saved xs) h.0.storable in
      let load = load_entry-stored_of is_utf8 saved now_unix now x h.0 in
      elim (Bool-cases (leb (saved + x.2) now_unix)) [
        | inl past ↦
            let (put, p, e) = load_loop-write_entries xs saved now_unix now cache n h.1 in
            (put, leave_out _ _ x xs put (leb→le _ _ past) p, rw (load_loop, read, load, past) e)
        | inr live ↦
            let entry : Entry = restored x.1 (saved + x.2 - now_unix) now in
            let (put, p, e) =
              load_loop-write_entries xs saved now_unix now (insert x.0 entry cache) (n + 1) h.1 in
            (
              (x.0, entry) ∷ put,
              inr (restored-IsPut saved now_unix now x (ground arith), p),
              rw (load_loop, read, load, live)
                  (e ∙ ap (λ k. (insert_all S ((x.0, entry) ∷ put) cache, ok k)) (omega arith)),
            )
      ]

  -- The bytes of the file.
  abbrev pub file_of : List (ℕ × Entry × ℕ) → ℕ → ℕ → List ℕ
  file_of kept fingerprint saved_unix =
      write_header magic fingerprint (length kept) ++ write_entries saved_unix kept

  -- Take a cache whose live entries fit the fields of the file, have questions and variants as
  -- `add` is handed them, and names that are text, and number less than 2^32, with a fingerprint
  -- of 64 bits. `save_to_file` writes a file of exactly the entries whose age in seconds has not
  -- reached their TTL, in order, each with the seconds left to it. Loading it with the same
  -- fingerprint, at any time, puts in exactly those whose deadline by the wall clock has not
  -- come, in order, each under its key and unchanged but for its times, and counts them; an
  -- entry's new times leave it, any number of seconds after the loading, what was left until its
  -- deadline, at most its TTL, less these seconds.
  pub load_from_file-save_to_file :
      (self target : DnsCache State) (held cache : State)
      (fingerprint saved_unix saved now_unix now : ℕ)
      → self.cache ≡ some held
      → target.cache ≡ some cache
      → fingerprint < 2 ^ 64
      → length (live_entries (entries held) saved) < 2 ^ 32
      → All (IsSaved is_utf8 saved_unix) (live_entries (entries held) saved)
      → (kept : List (ℕ × Entry × ℕ)) × (put : List (ℕ × Entry)) × Passes
          (HasEnded saved)
          (IsWritten saved)
          (entries held)
          kept
        × Passes (IsPast saved_unix now_unix) (IsPut saved_unix now_unix now) kept put
        × (save_to_file S is_utf8 self fingerprint saved_unix saved
            ≡ some (file_of kept fingerprint saved_unix, length kept))
        × (load_from_file S is_utf8 target
              (file_of kept fingerprint saved_unix)
              fingerprint
              now_unix
              now
            ≡ (record target { cache = some (insert_all S put cache) }, ok (length put)))
  unfolding save_to_file load_from_file
  load_from_file-save_to_file self target held cache fp saved_unix saved now_unix now a b f c h =
      let kept : List (ℕ × Entry × ℕ) = live_entries (entries held) saved in
      let (put, p, e) = load_loop-write_entries kept saved_unix now_unix now cache 0 h in
      (
        kept,
        put,
        live_entries-Passes (entries held) saved,
        p,
        rw (save_to_file, a) refl,
        rw
            (
              load_from_file,
              b,
              read_and_check_header-write_header magic fp (length kept)
                  (write_entries saved_unix kept) refl f c,
              e,
            )
            (ap (λ k. (record target { cache = some (insert_all S put cache) }, ok k))
              (omega arith)),
      )

  -- `load_from_file` with another fingerprint than the file was written with, of 64 bits, returns
  -- an error and leaves the cache as it was.
  load_from_file_rejects :
      (self : DnsCache State) (cache : State) (fingerprint other count now_unix now : ℕ)
      (body : List ℕ)
      → fingerprint < 2 ^ 64
      → fingerprint ≢ other
      → load_from_file S is_utf8
          (record self { cache = some cache })
          (write_header magic fingerprint count ++ body)
          other
          now_unix
          now
        ≡ (record self { cache = some cache }, reject)
  unfolding load_from_file
  load_from_file_rejects self cache fp other count now_unix now body f d =
      rw (load_from_file, read_and_check_header-write_other magic fp other count body refl f d) refl
