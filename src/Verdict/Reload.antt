-- ===== src/Verdict/Reload.antt =====
-- A verdict cache file, saved and loaded again (src/verdict_cache.rs).
use mathlib.Core.List.{append_assoc}
use pathdns.Base.{
  ℕ, ◌+◌, ◌-◌, ◌^◌, ◌<◌, ◌≤◌, ◌≡◌, ◌≢◌, ◌⊎◌, ◌∙◌, ap, min, List, [], ◌∷◌, ◌++◌, Bool, true, false,
  not, some, ok, reject, Bool-cases, inl, inr, ◌==◌, length, All, refl, arith,
}
use pathdns.Base.Bytes.{le_bytes}
use pathdns.Persist.{read_number, write_header}
use pathdns.Persist.Fields.{
  read_exact-append, read_number-le_bytes, read_and_check_header-write_header,
  read_and_check_header-write_other,
}
use pathdns.Persist.Passes.{Passes, leave_out, insert_all}
use pathdns.Cache.Backend.{Store}
use pathdns.Verdict.{
  VerdictEntry, persist_magic, flag, is_expired, write_verdict, write_verdicts, live_verdicts,
  read_verdict, save_to_file, load_loop, load_from_file,
}

-- Sizes that a file can hold, under a name that is text.
pub record IsStored (is_utf8 : List ℕ → Bool) (x : List ℕ × VerdictEntry) : Type 0 where
  pub inserted : x.1.inserted_unix < 2 ^ 64
  pub name : length x.0 < 2 ^ 16
  pub utf8 : is_utf8 x.0 ≡ true

read_flag : (b : Bool) (rest : List ℕ) → read_number 1 (flag b ∷ rest) ≡ ok (flag b, rest)
unfolding le_bytes
read_flag true rest = read_number-le_bytes 1 1 rest (omega arith)
read_flag false rest = read_number-le_bytes 1 0 rest (omega arith)

unflag : (b : Bool) → not (flag b == 0) ≡ b
unflag true = refl
unflag false = refl

read_verdict-write_verdict :
    (is_utf8 : List ℕ → Bool) (x : List ℕ × VerdictEntry) (rest : List ℕ)
    → IsStored is_utf8 x
    → read_verdict (write_verdict x ++ rest) ≡ ok (x, rest)
unfolding read_verdict write_verdict
read_verdict-write_verdict is_utf8 (qname, e) rest s =
    let tail : List ℕ = le_bytes 2 (length qname) ++ (qname ++ rest) in
    rw
      (
        append_assoc,
        append_assoc,
        read_number-le_bytes 8 e.inserted_unix (flag e.is_primary ∷ tail) s.inserted,
        read_flag e.is_primary tail,
        read_number-le_bytes 2 (length qname) (qname ++ rest) s.name,
        read_exact-append (length qname) qname rest refl,
        unflag e.is_primary,
      )
      refl

-- A verdict has lapsed when the time to live, 0 for none, has passed since its insertion; the sum
-- saturates at 64 bits.
abbrev pub HasLapsed : ℕ → ℕ → List ℕ × VerdictEntry → Type 0
HasLapsed ttl_secs now x = (0 < ttl_secs) × (min (x.1.inserted_unix + ttl_secs) (2 ^ 64 - 1) ≤ now)

-- It has not, and is passed on as it is.
abbrev pub IsKept : ℕ → ℕ → List ℕ × VerdictEntry → List ℕ × VerdictEntry → Type 0
IsKept ttl_secs now x y = (HasLapsed ttl_secs now x → ⊥) × (y ≡ x)

lapses :
    (ttl_secs now : ℕ) (x : List ℕ × VerdictEntry)
    → ((is_expired ttl_secs x.1.inserted_unix now ≡ true) × HasLapsed ttl_secs now x)
      ⊎ ((is_expired ttl_secs x.1.inserted_unix now ≡ false) × (HasLapsed ttl_secs now x → ⊥))
unfolding is_expired
lapses ttl now x = elim (Bool-cases (is_expired ttl x.1.inserted_unix now)) [
  | inl e ↦ inl (e, (ground arith, ground arith))
  | inr e ↦ inr (e, λ h. ground (arith, h.0, h.1))
]

live_verdicts-Passes :
    (ttl_secs : ℕ) (xs : List (List ℕ × VerdictEntry)) (now : ℕ)
    → Passes (HasLapsed ttl_secs now) (IsKept ttl_secs now) xs (live_verdicts ttl_secs xs now)
unfolding live_verdicts Passes
live_verdicts-Passes ttl [] now = tt
live_verdicts-Passes ttl (x ∷ xs) now =
    let rest = live_verdicts-Passes ttl xs now in
    elim (lapses ttl now x) [
      | inl (past, gone) ↦ rw past (leave_out _ _ x xs _ gone rest)
      | inr (fresh, alive) ↦ rw fresh (inr ((alive, refl), rest))
    ]

module _ (S : Store (List ℕ) VerdictEntry) (is_utf8 : List ℕ → Bool) where
  open S use {State, insert, entries}

  load_loop-write_verdicts :
      (ttl_secs : ℕ) (xs : List (List ℕ × VerdictEntry)) (now : ℕ) (cache : State) (loaded : ℕ)
      → All (IsStored is_utf8) xs
      → (put : List (List ℕ × VerdictEntry)) × Passes
          (λ x. HasLapsed ttl_secs now x)
          (λ x y. IsKept ttl_secs now x y)
          xs
          put
        × (load_loop S is_utf8 ttl_secs (length xs) (write_verdicts xs) now cache loaded
            ≡ (insert_all S put cache, ok (loaded + length put)))
  unfolding load_loop write_verdicts insert_all Passes
  load_loop-write_verdicts ttl [] now cache n h = ([], tt, ground arith)
  load_loop-write_verdicts ttl (x ∷ xs) now cache n h =
      let read = read_verdict-write_verdict is_utf8 x (write_verdicts xs) h.0 in
      elim (lapses ttl now x) [
        | inl (past, gone) ↦
            let (put, p, e) = load_loop-write_verdicts ttl xs now cache n h.1 in
            (put, leave_out _ _ x xs put gone p, rw (load_loop, read, past) e)
        | inr (fresh, alive) ↦
            let (put, p, e) =
              load_loop-write_verdicts ttl xs now (insert x.0 x.1 cache) (n + 1) h.1 in
            (
              x ∷ put,
              inr ((alive, refl), p),
              rw (load_loop, read, fresh, h.0.utf8)
                  (e ∙ ap (λ k. (insert_all S (x ∷ put) cache, ok k)) (omega arith)),
            )
      ]

  -- The live verdicts of a map.
  abbrev pub live_of : ℕ → State → ℕ → List (List ℕ × VerdictEntry)
  live_of ttl_secs held now = live_verdicts ttl_secs (entries held) now

  -- The bytes of a file of verdicts.
  abbrev pub file_of : List (List ℕ × VerdictEntry) → ℕ → List ℕ
  file_of kept fingerprint =
      write_header persist_magic fingerprint (length kept) ++ write_verdicts kept

  -- When the live verdicts of a cache number less than 2^32, have names that are text of less
  -- than 2^16 bytes and insertion times of 64 bits, and the fingerprint has 64 bits,
  -- `save_to_file` writes a file of exactly the verdicts whose time to live has not passed since
  -- their insertion, in order; and loading it with the same fingerprint puts in exactly those of
  -- them whose time to live has not passed by then, in order and with their first insertion
  -- times, and counts them. A time to live of 0 never passes, and the sum of the two times
  -- saturates at 64 bits.
  pub load_from_file-write_verdicts :
      (ttl_secs : ℕ) (held cache : State) (fingerprint saved now : ℕ)
      → fingerprint < 2 ^ 64
      → length (live_of ttl_secs held saved) < 2 ^ 32
      → All (IsStored is_utf8) (live_of ttl_secs held saved)
      → (kept : List (List ℕ × VerdictEntry)) × (put : List (List ℕ × VerdictEntry)) × Passes
          (HasLapsed ttl_secs saved)
          (IsKept ttl_secs saved)
          (entries held)
          kept
        × Passes (HasLapsed ttl_secs now) (IsKept ttl_secs now) kept put
        × (save_to_file S (record { inner = some held; ttl_secs = ttl_secs }) fingerprint saved
            ≡ some (file_of kept fingerprint, length kept))
        × (load_from_file S is_utf8
              (record { inner = some cache; ttl_secs = ttl_secs })
              (file_of kept fingerprint)
              fingerprint
              now
            ≡ (
              record { inner = some (insert_all S put cache); ttl_secs = ttl_secs },
              ok (length put),
            ))
  unfolding save_to_file load_from_file
  load_from_file-write_verdicts ttl held cache fp saved now f c h =
      let kept : List (List ℕ × VerdictEntry) = live_of ttl held saved in
      let (put, p, e) = load_loop-write_verdicts ttl kept now cache 0 h in
      (
        kept,
        put,
        live_verdicts-Passes ttl (entries held) saved,
        p,
        refl,
        rw
            (
              load_from_file,
              read_and_check_header-write_header persist_magic fp (length kept)
                  (write_verdicts kept) refl f c,
              e,
            )
            (ap (λ k. (record { inner = some (insert_all S put cache); ttl_secs = ttl }, ok k))
              (omega arith)),
      )

  -- A file under another fingerprint is refused.
  pub load_from_file_refuses :
      (ttl_secs : ℕ) (cache : State) (fingerprint other count now : ℕ) (body : List ℕ)
      → fingerprint < 2 ^ 64
      → fingerprint ≢ other
      → load_from_file S is_utf8
          (record { inner = some cache; ttl_secs = ttl_secs })
          (write_header persist_magic fingerprint count ++ body)
          other
          now
        ≡ (record { inner = some cache; ttl_secs = ttl_secs }, reject)
  unfolding load_from_file
  load_from_file_refuses ttl cache fp other count now body f d =
      rw
        (
          load_from_file,
          read_and_check_header-write_other persist_magic fp other count body refl f d,
        )
        refl
