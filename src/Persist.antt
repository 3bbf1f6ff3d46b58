-- ===== src/Persist.antt =====
-- src/persist.rs: the header and the fields of a persisted cache file. A file is its bytes, and a
-- reader is what is left of them; `reject` is an error of any kind. The file system's part of
-- `atomic_write` is not here.
pub mod Fields
pub mod Passes
use pathdns.Base.{
  ℕ, ◌^◌, List, [], ◌∷◌, ◌++◌, Outcome, ok, reject, guard, ◌>>=◌, ◌>>◌, leb, ◌==◌, if◌then◌else◌,
  length, take, drop,
}
use pathdns.Base.Bytes.{le_bytes, le_number}
use pathdns.Dns.Question.{eq_bytes}

-- `read_exact` into a buffer of `n` bytes.
unfoldable pub read_exact : ℕ → List ℕ → Outcome (List ℕ × List ℕ)
read_exact n r = if leb n (length r) then ok (take n r, drop n r) else reject

-- `read_u16`, `read_u32` and `read_u64`, of 2, 4 and 8 bytes.
unfoldable pub read_number : ℕ → List ℕ → Outcome (ℕ × List ℕ)
unfolding le_number
read_number n r = do (bytes, r) ← read_exact n r; ok (le_number bytes, r)

abbrev pub max_persisted_bytes : ℕ
max_persisted_bytes = 2 ^ 16

unfoldable pub read_bytes : List ℕ → Outcome (List ℕ × List ℕ)
unfolding read_number
read_bytes r = do (len, r) ← read_number 4 r; guard (leb len max_persisted_bytes); read_exact len r

unfoldable pub write_header : List ℕ → ℕ → ℕ → List ℕ
write_header magic fingerprint count = magic ++ (le_bytes 8 fingerprint ++ le_bytes 4 count)

unfoldable pub read_and_check_header : List ℕ → ℕ → List ℕ → Outcome (ℕ × List ℕ)
unfolding read_exact read_number eq_bytes
read_and_check_header magic fingerprint r = do
  (stored_magic, r) ← read_exact 8 r
  guard (eq_bytes stored_magic magic)
  (stored_fp, r) ← read_number 8 r
  guard (stored_fp == fingerprint)
  read_number 4 r

-- A field with its length before it.
unfoldable pub write_bytes : List ℕ → List ℕ
write_bytes bytes = le_bytes 4 (length bytes) ++ bytes
