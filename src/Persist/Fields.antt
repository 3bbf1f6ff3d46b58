-- ===== src/Persist/Fields.antt =====
-- What is read back of the fields of a file (src/persist.rs).
use pathdns.Base.{
  ℕ, zero, suc, ◌/◌, ◌^◌, ◌≤◌, ◌<◌, ◌≡◌, ◌≢◌, List, [], ◌∷◌, ◌++◌, true, false, ok, reject, length,
  length-append, drop-append_length, take-append_length, le→leb, leb, ◌==◌, refl, ap, arith,
}
use mathlib.Core.List.{append_assoc}
use native.Mathlib.Nat.{pow-suc}
use pathdns.Base.Bytes.{le_bytes, le_number}
use pathdns.Dns.Question.{eq_bytes}
use pathdns.Persist.{
  read_exact, read_number, read_bytes, max_persisted_bytes, write_header, read_and_check_header,
  write_bytes,
}

pub length-le_bytes : (n v : ℕ) → length (le_bytes n v) ≡ n
unfolding le_bytes
length-le_bytes zero v = refl
length-le_bytes (suc n) v = ap suc (length-le_bytes n (v / 256))

le_number-le_bytes : (n v : ℕ) → v < 256 ^ n → le_number (le_bytes n v) ≡ v
unfolding le_bytes le_number
le_number-le_bytes zero v h = omega arith
le_number-le_bytes (suc n) v h =
    omega (arith, pow-suc 256 n, le_number-le_bytes n (v / 256) (omega (arith, pow-suc 256 n)))

pub read_exact-append :
    (n : ℕ) (bytes rest : List ℕ)
    → length bytes ≡ n
    → read_exact n (bytes ++ rest) ≡ ok (bytes, rest)
unfolding read_exact
read_exact-append n bytes rest h =
    let whole : leb n (length (bytes ++ rest)) ≡ true = ground (arith, length-append bytes rest) in
    rw (whole, take-append_length n bytes rest h, drop-append_length n bytes rest h) refl

pub read_number-le_bytes :
    (n v : ℕ) (rest : List ℕ) → v < 256 ^ n → read_number n (le_bytes n v ++ rest) ≡ ok (v, rest)
unfolding read_number
read_number-le_bytes n v rest h =
    rw (read_exact-append n (le_bytes n v) rest (length-le_bytes n v), le_number-le_bytes n v h)
      refl

pub read_bytes-write_bytes :
    (bytes rest : List ℕ)
    → length bytes ≤ max_persisted_bytes
    → read_bytes (write_bytes bytes ++ rest) ≡ ok (bytes, rest)
unfolding read_bytes write_bytes
read_bytes-write_bytes bytes rest h =
    let small : leb (length bytes) max_persisted_bytes ≡ true = le→leb (length bytes) (2 ^ 16) h in
    rw (append_assoc, read_number-le_bytes 4 (length bytes) (bytes ++ rest) (omega arith), small)
      (read_exact-append (length bytes) bytes rest refl)

pub eq_bytes_sound : (xs ys : List ℕ) → eq_bytes xs ys ≡ true → xs ≡ ys
unfolding eq_bytes
eq_bytes_sound [] [] h = refl
eq_bytes_sound [] (y ∷ ys) h = cc
eq_bytes_sound (x ∷ xs) [] h = cc
eq_bytes_sound (x ∷ xs) (y ∷ ys) h =
    let rest : xs ≡ ys = eq_bytes_sound xs ys (ground arith) in ground arith

pub eq_bytes_refl : (xs : List ℕ) → eq_bytes xs xs ≡ true
unfolding eq_bytes
eq_bytes_refl [] = refl
eq_bytes_refl (x ∷ xs) = ground (arith, eq_bytes_refl xs)

-- The header is read back only under the magic and the fingerprint that it was written with.
pub read_and_check_header-write_header :
    (magic : List ℕ) (fingerprint count : ℕ) (rest : List ℕ)
    → length magic ≡ 8
    → fingerprint < 2 ^ 64
    → count < 2 ^ 32
    → read_and_check_header magic fingerprint (write_header magic fingerprint count ++ rest)
      ≡ ok (count, rest)
unfolding read_and_check_header write_header
read_and_check_header-write_header magic fingerprint count rest m f c =
    let same : (fingerprint == fingerprint) ≡ true = ground arith in
    simp (append_assoc) (
      rw
        (
          read_exact-append 8 magic (le_bytes 8 fingerprint ++ (le_bytes 4 count ++ rest)) m,
          eq_bytes_refl magic,
          read_number-le_bytes 8 fingerprint (le_bytes 4 count ++ rest) f,
          same,
        )
        (read_number-le_bytes 4 count rest c))

-- And refused under every other fingerprint.
pub read_and_check_header-write_other :
    (magic : List ℕ) (fingerprint other count : ℕ) (rest : List ℕ)
    → length magic ≡ 8
    → fingerprint < 2 ^ 64
    → fingerprint ≢ other
    → read_and_check_header magic other (write_header magic fingerprint count ++ rest) ≡ reject
unfolding read_and_check_header write_header
read_and_check_header-write_other magic fingerprint other count rest m f d =
    let differ : (fingerprint == other) ≡ false = ground arith in
    simp (append_assoc) (
      rw
        (
          read_exact-append 8 magic (le_bytes 8 fingerprint ++ (le_bytes 4 count ++ rest)) m,
          eq_bytes_refl magic,
          read_number-le_bytes 8 fingerprint (le_bytes 4 count ++ rest) f,
          differ,
        )
        refl)
