-- ===== src/Hasher.antt =====
-- src/hasher.rs: FNV-1a over 64 bits. The state is a number below 2 ^ 64.
use pathdns.Base.{
  ℕ, zero, suc, ◌+◌, ◌*◌, ◌%◌, ◌^◌, min, bit_xor, List, [], ◌∷◌, Outcome, ok, stuck, ◌>>=◌, leb,
  ltb, ◌&&◌, ◌==◌, if◌then◌else◌, length,
}
use pathdns.Base.Bytes.{byte, slice}

abbrev offset_basis : ℕ
offset_basis = 14695981039346656037

abbrev prime : ℕ
prime = 1099511628211

-- `Fnv1a::new()`.
unfoldable pub new : ℕ
new = offset_basis

unfoldable pub write_byte : ℕ → ℕ → ℕ
write_byte h b = bit_xor h b * prime % 2 ^ 64

unfoldable pub write : ℕ → List ℕ → ℕ
write h [] = h
write h (b ∷ bytes) = write (write_byte h b) bytes

unfoldable pub write_sep : ℕ → ℕ
write_sep h = bit_xor h 0x00FF_FF00 * prime % 2 ^ 64

-- `u8::to_ascii_lowercase`.
unfoldable pub to_ascii_lowercase : ℕ → ℕ
to_ascii_lowercase b = if leb b'A' b && leb b b'Z' then b + 32 else b

-- `for &b in bytes { h.write_byte(b.to_ascii_lowercase()) }`.
unfoldable pub write_lowered : ℕ → List ℕ → ℕ
write_lowered h [] = h
write_lowered h (b ∷ bytes) = write_lowered (write_byte h (to_ascii_lowercase b)) bytes

-- The loop of `write_qname_wire`, with the hash and the offset that it returns.
unfoldable pub write_qname_wire_loop : ℕ → List ℕ → ℕ → ℕ → Outcome (ℕ × ℕ)
write_qname_wire_loop zero question pos h = stuck
write_qname_wire_loop (suc fuel) question pos h =
    if ltb pos (length question)
    then (let len = byte question pos in
        let end = min (pos + 1 + len) (length question) in
        if len == 0 then ok (pos + 1, write_byte h len) else (do
          label ← slice question (pos + 1) end
          write_qname_wire_loop fuel question end (write_lowered (write_byte h len) label)))
    else ok (pos, h)

-- Each round moves on by a byte at least.
unfoldable pub write_qname_wire : ℕ → List ℕ → Outcome (ℕ × ℕ)
unfolding write_qname_wire_loop
write_qname_wire h question = write_qname_wire_loop (suc (length question)) question 0 h
