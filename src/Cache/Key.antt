-- ===== src/Cache/Key.antt =====
-- Keys of the response cache, src/cache.rs: `cache_key_with_variant`,
-- `cache_key_with_variant_from_qname_hash`, `invalid_shape_key`, `finish_cache_key`.
pub mod Agree
use pathdns.Base.{
  ℕ, List, [], ◌∷◌, Bool, true, false, ◌||◌, Option, none, some, Outcome, ok, ◌>>=◌, leb, ltb,
  if◌then◌else◌, length, drop,
}
use pathdns.Base.Bytes.{slice, le_bytes}
use pathdns.Hasher
use pathdns.Hasher.{write, write_byte, write_sep, write_qname_wire}
use pathdns.Dns.Variant.{QueryVariant, EcsSrc}

-- The `debug_assert!` is not in a release build.
unfoldable pub invalid_shape_key : List ℕ → ℕ → ℕ
unfolding le_bytes
invalid_shape_key query question_end =
    write (write_sep (write Hasher.new query)) (le_bytes 8 question_end)

-- `b as u8`.
abbrev pub as_u8 : Bool → ℕ
as_u8 true = 1
as_u8 false = 0

abbrev pub write_ecs : ℕ → Option EcsSrc → ℕ
write_ecs h none = write_byte h 0
write_ecs h (some ecs) = write_byte (write (write_byte h 1) ecs.addr) ecs.prefix_len

-- `question.get(pos..).unwrap_or(&[])`.
abbrev pub get_from : List ℕ → ℕ → List ℕ
get_from question pos = if leb pos (length question) then drop pos question else []

unfoldable pub finish_cache_key : ℕ → List ℕ → ℕ → QueryVariant → Bool → ℕ
unfolding le_bytes
finish_cache_key h question pos_after_qname v strip_ecs =
    let h = write h (get_from question pos_after_qname) in
    let h = write_byte h (as_u8 v.has_opt) in
    let h = write_byte h (as_u8 v.do_bit) in
    let h = write_byte h v.edns_version in
    let h = write_byte h (as_u8 v.rd) in
    let h = write_byte h (as_u8 v.ad) in
    let h = write_byte h (as_u8 v.cd) in
    let h = if strip_ecs then write_byte h 0 else write_ecs h v.ecs_src in
    write h (le_bytes 8 v.extra_opts_hash)

abbrev pub has_invalid_shape : List ℕ → ℕ → Bool
has_invalid_shape query question_end =
    ltb (length query) 12 || ltb question_end 16 || ltb (length query) question_end

unfoldable pub cache_key_with_variant : List ℕ → ℕ → QueryVariant → Bool → Outcome ℕ
cache_key_with_variant query question_end v strip_ecs =
    if has_invalid_shape query question_end then ok (invalid_shape_key query question_end) else (do
      question ← slice query 12 question_end
      (pos, h) ← write_qname_wire Hasher.new question
      ok (finish_cache_key h question pos v strip_ecs))

unfoldable pub cache_key_from_qname_hash : List ℕ → ℕ → ℕ → ℕ → QueryVariant → Bool → Outcome ℕ
cache_key_from_qname_hash query question_end qname_hash qname_hash_end v strip_ecs =
    if has_invalid_shape query question_end then ok (invalid_shape_key query question_end) else (do
      question ← slice query 12 question_end
      ok (finish_cache_key qname_hash question qname_hash_end v strip_ecs))
