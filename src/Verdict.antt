-- ===== src/Verdict.antt =====
-- The verdict cache, src/verdict_cache.rs. The map behind it is the package quick_cache, as for the
-- response cache; a name is its bytes, `now` and `now_unix` the wall clock in seconds, and
-- `is_utf8` stands for `String::from_utf8`.
pub mod Deadline
pub mod Reload
use pathdns.Base.{
  ℕ, zero, suc, ◌+◌, ◌-◌, ◌^◌, min, List, [], ◌∷◌, ◌++◌, Bool, true, false, not, ◌&&◌, Option, none,
  some, Outcome, ok, reject, panic, stuck, ◌>>=◌, leb, ltb, ◌==◌, if◌then◌else◌, length,
}
use pathdns.Base.Bytes.{le_bytes}
use pathdns.Persist.{read_exact, read_number, write_header, read_and_check_header}
use pathdns.Cache.Backend.{Store}

pub record VerdictEntry : Type 0 where
  pub is_primary : Bool
  pub inserted_unix : ℕ

pub record VerdictCacheConfig : Type 0 where
  pub capacity : ℕ
  pub ttl : ℕ

pub record VerdictCache (State : Type 0) : Type 0 where
  pub inner : Option State
  pub ttl_secs : ℕ

-- "PDNSV001".
abbrev pub persist_magic : List ℕ
persist_magic = 80 ∷ 68 ∷ 78 ∷ 83 ∷ 86 ∷ 48 ∷ 48 ∷ 49 ∷ []

-- The sum saturates at 64 bits.
unfoldable pub is_expired : ℕ → ℕ → ℕ → Bool
is_expired ttl_secs inserted_unix now =
    ltb 0 ttl_secs && leb (min (inserted_unix + ttl_secs) (2 ^ 64 - 1)) now

-- The byte of `is_primary`.
abbrev pub flag : Bool → ℕ
flag true = 1
flag false = 0

-- `(b.len() as u16).to_le_bytes()` keeps the low 16 bits.
unfoldable pub write_verdict : List ℕ × VerdictEntry → List ℕ
write_verdict (qname, entry) =
    le_bytes 8 entry.inserted_unix ++ (flag entry.is_primary ∷ le_bytes 2 (length qname) ++ qname)

unfoldable pub write_verdicts : List (List ℕ × VerdictEntry) → List ℕ
write_verdicts [] = []
write_verdicts (e ∷ es) = write_verdict e ++ write_verdicts es

unfoldable pub live_verdicts : ℕ → List (List ℕ × VerdictEntry) → ℕ → List (List ℕ × VerdictEntry)
live_verdicts ttl_secs [] now = []
live_verdicts ttl_secs ((k, v) ∷ es) now =
    let rest = live_verdicts ttl_secs es now in
    if is_expired ttl_secs v.inserted_unix now then rest else (k, v) ∷ rest

-- What is read of one entry: its name and the entry.
unfoldable pub read_verdict : List ℕ → Outcome ((List ℕ × VerdictEntry) × List ℕ)
read_verdict r = do
  (inserted_unix, r) ← read_number 8 r
  (byte, r) ← read_number 1 r
  (qname_len, r) ← read_number 2 r
  (qname, r) ← read_exact qname_len r
  ok ((qname, record { is_primary = not (byte == 0); inserted_unix = inserted_unix }), r)

module _ (S : Store (List ℕ) VerdictEntry) where
  open S use {State, with_capacity, get, insert, clear, entries}

  unfoldable pub new : Option VerdictCacheConfig → VerdictCache State
  new none = record { inner = none; ttl_secs = 0 }
  new (some cfg) =
      if cfg.capacity == 0
      then record { inner = none; ttl_secs = 0 }
      else record { inner = some (with_capacity cfg.capacity); ttl_secs = cfg.ttl }

  unfoldable pub enabled : VerdictCache State → Bool
  enabled self = elim self.inner [ none ↦ false | some cache ↦ true ]

  unfoldable pub get_verdict : VerdictCache State → List ℕ → ℕ → Option Bool
  get_verdict self qname now = elim self.inner [
    | none ↦ none
    | some cache ↦ elim (get qname cache) [
      | none ↦ none
      | some entry ↦
          if is_expired self.ttl_secs entry.inserted_unix now then none else some entry.is_primary
    ]
  ]

  unfoldable pub invalidate_all : VerdictCache State → VerdictCache State
  invalidate_all self = elim self.inner [
    | none ↦ self
    | some cache ↦ record self { inner = some (clear cache) }
  ]

  unfoldable pub add : VerdictCache State → List ℕ → Bool → ℕ → VerdictCache State
  add self qname is_primary_domain now = elim self.inner [
    | none ↦ self
    | some cache ↦ record self {
      inner =
          some
            (insert qname (record { is_primary = is_primary_domain; inserted_unix = now }) cache);
    }
  ]

  -- The bytes of the file and the count, `none` where no file is written.
  unfoldable pub save_to_file : VerdictCache State → ℕ → ℕ → Option (List ℕ × ℕ)
  save_to_file self fingerprint now = elim self.inner [
    | none ↦ none
    | some cache ↦
        let live = live_verdicts self.ttl_secs (entries cache) now in
        some
          (write_header persist_magic fingerprint (length live) ++ write_verdicts live, length live)
  ]

  -- The `for` loop: the map so far, and the count or the error.
  unfoldable pub load_loop : (List ℕ → Bool) → ℕ → ℕ → List ℕ → ℕ → State → ℕ → State × Outcome ℕ
  load_loop is_utf8 ttl_secs zero r now cache loaded = (cache, ok loaded)
  load_loop is_utf8 ttl_secs (suc n) r now cache loaded = elim (read_verdict r) [
    | ok ((qname, entry), r') ↦
        let skip = load_loop is_utf8 ttl_secs n r' now cache loaded in
        let put = load_loop is_utf8 ttl_secs n r' now (insert qname entry cache) (loaded + 1) in
        if is_expired ttl_secs entry.inserted_unix now
        then skip
        else if not (is_utf8 qname)
        then skip
        else put
    | reject ↦ (cache, reject)
    | panic ↦ (cache, panic)
    | stuck ↦ (cache, stuck)
  ]

  unfoldable pub load_from_file :
      (List ℕ → Bool) → VerdictCache State → List ℕ → ℕ → ℕ → VerdictCache State × Outcome ℕ
  load_from_file is_utf8 self file fingerprint now = elim self.inner [
    | none ↦ (self, ok 0)
    | some cache ↦ elim (read_and_check_header persist_magic fingerprint file) [
      | ok (count, r) ↦
          let (cache', result) = load_loop is_utf8 self.ttl_secs count r now cache 0 in
          (record self { inner = some cache' }, result)
      | reject ↦ (self, reject)
      | panic ↦ (self, panic)
      | stuck ↦ (self, stuck)
    ]
  ]
