-- ===== src/Tests/Verdicts.antt =====
-- The verdict cache and its file.
use pathdns.Base.{ℕ, ◌≡◌, List, [], ◌∷◌, true, Option, none, some, ok, length, refl, arith}
use pathdns.Dns.Question.{eq_bytes}
use pathdns.Persist.Fields.{eq_bytes_sound, eq_bytes_refl}
use pathdns.Cache.Backend.{Store}
use pathdns.Verdict.{VerdictEntry, is_expired, live_verdicts, save_to_file, load_from_file}
use pathdns.Verdict.Reload.{HasLapsed, IsKept, file_of, live_of, load_from_file-write_verdicts}
use pathdns.Persist.Passes.{Passes, insert_all}
use pathdns.Tests.OneEntry.{one_entry}

abbrev pub verdicts : Store (List ℕ) VerdictEntry
verdicts = one_entry eq_bytes eq_bytes_sound eq_bytes_refl

abbrev entry : VerdictEntry
entry = record { is_primary = true; inserted_unix = 1000 }

abbrev held : Option (List ℕ × VerdictEntry)
held = some (b'a' ∷ [], entry)

live : live_of verdicts (λ s. true) 3600 held 2000 ≡ (b'a' ∷ [], entry) ∷ []
unfolding live_verdicts is_expired
live = refl

load_from_file-write_verdicts_example :
    (kept : List (List ℕ × VerdictEntry)) × (put : List (List ℕ × VerdictEntry)) × Passes
      (HasLapsed 3600 2000)
      (IsKept 3600 2000)
      (verdicts.entries held)
      kept
    × Passes (HasLapsed 3600 4000) (IsKept 3600 4000) kept put
    × (save_to_file verdicts (record { inner = some held; ttl_secs = 3600 }) 77 2000
        ≡ some (file_of verdicts (λ s. true) kept 77, length kept))
    × (load_from_file verdicts
          (λ s. true)
          (record { inner = some none; ttl_secs = 3600 })
          (file_of verdicts (λ s. true) kept 77)
          77
          4000
        ≡ (
          record { inner = some (insert_all verdicts put none); ttl_secs = 3600 },
          ok (length put),
        ))
load_from_file-write_verdicts_example =
    load_from_file-write_verdicts verdicts (λ s. true) 3600 held none 77 2000 4000 (omega arith)
      (rw live (omega arith))
      (rw live (record { inserted = omega arith; name = omega arith; utf8 = refl }, tt))
