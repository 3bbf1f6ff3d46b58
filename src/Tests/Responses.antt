-- ===== src/Tests/Responses.antt =====
-- Responses.
use pathdns.Base.{ℕ, ◌-◌, ◌≡◌, ◌≢◌, [], ◌∷◌, ok, Returns, All, refl, arith}
use pathdns.Base.Bytes.{byte, word16, word32, at, get, u16_at, u32_at}
use pathdns.Dns.Name.{skip_name}
use pathdns.Dns.Header.{is_good_reply}
use pathdns.Dns.Ttl.{
  clamp, effective_ttl_and_offsets, ttl_offsets_and_soa, scan_loop, read_fixed, note_offset,
  note_soa, positive_ttl, patch_ttls_at,
}
use pathdns.Dns.Ttl.Effective.{IsResult, effective-IsResult, served_ttl}
use pathdns.Tests.Packets.{response, response-IsBytes}

effective_response : effective_ttl_and_offsets response 19 30 60 200 ≡ ok (200, (25, 200) ∷ [])
unfolding effective_ttl_and_offsets is_good_reply byte at get u16_at u32_at skip_name
    ttl_offsets_and_soa scan_loop read_fixed note_offset note_soa positive_ttl
effective_response = refl

effective-IsResult_example :
    Returns (IsResult 19 response 60 200) (effective_ttl_and_offsets response 19 30 60 200)
effective-IsResult_example = effective-IsResult response 19 30 60 200 response-IsBytes (omega arith)

served_ttl_example :
    All {A = ℕ × ℕ}
      (λ o.
        word32 (patch_ttls_at response ((25, 200) ∷ []) 50) o.0
        ≡ clamp 60 200 (word32 response o.0) - 50)
      ((25, 200) ∷ [])
served_ttl_example =
    served_ttl response 19 30 60 200 50 (200, (25, 200) ∷ []) response-IsBytes (omega arith)
      (omega arith) effective_response one
  where
    counted : word16 response 6 ≡ 1
    counted = unfold word16 byte in refl

    one : word16 response 6 ≢ 0
    one = omega (arith, counted)
