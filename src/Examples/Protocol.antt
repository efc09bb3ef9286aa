-- ===== src/Examples/Protocol.antt =====
-- The protocol, the numbers and the login on small inputs: src/core/resp.h, src/core/hlc.h,
-- src/storage/fs_util.h, src/net/auth.cpp, src/utils/count_min_sketch.h.
use somnium_db.Prelude.{
  ℕ, ◌+◌, ◌*◌, ◌^◌, ◌%◌, ◌≤◌, ◌<◌, ◌≡◌, ◌↔◌, ◌⊎◌, inr, refl, arith, true, false, some, List, [],
  ◌∷◌, ◌++◌, length, Bytes, codes, crlf, line,
}
use Prim.Native.Nat.{min}
use somnium_db.Prelude.Int.{pos, negsuc, to_u64, w64, div_ℤ, ◌-ℤ◌, ◌+ℤ◌, ◌*ℤ◌}
use somnium_db.Resp.{complete, need_more, parse, until_crlf}
use somnium_db.Resp.Encode.{encode, bulk_string, bulk_strings}
use somnium_db.Resp.Stable.{parse-append}
use somnium_db.Resp.Progress.{parse_bounds}
use somnium_db.Resp.RoundTrip.{parse-encode, parse_waits}
use somnium_db.Hlc.{normalize, next, Clock}
use somnium_db.Hlc.Order.{next_dominates, normalize_idem_iff}
use somnium_db.FsUtil.{parse_u64, parse_i64, to_string, to_string_ℤ}
use somnium_db.FsUtil.Decimal.{parse_i64-to_string_ℤ}
use somnium_db.Sketch.{estimate_frequency}
use somnium_db.Sketch.Counts.{estimate_frequency-ge, accesses, occurrences}
use somnium_db.Auth.{Login, credentials_ok, auth, hello}
use somnium_db.Auth.Credentials.{credentials_ok_iff, auth-authenticated, hello-resp3}
use somnium_db.Commands.Options.{set_deadline}
use somnium_db.Commands.Deadlines.{set_deadline-bounds}

abbrev get_k : List Bytes
get_k = codes "GET" ∷ codes "k" ∷ []

abbrev get_k_text : Bytes
get_k_text = line "*2" ++ line "$3" ++ line "GET" ++ line "$1" ++ line "k"

parse-append_example : parse (get_k_text ++ codes "*1") 0 ≡ parse get_k_text 0
unfolding parse until_crlf parse_u64
parse-append_example = parse-append get_k_text (codes "*1") 0 (omega arith) λ e. cc

parse_bounds_example : (0 + 2 ≤ 20) × (20 ≤ length get_k_text)
unfolding parse until_crlf parse_u64
parse_bounds_example = parse_bounds get_k_text 0 20 get_k (omega arith) refl

parse-encode_example :
    parse (codes "xx" ++ (encode get_k ++ codes "*1")) 2
    ≡ complete (2 + length (encode get_k), get_k)
parse-encode_example =
    parse-encode (codes "xx") (codes "*1") get_k (omega arith) (omega arith, (omega arith, tt))

parse_waits_example : parse (line "*2" ++ line "$3") 0 ≡ need_more
unfolding encode to_string bulk_strings bulk_string
parse_waits_example =
    parse_waits get_k (line "*2" ++ line "$3") (codes "ET" ++ crlf ++ line "$1" ++ line "k") b'G'
      (omega arith) (omega arith, (omega arith, tt)) refl

abbrev clock_5 : Clock
clock_5 = record { last = 5 }

next_dominates_example :
    (5 < (next clock_5 (pos 3) 9).0)
    × (9 < (next clock_5 (pos 3) 9).0)
    × (to_u64 (pos 3) * 2 ^ 16 % w64 ≤ (next clock_5 (pos 3) 9).0)
    × ((next clock_5 (pos 3) 9).1.last ≡ (next clock_5 (pos 3) 9).0)
next_dominates_example = next_dominates clock_5 (pos 3) 9 (omega arith) (omega arith)

normalize_idem_iff_example :
    (normalize (normalize 1000) ≡ normalize 1000) ↔ ((◌≡◌ {A = ℕ} 1000 0) ⊎ (2 ^ 31 ≤ 1000))
normalize_idem_iff_example = normalize_idem_iff 1000

parse_i64-to_string_ℤ_example : parse_i64 (to_string_ℤ (negsuc 6)) ≡ some (negsuc 6)
parse_i64-to_string_ℤ_example = parse_i64-to_string_ℤ (negsuc 6) (omega arith) (omega arith)

estimate_frequency-ge_example :
    min (occurrences (codes "a") (codes "a" ∷ codes "b" ∷ [])) 0xffff
    ≤ estimate_frequency (codes "a") (accesses (codes "a" ∷ codes "b" ∷ []))
estimate_frequency-ge_example = estimate_frequency-ge (codes "a") (codes "a" ∷ codes "b" ∷ [])

credentials_ok_iff_example :
    (credentials_ok (codes "default") (codes "pw") (codes "pw") ≡ true)
    ↔ ((codes "pw" ≡ codes "pw") × (codes "default" ≡ codes "default"))
credentials_ok_iff_example = credentials_ok_iff (codes "default") (codes "pw") (codes "pw")

abbrev stranger : Login
stranger = record { fd = 7; authenticated = false; resp3 = false; auth_failures = 0 }

auth-authenticated_example :
    (((auth
          (codes "AUTH" ∷ codes "default" ∷ codes "pw" ∷ [])
          (codes "pw")
          stranger).1.authenticated
        ≡ true)
      ↔ ((codes "pw" ≡ codes "pw") × (codes "default" ≡ codes "default")))
    × (((auth (codes "AUTH" ∷ codes "pw" ∷ []) (codes "pw") stranger).1.authenticated ≡ true)
        ↔ (codes "pw" ≡ codes "pw"))
    × ((auth
          (codes "AUTH" ∷ codes "default" ∷ codes "pw" ∷ codes "x" ∷ [])
          (codes "pw")
          stranger).1.authenticated
        ≡ false)
auth-authenticated_example =
    auth-authenticated (codes "AUTH") (codes "default") (codes "pw") (codes "x") [] b'p' (codes "w")
      stranger refl

hello-resp3_example : (hello (codes "HELLO" ∷ codes "3" ∷ []) (codes "pw") stranger).1.resp3 ≡ false
unfolding hello parse_i64
hello-resp3_example = hello-resp3 (codes "HELLO" ∷ codes "3" ∷ []) (codes "pw") stranger refl

set_deadline-bounds_example : (t : ℕ) × (pos 61000 ≡ pos t) × (1000 < t) × (t < 2 ^ 63)
unfolding set_deadline div_ℤ ◌-ℤ◌ ◌+ℤ◌ ◌*ℤ◌
set_deadline-bounds_example =
    set_deadline-bounds 1000 1000 (pos 60) (pos 61000) (omega arith) (inr refl) refl
