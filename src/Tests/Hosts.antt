-- ===== src/Tests/Hosts.antt =====
-- The theorems on the guard, at concrete inputs.
use xtremflow.Base.{
  ◌≤◌, ◌≡◌, refl, ◌↔◌, ◌⊎◌, String, true, false, none, some, [], ◌∷◌, arith, str_eq,
}
use xtremflow.Ssrf.{
  Ipv4, v4, is_forbidden_v4, is_forbidden_ip, Guard, Url, HostReading, is_http, allows_private,
  resolve_public, check_host, check_url, is_forbidden_host_literal,
}
use xtremflow.Ssrf.Laws.{to_bits, In, Reachable}
use xtremflow.Ssrf.Laws.{is_forbidden_v4_iff, check_url-Reachable}

abbrev metadata : Ipv4
metadata = record { a = 169; b = 254; c = 169; d = 254 }

abbrev outside : Ipv4
outside = record { a = 93; b = 184; c = 216; d = 34 }

abbrev guard : Guard
guard = record {
  allow_private = [];
  canonical = λ host. host;
  lookup_host = λ host. some (v4 outside ∷ []);
}

abbrev url : Url
url = record { scheme = "https"; host = some "example.org" }

abbrev rd : HostReading
rd = record { parse_url = λ raw. some url; literal = λ host. none; is_localhost = λ host. false }

is_forbidden_v4_iff_example : (is_forbidden_v4 metadata ≡ true) ↔ (
    In (to_bits metadata) 0 16_777_216
    ⊎ In (to_bits metadata) 167_772_160 184_549_376
    ⊎ In (to_bits metadata) 1_681_915_904 1_686_110_208
    ⊎ In (to_bits metadata) 2_130_706_432 2_147_483_648
    ⊎ In (to_bits metadata) 2_851_995_648 2_852_061_184
    ⊎ In (to_bits metadata) 2_886_729_728 2_887_778_304
    ⊎ In (to_bits metadata) 3_221_225_472 3_221_225_728
    ⊎ In (to_bits metadata) 3_232_235_520 3_232_301_056
    ⊎ In (to_bits metadata) 3_323_068_416 3_323_199_488
    ⊎ (3_758_096_384 ≤ to_bits metadata))
is_forbidden_v4_iff_example =
    is_forbidden_v4_iff metadata (omega arith) (omega arith) (omega arith) (omega arith)

check_url-Reachable_example :
    (is_http url.scheme ≡ true)
    × ((host : String) × (url.host ≡ some host)
        × (str_eq host "" ≡ false)
        × Reachable guard rd host)
unfolding check_url check_host resolve_public allows_private is_forbidden_ip is_forbidden_v4
    is_forbidden_host_literal
check_url-Reachable_example = check_url-Reachable guard rd "https://example.org/" url refl
