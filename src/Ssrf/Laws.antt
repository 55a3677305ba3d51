-- ===== src/Ssrf/Laws.antt =====
-- What the guard lets through.
use xtremflow.Base.{
  ℕ, ◌+◌, ◌*◌, ◌≤◌, ◌<◌, ◌≡◌, ◌↔◌, ◌⊎◌, inl, inr, String, Bool, true, false, some, List, arith, any,
  is_empty, Option-cases, Bool-cases, some-ne-none, str_eq, sym, ◌∙◌,
}
use xtremflow.Ssrf.{
  Ipv4, IpAddr, is_forbidden_v4, is_forbidden_ip, Guard, Url, HostReading, is_http, allows_private,
  resolve_public, is_forbidden_host_literal, check_host, check_url,
}

-- The address as a 32-bit number.
abbrev pub to_bits : Ipv4 → ℕ
to_bits o = ((o.a * 256 + o.b) * 256 + o.c) * 256 + o.d

abbrev pub In : ℕ → ℕ → ℕ → Type 0
In n first after = (first ≤ n) × (n < after)

-- An address of four bytes is refused exactly where it lies in 0/8, 10/8, 100.64/10, 127/8,
-- 169.254/16, 172.16/12, 192.0.0/24, 192.168/16, 198.18/15, or from 224/4 up.
pub is_forbidden_v4_iff :
    (o : Ipv4)
    → o.a < 256
    → o.b < 256
    → o.c < 256
    → o.d < 256
    → (is_forbidden_v4 o ≡ true) ↔ (
        In (to_bits o) 0 16_777_216
        ⊎ In (to_bits o) 167_772_160 184_549_376
        ⊎ In (to_bits o) 1_681_915_904 1_686_110_208
        ⊎ In (to_bits o) 2_130_706_432 2_147_483_648
        ⊎ In (to_bits o) 2_851_995_648 2_852_061_184
        ⊎ In (to_bits o) 2_886_729_728 2_887_778_304
        ⊎ In (to_bits o) 3_221_225_472 3_221_225_728
        ⊎ In (to_bits o) 3_232_235_520 3_232_301_056
        ⊎ In (to_bits o) 3_323_068_416 3_323_199_488
        ⊎ (3_758_096_384 ≤ to_bits o))
unfolding is_forbidden_v4
is_forbidden_v4_iff o ha hb hc hd = ground arith

-- What the guard resolves has an address, and none that is refused, unless the host is allowed.
pub resolve_public-Safe :
    (g : Guard) (host : String) (addrs : List IpAddr)
    → resolve_public g host ≡ some addrs
    → (is_empty addrs ≡ false)
      × (g.lookup_host host ≡ some addrs)
      × ((allows_private g host ≡ true) ⊎ (any is_forbidden_ip addrs ≡ false))
unfolding resolve_public
resolve_public-Safe g host addrs e = elim (Option-cases (g.lookup_host host)) [
  | inl unknown ↦ ground (arith, rw (unknown, resolve_public) at e)
  | inr (found, answer) ↦ ground arith
]

-- Why a host may be reached: it is allowed, or is an address that is not refused, or a name all of
-- whose addresses are not.
abbrev pub Reachable : Guard → HostReading → String → Type 0
Reachable g rd host =
    (allows_private g host ≡ true)
    ⊎ ((ip : IpAddr) × (rd.literal host ≡ some ip) × (is_forbidden_ip ip ≡ false))
    ⊎ ((addrs : List IpAddr) × (g.lookup_host host ≡ some addrs)
        × (is_empty addrs ≡ false)
        × (any is_forbidden_ip addrs ≡ false))

not_allowed : {b : Bool} → b ≡ false → b ≡ true → ⊥
not_allowed e f = cc

Reachable-of_check :
    (g : Guard) (rd : HostReading) (host : String)
    → check_host g rd host ≡ true
    → Reachable g rd host
unfolding check_host is_forbidden_host_literal
Reachable-of_check g rd host ok = elim (Bool-cases (allows_private g host)) [
  | inl allowed ↦ inl allowed
  | inr outside ↦ elim (Option-cases (rd.literal host)) [
    | inr (ip, literal) ↦ inr (inl (ip, literal, ground arith))
    | inl name ↦ elim (Option-cases (resolve_public g host)) [
      | inl unknown ↦ absurd (ground arith)
      | inr (addrs, found) ↦
          let (some_there, answer, safe) = resolve_public-Safe g host addrs found in
          elim safe [
            | inl allowed ↦ absurd (not_allowed outside allowed)
            | inr public ↦ inr (inr (addrs, answer, some_there, public))
          ]
    ]
  ]
]

-- A URL that the guard lets through is http or https and has a host, which is allowed, or an
-- address that is not refused, or a name that resolves to such addresses only.
pub check_url-Reachable :
    (g : Guard) (rd : HostReading) (raw : String) (url : Url)
    → check_url g rd raw ≡ some url
    → (is_http url.scheme ≡ true)
      × ((host : String) × (url.host ≡ some host) × (str_eq host "" ≡ false) × Reachable g rd host)
unfolding check_url
check_url-Reachable g rd raw url e = elim (Option-cases (rd.parse_url raw)) [
  | inl bad ↦ absurd (some-ne-none (sym e ∙ rw (bad, check_url)))
  | inr (u, parsed) ↦ elim (Bool-cases (is_http u.scheme)) [
    | inr other ↦ absurd (some-ne-none (sym e ∙ rw (parsed, other, check_url)))
    | inl http ↦ elim (Option-cases u.host) [
      | inl nameless ↦ absurd (some-ne-none (sym e ∙ rw (parsed, http, nameless, check_url)))
      | inr (host, named) ↦
          let both : (u ≡ url) × (str_eq host "" ≡ false) × (check_host g rd host ≡ true) =
            ground (arith, rw (parsed, check_url) at e) in
          rw (← both.0) (http, (host, named, both.1, Reachable-of_check g rd host both.2))
    ]
  ]
]
