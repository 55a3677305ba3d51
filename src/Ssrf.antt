-- ===== src/Ssrf.antt =====
-- The guard against requests to the internal network (util/ssrf.rs). The parsers of URLs and of
-- addresses and the resolver of names are code outside the repository, and parameters. A test on
-- the bits of a byte or a segment stands as the equal test on its range.
pub mod Laws
use xtremflow.Base.{
  ℕ, ◌+◌, ◌*◌, ◌/◌, ◌%◌, String, Bool, true, false, not, ◌&&◌, ◌||◌, Option, none, some, List, [],
  ◌∷◌, if◌then◌else◌, str_eq, ltb, leb, ◌==◌, any, elem, is_empty, is_some,
}

pub record Ipv4 : Type 0 where
  pub a : ℕ
  pub b : ℕ
  pub c : ℕ
  pub d : ℕ

pub record Ipv6 : Type 0 where
  pub s0 : ℕ
  pub s1 : ℕ
  pub s2 : ℕ
  pub s3 : ℕ
  pub s4 : ℕ
  pub s5 : ℕ
  pub s6 : ℕ
  pub s7 : ℕ

pub data IpAddr : Type 0 where
  v4 : Ipv4 → IpAddr
  v6 : Ipv6 → IpAddr

abbrev pub is_private : Ipv4 → Bool
is_private o = o.a == 10 || (o.a == 172 && o.b / 16 == 1 || o.a == 192 && o.b == 168)

unfoldable pub is_forbidden_v4 : Ipv4 → Bool
is_forbidden_v4 o =
    o.a == 0
    || (o.a == 127
        || (is_private o
            || (o.a == 169 && o.b == 254
                || (o.a == 100 && o.b / 64 == 1
                    || (o.a == 192 && (o.b == 0 && o.c == 0)
                        || (o.a == 198 && o.b / 2 == 9 || (o.a / 16 == 14 || leb 240 o.a)))))))

-- The first four segments are 0.
abbrev zeros : Ipv6 → Bool
zeros s = s.s0 == 0 && (s.s1 == 0 && (s.s2 == 0 && s.s3 == 0))

abbrev pub is_mapped : Ipv6 → Bool
is_mapped s = zeros s && (s.s4 == 0 && s.s5 == 65_535)

abbrev pub is_unspecified : Ipv6 → Bool
is_unspecified s = zeros s && (s.s4 == 0 && (s.s5 == 0 && (s.s6 == 0 && s.s7 == 0)))

abbrev pub is_loopback : Ipv6 → Bool
is_loopback s = zeros s && (s.s4 == 0 && (s.s5 == 0 && (s.s6 == 0 && s.s7 == 1)))

abbrev pub is_compatible : Ipv6 → Bool
is_compatible s = zeros s && (s.s4 == 0 && s.s5 == 0)

abbrev pub is_nat64 : Ipv6 → Bool
is_nat64 s =
    s.s0 == 100 && (s.s1 == 65_435 && (s.s2 == 0 && (s.s3 == 0 && (s.s4 == 0 && s.s5 == 0))))

-- The IPv4 address in the last two segments.
abbrev pub embedded : Ipv6 → Ipv4
embedded s = record { a = s.s6 / 256; b = s.s6 % 256; c = s.s7 / 256; d = s.s7 % 256 }

unfoldable pub is_forbidden_v6 : Ipv6 → Bool
unfolding is_forbidden_v4
is_forbidden_v6 s =
    if is_mapped s
    then is_forbidden_v4 (embedded s)
    else if is_compatible s && (not (is_unspecified s) && not (is_loopback s)) || is_nat64 s
    then is_forbidden_v4 (embedded s)
    else is_unspecified s
      || (is_loopback s
          || (s.s0 / 512 == 126 || (s.s0 / 64 == 1018 || (s.s0 / 64 == 1019 || s.s0 / 256 == 255))))

unfoldable pub is_forbidden_ip : IpAddr → Bool
unfolding is_forbidden_v4 is_forbidden_v6
is_forbidden_ip (v4 o) = is_forbidden_v4 o
is_forbidden_ip (v6 s) = is_forbidden_v6 s

-- `allow_private`, and what the standard library, the parsers and the resolver answer; a name that
-- cannot be resolved has no answer.
pub record Guard : Type 0 where
  pub allow_private : List String
  pub canonical : String → String
  pub lookup_host : String → Option (List IpAddr)

unfoldable pub allows_private : Guard → String → Bool
allows_private g host = elem (g.canonical host) g.allow_private

-- `resolve_public`: none is an error.
unfoldable pub resolve_public : Guard → String → Option (List IpAddr)
unfolding allows_private is_forbidden_ip
resolve_public g host = elim (g.lookup_host host) [
  | none ↦ none
  | some addrs ↦
      if is_empty addrs
      then none
      else if not (allows_private g host) && any is_forbidden_ip addrs
      then none
      else some addrs
]

-- A URL as `url::Url` reads it, with the brackets of its host taken off; `literal` is the address
-- that the host is, and `is_localhost` says that it is localhost or below it.
pub record Url : Type 0 where
  pub scheme : String
  pub host : Option String

pub record HostReading : Type 0 where
  pub parse_url : String → Option Url
  pub literal : String → Option IpAddr
  pub is_localhost : String → Bool

unfoldable pub is_forbidden_host_literal : HostReading → String → Bool
unfolding is_forbidden_ip
is_forbidden_host_literal rd host =
    if rd.is_localhost host
    then true
    else elim (rd.literal host) [ none ↦ false | some ip ↦ is_forbidden_ip ip ]

abbrev pub is_http : String → Bool
is_http scheme = str_eq scheme "http" || str_eq scheme "https"

-- The checks of a host: whether it may be reached.
unfoldable pub check_host : Guard → HostReading → String → Bool
unfolding allows_private is_forbidden_host_literal resolve_public
check_host g rd host =
    if allows_private g host
    then true
    else if is_forbidden_host_literal rd host
    then false
    else if is_some (rd.literal host)
    then true
    else is_some (resolve_public g host)

unfoldable pub check_url : Guard → HostReading → String → Option Url
unfolding check_host
check_url g rd raw = elim (rd.parse_url raw) [
  | none ↦ none
  | some url ↦ if not (is_http url.scheme) then none else elim url.host [
    | none ↦ none
    | some host ↦ if str_eq host "" then none else if check_host g rd host then some url else none
  ]
]
