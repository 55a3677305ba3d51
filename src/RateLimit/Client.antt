-- ===== src/RateLimit/Client.antt =====
-- Who a request comes from (`client_ip` of http.rs), and the front of the server (server.rs,
-- `security_chain`, `cors` and `cascade`). The operations on text and the parsers of addresses and
-- URLs are the standard library's and the url crate's, and parameters; a path is the list of its
-- parts between slashes.
pub mod Direct
use xtremflow.Base.{
  ℕ, ◌+◌, ◌-◌, ◌*◌, ◌/◌, ◌^◌, String, Bool, true, false, not, ◌&&◌, ◌||◌, Option, none, some, List,
  [], ◌∷◌, map, if◌then◌else◌, str_eq, leb, ◌==◌, any, is_some, is_empty, insert, Map,
}
use xtremflow.Ssrf.{Ipv4, Ipv6, IpAddr, v4, v6, is_mapped, embedded, is_loopback}
use xtremflow.SafePath.{starts_with}
use xtremflow.RateLimit.{History, allow}

-- What the libraries do with text: `rsplit(',')`, `trim`, `split_once('/')`, the parsers, the text
-- of an address, and the host of a URL.
pub record Texts : Type 0 where
  pub rsplit : String → List String
  pub trim : String → String
  pub split_once : String → Option (String × String)
  pub parse_ip : String → Option IpAddr
  pub parse_u32 : String → Option ℕ
  pub text_of : IpAddr → String
  pub host_of : String → Option String

-- What the front reads of a request; a header is text where it is there.
pub record Req : Type 0 where
  pub method : String
  pub path : List String
  pub remote : Option IpAddr
  pub forwarded_for : Option String
  pub origin : Option String

pub record Resp : Type 0 where
  pub status : ℕ
  pub headers : Map String
  pub body : String

abbrev pub unmap_v6 : Ipv6 → IpAddr
unmap_v6 s = if is_mapped s then v4 (embedded s) else v6 s

abbrev pub unmap : IpAddr → IpAddr
unmap (v4 o) = v4 o
unmap (v6 s) = unmap_v6 s

abbrev pub u32_of : Ipv4 → ℕ
u32_of o = ((o.a * 256 + o.b) * 256 + o.c) * 256 + o.d

abbrev pub u128_of : Ipv6 → ℕ
u128_of s =
    ((((((s.s0 * 65_536 + s.s1) * 65_536 + s.s2) * 65_536 + s.s3) * 65_536 + s.s4) * 65_536 + s.s5)
          * 65_536
        + s.s6)
      * 65_536
    + s.s7

abbrev pub ip_eq : IpAddr → IpAddr → Bool
ip_eq (v4 o) (v4 o') = u32_of o == u32_of o'
ip_eq (v4 o) (v6 s') = false
ip_eq (v6 s) (v4 o') = false
ip_eq (v6 s) (v6 s') = u128_of s == u128_of s'

-- The masks of `len` bits agree: the numbers without the bits below the mask are the same.
abbrev pub masked_eq : ℕ → ℕ → ℕ → ℕ → Bool
masked_eq width len n a = n / 2 ^ (width - len) == a / 2 ^ (width - len)

abbrev pub in_range : IpAddr → ℕ → IpAddr → Bool
in_range (v4 n) len (v4 a) = leb len 32 && masked_eq 32 len (u32_of n) (u32_of a)
in_range (v4 n) len (v6 a) = false
in_range (v6 n) len (v4 a) = false
in_range (v6 n) len (v6 a) = leb len 128 && masked_eq 128 len (u128_of n) (u128_of a)

abbrev pub is_single : IpAddr → Option IpAddr → Bool
is_single address none = false
is_single address (some ip) = ip_eq (unmap ip) address

abbrev pub is_in_net : IpAddr → Option IpAddr → Option ℕ → Bool
is_in_net address none len = false
is_in_net address (some net) none = false
is_in_net address (some net) (some len) = in_range (unmap net) len address

abbrev pub entry_matches : Texts → IpAddr → String → Option (String × String) → Bool
entry_matches t address entry none = is_single address (t.parse_ip entry)
entry_matches t address entry (some (net, len)) =
    is_in_net address (t.parse_ip (t.trim net)) (t.parse_u32 (t.trim len))

abbrev pub proxy_entry_matches : Texts → IpAddr → String → Bool
proxy_entry_matches t address entry =
    entry_matches t address (t.trim entry) (t.split_once (t.trim entry))

unfoldable pub is_trusted_proxy : Texts → List String → IpAddr → Bool
is_trusted_proxy t trusted address = any (proxy_entry_matches t (unmap address)) trusted

abbrev pub bare : Option IpAddr → Option IpAddr
bare none = none
bare (some ip) = some (unmap ip)

abbrev pub socket_ip : Req → Option IpAddr
socket_ip req = bare req.remote

abbrev pub socket_text : Texts → Option IpAddr → String
socket_text t none = "unknown"
socket_text t (some ip) = t.text_of ip

-- The hop that is looked at, and what the hops to its left give.
abbrev pub at_hop : Texts → List String → Option IpAddr → Option String → Option String
at_hop t trusted none rest = none
at_hop t trusted (some hop) rest =
    if is_trusted_proxy t trusted hop then rest else some (t.text_of (unmap hop))

-- The loop over the hops, from the right; none is to keep the address of the socket.
unfoldable pub walk : Texts → List String → List String → Option String
walk t trusted [] = none
walk t trusted (hop ∷ hops) =
    let rest = walk t trusted hops in
    if str_eq (t.trim hop) "" then rest else at_hop t trusted (t.parse_ip (t.trim hop)) rest

abbrev pub forwarded : Texts → List String → Option String → Option IpAddr → Option String
forwarded t trusted none socket = none
forwarded t trusted (some chain) none = none
forwarded t trusted (some chain) (some ip) =
    if is_trusted_proxy t trusted ip then walk t trusted (t.rsplit chain) else none

abbrev pub or_socket : Option String → String → String
or_socket none socket = socket
or_socket (some client) socket = client

unfoldable pub client_ip : Texts → List String → Req → String
unfolding walk is_trusted_proxy
client_ip t trusted req =
    or_socket (forwarded t trusted req.forwarded_for (socket_ip req))
      (socket_text t (socket_ip req))

abbrev pub honeypot_paths : List (List String)
honeypot_paths =
    ("admin" ∷ "phpmyadmin" ∷ [])
    ∷ ("phpmyadmin" ∷ [])
    ∷ ("wp-admin" ∷ [])
    ∷ ("wp-login.php" ∷ [])
    ∷ (".env" ∷ [])
    ∷ ("config.php" ∷ [])
    ∷ ("api" ∷ ".env" ∷ [])
    ∷ ("console" ∷ [])
    ∷ ("actuator" ∷ "health" ∷ [])
    ∷ []

abbrev pub is_loopback_ip : IpAddr → Bool
is_loopback_ip (v4 o) = o.a == 127
is_loopback_ip (v6 s) = is_loopback s

abbrev pub is_loopback_socket : Option IpAddr → Bool
is_loopback_socket none = false
is_loopback_socket (some ip) = is_loopback_ip ip

abbrev pub is_local : Req → Bool
is_local req = is_loopback_socket (socket_ip req) && not (is_some req.forwarded_for)

abbrev pub plain : ℕ → String → Resp
plain code message = record { status = code; headers = []; body = message }

abbrev pub is_miss : Resp → Bool
is_miss resp = resp.status == 404 || resp.status == 405

-- `cascade`: the stages in order, then the static files.
unfoldable pub cascade : List (Req → Resp) → (Req → Resp) → Req → Resp
cascade [] static_files req = static_files req
cascade (stage ∷ stages) static_files req =
    let rest = cascade stages static_files req in if is_miss (stage req) then rest else stage req

abbrev pub is_configured : Option String → String → Bool
is_configured none o = false
is_configured (some a) o = not (str_eq a "") && str_eq a o

abbrev pub is_localhost : Option String → Bool
is_localhost none = false
is_localhost (some h) = str_eq h "localhost" || str_eq h "127.0.0.1"

unfoldable pub is_allowed : Texts → Option String → String → Bool
is_allowed t allowed_origin o = is_configured allowed_origin o || is_localhost (t.host_of o)

abbrev pub cors_headers : String → List (String × String)
cors_headers o =
    ("access-control-allow-origin", o)
    ∷ ("access-control-allow-methods", "GET, POST, PUT, DELETE, OPTIONS")
    ∷ (
      "access-control-allow-headers",
      "Origin, Content-Type, Accept, Authorization, Range, X-Playlist-Id",
    )
    ∷ ("access-control-expose-headers", "Content-Length, Content-Range")
    ∷ ("access-control-allow-credentials", "true")
    ∷ ("vary", "Origin")
    ∷ []

abbrev pub headers_for : Texts → Option String → Option String → List (String × String)
headers_for t allowed_origin none = []
headers_for t allowed_origin (some o) = if is_allowed t allowed_origin o then cors_headers o else []

abbrev pub set_headers : List (String × String) → Map String → Map String
set_headers [] headers = headers
set_headers ((name, value) ∷ rest) headers = set_headers rest (insert name value headers)

unfoldable pub cors : Texts → Option String → (Req → Resp) → Req → Resp
unfolding is_allowed
cors t allowed_origin answer req =
    let resp = if str_eq req.method "OPTIONS" then plain 200 "" else answer req in
    record {
      status = resp.status;
      headers = set_headers (headers_for t allowed_origin req.origin) resp.headers;
      body = resp.body;
    }

-- `answer` is `cors`, with the cascade behind it.
unfoldable pub security_chain :
    Texts → List String → ℕ → (Req → Resp) → Req → ℕ → History → Resp × History
unfolding client_ip allow
security_chain t trusted limit answer req now history =
    if any (starts_with req.path) honeypot_paths
    then (plain 403 "Access Denied", history)
    else let ip = client_ip t trusted req in
      if str_eq ip "unknown" || is_local req
      then (answer req, history)
      else let (history', passes) = allow limit ip now history in
        if passes then (answer req, history') else (plain 429 "Too Many Requests", history')
