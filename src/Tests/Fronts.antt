-- ===== src/Tests/Fronts.antt =====
-- The theorems on the front of the server, at concrete inputs.
use xtremflow.Base.{
  ◌==◌, ◌≡◌, refl, String, none, some, List, [], ◌∷◌, if◌then◌else◌, str_eq, lookup,
}
use xtremflow.Ssrf.{IpAddr, v4}
use xtremflow.RateLimit.Client.{Texts, Req, unmap, is_trusted_proxy, client_ip}
use xtremflow.RateLimit.Client.Direct.{client_ip-unforged}

abbrev network : IpAddr
network = v4 record { a = 10; b = 0; c = 0; d = 0 }

abbrev inner_proxy : IpAddr
inner_proxy = v4 record { a = 10; b = 0; c = 0; d = 2 }

abbrev outside : IpAddr
outside = v4 record { a = 93; b = 184; c = 216; d = 34 }

abbrev machine : IpAddr
machine = v4 record { a = 127; b = 0; c = 0; d = 1 }

abbrev addresses : List (String × IpAddr)
addresses =
    ("10.0.0.0", network)
    ∷ ("10.0.0.2", inner_proxy)
    ∷ ("93.184.216.34", outside)
    ∷ ("127.0.0.1", machine)
    ∷ []

abbrev text_of_v4 : IpAddr → String
text_of_v4 (v4 o) = if o.a == 93 then "93.184.216.34" else "10.0.0.2"
text_of_v4 other = "::"

abbrev texts : Texts
texts = record {
  rsplit = λ s. "10.0.0.2" ∷ "93.184.216.34" ∷ "127.0.0.1" ∷ [];
  trim = λ s. s;
  split_once = λ s. if str_eq s "10.0.0.0/8" then some ("10.0.0.0", "8") else none;
  parse_ip = λ s. lookup s addresses;
  parse_u32 = λ s. if str_eq s "8" then some 8 else none;
  text_of = text_of_v4;
  host_of = λ s. none;
}

abbrev proxies : List String
proxies = "10.0.0.0/8" ∷ []

abbrev written : String
written = "127.0.0.1, 93.184.216.34, 10.0.0.2"

-- The client wrote the address of the machine itself to the left.
abbrev visit : Req
visit = record {
  method = "GET";
  path = "api" ∷ [];
  remote = some inner_proxy;
  forwarded_for = some written;
  origin = none;
}

client_ip-unforged_example : client_ip texts proxies visit ≡ texts.text_of (unmap outside)
unfolding is_trusted_proxy lookup
client_ip-unforged_example =
    client_ip-unforged texts proxies visit inner_proxy outside written ("10.0.0.2" ∷ [])
      "93.184.216.34" ("127.0.0.1" ∷ []) refl refl refl refl (refl, tt) refl refl refl
