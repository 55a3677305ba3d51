-- ===== src/RateLimit/Client/Direct.antt =====
-- What a forged X-Forwarded-For cannot do.
use xtremflow.Base.{
  ℕ, ◌≡◌, refl, ap, ◌∙◌, String, Bool, true, false, ◌||◌, Option, none, some, List, [], ◌∷◌, ◌++◌,
  arith, if◌then◌else◌, str_eq, any, All, Bool-cases, Option-cases, inl, inr,
}
use xtremflow.Ssrf.{IpAddr}
use xtremflow.SafePath.{starts_with}
use xtremflow.RateLimit.{History, allow}
use xtremflow.RateLimit.Client.{
  Texts, Req, Resp, unmap, is_trusted_proxy, socket_ip, at_hop, walk, client_ip, honeypot_paths,
  is_loopback_ip, plain, security_chain,
}

module _ (t : Texts) (trusted : List String) where
  abbrev reads_trusted : Option IpAddr → Bool
  reads_trusted none = false
  reads_trusted (some hop) = is_trusted_proxy t trusted hop

  -- The walk goes on to the left of this hop.
  abbrev pub is_passed : String → Bool
  is_passed hop = str_eq (t.trim hop) "" || reads_trusted (t.parse_ip (t.trim hop))

  at_hop-trusted :
      (hop : Option IpAddr) (rest : Option String)
      → reads_trusted hop ≡ true
      → at_hop t trusted hop rest ≡ rest
  at_hop-trusted none rest is = ground (arith, is)
  at_hop-trusted (some hop) rest is = ground (arith, is)

  walk-passed :
      (hops rest : List String)
      → All (λ hop. is_passed hop ≡ true) hops
      → walk t trusted (hops ++ rest) ≡ walk t trusted rest
  unfolding walk
  walk-passed [] rest all = refl
  walk-passed (hop ∷ hops) rest (is, all) = elim (Bool-cases (str_eq (t.trim hop) "")) [
    | inl empty ↦ ground (arith, empty, walk-passed hops rest all)
    | inr filled ↦
        let trusted_hop : reads_trusted (t.parse_ip (t.trim hop)) ≡ true =
          ground (arith, is, filled) in
        let on =
          at_hop-trusted (t.parse_ip (t.trim hop)) (walk t trusted (hops ++ rest)) trusted_hop in
        ground (arith, filled, on, walk-passed hops rest all)
  ]

  -- Behind trusted proxies the client is the first address from the right that is no trusted proxy,
  -- whatever the hops to its left say.
  pub client_ip-unforged :
      (req : Req) (socket ip : IpAddr) (chain : String) (hops : List String) (hop : String)
      (forged : List String)
      → req.forwarded_for ≡ some chain
      → socket_ip req ≡ some socket
      → is_trusted_proxy t trusted socket ≡ true
      → t.rsplit chain ≡ hops ++ hop ∷ forged
      → All (λ h. is_passed h ≡ true) hops
      → str_eq (t.trim hop) "" ≡ false
      → t.parse_ip (t.trim hop) ≡ some ip
      → is_trusted_proxy t trusted ip ≡ false
      → client_ip t trusted req ≡ t.text_of (unmap ip)
  unfolding walk client_ip
  client_ip-unforged req socket ip chain hops hop forged named from is split all filled read isnt =
      let reached : walk t trusted (t.rsplit chain) ≡ walk t trusted (hop ∷ forged) =
        ap (walk t trusted) split ∙ walk-passed hops (hop ∷ forged) all in
      let stops : walk t trusted (hop ∷ forged) ≡ some (t.text_of (unmap ip)) =
        ground (arith, filled, read, isnt) in
      ground (arith, named, from, is, reached, stops)

  client_ip-direct :
      (req : Req) (socket : IpAddr)
      → socket_ip req ≡ some socket
      → is_trusted_proxy t trusted socket ≡ false
      → client_ip t trusted req ≡ t.text_of socket
  unfolding client_ip
  client_ip-direct req socket from isnt = elim (Option-cases req.forwarded_for) [
    | inl n ↦ ground (arith, n, from, isnt)
    | inr (f, n) ↦ ground (arith, n, from, isnt)
  ]

  -- A request that no trusted proxy hands on, and that does not come from the machine itself or ask
  -- for a trap, is counted under the address of its socket, whatever X-Forwarded-For says, and
  -- answered exactly where the limit admits that address.
  pub security_chain-direct :
      (limit : ℕ) (answer : Req → Resp) (req : Req) (socket : IpAddr) (now : ℕ) (history : History)
      → socket_ip req ≡ some socket
      → is_trusted_proxy t trusted socket ≡ false
      → is_loopback_ip socket ≡ false
      → str_eq (t.text_of socket) "unknown" ≡ false
      → any (starts_with req.path) honeypot_paths ≡ false
      → security_chain t trusted limit answer req now history ≡ (
        (if (allow limit (t.text_of socket) now history).1
            then answer req
            else plain 429 "Too Many Requests"),
        (allow limit (t.text_of socket) now history).0,
      )
  unfolding security_chain
  security_chain-direct limit answer req socket now history from isnt far known safe =
      let counted = client_ip-direct req socket from isnt in
      ground (arith, from, far, known, safe, counted)
