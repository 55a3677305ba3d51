-- ===== src/RateLimit.antt =====
-- The sliding limit of requests for each address (server.rs, `RateLimiter`), as the login uses it
-- (`api_router`). An instant counts nanoseconds.
pub mod Client
pub mod Window
use xtremflow.Base.{
  ℕ, ◌-◌, ◌≡◌, String, Bool, true, false, not, ◌&&◌, Option, none, some, List, [], ◌∷◌, ◌++◌,
  if◌then◌else◌, leb, ltb, length, filter, seconds, Map, lookup, insert, str_eq,
}
use xtremflow.Accounts.{Store}
use xtremflow.Accounts.Requests.{Env, Request, Outcome, Reply, auth, refuse}

abbrev pub History : Type 0
History = Map (List ℕ)

-- The requests that are a minute old leave at the front.
unfoldable pub pop_old : ℕ → List ℕ → List ℕ
pop_old now [] = []
pop_old now (t ∷ times) =
    let rest = pop_old now times in if leb (seconds 60) (now - t) then rest else t ∷ times

abbrev pub times_in : Option (List ℕ) → List ℕ
times_in none = []
times_in (some times) = times

abbrev pub times_of : String → History → List ℕ
times_of ip history = times_in (lookup ip history)

-- What `allow` keeps of the times of an address, and whether the request passes.
abbrev pub admit : ℕ → ℕ → List ℕ → List ℕ × Bool
admit limit now times =
    if leb limit (length times) then (times, false) else (times ++ now ∷ [], true)

unfoldable pub allow : ℕ → String → ℕ → History → History × Bool
unfolding pop_old
allow limit ip now history =
    let (times, passes) = admit limit now (pop_old now (times_of ip history)) in
    (insert ip times history, passes)

abbrev pub is_recent : ℕ → ℕ → Bool
is_recent now t = ltb (now - t) (seconds 120)

abbrev pub is_empty : List ℕ → Bool
is_empty [] = true
is_empty (t ∷ times) = false

-- The housekeeping of every five minutes.
unfoldable pub clean : ℕ → History → History
clean now [] = []
clean now ((ip, times) ∷ history) =
    let kept = filter (is_recent now) times in
    let rest = clean now history in if is_empty kept then rest else (ip, kept) ∷ rest

-- `api/auth` in `api_router`: the limit counts logins only. `is_login` is whether the path ends
-- with `login`, and `ip` is `client_ip`.
unfoldable pub limited_auth :
    ℕ → Bool → String → Env → Request → Store → History → Outcome × History
unfolding allow
limited_auth limit ends_login ip env req st history =
    if not (str_eq req.method "POST" && ends_login)
    then (auth env req st, history)
    else let (history', passes) = allow limit ip env.now history in
      if passes then (auth env req st, history') else ((st, refuse 429), history')
