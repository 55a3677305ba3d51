-- ===== src/Accounts/Sessions.antt =====
-- The life of a session: from the login to its end or to the logout.
use xtremflow.Base.{ℕ, ◌≡◌, refl, String, not, none, some, List, [], ◌∷◌, arith, filter, find}
use xtremflow.Accounts.{Session, Store, has_token, find_session_by_token, delete_session}
use xtremflow.Accounts.Requests.{Request, logout, with_session_user}

-- The request that carries a token.
abbrev pub bearing : String → Request → Request
bearing token req = record req { token = some token }

find-filter :
    (token : String) (ss : List Session)
    → find (has_token token) (filter (λ s. not (has_token token s)) ss) ≡ none
find-filter token [] = refl
find-filter token (s ∷ ss) = ground (arith, find-filter token ss)

-- After a logout the token opens nothing, at no time and in no request.
pub with_session_user-logout :
    (req again : Request) (token : String) (now : ℕ) (st : Store)
    → req.token ≡ some token
    → (with_session_user now (bearing token again) (logout req st).0).1 ≡ none
unfolding with_session_user logout find_session_by_token delete_session
with_session_user-logout req again token now st given =
    ground (arith, find-filter token st.sessions)
