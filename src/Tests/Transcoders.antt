-- ===== src/Tests/Transcoders.antt =====
-- The theorems on the transcoding sessions, at concrete inputs.
use xtremflow.Base.{
  ◌+◌, ◌≡◌, refl, ◌↔◌, ◌⊎◌, String, Bool, true, false, none, some, [], ◌∷◌, lookup, seconds, pos,
}
use xtremflow.Sessions.{FfmpegSession, Sessions, Clock, Polling, wait_for_playlist, reap}
use xtremflow.Sessions.Laws.{Idle, Stalled, Verdict}
use xtremflow.Sessions.Laws.{lookup-reap, wait_for_playlist-Verdict}

abbrev clock : Clock
clock = record { ms = 300_000; instant = 300_000_000_000; system = 300_000_000_000 }

abbrev film : FfmpegSession
film = record {
  id = "f";
  exit = some (pos 0);
  is_live = false;
  started_at = 0;
  last_access_ms = 100;
  playlist = some (4, true, 100);
}

abbrev stream : FfmpegSession
stream = record film { id = "s"; exit = none; is_live = true; last_access_ms = 299_000 }

abbrev polling : Polling
polling = record { seen = λ at. film; overrun = λ at. 5 }

abbrev any_prefix : String → String → Bool
any_prefix prefix txt = true

abbrev m : Sessions
m = ("f", film) ∷ ("s", stream) ∷ []

lookup-reap_example :
    ((lookup "f" (reap clock m) ≡ none) ↔ (Idle clock film ⊎ Stalled clock film))
    × ((lookup "f" (reap clock m) ≡ none) ⊎ (lookup "f" (reap clock m) ≡ some film))
unfolding lookup
lookup-reap_example = lookup-reap clock m "f" film (refl, (refl, tt)) (refl, (refl, tt)) refl

wait_for_playlist-Verdict_example :
    Verdict 2 (1_000 + seconds 30) 1_000 polling (wait_for_playlist 2 polling 1_000)
wait_for_playlist-Verdict_example = wait_for_playlist-Verdict 2 polling 1_000
