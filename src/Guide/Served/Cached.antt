-- ===== src/Guide/Served/Cached.antt =====
-- The cache of the answers.
use xtremflow.Base.{
  ℕ, ◌+◌, ◌≡◌, String, some, List, arith, if◌then◌else◌, ltb, lookup, lookup-insert_self, inl, inr,
  Option-cases,
}
use xtremflow.Slots.Limits.{PlaylistConfig}
use xtremflow.Guide.Served.{Shown, Choice, EpgApi, hit, miss, fresh, cache_key, ttl, handle}

-- An answer is given again, whatever the sources would say, for 30 minutes where a guide was found
-- and for five where none was, and then no more.
pub handle-handle :
    (render : String → List Shown → String) (p : PlaylistConfig) (channel_id body source : String)
    (now at_end later later_end : ℕ) (c d : Choice) (api : EpgApi)
    → (handle render (some p) channel_id now at_end c api).1 ≡ miss body source
    → let api' = (handle render (some p) channel_id now at_end c api).0 in
      (handle render (some p) channel_id later later_end d api').1 ≡ (
        if ltb later (at_end + ttl c.found)
        then hit body
        else miss (render channel_id d.programmes) d.source)
unfolding handle
handle-handle render p channel_id body source now at_end later later_end c d api missed =
    elim (Option-cases (fresh now (lookup (cache_key p channel_id) api.cache))) [
      | inr (kept, there) ↦ ground (arith, there, missed)
      | inl stale ↦
          let key : String = cache_key p channel_id in
          let api' = (handle render (some p) channel_id now at_end c api).0 in
          let written : miss (render channel_id c.programmes) c.source ≡ miss body source =
            rw (stale, handle) at missed in
          let stored : lookup key api'.cache
              ≡ some (render channel_id c.programmes, at_end + ttl c.found) =
            rw (stale, handle)
              (lookup-insert_self key (render channel_id c.programmes, at_end + ttl c.found)
                api.cache) in
          ground (arith, stored, written)
    ]
