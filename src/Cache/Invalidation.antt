-- ===== src/Cache/Invalidation.antt =====
-- The purge table as the hook that the cache asks before it serves an entry: `InvalidatedAfter` of
-- pkg/cache/purge/purge.go as `Options.InvalidatedAfter` of pkg/cache.
use parapet.Prelude.{ℕ, ◌≤◌, ◌≡◌, List, some, arith}
use parapet.GoStrings.{Text}
use parapet.GoStrings.HostPort.{norm_host}
use parapet.Cache.Storage.{Meta}
use parapet.Cache.Stale.{expired, classify, invalidated}
use parapet.Cache.Purge.{Table, epoch_for}
use parapet.Cache.Purge.Cap.{IsValid}
use parapet.Cache.Purge.History.{Purge, Entry, Covers, apply, run, purged_stays_purged}

-- A stored entry as the table sees it when a request for this host and URI finds it.
abbrev pub entry_of : Text → Text → Meta → Entry
entry_of host uri m = record { host = norm_host host; uri = uri; tags = m.tags }

module _ (digest : Text → Text) where
  -- `InvalidatedAfter`, by the host and the URI of the request.
  unfoldable pub invalidated_after : Table → Text → Text → Meta → ℕ
  invalidated_after t host uri m = epoch_for digest t (norm_host host) uri m.tags

  -- `InvalidatedAfterMeta`.
  unfoldable pub invalidated_after_meta : Table → Meta → ℕ
  invalidated_after_meta t m = epoch_for digest t (norm_host m.host) m.uri m.tags

  -- An entry that was stored before a purge that covers it is never served again, neither fresh nor
  -- stale, whatever else is purged later and whenever it is asked for.
  pub purged_is_expired :
      (t : Table) (at : ℕ) (p : Purge) (later : List (ℕ × Purge)) (host uri : Text) (m : Meta)
      (now : ℕ)
      → IsValid t
      → Covers p (entry_of host uri m)
      → m.created ≤ at
      → let table = run digest (apply digest t (at, p)) later in
        classify (some (invalidated_after table host uri)) m now ≡ expired
  unfolding classify invalidated invalidated_after
  purged_is_expired t at p later host uri m now v c before =
      ground (arith, purged_stays_purged digest t at p later (entry_of host uri m) v c, before)
