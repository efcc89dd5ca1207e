-- ===== src/Tests/Purge.antt =====
-- pkg/cache/purge/purge.go at small inputs, with texts of a byte or two and no hashing.
use parapet.Prelude.{some, arith, ℕ, ◌≤◌, ◌≡◌, refl, List, [], ◌∷◌, true}
use parapet.Prelude.Assoc
use parapet.GoStrings.{contains_byte, Text, codes, text_eq, Text-discrete, to_lower}
use parapet.Cache.Storage.{Meta}
use parapet.Cache.Stale.{classify, expired}
use parapet.Cache.Invalidation.{invalidated_after, purged_is_expired}
use parapet.GoStrings.HostPort.{norm_host}
use parapet.Cache.Purge.{Table, new, url_key, path_of, epoch_for, raise_prefixes, raise_tags}
use parapet.Cache.Purge.History.{
  Purge, by_host, by_url, by_tag, Entry, apply, run, epoch_of, purged_stays_purged, new-IsValid,
}

abbrev digest : Text → Text
digest t = t

-- The host is known and has been purged at 5.
abbrev purged : Table
purged = record {
  host = (codes "a", 5) ∷ [];
  url = [];
  prefixes = [];
  tag = (codes "t", 7) ∷ [];
  global = 1;
  high_water = 7;
  folds = 0;
  max_recs = 2;
  active = true;
}

abbrev page : Entry
page = record { host = codes "a"; uri = codes "/x"; tags = codes "t" ∷ [] }

abbrev later : List (ℕ × Purge)
later =
    (3, by_host (codes "b")) ∷ (9, by_url (codes "c") (codes "/y")) ∷ (9, by_tag (codes "u")) ∷ []

purged_at_seven : epoch_of digest purged page ≡ 7
unfolding epoch_for url_key path_of raise_prefixes raise_tags Assoc.get Text-discrete text_eq
purged_at_seven = refl

purged_stays_purged_example :
    5 ≤ epoch_of digest (run digest (apply digest (new 2) (5, by_host (codes "a"))) later) page
unfolding to_lower
purged_stays_purged_example =
    purged_stays_purged digest (new 2) 5 (by_host (codes "a")) later page (new-IsValid 2).0
      (unfold norm_host in refl, cc)

abbrev stored : Meta
stored = record {
  header = [];
  primary_hex = [];
  host = codes "a";
  uri = codes "/x";
  vary = [];
  tags = codes "t" ∷ [];
  created = 4;
  fresh_until = 200;
  stale_while_revalidate = 50;
  stale_if_error = 90;
  size = 2;
  status = 200;
}

purged_is_expired_example :
    let table = run digest (apply digest (new 2) (5, by_host (codes "a"))) later in
    classify (some (invalidated_after digest table (codes "A:80") (codes "/x"))) stored 9 ≡ expired
unfolding norm_host to_lower contains_byte
purged_is_expired_example =
    purged_is_expired digest (new 2) 5 (by_host (codes "a")) later (codes "A:80") (codes "/x")
      stored 9 (new-IsValid 2).0 (refl, cc) (omega arith)
