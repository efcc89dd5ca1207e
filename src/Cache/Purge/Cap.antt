-- ===== src/Cache/Purge/Cap.antt =====
-- The cap on the records, and what holds of a table between two calls.
use parapet.Prelude.{◌≤◌, arith, length}
use parapet.Prelude.Assoc
use parapet.GoStrings.{Text}
use parapet.Cache.Purge.{Table, epoch_at, raise_prefixes, prefix_count, enforce_cap}
use parapet.Cache.Purge.Scopes.{Dominated, prefix_epoch}

-- No record lies above the largest epoch ever issued, and a table that was never stamped is empty.
pub record IsValid (t : Table) : Type 0 where
  pub globals : t.global ≤ t.high_water
  pub hosts : (h : Text) → epoch_at h t.host ≤ t.high_water
  pub urls : (k : Text) → epoch_at k t.url ≤ t.high_water
  pub paths : (h path : Text) → prefix_epoch t h path ≤ t.high_water
  pub tags : (g : Text) → epoch_at g t.tag ≤ t.high_water

-- Each map holds at most `maxRecs` records.
pub record IsCapped (t : Table) : Type 0 where
  pub hosts : length t.host ≤ t.max_recs
  pub urls : length t.url ≤ t.max_recs
  pub paths : prefix_count t.prefixes ≤ t.max_recs
  pub tags : length t.tag ≤ t.max_recs

module _ (t : Table) (v : IsValid t) where
  -- Folding a map into the global epoch takes no record's effect away.
  pub enforce_cap-Dominated : Dominated t (enforce_cap t)
  unfolding enforce_cap Assoc.get raise_prefixes
  enforce_cap-Dominated = record {
    globals = ground (arith, v.globals);
    hosts = λ h. ground (arith, v.hosts h);
    urls = λ k. ground (arith, v.urls k);
    paths = λ h path. ground (arith, v.paths h path);
    tags = λ g. ground (arith, v.tags g);
    awake = λ a. ground arith;
  }

  pub enforce_cap-IsValid : IsValid (enforce_cap t)
  unfolding enforce_cap Assoc.get raise_prefixes
  enforce_cap-IsValid = record {
    globals = ground (arith, v.globals);
    hosts = λ h. ground (arith, v.hosts h);
    urls = λ k. ground (arith, v.urls k);
    paths = λ h path. ground (arith, v.paths h path);
    tags = λ g. ground (arith, v.tags g);
  }

pub enforce_cap-IsCapped : (t : Table) → IsCapped (enforce_cap t)
unfolding enforce_cap
enforce_cap-IsCapped t = record {
  hosts = ground arith;
  urls = ground arith;
  paths = ground arith;
  tags = ground arith;
}
