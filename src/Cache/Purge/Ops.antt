-- ===== src/Cache/Purge/Ops.antt =====
-- Each purge, before the cap is enforced: what it covers, and that it lowers no epoch.
use parapet.Prelude.{ℕ, ◌≡◌, ite, arith}
use parapet.Prelude.Assoc
use parapet.GoStrings.{Text, Text-discrete}
use parapet.Cache.Purge.{Table, records_at, apply_prefix, raise_prefixes, stamped, stamp, flush_all}
use parapet.Cache.Purge.Scopes.{Dominated}
use parapet.Cache.Purge.Prefixes.{prefixes-grow, prefixes-le}
use parapet.Cache.Purge.Cap.{IsValid}

module _ (t : Table) (now : ℕ) (v : IsValid t) where
  abbrev pub n : ℕ
  n = stamped t now

  -- `FlushAll`.
  pub flush-Dominated : Dominated t (flush_all t now)
  unfolding flush_all
  flush-Dominated = record {
    globals = ground (arith, v.globals);
    hosts = λ h. ground (arith, v.hosts h);
    urls = λ k. ground (arith, v.urls k);
    paths = λ h path. ground (arith, v.paths h path);
    tags = λ g. ground (arith, v.tags g);
    awake = λ a. ground arith;
  }

  pub flush-IsValid : IsValid (flush_all t now)
  unfolding flush_all Assoc.get raise_prefixes
  flush-IsValid = record {
    globals = ground arith;
    hosts = λ h. ground arith;
    urls = λ k. ground arith;
    paths = λ h path. ground arith;
    tags = λ g. ground arith;
  }

  -- A record at one key of one map, stamped now.
  abbrev pub with_host : Text → Table
  with_host k = record (stamp t now) { host = Assoc.put Text-discrete k n t.host }

  pub host-Dominated : (k : Text) → Dominated t (with_host k)
  host-Dominated k = record {
    globals = omega arith;
    hosts = λ h. ground (arith, v.hosts h, Assoc.get-put Text-discrete k h n t.host);
    urls = λ j. omega arith;
    paths = λ h path. omega arith;
    tags = λ g. omega arith;
    awake = λ a. ground arith;
  }

  pub host-IsValid : (k : Text) → IsValid (with_host k)
  host-IsValid k = record {
    globals = ground (arith, v.globals);
    hosts = λ h. ground (arith, v.hosts h, Assoc.get-put Text-discrete k h n t.host);
    urls = λ j. ground (arith, v.urls j);
    paths = λ h path. ground (arith, v.paths h path);
    tags = λ g. ground (arith, v.tags g);
  }

  abbrev pub with_url : Text → Table
  with_url k = record (stamp t now) { url = Assoc.put Text-discrete k n t.url }

  pub url-Dominated : (k : Text) → Dominated t (with_url k)
  url-Dominated k = record {
    globals = omega arith;
    hosts = λ h. omega arith;
    urls = λ j. ground (arith, v.urls j, Assoc.get-put Text-discrete k j n t.url);
    paths = λ h path. omega arith;
    tags = λ g. omega arith;
    awake = λ a. ground arith;
  }

  pub url-IsValid : (k : Text) → IsValid (with_url k)
  url-IsValid k = record {
    globals = ground (arith, v.globals);
    hosts = λ h. ground (arith, v.hosts h);
    urls = λ j. ground (arith, v.urls j, Assoc.get-put Text-discrete k j n t.url);
    paths = λ h path. ground (arith, v.paths h path);
    tags = λ g. ground (arith, v.tags g);
  }

  abbrev pub with_tag : Text → Table
  with_tag k = record (stamp t now) { tag = Assoc.put Text-discrete k n t.tag }

  pub tag-Dominated : (k : Text) → Dominated t (with_tag k)
  tag-Dominated k = record {
    globals = omega arith;
    hosts = λ h. omega arith;
    urls = λ j. omega arith;
    paths = λ h path. omega arith;
    tags = λ g. ground (arith, v.tags g, Assoc.get-put Text-discrete k g n t.tag);
    awake = λ a. ground arith;
  }

  pub tag-IsValid : (k : Text) → IsValid (with_tag k)
  tag-IsValid k = record {
    globals = ground (arith, v.globals);
    hosts = λ h. ground (arith, v.hosts h);
    urls = λ j. ground (arith, v.urls j);
    paths = λ h path. ground (arith, v.paths h path);
    tags = λ g. ground (arith, v.tags g, Assoc.get-put Text-discrete k g n t.tag);
  }

  abbrev pub with_prefix : Text → Text → Table
  with_prefix k p = record (stamp t now) {
    prefixes = Assoc.put Text-discrete k (apply_prefix (records_at k t.prefixes) p n) t.prefixes;
  }

  -- The records of each host after the write.
  pub prefix-put :
      (k p h : Text)
      → records_at h (with_prefix k p).prefixes
        ≡ ite
            (Text-discrete k h)
            (apply_prefix (records_at k t.prefixes) p n)
            (records_at h t.prefixes)
  prefix-put k p h =
      let recs = apply_prefix (records_at k t.prefixes) p n in
      ground (arith, Assoc.get-put Text-discrete k h recs t.prefixes)

  pub prefix-Dominated : (k p : Text) → Dominated t (with_prefix k p)
  prefix-Dominated k p = record {
    globals = omega arith;
    hosts = λ h. omega arith;
    urls = λ j. omega arith;
    paths = λ h path.
        ground (arith, prefix-put k p h, prefixes-grow path p n (records_at k t.prefixes));
    tags = λ g. omega arith;
    awake = λ a. ground arith;
  }

  pub prefix-IsValid : (k p : Text) → IsValid (with_prefix k p)
  prefix-IsValid k p = record {
    globals = ground (arith, v.globals);
    hosts = λ h. ground (arith, v.hosts h);
    urls = λ j. ground (arith, v.urls j);
    paths = λ h path.
        ground
          (arith, v.paths h path, prefix-put k p h, prefixes-le path p n (records_at k t.prefixes));
    tags = λ g. ground (arith, v.tags g);
  }
