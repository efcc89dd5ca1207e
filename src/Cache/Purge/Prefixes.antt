-- ===== src/Cache/Purge/Prefixes.antt =====
-- The prefix records of a host, and the tags of an entry, under a new record.
use Prim.Native.Nat.{max}
use parapet.Prelude.{ℕ, ◌≤◌, ◌≡◌, ◌⊎◌, List, [], ◌∷◌, true, arith, inl, inr}
use parapet.GoStrings.{Text, text_eq_iff}
use parapet.Cache.Purge.{
  PrefixRec, epoch_at, apply_prefix, raise_prefixes, raise_tags, match_prefix,
}
use parapet.Cache.Purge.Scopes.{raise_prefixes_max, raise_tags_max}

module _ (path prefix : Text) (epoch : ℕ) where
  pub prefixes-grow :
      (recs : List PrefixRec)
      → raise_prefixes 0 path recs ≤ raise_prefixes 0 path (apply_prefix recs prefix epoch)
  unfolding raise_prefixes apply_prefix
  prefixes-grow [] = omega arith
  prefixes-grow (r ∷ recs) = ground (
    arith,
    prefixes-grow recs,
    raise_prefixes_max r.epoch path recs,
    raise_prefixes_max epoch path recs,
    raise_prefixes_max r.epoch path (apply_prefix recs prefix epoch),
  )

  pub prefixes-cover :
      (recs : List PrefixRec)
      → match_prefix path prefix ≡ true
      → epoch ≤ raise_prefixes 0 path (apply_prefix recs prefix epoch)
  unfolding raise_prefixes apply_prefix
  prefixes-cover [] m = ground arith
  prefixes-cover (r ∷ recs) m = ground (
    arith,
    prefixes-cover recs m,
    text_eq_iff r.prefix prefix,
    raise_prefixes_max r.epoch path recs,
    raise_prefixes_max epoch path recs,
    raise_prefixes_max r.epoch path (apply_prefix recs prefix epoch),
  )

  pub prefixes-le :
      (recs : List PrefixRec)
      → raise_prefixes 0 path (apply_prefix recs prefix epoch)
        ≤ max (raise_prefixes 0 path recs) epoch
  unfolding raise_prefixes apply_prefix
  prefixes-le [] = ground arith
  prefixes-le (r ∷ recs) = ground (
    arith,
    prefixes-le recs,
    raise_prefixes_max r.epoch path recs,
    raise_prefixes_max epoch path recs,
    raise_prefixes_max r.epoch path (apply_prefix recs prefix epoch),
  )

-- The tag is one of the tags.
abbrev pub Has : Text → List Text → Type 0
Has g [] = ⊥
Has g (x ∷ tags) = (x ≡ g) ⊎ Has g tags

pub tags-cover :
    (g : Text) (m : List (Text × ℕ)) (tags : List Text)
    → Has g tags
    → epoch_at g m ≤ raise_tags 0 m tags
unfolding raise_tags
tags-cover g m [] h = absurd h
tags-cover g m (x ∷ tags) (inl e) = rw (← e) (ground (arith, raise_tags_max (epoch_at x m) m tags))
tags-cover g m (x ∷ tags) (inr h) =
    ground (arith, tags-cover g m tags h, raise_tags_max (epoch_at x m) m tags)
