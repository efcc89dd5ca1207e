-- ===== src/Cache/Purge/History.antt =====
-- Purges in sequence: what was purged once stays purged.
use parapet.Prelude.{ℕ, ◌≤◌, ◌≡◌, refl, ◌≢◌, List, [], ◌∷◌, true, arith, inl, inr, Bool-cases}
use parapet.Prelude.Assoc
use parapet.GoStrings.{Text, Text-discrete, text_eq, text_eq_iff}
use parapet.GoStrings.HostPort.{norm_host}
use parapet.Cache.Purge.{
  Table, records_at, raise_prefixes, match_prefix, normalize_prefix, path_of, stamped, flush_all,
  purge_host, purge_url, purge_prefix, purge_tag, url_key, epoch_for, enforce_cap, new,
  prefix_count,
}
use parapet.Cache.Purge.Scopes.{
  Dominated, Dominated-refl, Dominated-trans, epoch_for-eq-max, epoch_for-le,
}
use parapet.Cache.Purge.Prefixes.{prefixes-cover, tags-cover, Has}
use parapet.Cache.Purge.Cap.{
  IsValid, IsCapped, enforce_cap-Dominated, enforce_cap-IsValid, enforce_cap-IsCapped,
}
use parapet.Cache.Purge.Ops.{
  with_host, with_url, with_tag, with_prefix, prefix-put, flush-Dominated, flush-IsValid,
  host-Dominated, host-IsValid, url-Dominated, url-IsValid, tag-Dominated, tag-IsValid,
  prefix-Dominated, prefix-IsValid,
}

-- The calls that purge, with their arguments.
pub data Purge : Type 0 where
  flush : Purge
  by_host : Text → Purge
  by_url : Text → Text → Purge
  by_prefix : Text → Text → Purge
  by_tag : Text → Purge

-- An entry as `epochFor` sees it: the normalized host, the request URI and the tags.
pub record Entry : Type 0 where
  pub host : Text
  pub uri : Text
  pub tags : List Text

-- The purge is meant for the entry.
abbrev pub Covers : Purge → Entry → Type 0
Covers flush e = Unit {0}
Covers (by_host x) e = (norm_host x ≡ e.host) × (e.host ≢ [])
Covers (by_url x u) e = (norm_host x ≡ e.host) × (e.host ≢ []) × (u ≡ e.uri)
Covers (by_prefix x p) e =
    (norm_host x ≡ e.host)
    × (e.host ≢ [])
    × (match_prefix (path_of e.uri) (normalize_prefix p) ≡ true)
Covers (by_tag g) e = (g ≢ []) × Has g e.tags

module _ (digest : Text → Text) where
  unfoldable pub apply : Table → ℕ × Purge → Table
  apply t (now, flush) = flush_all t now
  apply t (now, by_host x) = purge_host t now x
  apply t (now, by_url x u) = purge_url digest t now x u
  apply t (now, by_prefix x p) = purge_prefix t now x p
  apply t (now, by_tag g) = purge_tag t now g

  unfoldable pub run : Table → List (ℕ × Purge) → Table
  run t [] = t
  run t (c ∷ cs) = run (apply t c) cs

  abbrev pub epoch_of : Table → Entry → ℕ
  epoch_of t e = epoch_for digest t e.host e.uri e.tags

  capped :
      (t u : Table)
      → IsValid u
      → Dominated t u
      → IsValid (enforce_cap u) × Dominated t (enforce_cap u)
  capped t u v d = (enforce_cap-IsValid u v, Dominated-trans d (enforce_cap-Dominated u v))

  -- A call keeps the invariant and lowers no epoch.
  apply_lem :
      (t : Table) (c : ℕ × Purge) → IsValid t → IsValid (apply t c) × Dominated t (apply t c)
  unfolding apply purge_host purge_url purge_prefix purge_tag
  apply_lem t (now, flush) v = (flush-IsValid t now v, flush-Dominated t now v)
  apply_lem t (now, by_host x) v = elim (Bool-cases (text_eq (norm_host x) [])) [
    | inl e ↦ rw e (v, Dominated-refl t)
    | inr e ↦
        let k = norm_host x in
        rw e (capped t (with_host t now v k) (host-IsValid t now v k) (host-Dominated t now v k))
  ]
  apply_lem t (now, by_url x u) v = elim (Bool-cases (text_eq (norm_host x) [])) [
    | inl e ↦ rw e (v, Dominated-refl t)
    | inr e ↦
        let k = url_key digest (norm_host x) u in
        rw e (capped t (with_url t now v k) (url-IsValid t now v k) (url-Dominated t now v k))
  ]
  apply_lem t (now, by_prefix x p) v = elim (Bool-cases (text_eq (norm_host x) [])) [
    | inl e ↦ rw e (v, Dominated-refl t)
    | inr e ↦
        let k = norm_host x in
        let q = normalize_prefix p in
        rw e (
          capped t (with_prefix t now v k q) (prefix-IsValid t now v k q)
            (prefix-Dominated t now v k q))
  ]
  apply_lem t (now, by_tag g) v = elim (Bool-cases (text_eq g [])) [
    | inl e ↦ rw e (v, Dominated-refl t)
    | inr e ↦ rw e (capped t (with_tag t now v g) (tag-IsValid t now v g) (tag-Dominated t now v g))
  ]

  -- A purge covers what it is meant for: everything of the entry up to now is invalid.
  apply-Covers :
      (t : Table) (now : ℕ) (p : Purge) (e : Entry)
      → IsValid t
      → Covers p e
      → now ≤ epoch_of (apply t (now, p)) e
  unfolding apply flush_all purge_host purge_url purge_prefix purge_tag
  apply-Covers t now flush e v c =
      ground (arith, epoch_for-eq-max digest (flush_all t now) e.host e.uri e.tags refl)
  apply-Covers t now (by_host x) e v c =
      let u : Table = with_host t now v (norm_host x) in
      let capped_up =
        epoch_for-le digest u (enforce_cap u) e.host e.uri e.tags
          (enforce_cap-Dominated u (host-IsValid t now v (norm_host x))) in
      ground (
        arith,
        text_eq_iff (norm_host x) [],
        capped_up,
        epoch_for-eq-max digest u e.host e.uri e.tags refl,
        Assoc.get-put_self Text-discrete (norm_host x) (stamped t now) t.host,
      )
  apply-Covers t now (by_url x y) e v c =
      let k = url_key digest (norm_host x) y in
      let u : Table = with_url t now v k in
      let capped_up =
        epoch_for-le digest u (enforce_cap u) e.host e.uri e.tags
          (enforce_cap-Dominated u (url-IsValid t now v k)) in
      ground (
        arith,
        text_eq_iff (norm_host x) [],
        capped_up,
        epoch_for-eq-max digest u e.host e.uri e.tags refl,
        Assoc.get-put_self Text-discrete k (stamped t now) t.url,
      )
  apply-Covers t now (by_prefix x p) e v c =
      let k = norm_host x in
      let q = normalize_prefix p in
      let u : Table = with_prefix t now v k q in
      let capped_up =
        epoch_for-le digest u (enforce_cap u) e.host e.uri e.tags
          (enforce_cap-Dominated u (prefix-IsValid t now v k q)) in
      ground (
        arith,
        text_eq_iff (norm_host x) [],
        capped_up,
        epoch_for-eq-max digest u e.host e.uri e.tags refl,
        prefix-put t now v k q e.host,
        prefixes-cover (path_of e.uri) q (stamped t now) (records_at k t.prefixes),
      )
  apply-Covers t now (by_tag g) e v c =
      let u : Table = with_tag t now v g in
      let capped_up =
        epoch_for-le digest u (enforce_cap u) e.host e.uri e.tags
          (enforce_cap-Dominated u (tag-IsValid t now v g)) in
      ground (
        arith,
        text_eq_iff g [],
        capped_up,
        epoch_for-eq-max digest u e.host e.uri e.tags refl,
        Assoc.get-put_self Text-discrete g (stamped t now) t.tag,
        tags-cover g u.tag e.tags,
      )

  run-IsValid : (t : Table) (cs : List (ℕ × Purge)) → IsValid t → IsValid (run t cs)
  unfolding run
  run-IsValid t [] v = v
  run-IsValid t (c ∷ cs) v = run-IsValid (apply t c) cs (apply_lem t c v).0

  -- No history of purges lowers the epoch of any entry, whatever the clock and the cap do.
  pub epoch-run-le :
      (t : Table) (cs : List (ℕ × Purge)) (e : Entry)
      → IsValid t
      → epoch_of t e ≤ epoch_of (run t cs) e
  unfolding run
  epoch-run-le t [] e v = omega arith
  epoch-run-le t (c ∷ cs) e v =
      let (valid, dominated) = apply_lem t c v in
      omega (
        arith,
        epoch_for-le digest t (apply t c) e.host e.uri e.tags dominated,
        epoch-run-le (apply t c) cs e valid,
      )

  -- A purge of a host, a URL, a path prefix, a tag or of everything invalidates each entry that it
  -- covers up to the moment of the call, and after any later purges the entry still is.
  pub purged_stays_purged :
      (t : Table) (now : ℕ) (p : Purge) (later : List (ℕ × Purge)) (e : Entry)
      → IsValid t
      → Covers p e
      → now ≤ epoch_of (run (apply t (now, p)) later) e
  purged_stays_purged t now p later e v c = omega (
    arith,
    apply-Covers t now p e v c,
    epoch-run-le (apply t (now, p)) later e (apply_lem t (now, p) v).0,
  )

  apply-IsCapped : (t : Table) (c : ℕ × Purge) → IsCapped t → IsCapped (apply t c)
  unfolding apply flush_all purge_host purge_url purge_prefix purge_tag prefix_count
  apply-IsCapped t (now, flush) h = record {
    hosts = omega arith;
    urls = omega arith;
    paths = omega arith;
    tags = omega arith;
  }
  apply-IsCapped t (now, by_host x) h = elim (Bool-cases (text_eq (norm_host x) [])) [
    | inl e ↦ rw e h
    | inr e ↦ rw e (enforce_cap-IsCapped _)
  ]
  apply-IsCapped t (now, by_url x u) h = elim (Bool-cases (text_eq (norm_host x) [])) [
    | inl e ↦ rw e h
    | inr e ↦ rw e (enforce_cap-IsCapped _)
  ]
  apply-IsCapped t (now, by_prefix x p) h = elim (Bool-cases (text_eq (norm_host x) [])) [
    | inl e ↦ rw e h
    | inr e ↦ rw e (enforce_cap-IsCapped _)
  ]
  apply-IsCapped t (now, by_tag g) h = elim (Bool-cases (text_eq g [])) [
    | inl e ↦ rw e h
    | inr e ↦ rw e (enforce_cap-IsCapped _)
  ]

  -- However many purges a table has seen, each of its maps holds at most `maxRecs` records.
  pub run-IsCapped : (t : Table) (cs : List (ℕ × Purge)) → IsCapped t → IsCapped (run t cs)
  unfolding run
  run-IsCapped t [] h = h
  run-IsCapped t (c ∷ cs) h = run-IsCapped (apply t c) cs (apply-IsCapped t c h)

pub new-IsValid : (n : ℕ) → IsValid (new n) × IsCapped (new n)
unfolding new Assoc.get raise_prefixes prefix_count
new-IsValid n = (
  record {
    globals = omega arith;
    hosts = λ h. omega arith;
    urls = λ k. omega arith;
    paths = λ h path. omega arith;
    tags = λ g. omega arith;
  },
  record { hosts = omega arith; urls = omega arith; paths = omega arith; tags = omega arith },
)
