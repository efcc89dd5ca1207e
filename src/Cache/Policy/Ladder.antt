-- ===== src/Cache/Policy/Ladder.antt =====
-- What the two policies promise of a response that they let in, and how the modes compare.
use parapet.Prelude.{
  ℕ, ◌+◌, ◌≤◌, ◌<◌, ◌≡◌, ap, List, [], Option, some, Bool, true, false, not, ◌&&◌, ◌||◌,
  if◌then◌else◌, arith, Option-cases, inl, inr,
}
use parapet.GoInt64.{less, zero_less, less-nonneg}
use parapet.GoStrings.{Text, codes}
use parapet.Cache.Policy.{Header, values, max_ttl, cacheable_status, parse_cache_control}
use parapet.Cache.Policy.Vary.{parse_vary}
use parapet.Cache.Policy.Freshness.{
  stale_windows, freshness, freshness-lt, stale_windows-le, revalidate-stale_windows,
}
use parapet.Cache.Policy.Decide.{
  Decision, OverrideMode, balanced, conservative, aggressive, Override, store_refusals,
  shared_opt_in, fits_cap, mode_refuses, filled, forced_ttl, forced_windows, settle, decide,
  decide_forced,
}

-- What holds of a response that may be stored.
pub record IsSafe (status : ℕ) (h : Header) (authorized : Bool) (now : ℕ) (d : Decision)
    : Type 0 where
  pub status_allows : cacheable_status status ≡ true
  pub no_cookie : values h (codes "Set-Cookie") ≡ []
  pub varies : parse_vary h ≡ some d.vary
  pub storable :
      let cc = parse_cache_control h in (cc.is_private || cc.no_store || cc.no_cache) ≡ false
  pub opted_in : authorized ≡ true → shared_opt_in (parse_cache_control h) ≡ true
  pub ends_later : now < d.fresh_until
  pub ends_in_time : d.fresh_until ≤ now + max_ttl
  pub windows : (d.stale_while_revalidate ≤ max_ttl) × (d.stale_if_error ≤ max_ttl)
  pub no_windows :
      let cc = parse_cache_control h in
      (cc.must_revalidate || cc.proxy_revalidate) ≡ true
      → (d.no_stale ≡ true) × (d.stale_while_revalidate ≡ 0) × (d.stale_if_error ≡ 0)

-- What a header that passes the refusals of every mode has.
store_refusals_passed :
    (status : ℕ) (h : Header) (vary : List Text)
    → store_refusals status h ≡ some vary
    → (cacheable_status status ≡ true)
      × (values h (codes "Set-Cookie") ≡ [])
      × (parse_vary h ≡ some vary)
unfolding store_refusals
store_refusals_passed status h vary e = (ground arith, ground arith, ground arith)

module _ (parse_time : Text → Option ℕ) (method : Text) (status : ℕ) (h : Header)
    (authorized : Bool) (cap : ℕ) (chunked : Bool) (now : ℕ) where
  abbrev gate : Bool
  gate =
      let cc = parse_cache_control h in
      cc.is_private || cc.no_store || cc.no_cache || (authorized && not (shared_opt_in cc))

  abbrev ttl : ℕ
  ttl = freshness parse_time (parse_cache_control h) h now

  -- The result of a response that is let in, and what was tested.
  decide_passed :
      (decide parse_time method status h authorized cap chunked now).cacheable ≡ true
      → let cc = parse_cache_control h in
        (vary : List Text) × (store_refusals status h ≡ some vary)
        × (gate ≡ false)
        × (less 0 ttl ≡ true)
        × (fits_cap method h cap chunked ≡ true)
        × (decide parse_time method status h authorized cap chunked now ≡ record {
          fresh_until = now + (if less max_ttl ttl then max_ttl else ttl);
          vary = vary;
          stale_while_revalidate = (stale_windows cc).0;
          stale_if_error = (stale_windows cc).1;
          cacheable = true;
          no_stale = cc.must_revalidate || cc.proxy_revalidate;
        })
  unfolding decide settle
  decide_passed e = elim (Option-cases (store_refusals status h)) [
    | inl r ↦ absurd (ground arith)
    | inr (vary, r) ↦ (vary, r, ground arith, ground arith, ground arith, ground arith)
  ]

  -- A response that the honor-origin policy lets in is of a cacheable status, sets no cookie, has
  -- no `Vary: *` and none of the directives that forbid storing it, carries the opt-in if the
  -- request was authorized, is fresh for a time of its own but for at most ten years, and, if
  -- the response has must-revalidate or proxy-revalidate, has no stale windows and forbids the default ones.
  pub decide-IsSafe :
      (decide parse_time method status h authorized cap chunked now).cacheable ≡ true
      → IsSafe status h authorized now
          (decide parse_time method status h authorized cap chunked now)
  decide-IsSafe e =
      let (vary, r, gate_passed, pos, fits, is) = decide_passed e in
      let cc = parse_cache_control h in
      let (ok, cookie, varies) = store_refusals_passed status h vary r in
      let (fresh, within) = zero_less ttl (freshness-lt parse_time h now cc) pos in
      rw is (record {
        status_allows = ok;
        no_cookie = cookie;
        varies = varies;
        storable = ground arith;
        opted_in = λ a. ground arith;
        ends_later = ground (arith, less-nonneg max_ttl ttl (omega arith) within, fresh);
        ends_in_time = ground (arith, less-nonneg max_ttl ttl (omega arith) within);
        windows = stale_windows-le cc;
        no_windows = λ n. (
          n,
          ap (λ w. w.0) (revalidate-stale_windows cc n),
          ap (λ w. w.1) (revalidate-stale_windows cc n),
        );
      })

  -- The forced policy in one of its modes.
  abbrev pub forced : Override → OverrideMode → Decision
  forced ov mode =
      decide_forced parse_time method status h authorized cap chunked now
        (record ov { mode = mode })

  -- With a lifetime to force, what the conservative mode lets in the balanced mode does too, and
  -- what that lets in the aggressive mode does.
  pub forced_ladder :
      (ov : Override)
      → less 0 ov.ttl ≡ true
      → ((forced ov conservative).cacheable ≡ true → (forced ov balanced).cacheable ≡ true)
        × ((forced ov balanced).cacheable ≡ true → (forced ov aggressive).cacheable ≡ true)
  unfolding decide_forced settle mode_refuses forced_ttl
  forced_ladder ov pos = elim (Option-cases (store_refusals status h)) [
    | inl r ↦ (λ c. ground arith, λ c. ground arith)
    | inr (vary, r) ↦ (λ c. ground arith, λ c. ground arith)
  ]

  -- The conservative mode leaves a response that the origin makes cacheable as the honor-origin
  -- policy has it, but for the stale windows that the origin neither gives nor forbids, which are
  -- the forced ones.
  pub conservative_honors :
      (ov : Override)
      → let d = decide parse_time method status h authorized cap chunked now in
        d.cacheable ≡ true
        → forced ov conservative ≡ record d {
          stale_while_revalidate =
              filled d.no_stale d.stale_while_revalidate ov.stale_while_revalidate;
          stale_if_error = filled d.no_stale d.stale_if_error ov.stale_if_error;
        }
  unfolding decide_forced settle mode_refuses forced_ttl forced_windows
  conservative_honors ov e =
      let (vary, r, gate_passed, pos, fits, is) = decide_passed e in
      rw is (
        ground (
          arith,
          less-nonneg max_ttl ttl (omega arith)
              (zero_less ttl (freshness-lt parse_time h now (parse_cache_control h)) pos).1,
        ))
