-- ===== src/Host/Canonical.antt =====
-- The normal form of a host in one formula.
use parapet.Prelude.{
  ℕ, ◌<◌, ◌≡◌, refl, ap, ◌∙◌, [], ◌∷◌, Option, none, some, Bool, true, false, not, ◌&&◌,
  if◌then◌else◌, All, arith, Bool-cases, inl, inr, subst, sym, Option-cases,
}
use parapet.GoStrings.{Text, text_eq, text_eq_iff, contains_byte}
use parapet.GoStrings.HostPort.{split_host_port}
use parapet.GoStrings.Bytes.{if-holds, split_host_port-All}
use parapet.Host.{
  last_is, butlast, drop_last, is_upper, scan, bracketed, inner, unwrap, normalize_host_slow,
  lowered, normalize_host,
}

-- A byte of ASCII that has no lower case.
abbrev pub Plain : ℕ → Type 0
Plain c = (is_upper c ≡ false) × (c < 128)

scan-Plain : (s : Text) → (scan s).needs_lower ≡ false → All Plain s
unfolding scan
scan-Plain [] h = tt
scan-Plain (c ∷ s) h = (ground arith, scan-Plain s (ground arith))

scan-has_colon : (s : Text) → (scan s).has_colon ≡ contains_byte b':' s
unfolding scan contains_byte
scan-has_colon [] = refl
scan-has_colon (c ∷ s) = ground (arith, scan-has_colon s)

butlast-Plain : (s : Text) → All Plain s → All Plain (butlast s)
unfolding butlast
butlast-Plain [] h = tt
butlast-Plain (c ∷ []) h = tt
butlast-Plain (c ∷ d ∷ s) h = (h.0, butlast-Plain (d ∷ s) h.1)

inner-Plain : (s : Text) → All Plain s → All Plain (inner s)
unfolding inner
inner-Plain [] h = tt
inner-Plain (c ∷ s) h = butlast-Plain s h.1

unwrap_whole :
    (s : Text) → split_host_port s ≡ none → unwrap s ≡ (if bracketed s then inner s else s)
unfolding unwrap
unwrap_whole s e = ground arith

unwrap_found : (s host : Text) → split_host_port s ≡ some host → unwrap s ≡ host
unfolding unwrap
unwrap_found s host e = ground arith

unwrap-Plain : (s : Text) → All Plain s → All Plain (unwrap s)
unwrap-Plain s h = elim (Option-cases (split_host_port s)) [
  | inl whole ↦
      subst (All Plain) (sym (unwrap_whole s whole))
        (if-holds (All Plain) (bracketed s) (inner s) s (inner-Plain s h) h)
  | inr (host, found) ↦
      subst (All Plain) (sym (unwrap_found s host found)) (split_host_port-All Plain s host found h)
]

-- The port and the brackets go where the text has a colon, then one dot at the end.
abbrev pub strip_port : Text → Text
strip_port h = if contains_byte b':' h then unwrap h else h

abbrev pub strip_dot : Text → Text
strip_dot h = if last_is b'.' h then butlast h else h

-- Nothing stands before the port, and the port ends with a dot.
abbrev pub slices_nothing : Text → Bool
slices_nothing h = contains_byte b':' h && text_eq (unwrap h) [] && last_is b'.' h

strip-Plain : (s : Text) → All Plain s → All Plain (strip_dot (strip_port s))
strip-Plain s h =
    let bare = strip_port s in
    let plain : All Plain bare =
      if-holds (All Plain) (contains_byte b':' s) (unwrap s) s (unwrap-Plain s h) h in
    if-holds (All Plain) (last_is b'.' bare) (butlast bare) bare (butlast-Plain bare plain) plain

drop_last-dotted : (c : ℕ) (s : Text) → last_is c s ≡ true → drop_last s ≡ some (butlast s)
unfolding last_is drop_last
drop_last-dotted c [] h = absurd (cc)
drop_last-dotted c (d ∷ s) h = refl

last_is-nil : last_is b'.' [] ≡ false
unfolding last_is
last_is-nil = refl

drop_last-nil : drop_last [] ≡ none
unfolding drop_last
drop_last-nil = refl

-- The slow path before the lowering, of a text with these flags.
abbrev trimmed : Text → Option Text
trimmed h =
    let bare = strip_port h in
    let dotted =
      if contains_byte b':' h && not (text_eq bare []) then last_is b'.' bare else last_is b'.' h in
    if dotted then drop_last bare else some bare

trimmed_lem :
    (h : Text) → trimmed h ≡ (if slices_nothing h then none else some (strip_dot (strip_port h)))
trimmed_lem h = elim (Bool-cases (contains_byte b':' h)) [
  | inl colon ↦ elim (Bool-cases (text_eq (unwrap h) [])) [
    | inl empty ↦
        let gone : unwrap h ≡ [] = (text_eq_iff (unwrap h) []).0 empty in
        elim (Bool-cases (last_is b'.' h)) [
          | inl dot ↦ ground (arith, last_is-nil, drop_last-nil)
          | inr plain ↦ ground (arith, last_is-nil, drop_last-nil)
        ]
    | inr full ↦ elim (Bool-cases (last_is b'.' (unwrap h))) [
      | inl dot ↦ ground (arith, drop_last-dotted b'.' (unwrap h) dot)
      | inr plain ↦ ground arith
    ]
  ]
  | inr bare ↦ elim (Bool-cases (last_is b'.' h)) [
    | inl dot ↦ ground (arith, drop_last-dotted b'.' h dot)
    | inr plain ↦ ground arith
  ]
]

-- The fast path returns what the slow path would.
normalize-slow :
    (to_lower : Text → Text) (c : ℕ) (s : Text)
    → normalize_host to_lower (c ∷ s)
      ≡ normalize_host_slow to_lower
          (c ∷ s)
          (scan (c ∷ s)).has_colon
          (last_is b'.' (c ∷ s))
          (scan (c ∷ s)).needs_lower
unfolding normalize_host normalize_host_slow
normalize-slow to_lower c s = elim (Bool-cases (scan (c ∷ s)).needs_lower) [
  | inl low ↦ ground arith
  | inr as_is ↦ elim (Bool-cases (scan (c ∷ s)).has_colon) [
    | inl colon ↦ ground arith
    | inr bare ↦ elim (Bool-cases (last_is b'.' (c ∷ s))) [
      | inl dot ↦ ground arith
      | inr plain ↦ ground arith
    ]
  ]
]

slow-trimmed :
    (to_lower : Text → Text) (h : Text) (low : Bool)
    → normalize_host_slow to_lower h (contains_byte b':' h) (last_is b'.' h) low
      ≡ lowered to_lower low (trimmed h)
unfolding normalize_host_slow
slow-trimmed to_lower h low = refl

lowered-kept :
    (to_lower : Text → Text) (low fails : Bool) (s : Text)
    → (low ≡ false → to_lower s ≡ s)
    → lowered to_lower low (if fails then none else some s)
      ≡ (if fails then none else some (to_lower s))
lowered-kept to_lower low true s kept = refl
lowered-kept to_lower true false s kept = refl
lowered-kept to_lower false false s kept = ap some (sym (kept refl))

normalize-nil : (to_lower : Text → Text) → normalize_host to_lower [] ≡ some []
unfolding normalize_host
normalize-nil to_lower = refl

nil-canonical :
    (to_lower : Text → Text)
    → lowered to_lower false (if slices_nothing [] then none else some (strip_dot (strip_port [])))
      ≡ some []
unfolding contains_byte last_is
nil-canonical to_lower = refl

-- With whatever `strings.ToLower` is that keeps a text without upper case and of ASCII alone: the fast
-- path and the slow path of `normalizeHost` give the same, the text without its port, then without one
-- dot at the end, in lower case; and the slice in it is out of range exactly when nothing stands before
-- the port and the text ends with a dot.
pub normalize_host-canonical :
    (to_lower : Text → Text)
    → ((s : Text) → All Plain s → to_lower s ≡ s)
    → (h : Text)
    → normalize_host to_lower h
      ≡ (if slices_nothing h then none else some (to_lower (strip_dot (strip_port h))))
normalize_host-canonical to_lower keeps [] =
    normalize-nil to_lower
    ∙ sym (nil-canonical to_lower)
    ∙ lowered-kept to_lower false (slices_nothing []) (strip_dot (strip_port []))
        (λ _. keeps (strip_dot (strip_port [])) (strip-Plain [] tt))
normalize_host-canonical to_lower keeps (c ∷ s) =
    let h = c ∷ s in
    let flags = scan h in
    normalize-slow to_lower c s
    ∙ ap (λ (colon : Bool). normalize_host_slow to_lower h colon (last_is b'.' h) flags.needs_lower)
        (scan-has_colon h)
    ∙ slow-trimmed to_lower h flags.needs_lower
    ∙ ap (lowered to_lower flags.needs_lower) (trimmed_lem h)
    ∙ lowered-kept to_lower flags.needs_lower (slices_nothing h) (strip_dot (strip_port h))
        (λ as_is. keeps (strip_dot (strip_port h)) (strip-Plain h (scan-Plain h as_is)))
