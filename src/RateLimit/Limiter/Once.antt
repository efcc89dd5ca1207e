-- ===== src/RateLimit/Limiter/Once.antt =====
-- The token of an admitted request goes back exactly once.
use parapet.Prelude.{
  ◌⊎◌, ◌∙◌, sym, ◌≡◌, refl, ap, List, [], ◌∷◌, ◌++◌, Bool, true, false, arith, inl, inr,
}
use parapet.RateLimit.Limiter.{
  Strategy, Options, Event, write_header, write, flush, hijack, elsewhere, ResponseWriter, release,
  handle, handle_all, serve,
}

-- What other requests alone do to the strategy.
unfoldable pub elapse : {S : Type 0} → List (Event S) → S → S
elapse [] s = s
elapse (elsewhere f ∷ es) s = elapse es (f s)
elapse (write_header code ∷ es) s = elapse es s
elapse (write p ∷ es) s = elapse es s
elapse (flush ∷ es) s = elapse es s
elapse (hijack ∷ es) s = elapse es s

module _ {S K : Type 0} (strategy : Strategy S K) (key : K) where
  -- Once the token is back, no event of the handler touches the strategy again.
  handle_released :
      (w : ResponseWriter S) (e : Event S)
      → w.released ≡ true
      → ((handle strategy key w e).released ≡ true)
        × ((handle strategy key w e).state ≡ elapse (e ∷ []) w.state)
  unfolding handle elapse
  handle_released w (write_header code) h = ground arith
  handle_released w (write p) h = ground arith
  handle_released w flush h = ground arith
  handle_released w hijack h = ground arith
  handle_released w (elsewhere f) h = ground arith

  -- While the token is out, an event either puts it back, and then moves the strategy no further, or
  -- leaves it out and the strategy to the others.
  handle_unreleased :
      (w : ResponseWriter S) (e : Event S)
      → w.released ≡ false
      → (((handle strategy key w e).released ≡ true)
          × ((handle strategy key w e).state ≡ strategy.put w.state key)
          × ((s : S) → elapse (e ∷ []) s ≡ s))
        ⊎ (((handle strategy key w e).released ≡ false)
            × ((handle strategy key w e).state ≡ elapse (e ∷ []) w.state))
  unfolding handle elapse
  handle_unreleased w (write_header code) h = ground arith
  handle_unreleased w (write p) h = ground arith
  handle_unreleased w flush h = ground arith
  handle_unreleased w hijack h = ground arith
  handle_unreleased w (elsewhere f) h = ground arith

  elapse-cons :
      (e : Event S) (es : List (Event S)) (s : S)
      → elapse (e ∷ es) s ≡ elapse es (elapse (e ∷ []) s)
  unfolding elapse
  elapse-cons (write_header code) es s = refl
  elapse-cons (write p) es s = refl
  elapse-cons flush es s = refl
  elapse-cons hijack es s = refl
  elapse-cons (elsewhere f) es s = refl

  handle_all_released :
      (w : ResponseWriter S) (es : List (Event S))
      → w.released ≡ true
      → ((handle_all strategy key w es).released ≡ true)
        × ((handle_all strategy key w es).state ≡ elapse es w.state)
  unfolding handle_all elapse
  handle_all_released w [] h = (h, refl)
  handle_all_released w (e ∷ es) h =
      let (out, same) = handle_released w e h in
      let (ends, state) = handle_all_released (handle strategy key w e) es out in
      (ends, state ∙ ap (elapse es) same ∙ sym (elapse-cons e es w.state))

  put_back : (w : ResponseWriter S) → w.released ≡ true → (release strategy key w).state ≡ w.state
  unfolding release
  put_back w h = ground arith

  release_once :
      (w : ResponseWriter S) (es : List (Event S))
      → w.released ≡ false
      → (before : List (Event S)) × (after : List (Event S)) × (before ++ after ≡ es)
        × ((release strategy key (handle_all strategy key w es)).state
            ≡ elapse after (strategy.put (elapse before w.state) key))
  unfolding handle_all release elapse
  release_once w [] h = ([], [], refl, ground arith)
  release_once w (e ∷ es) h = elim (handle_unreleased w e h) [
    | inl (out, put, idle) ↦
        let (ends, state) = handle_all_released (handle strategy key w e) es out in
        (
          [],
          e ∷ es,
          refl,
          put_back (handle_all strategy key (handle strategy key w e) es) ends
              ∙ state
              ∙ ap (elapse es) (put ∙ sym (idle _))
              ∙ sym (elapse-cons e es _),
        )
    | inr (out, same) ↦
        let (before, after, split, state) = release_once (handle strategy key w e) es out in
        (
          e ∷ before,
          after,
          ap (λ r. e ∷ r) split,
          state
              ∙ ap (λ z. elapse after (strategy.put z key))
                  (ap (elapse before) same ∙ sym (elapse-cons e before w.state)),
        )
  ]

  -- The token of an admitted request goes back exactly once, at one point of the run, whatever the
  -- handler writes, hijacks or leaves out and whatever other requests do to the strategy in between.
  pub serve_once :
      (opts : Options) (hijacker : Bool) (s s' : S) (es : List (Event S))
      → strategy.take s key ≡ (s', true)
      → (before : List (Event S)) × (after : List (Event S)) × (before ++ after ≡ es)
        × ((serve strategy key opts hijacker s es).0
            ≡ elapse after (strategy.put (elapse before s') key))
  unfolding serve
  serve_once opts hijacker s s' es h = rw h (release_once _ es refl)
