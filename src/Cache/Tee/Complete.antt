-- ===== src/Cache/Tee/Complete.antt =====
-- A fill commits the whole body or nothing, and the client gets the whole body in any case.
use parapet.Prelude.{
  ℕ, zero, suc, ◌+◌, ◌≡◌, ◌≤◌, refl, ap, sym, ◌∙◌, List, [], ◌∷◌, ◌++◌, Option, none, some, Bool,
  true, false, ◌&&◌, ltb, length, length-append, ◌≢◌, take, take-append, subst, arith, Bool-cases,
  Option-cases, inl, inr,
}
use mathlib.Core.List.{append_assoc, append-nil}
use parapet.GoStrings.{Text}
use parapet.Cache.Tee.{
  Config, Head, TeeWriter, new, open_entry, start_client, write_header, store, pass_on, write,
  finish, serve_leader, complete, Action, header, body, act, act_all,
}

-- The bytes that the handler writes.
unfoldable pub bytes_of : List Action → Text
bytes_of [] = []
bytes_of (header code ∷ actions) = bytes_of actions
bytes_of (body p stored ∷ actions) = p ++ bytes_of actions

-- An open entry holds all that was written so far, in no more bytes than the cap.
abbrev pub Holds : ℕ → Text → ℕ → Option Text → Type 0
Holds cap all written none = Unit
Holds cap all written (some b) = (b ≡ all) × (length b ≤ cap) × (written ≡ length b)

-- A writer whose header is written, after these bytes.
pub record IsFaithful (c : Config) (h : Head) (all : Text) (tw : TeeWriter) : Type 0 where
  pub started : tw.wrote_header ≡ true
  pub entry : Holds c.max_file_size all tw.written tw.entry
  -- while the entry is open, its length is the one that the response declares
  pub declared : (b : Text) → tw.entry ≡ some b → tw.content_len ≡ h.content_length
  pub lockstep : tw.deferred_client ≡ false → tw.client ≡ all
  pub deferred :
      tw.deferred_client ≡ true → (tw.leader_buf ≡ take c.max_file_size all) × (tw.client ≡ [])

Holds_none :
    (cap : ℕ) (all : Text) (written : ℕ) (o : Option Text) → o ≡ none → Holds cap all written o
Holds_none cap all written o e = rw e tt

Holds_some :
    (cap : ℕ) (all : Text) (written : ℕ) (o : Option Text) (b : Text)
    → o ≡ some b
    → (b ≡ all) × (length b ≤ cap) × (written ≡ length b)
    → Holds cap all written o
Holds_some cap all written o b e h = rw e h

held :
    (cap : ℕ) (all : Text) (written : ℕ) (o : Option Text) (b : Text)
    → Holds cap all written o
    → o ≡ some b
    → (b ≡ all) × (length b ≤ cap) × (written ≡ length b)
held cap all written o b h e = subst (Holds cap all written) e h

take_nil : {A : Type 0} (n : ℕ) → take {A = A} n [] ≡ []
take_nil zero = refl
take_nil (suc n) = refl

write_header-IsFaithful :
    (c : Config) (h : Head) (code : ℕ) → IsFaithful c h [] (write_header c h code new)
unfolding write_header open_entry start_client new
write_header-IsFaithful c h code =
    let tw : TeeWriter = write_header c h code new in
    record {
      started = ground arith;
      entry = elim (Bool-cases (h.cacheable && h.writer_ok)) [
        | inl e ↦ Holds_some c.max_file_size [] tw.written tw.entry [] (ground arith) (ground arith)
        | inr e ↦ Holds_none c.max_file_size [] tw.written tw.entry (ground arith)
      ];
      declared = λ b e. ground arith;
      lockstep = λ e. ground arith;
      deferred = λ e. ground (arith, take_nil {A = ℕ} c.max_file_size);
    }

write_header_again :
    (c : Config) (h : Head) (code : ℕ) (tw : TeeWriter)
    → tw.wrote_header ≡ true
    → write_header c h code tw ≡ tw
unfolding write_header
write_header_again c h code tw w = ground arith

store-Holds :
    (c : Config) (p all : Text) (stored : Bool) (tw : TeeWriter)
    → Holds c.max_file_size all tw.written tw.entry
    → Holds c.max_file_size (all ++ p) (store c p stored tw).written (store c p stored tw).entry
unfolding store
store-Holds c p all stored tw h =
    let after : TeeWriter = store c p stored tw in
    let cap : ℕ = c.max_file_size in
    elim (Option-cases tw.entry) [
      | inl e ↦ Holds_none cap (all ++ p) after.written after.entry (ground arith)
      | inr (b, e) ↦
          let old = held cap all tw.written tw.entry b h e in
          elim (Bool-cases (ltb cap (tw.written + length p))) [
            | inl over ↦ Holds_none cap (all ++ p) after.written after.entry (ground arith)
            | inr fits ↦ elim (Bool-cases stored) [
              | inr lost ↦ Holds_none cap (all ++ p) after.written after.entry (ground arith)
              | inl kept ↦
                  Holds_some cap (all ++ p) after.written after.entry (b ++ p) (ground arith) (
                    ap (λ (t : Text). t ++ p) old.0,
                    ground (arith, length-append b p, old.1, old.2),
                    ground (arith, length-append b p, old.2),
                  )
            ]
          ]
    ]

store_rest :
    (c : Config) (p : Text) (stored : Bool) (tw : TeeWriter)
    → ((store c p stored tw).wrote_header ≡ tw.wrote_header)
      × ((store c p stored tw).deferred_client ≡ tw.deferred_client)
      × ((store c p stored tw).client ≡ tw.client)
      × ((store c p stored tw).leader_buf ≡ tw.leader_buf)
      × ((store c p stored tw).content_len ≡ tw.content_len)
unfolding store
store_rest c p stored tw = (ground arith, ground arith, ground arith, ground arith, ground arith)

-- What is open after a write was open before it.
store-open :
    (c : Config) (p : Text) (stored : Bool) (tw : TeeWriter) (b : Text)
    → (store c p stored tw).entry ≡ some b
    → (old : Text) × (tw.entry ≡ some old)
unfolding store
store-open c p stored tw b e = elim (Option-cases tw.entry) [
  | inl gone ↦ absurd (ground arith)
  | inr (old, there) ↦ (old, there)
]

passed_rest :
    (c : Config) (p : Text) (tw : TeeWriter)
    → ((pass_on c p tw).wrote_header ≡ tw.wrote_header)
      × ((pass_on c p tw).deferred_client ≡ tw.deferred_client)
      × ((pass_on c p tw).written ≡ tw.written)
      × ((pass_on c p tw).entry ≡ tw.entry)
      × ((pass_on c p tw).content_len ≡ tw.content_len)
unfolding pass_on
passed_rest c p tw = (ground arith, ground arith, ground arith, ground arith, ground arith)

pass_on-IsFaithful :
    (c : Config) (h : Head) (p all : Text) (stored : Bool) (tw : TeeWriter)
    → IsFaithful c h all tw
    → IsFaithful c h (all ++ p) (store c p stored (pass_on c p tw))
unfolding pass_on
pass_on-IsFaithful c h p all stored tw f =
    let passed : TeeWriter = pass_on c p tw in
    let rest = store_rest c p stored passed in
    let same = passed_rest c p tw in
    record {
      started = rest.0 ∙ same.0 ∙ f.started;
      entry = store-Holds c p all stored passed (rw (same.2, same.3) f.entry);
      declared = λ b e.
          let (old, there) = store-open c p stored passed b e in
          rest.4 ∙ same.4 ∙ f.declared old (sym same.3 ∙ there);
      lockstep =
          λ e. let now = sym same.1 ∙ sym rest.1 ∙ e in rest.2 ∙ ground (arith, f.lockstep now);
      deferred = λ e.
          let now = sym same.1 ∙ sym rest.1 ∙ e in
          (
            rest.3 ∙ ground (arith, f.deferred now, take-append c.max_file_size all p),
            rest.2 ∙ ground (arith, f.deferred now),
          );
    }

act-IsFaithful :
    (c : Config) (h : Head) (a : Action) (all : Text) (tw : TeeWriter)
    → IsFaithful c h all tw
    → IsFaithful c h (all ++ bytes_of (a ∷ [])) (act c h a tw)
unfolding act bytes_of write
act-IsFaithful c h (header code) all tw f =
    rw (write_header_again c h code tw f.started) (rw (append-nil all) f)
act-IsFaithful c h (body p stored) all tw f =
    rw (write_header_again c h 200 tw f.started)
      (rw (append-nil p) (pass_on-IsFaithful c h p all stored tw f))

-- The first call writes the header, with status 200 if it is a write of the body.
first-IsFaithful :
    (c : Config) (h : Head) (a : Action) → IsFaithful c h (bytes_of (a ∷ [])) (act c h a new)
unfolding act bytes_of write
first-IsFaithful c h (header code) = write_header-IsFaithful c h code
first-IsFaithful c h (body p stored) = rw (append-nil p) (
    pass_on-IsFaithful c h p [] stored (write_header c h 200 new) (write_header-IsFaithful c h 200))

bytes_of-cons :
    (a : Action) (actions : List Action)
    → bytes_of (a ∷ actions) ≡ bytes_of (a ∷ []) ++ bytes_of actions
unfolding bytes_of
bytes_of-cons (header code) actions = refl
bytes_of-cons (body p stored) actions =
    ap (λ (t : Text). t ++ bytes_of actions) (sym (append-nil p))

act_all-IsFaithful :
    (c : Config) (h : Head) (actions : List Action) (all : Text) (tw : TeeWriter)
    → IsFaithful c h all tw
    → IsFaithful c h (all ++ bytes_of actions) (act_all c h actions tw)
unfolding act_all bytes_of
act_all-IsFaithful c h [] all tw f = rw (append-nil all) f
act_all-IsFaithful c h (a ∷ actions) all tw f = rw (bytes_of-cons a actions) (
    rw⁻¹ (append_assoc all (bytes_of (a ∷ [])) (bytes_of actions)) (
      act_all-IsFaithful c h actions (all ++ bytes_of (a ∷ [])) (act c h a tw)
        (act-IsFaithful c h a all tw f)))

-- After any calls of the handler, of which there is at least one.
pub fill-IsFaithful :
    (c : Config) (h : Head) (a : Action) (actions : List Action)
    → IsFaithful c h (bytes_of (a ∷ actions)) (act_all c h (a ∷ actions) new)
unfolding act_all
fill-IsFaithful c h a actions =
    rw (bytes_of-cons a actions)
      (act_all-IsFaithful c h actions (bytes_of (a ∷ [])) (act c h a new) (first-IsFaithful c h a))

-- A fill commits the body that the handler wrote, whole and within the cap, or nothing: where the response
-- has a Content-Length and is no answer to HEAD, only a body of that length.
pub finish-whole :
    (c : Config) (h : Head) (head committed : Bool) (a : Action) (actions : List Action) (b : Text)
    → (finish c head committed (act_all c h (a ∷ actions) new)).1 ≡ some b
    → (b ≡ bytes_of (a ∷ actions))
      × (length b ≤ c.max_file_size)
      × ((n : ℕ) → h.content_length ≡ some n → head ≡ false → length b ≡ n)
unfolding finish complete
finish-whole c h head committed a actions b e =
    let tw : TeeWriter = act_all c h (a ∷ actions) new in
    let f = fill-IsFaithful c h a actions in
    elim (Option-cases tw.entry) [
      | inl gone ↦ absurd (ground arith)
      | inr (whole, there) ↦
          let kept =
            held c.max_file_size (bytes_of (a ∷ actions)) tw.written tw.entry whole f.entry there in
          (
            ground (arith, kept),
            ground (arith, kept),
            λ n len no_head. ground (arith, kept, f.declared whole there),
          )
    ]

-- The client gets the body that the handler wrote, in its order and whole, whatever becomes of the copy
-- in the storage; a deferred one gets it from `serveLeader`, as far as the cap, unless the request is a
-- HEAD or the status 204.
pub client-whole :
    (c : Config) (h : Head) (a : Action) (actions : List Action)
    → (let tw = act_all c h (a ∷ actions) new in
        (tw.deferred_client ≡ false → tw.client ≡ bytes_of (a ∷ actions))
        × (tw.deferred_client ≡ true
            → tw.status ≢ 204
            → (serve_leader false tw).client ≡ take c.max_file_size (bytes_of (a ∷ actions))))
unfolding serve_leader
client-whole c h a actions =
    let f = fill-IsFaithful c h a actions in (f.lockstep, λ e s. ground (arith, f.deferred e))
