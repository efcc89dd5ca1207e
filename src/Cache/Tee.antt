-- ===== src/Cache/Tee.antt =====
-- pkg/cache/tee.go: the writer of a cache fill, which passes a response on to the client and keeps a copy
-- of a complete one. The headers and the metadata of the entry are in Storage and Policy.
use parapet.Prelude.{
  ℕ, ◌+◌, ◌-◌, List, [], ◌∷◌, ◌++◌, Option, none, some, Bool, true, false, not, ◌&&◌, ◌||◌, ltb,
  ◌==◌, if◌then◌else◌, length, take,
}
use parapet.GoStrings.{Text}
pub mod Complete

pub record Config : Type 0 where
  pub max_file_size : ℕ
  pub cache_chunked : Bool
  pub decouple_fill : Bool

-- What `WriteHeader` learns: whether the response is cacheable, whether the storage has given a writer,
-- the Content-Length if there is a valid one, and whether a follower waits on the fill lock.
pub record Head : Type 0 where
  pub cacheable : Bool
  pub writer_ok : Bool
  pub content_length : Option ℕ
  pub waiting : Bool

-- `teeWriter`: `entry` is the body in the storage's EntryWriter, `none` for a nil one. `client_status` and
-- `client` are what the client has got.
pub record TeeWriter : Type 0 where
  pub wrote_header : Bool
  pub status : ℕ
  pub entry : Option Text
  pub content_len : Option ℕ
  pub written : ℕ
  pub deferred_client : Bool
  pub leader_buf : Text
  pub client_status : Option ℕ
  pub client : Text

unfoldable pub new : TeeWriter
new = record {
  wrote_header = false;
  status = 0;
  entry = none;
  content_len = none;
  written = 0;
  deferred_client = false;
  leader_buf = [];
  client_status = none;
  client = [];
}

abbrev pub is_some {ℓ} : {A : Type ℓ} → Option A → Bool
is_some none = false
is_some (some x) = true

-- The part of `WriteHeader` that opens the entry.
unfoldable pub open_entry : Head → ℕ → TeeWriter → TeeWriter
open_entry h code tw =
    if h.cacheable && h.writer_ok
    then record tw {
      wrote_header = true;
      status = code;
      entry = some [];
      content_len = h.content_length;
    }
    else record tw { wrote_header = true; status = code }

-- The part that answers the client or defers it.
unfoldable pub start_client : Config → Head → ℕ → TeeWriter → TeeWriter
start_client c h code tw =
    if is_some tw.entry && is_some tw.content_len && c.decouple_fill && h.waiting
    then record tw { deferred_client = true }
    else record tw { client_status = some code }

unfoldable pub write_header : Config → Head → ℕ → TeeWriter → TeeWriter
unfolding open_entry start_client
write_header c h code tw =
    if tw.wrote_header then tw else start_client c h code (open_entry h code tw)

-- The storage's side of `Write`, with the outcome of the EntryWriter's; `abort` sets it to nil.
unfoldable pub store : Config → Text → Bool → TeeWriter → TeeWriter
store c p stored tw = elim tw.entry [
  | none ↦ tw
  | some body ↦
      if ltb c.max_file_size (tw.written + length p)
      then record tw { entry = none }
      else if stored
      then record tw { entry = some (body ++ p); written = tw.written + length p }
      else record tw { entry = none }
]

-- The client's side of `Write`: the leader's own copy, or the client itself.
unfoldable pub pass_on : Config → Text → TeeWriter → TeeWriter
pass_on c p tw =
    if tw.deferred_client
    then record tw { leader_buf = tw.leader_buf ++ take (c.max_file_size - length tw.leader_buf) p }
    else record tw { client = tw.client ++ p }

unfoldable pub write : Config → Head → Text → Bool → TeeWriter → TeeWriter
unfolding write_header store pass_on
write c h p stored tw = store c p stored (pass_on c p (write_header c h 200 tw))

unfoldable pub complete : Config → Bool → TeeWriter → Bool
complete c head tw =
    head || elim tw.content_len [ none ↦ c.cache_chunked | some n ↦ tw.written == n ]

-- `finish`, with the outcome of `Commit`: the body that is committed, if one is.
unfoldable pub finish : Config → Bool → Bool → TeeWriter → TeeWriter × Option Text
unfolding complete
finish c head committed tw = (
  record tw { entry = none },
  elim tw.entry [
    | none ↦ none
    | some body ↦ if complete c head tw && committed then some body else none
  ],
)

-- `cleanup`, on a panic before `finish`.
unfoldable pub cleanup : TeeWriter → TeeWriter
cleanup tw = record tw { entry = none }

-- `serveLeader`.
unfoldable pub serve_leader : Bool → TeeWriter → TeeWriter
serve_leader head tw = record tw {
  client_status = some tw.status;
  client = if not head && not (tw.status == 204) then tw.client ++ tw.leader_buf else tw.client;
}

-- What the upstream's handler calls: `WriteHeader`, or `Write` with the outcome of the storage's write.
pub data Action : Type 0 where
  header : ℕ → Action
  body : Text → Bool → Action

unfoldable pub act : Config → Head → Action → TeeWriter → TeeWriter
unfolding write_header write
act c h (header code) tw = write_header c h code tw
act c h (body p stored) tw = write c h p stored tw

unfoldable pub act_all : Config → Head → List Action → TeeWriter → TeeWriter
unfolding act
act_all c h [] tw = tw
act_all c h (a ∷ actions) tw = act_all c h actions (act c h a tw)
