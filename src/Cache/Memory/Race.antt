-- ===== src/Cache/Memory/Race.antt =====
-- `Delete` and `Commit` each take the map's lock and the accounting's lock one after the other, so
-- their steps can interleave.
use parapet.Prelude.{◌≡◌, ◌≤◌, none, some, false, arith}
use parapet.Prelude.Assoc
use parapet.Cache.Storage.{Meta}
use parapet.Cache.Lru.{find, admit}
use parapet.Cache.Lru.Order.{IsValid, remove_lem, find-drop_key}
use parapet.Cache.Lru.Eviction.{has, find-admit, admit-IsValid, admit_stores}
use parapet.Cache.Memory.{Entry, MemoryStorage, Writer, delete_data, delete_weight, commit}
use parapet.Cache.Memory.Agreement.{get-delete_all}

module _ {K : Type 0} (dec : Discrete K) where
  -- A commit of the same key that runs between the two steps of a delete, of an object that fits,
  -- leaves the object in the map with no record in the accounting: its bytes count for nothing.
  pub commit_inside_delete :
      (s : MemoryStorage K) (w : Writer K) (meta : Meta)
      → IsValid dec s.lru
      → w.done ≡ false
      → meta.size ≤ s.lru.max
      → let t = delete_weight dec (commit dec (delete_data dec s w.key) w meta).0 w.key in
        (Assoc.get dec w.key t.m ≡ some (record { body = w.buf; meta = meta }))
        × (find dec w.key t.lru.ll ≡ none)
  unfolding commit delete_data delete_weight has find
  commit_inside_delete s w meta v live fits =
      let e : Entry = record { body = w.buf; meta = meta } in
      let victims = (admit dec s.lru w.key meta.size).1 in
      let after = admit-IsValid dec s.lru v w.key meta.size in
      let rest = Assoc.delete dec w.key s.m in
      rw live (
        ground (
          arith,
          get-delete_all dec victims (Assoc.put dec w.key e rest) w.key,
          Assoc.get-put_self dec w.key e rest,
          find-admit dec s.lru v w.key meta.size w.key,
          (admit_stores dec s.lru v w.key meta.size fits).0,
        ),
        ground (
          arith,
          remove_lem dec (admit dec s.lru w.key meta.size).0 w.key after,
          find-drop_key dec w.key w.key (admit dec s.lru w.key meta.size).0.ll after.distinct,
        ),
      )
