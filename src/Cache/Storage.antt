-- ===== src/Cache/Storage.antt =====
-- pkg/cache/storage.go: the metadata of a stored response. Times are nanoseconds since 1970.
use parapet.Prelude.{ℕ, List}
use parapet.GoStrings.{Text}

pub record Meta : Type 0 where
  pub header : List (Text × List Text)
  pub primary_hex : Text
  pub host : Text
  pub uri : Text
  pub vary : List Text
  pub tags : List Text
  pub created : ℕ
  pub fresh_until : ℕ
  pub stale_while_revalidate : ℕ
  pub stale_if_error : ℕ
  pub size : ℕ
  pub status : ℕ
