-- ===== src/Transforms.antt =====
-- The transforms of internal/transform that the registry's factories make, one file for each. A
-- configuration comes decoded: the raw bytes are empty, refused by the JSON decoder, or a
-- configuration. A transform's configuration is an argument of its `execute`; of an error's
-- message only the fixed text is kept.
pub mod Add
pub mod Condition
pub mod Convert
pub mod EnrichHttp
pub mod EnrichPostgres
pub mod EnrichRedis
pub mod Extract
pub mod Headers
pub mod Items
pub mod Join
pub mod Split
pub mod Required
pub mod Route
pub mod SplitArray
pub mod SplitFilter
pub mod Remove
pub mod Mask
pub mod Template
pub mod Rename
pub mod Rules
use ggt.Prelude.{Option, none, some, [], Text}
use ggt.Prelude.Dict.{Dict, insert}
use ggt.Event.{Event}

pub data Raw {ℓ} (A : Type ℓ) : Type ℓ where
  empty_raw : Raw A
  undecodable : Text → Raw A
  decoded : A → Raw A

pub data Configured {ℓ} (A : Type ℓ) : Type ℓ where
  refused : Text → Configured A
  configured : A → Configured A

-- `ev.Headers[k] = v`, on a new map where the headers are nil
unfoldable pub set_header : Text → Text → Event → Event
set_header k v e = record e {
  headers = some (insert k v (elim e.headers [ none ↦ [] | some m ↦ m ]));
}
