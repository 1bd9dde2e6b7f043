-- ===== src/Json.antt =====
-- The crate `serde_json` on `ruma::serde::Raw` values, as an interface: a raw value keeps its
-- JSON text, and is read back from it.
use matrix_server.Base.{◌≡◌, Bool, true, false, Option, none, some}
use matrix_server.Base.Bytes.{Bytes}

-- What is read from a text into an `Option`, given whether it is JSON `null`, which is read as
-- `None`, and what is read from it otherwise.
abbrev pub option_of : {A : Type 0} → Bool → Option A → Option (Option A)
option_of true a = some none
option_of false none = none
option_of false (some a) = some (some a)

pub record RawJson (R : Type 0) : Type 0 where
  -- `serde_json::to_vec(raw)`
  pub to_vec : R → Bytes
  -- `raw.json().get().as_bytes()`
  pub json_text : R → Bytes
  -- `serde_json::from_slice` into `Raw<R>`
  pub from_slice : Bytes → Option R
  -- `serde_json::from_slice` into `Option<Raw<R>>`
  pub from_slice_option : Bytes → Option (Option R)
  -- Whether a text is JSON `null`.
  pub is_null : Bytes → Bool
  pub from_slice-to_vec : (r : R) → from_slice (to_vec r) ≡ some r
  pub from_slice-json_text : (r : R) → from_slice (json_text r) ≡ some r
  pub from_slice_option_lem :
      (b : Bytes) → from_slice_option b ≡ option_of (is_null b) (from_slice b)

-- A type that `serde_json` writes and reads.
pub record Json (A : Type 0) : Type 0 where
  pub to_vec : A → Bytes
  pub from_slice : Bytes → Option A
  -- `serde_json::from_slice` into `Option<A>`
  pub from_slice_option : Bytes → Option (Option A)
  -- Whether a text is JSON `null`.
  pub is_null : Bytes → Bool
  pub from_slice-to_vec : (a : A) → from_slice (to_vec a) ≡ some a
  pub from_slice_option_lem :
      (b : Bytes) → from_slice_option b ≡ option_of (is_null b) (from_slice b)
