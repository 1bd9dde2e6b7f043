-- ===== src/Globals.antt =====
-- src/database/key_value/globals.rs: the counter that orders everything, and the schema version.
pub mod Counting
use matrix_server.Base.{ℕ, Option, none, some, [], ◌∷◌}
use matrix_server.Base.Bytes.{Bytes, to_be_bytes, u64_from_bytes}
use matrix_server.Base.Effect.{Result, ok, err, bad_database, ok_or}
use matrix_server.Storage.{KvTree, tree_increment}

-- `b"c"`
abbrev pub counter : Bytes
counter = b'c' ∷ []

-- `b"version"`
abbrev pub version_key : Bytes
version_key = b'v' ∷ b'e' ∷ b'r' ∷ b's' ∷ b'i' ∷ b'o' ∷ b'n' ∷ []

module _ {T : Type 0} (kv : KvTree T) where
  open kv use {get as tree_get, insert as tree_insert}

  unfoldable pub next_count : T → Result ℕ × T
  unfolding tree_increment
  next_count global =
      let (global', bytes) = tree_increment kv global counter in
      (ok_or (u64_from_bytes bytes) (bad_database "Count has invalid bytes."), global')

  unfoldable pub current_count : T → Result ℕ
  current_count global = elim (tree_get global counter) [
    | none ↦ ok 0
    | some bytes ↦ ok_or (u64_from_bytes bytes) (bad_database "Count has invalid bytes.")
  ]

  unfoldable pub database_version : T → Result ℕ
  database_version global = elim (tree_get global version_key) [
    | none ↦ ok 0
    | some version ↦ ok_or (u64_from_bytes version) (bad_database "Database version id is invalid.")
  ]

  unfoldable pub bump_database_version : T → ℕ → T
  bump_database_version global new_version =
      tree_insert global version_key (to_be_bytes new_version)
