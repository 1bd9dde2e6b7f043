-- ===== src/Globals/Counting.antt =====
-- The counter of src/database/key_value/globals.rs counts up.
use matrix_server.Base.{ℕ, ◌+◌, ◌<◌, ◌≡◌, refl, some, arith, Option-cases, inl, inr, ◌%◌}
use matrix_server.Base.Bytes.{
  to_be_bytes, u64_from_bytes, u64_mod, increment, u64_from_bytes-to_be_bytes,
  u64_from_bytes-increment,
}
use matrix_server.Base.Effect.{ok}
use matrix_server.Storage.{KvTree}
use matrix_server.Globals.{
  next_count, current_count, counter, database_version, bump_database_version, version_key,
}

module _ {T : Type 0} (kv : KvTree T) where
  -- `next_count` never fails, whatever bytes the counter held.
  pub next_count-ok : (g : T) → (n : ℕ) × ((next_count kv g).0 ≡ ok n) × (n < u64_mod)
  unfolding next_count
  next_count-ok g = let (n, e, lt) = u64_from_bytes-increment (kv.get g counter) in (n, rw e, lt)

  -- The bytes that the increment writes.
  pub increment_count :
      (g : T) (n : ℕ)
      → current_count kv g ≡ ok n
      → n + 1 < u64_mod
      → increment (kv.get g counter) ≡ to_be_bytes (n + 1)
  unfolding current_count increment
  increment_count g n h lt = elim (Option-cases (kv.get g counter)) [
    | inl e ↦ let zero_count : n ≡ 0 = ground arith in rw (e, increment, zero_count) refl
    | inr (b, e) ↦
        let read : u64_from_bytes b ≡ some n = ground arith in
        let small : (n + 1) % u64_mod ≡ n + 1 = omega arith in rw (e, increment, read, small) refl
  ]

  -- `next_count` returns one more than the current count, which is the current count afterwards, as
  -- long as the counter does not overflow.
  pub next_count_lem :
      (g : T) (n : ℕ)
      → current_count kv g ≡ ok n
      → n + 1 < u64_mod
      → ((next_count kv g).0 ≡ ok (n + 1)) × (current_count kv (next_count kv g).1 ≡ ok (n + 1))
  unfolding next_count current_count
  next_count_lem g n h lt =
      let bytes = increment (kv.get g counter) in
      let read : u64_from_bytes bytes ≡ some (n + 1) =
        rw (increment_count g n h lt) (u64_from_bytes-to_be_bytes (n + 1) lt) in
      (rw read refl, ground (arith, kv.get-insert g counter bytes counter, read))

  -- Bumping the schema version to a 64-bit number makes it the version that is read, and leaves the
  -- current count alone.
  pub database_version-bump :
      (g : T) (v : ℕ)
      → v < u64_mod
      → (database_version kv (bump_database_version kv g v) ≡ ok v)
        × (current_count kv (bump_database_version kv g v) ≡ current_count kv g)
  unfolding database_version bump_database_version current_count
  database_version-bump g v lt = (
    ground (
      arith,
      kv.get-insert g version_key (to_be_bytes v) version_key,
      u64_from_bytes-to_be_bytes v lt,
    ),
    ground (arith, kv.get-insert g version_key (to_be_bytes v) counter),
  )
