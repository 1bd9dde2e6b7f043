-- ===== src/KeyBackups/Latest.antt =====
-- The latest backup is the one whose version is the last in the order of bytes
-- (src/database/key_value/key_backups.rs, `get_latest_backup_version`).
use matrix_server.Base.{
  ◌-◌, ◌≡◌, is_some, sym, ap, ◌∙◌, Bool, true, some, [], ◌∷◌, ◌++◌, arith, append_assoc,
}
use matrix_server.Base.Bytes.{
  Bytes, dec_bytes, to_be_bytes, u64_mod, starts_with, starts_with-append,
}
use matrix_server.Base.Keys.{◌⋄◌, IsText, separator, last_part, last_part-join}
use matrix_server.Base.Order.{le_bytes, le_bytes_refl, le_bytes-append, starts_with_between}
use matrix_server.Base.Effect.{ok}
use matrix_server.Json.{RawJson}
use matrix_server.Storage.{KvTree, Entries, lookup, IsFirst, IsOrdered}
use matrix_server.KeyBackups.{BackupDb, first_below, latest_entry, get_latest_backup_version}

module _ {T A K : Type 0} (kv : KvTree T) (algorithms : RawJson A) (keys : RawJson K)
    (is_utf8 is_room_id : Bytes → Bool) where
  below-append : (u v : Bytes) → (u ⋄ []) ++ v ≡ u ⋄ v
  below-append u v = append_assoc u (separator ∷ []) v

  le_bytes_part : (u v w : Bytes) → le_bytes (u ⋄ v) (u ⋄ w) ≡ le_bytes v w
  le_bytes_part u v w = rw (← below-append u v, ← below-append u w) (le_bytes-append (u ⋄ []) v w)

  lookup-IsFirst :
      (k j : Bytes) (l : Entries) (v : Bytes)
      → IsFirst true k l
      → lookup j l ≡ some v
      → le_bytes j k ≡ true
  unfolding lookup
  lookup-IsFirst k j [] v f e = absurd (ground arith)
  lookup-IsFirst k j ((i, w) ∷ l) v f e = ground (arith, lookup-IsFirst k j l v f.1, f.0)

  -- The first key of a backward listing that holds a key below the prefix.
  first_below_lem :
      (p x j v : Bytes) (l : Entries)
      → IsOrdered true l
      → starts_with p j ≡ true
      → lookup j l ≡ some v
      → ((i w : Bytes) → lookup i l ≡ some w → le_bytes i (p ++ x) ≡ true)
      → (k w : Bytes) × (first_below kv algorithms keys is_utf8 is_room_id p l ≡ some (k, w))
        × (le_bytes j k ≡ true)
        × (starts_with p k ≡ true)
        × (lookup k l ≡ some w)
  unfolding lookup first_below
  first_below_lem p x j v [] o below e until = absurd (ground arith)
  first_below_lem p x j v ((k, w) ∷ l) o below e until =
      let behind : le_bytes j k ≡ true = elim (dec_bytes k j) [
        | yes same ↦ ap (λ y. le_bytes y k) (sym same) ∙ le_bytes_refl k
        | no other ↦ lookup-IsFirst k j l v o.0 (ground arith)
      ] in
      let here = starts_with_between p x j k below behind (until k w (ground arith)) in
      (k, w, ground arith, behind, here, ground arith)

  -- What the database holds below a user are backups of the user.
  abbrev pub AreBackups : Bytes → BackupDb T → Type 0
  AreBackups u s =
      (k value : Bytes)
      → kv.get s.backupid_algorithm k ≡ some value
      → starts_with (u ⋄ []) k ≡ true
      → (w : Bytes) × IsText w × (is_utf8 w ≡ true) × (k ≡ u ⋄ w)

  latest_of_entry :
      (u k w value : Bytes) (s : BackupDb T)
      → latest_entry kv algorithms keys is_utf8 is_room_id u s ≡ some (k, value)
      → k ≡ u ⋄ w
      → IsText w
      → is_utf8 w ≡ true
      → get_latest_backup_version kv algorithms keys is_utf8 is_room_id u s ≡ ok (some w)
  unfolding get_latest_backup_version
  latest_of_entry u k w value s run same text utf8 =
      let part : last_part k ≡ w = ap last_part same ∙ last_part-join u w text in
      ground (arith, run, part, utf8)

  -- `get_latest_backup_version` returns a version of the user that is stored and is not before any
  -- stored version of the user in the order of bytes. It assumes that what is stored below the user
  -- are versions that are texts without the byte 0xff, and that the given version is not behind
  -- eight bytes 0xff.
  pub get_latest_backup_version_lem :
      (u v value : Bytes) (s : BackupDb T)
      → AreBackups u s
      → kv.get s.backupid_algorithm (u ⋄ v) ≡ some value
      → le_bytes v (to_be_bytes (u64_mod - 1)) ≡ true
      → (w : Bytes) × (get_latest_backup_version kv algorithms keys is_utf8 is_room_id u s
          ≡ ok (some w))
        × (le_bytes v w ≡ true)
        × (is_some (kv.get s.backupid_algorithm (u ⋄ w)) ≡ true)
  unfolding latest_entry
  get_latest_backup_version_lem u v value s backups stored low =
      let t = s.backupid_algorithm in
      let last = to_be_bytes (u64_mod - 1) in
      let p = u ⋄ [] in
      let es = kv.iter_from t (p ++ last) true in
      let in_range : le_bytes (u ⋄ v) (p ++ last) ≡ true =
        rw (below-append u last) (le_bytes_part u v last ∙ low) in
      let below : starts_with p (u ⋄ v) ≡ true = rw (← below-append u v) (starts_with-append p v) in
      let (k, x, run, le, here, found) =
        first_below_lem p last (u ⋄ v) value es (kv.iter_from-IsOrdered t (p ++ last) true) below
          (ground (arith, kv.lookup-iter_from t (p ++ last) true (u ⋄ v), in_range, stored))
          (λ i w e. ground (arith, kv.lookup-iter_from t (p ++ last) true i)) in
      let kept : kv.get t k ≡ some x =
        ground (arith, kv.lookup-iter_from t (p ++ last) true k, found) in
      let (w, text, utf8, same) = backups k x kept here in
      (
        w,
        latest_of_entry u k w x s run same text utf8,
        sym (le_bytes_part u v w) ∙ ap (le_bytes (u ⋄ v)) (sym same) ∙ le,
        ap is_some (ap (kv.get t) (sym same) ∙ kept),
      )
