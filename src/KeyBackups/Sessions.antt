-- ===== src/KeyBackups/Sessions.antt =====
-- Writing backups and session keys, and reading them back (src/database/key_value/key_backups.rs).
use matrix_server.Base.{
  ap, ◌∙◌, Option-cases, inl, inr, ℕ, ◌+◌, ◌<◌, ◌≡◌, refl, Bool, Option, none, some, [], ◌∷◌, ◌++◌,
  arith, ite, length, if◌then◌else◌,
}
use matrix_server.Base.Bytes.{
  Bytes, dec_bytes, u64_mod, to_string, to_be_bytes, u64_from_bytes-to_be_bytes,
}
use matrix_server.Base.Keys.{starts_with-longer, ◌⋄◌, IsText, join_injective}
use matrix_server.Base.Effect.{Result, ok}
use matrix_server.Storage.{KvTree, Entries, lookup}
use matrix_server.Globals.{next_count, current_count}
use matrix_server.Globals.Counting.{next_count_lem}
use matrix_server.Json.{RawJson}
use matrix_server.KeyBackups.{
  BackupDb, count, new_etag, create_backup, add_key, get_session, get_backup, get_etag, count_keys,
}

module _ {T A K : Type 0} (kv : KvTree T) (algorithms : RawJson A) (keys : RawJson K)
    (is_utf8 is_room_id : Bytes → Bool) where
  abbrev backup : Bytes → Bytes → BackupDb T → Result (Option A)
  backup = get_backup kv algorithms keys is_utf8 is_room_id

  abbrev session : Bytes → Bytes → Bytes → Bytes → BackupDb T → Result (Option K)
  session = get_session kv algorithms keys is_utf8 is_room_id

  abbrev etag : Bytes → Bytes → BackupDb T → Result Bytes
  etag = get_etag kv algorithms keys is_utf8 is_room_id

  -- The state after `new_etag`, with the counter at `n` before.
  abbrev etagged : Bytes → ℕ → BackupDb T → BackupDb T
  etagged key n s = record s {
    global = (next_count kv s.global).1;
    backupid_etag = kv.insert s.backupid_etag key (to_be_bytes (n + 1));
  }

  count_lem :
      (n : ℕ) (s : BackupDb T)
      → current_count kv s.global ≡ ok n
      → n + 1 < u64_mod
      → count kv algorithms keys is_utf8 is_room_id s
        ≡ (ok (n + 1), record s { global = (next_count kv s.global).1 })
  unfolding count
  count_lem n s c room = ground (arith, next_count_lem kv s.global n c room)

  new_etag_lem :
      (key : Bytes) (n : ℕ) (s : BackupDb T)
      → current_count kv s.global ≡ ok n
      → n + 1 < u64_mod
      → new_etag kv algorithms keys is_utf8 is_room_id key s ≡ (ok tt, etagged key n s)
  unfolding new_etag
  new_etag_lem key n s c room = ground (arith, next_count_lem kv s.global n c room)

  etag_lem :
      (u v : Bytes) (m : ℕ) (t : T) (s : BackupDb T)
      → m < u64_mod
      → etag u v (record s { backupid_etag = kv.insert t (u ⋄ v) (to_be_bytes m) })
        ≡ ok (to_string m)
  unfolding get_etag
  etag_lem u v m t s lt =
      ground
        (arith, kv.get-insert t (u ⋄ v) (to_be_bytes m) (u ⋄ v), u64_from_bytes-to_be_bytes m lt)

  -- What holds after a session key was added: it is read back, any session `u'`, `v'`, `r'`,
  -- `sid'` but this one is as before, the etag is the new count, and the backups are as before.
  pub record Added (u v r sid u' v' r' sid' : Bytes) (k : K) (n : ℕ) (s s' : BackupDb T)
      : Type 0 where
    pub sessions :
        session u' v' r' sid' s'
        ≡ ite
            (dec_bytes u u')
            (ite
              (dec_bytes v v')
              (ite
                (dec_bytes r r')
                (ite (dec_bytes sid sid') (ok (some k)) (session u' v' r' sid' s))
                (session u' v' r' sid' s))
              (session u' v' r' sid' s))
            (session u' v' r' sid' s)
    pub new_tag : etag u v s' ≡ ok (to_string (n + 1))
    pub backups : (x y : Bytes) → backup x y s' ≡ backup x y s

  abbrev after_add : Bytes → Bytes → Bytes → Bytes → K → ℕ → BackupDb T → BackupDb T
  after_add u v r sid k n s = record (etagged (u ⋄ v) n s) {
    backupkeyid_backup = kv.insert s.backupkeyid_backup (u ⋄ v ⋄ r ⋄ sid) (keys.json_text k);
  }

  -- `add_key` to an existing backup succeeds: the session is read back, any other session and every
  -- backup are as before, and the etag of the backup is the next count. Users, versions and rooms
  -- have no separator byte, and the counter has room.
  pub add_key_lem :
      (u v r sid u' v' r' sid' : Bytes) (k : K) (n : ℕ) (s : BackupDb T) (b : Bytes)
      → IsText u
      → IsText v
      → IsText r
      → IsText u'
      → IsText v'
      → IsText r'
      → current_count kv s.global ≡ ok n
      → n + 1 < u64_mod
      → kv.get s.backupid_algorithm (u ⋄ v) ≡ some b
      → (s' : BackupDb T) × (add_key kv algorithms keys is_utf8 is_room_id u v r sid k s
          ≡ (ok tt, s'))
        × Added u v r sid u' v' r' sid' k n s s'
  unfolding add_key
  add_key_lem u v r sid u' v' r' sid' k n s b tu tv tr tu' tv' tr' c room exists =
      let s' = after_add u v r sid k n s in
      (
        s',
        ground (arith, new_etag_lem (u ⋄ v) n s c room),
        record {
          sessions =
              unfold get_session in
              ground (
                arith,
                kv.get-insert s.backupkeyid_backup (u ⋄ v ⋄ r ⋄ sid) (keys.json_text k)
                    (u' ⋄ v' ⋄ r' ⋄ sid'),
                join_injective u u' (v ⋄ r ⋄ sid) (v' ⋄ r' ⋄ sid') tu tu',
                join_injective v v' (r ⋄ sid) (r' ⋄ sid') tv tv',
                join_injective r r' sid sid' tr tr',
                keys.from_slice-json_text k,
              );
          new_tag = etag_lem u v (n + 1) s.backupid_etag s' room;
          backups = λ x y. unfold get_backup in refl;
        },
      )

  -- What `get_backup` reads from the text of a metadata.
  abbrev readable : A → Option A
  readable a = if algorithms.is_null (algorithms.to_vec a) then none else some a

  -- What holds after a backup was created under the returned version: it is read back unless its
  -- metadata is JSON `null`, any backup `u'`, `v'` but this one is as before, its etag is the count
  -- after the version, and the sessions are as before.
  pub record Created (u version u' v' : Bytes) (a : A) (n : ℕ) (s s' : BackupDb T) : Type 0 where
    pub backups :
        backup u' v' s'
        ≡ ite
            (dec_bytes u u')
            (ite (dec_bytes version v') (ok (readable a)) (backup u' v' s))
            (backup u' v' s)
    pub new_tag : etag u version s' ≡ ok (to_string (n + 2))
    pub sessions : (x y r sid : Bytes) → session x y r sid s' ≡ session x y r sid s

  -- `create_backup` returns the next count as the version: the backup is read back under it, or
  -- none if its metadata is JSON `null`; any other backup and every session are as before, and its
  -- etag is the count after that. Users have no separator byte, and the counter has room for two
  -- steps.
  pub create_backup_lem :
      (u u' v' : Bytes) (a : A) (n : ℕ) (s : BackupDb T)
      → IsText u
      → IsText u'
      → current_count kv s.global ≡ ok n
      → n + 2 < u64_mod
      → (s' : BackupDb T) × (create_backup kv algorithms keys is_utf8 is_room_id u a s
          ≡ (ok (to_string (n + 1)), s'))
        × Created u (to_string (n + 1)) u' v' a n s s'
  unfolding create_backup
  create_backup_lem u u' v' a n s tu tu' c room =
      let version = to_string (n + 1) in
      let first = next_count_lem kv s.global n c (omega arith) in
      let two : n + 1 + 1 ≡ n + 2 = omega arith in
      let mid : BackupDb T = record s {
        global = (next_count kv s.global).1;
        backupid_algorithm = kv.insert s.backupid_algorithm (u ⋄ version) (algorithms.to_vec a);
      } in
      let s' = etagged (u ⋄ version) (n + 1) mid in
      (
        s',
        rw
            (
              count_lem n s c (omega arith),
              new_etag_lem (u ⋄ version) (n + 1) mid first.1 (omega arith),
            )
            refl,
        record {
          backups =
              unfold get_backup in
              ground (
                arith,
                kv.get-insert s.backupid_algorithm (u ⋄ version) (algorithms.to_vec a) (u' ⋄ v'),
                join_injective u u' version v' tu tu',
                algorithms.from_slice-to_vec a,
                algorithms.from_slice_option_lem (algorithms.to_vec a),
              );
          new_tag =
              etag_lem u version (n + 1 + 1) s.backupid_etag s' (omega arith)
              ∙ ap (λ (m : ℕ). ok (to_string m)) two;
          sessions = λ x y r sid. unfold get_session in refl;
        },
      )

  nonempty_of_lookup : (j : Bytes) (es : Entries) (b : Bytes) → lookup j es ≡ some b → 0 < length es
  unfolding lookup
  nonempty_of_lookup j [] b h = cc
  nonempty_of_lookup j (e ∷ es) b h = omega arith

  -- `count_keys` of a version is positive as soon as there is a session in a backup whose version
  -- begins with that version, whether or not the version itself has any.
  pub count_keys-longer_version :
      (u v w r sid : Bytes) (s : BackupDb T) (k : K)
      → session u (v ++ w) r sid s ≡ ok (some k)
      → 0 < count_keys kv algorithms keys is_utf8 is_room_id u v s
  unfolding count_keys get_session
  count_keys-longer_version u v w r sid s k h =
      let key = u ⋄ (v ++ w) ⋄ r ⋄ sid in
      let found = kv.lookup-scan_prefix s.backupkeyid_backup (u ⋄ v) key in
      elim (Option-cases (kv.get s.backupkeyid_backup key)) [
        | inl absent ↦ absurd (ground arith)
        | inr (b, present) ↦
            nonempty_of_lookup key (kv.scan_prefix s.backupkeyid_backup (u ⋄ v)) b
              (ground (arith, found, starts_with-longer u v w (r ⋄ sid)))
      ]
