-- ===== src/Users/ToDevice.antt =====
-- src/database/key_value/users.rs: messages to devices.
use matrix_server.Base.{
  ℕ, ◌-◌, true, none, some, List, [], ◌∷◌, ◌++◌, if◌then◌else◌, ltb, leb, length, drop,
}
use matrix_server.Base.Bytes.{Bytes, to_be_bytes, u64_from_bytes, starts_with}
use matrix_server.Base.Keys.{◌⋄◌}
use matrix_server.Base.Effect.{
  Result, ok, err, bad_database, panicked, map_ok, and_then, ok_or, Exec, modify, ◌>>=◌,
}
use matrix_server.Storage.{KvTree, Entries}
use matrix_server.Json.{Json}
use matrix_server.Users.{UserDb, Names, draw_count}

-- The keys of a device's messages, without their count.
abbrev pub device_prefix : Bytes → Bytes → Bytes
device_prefix user_id device_id = user_id ⋄ device_id ⋄ []

module _ {T E : Type 0} (kv : KvTree T) (names : Names) (events : Json E) where
  abbrev Db : Type 0
  Db = UserDb T

  -- `event` is the object of the type, the sender and the content.
  unfoldable pub add_to_device_event : Bytes → Bytes → E → Exec Db (Unit {0})
  unfolding draw_count
  add_to_device_event target_user_id target_device_id event = do
    n ← draw_count kv names
    modify (λ s. record s {
      todeviceid_events =
          kv.insert s.todeviceid_events (target_user_id ⋄ target_device_id ⋄ to_be_bytes n)
            (events.to_vec event);
    })

  unfoldable pub collect_events : Entries → Result (List E)
  collect_events [] = ok []
  collect_events ((_, value) ∷ rest) =
      and_then
        (ok_or (events.from_slice value) (bad_database "Event in todeviceid_events is invalid."))
        (λ e. map_ok (λ more. e ∷ more) (collect_events rest))

  unfoldable pub get_to_device_events : Bytes → Bytes → Db → Result (List E)
  unfolding collect_events
  get_to_device_events user_id device_id s =
      collect_events (kv.scan_prefix s.todeviceid_events (device_prefix user_id device_id))

  -- The loop of `remove_to_device_events`. A key shorter than eight bytes makes the slicing panic;
  -- a key whose end is no count would be left out.
  unfoldable pub remove_until : Bytes → ℕ → Entries → T → Result (Unit {0}) × T
  remove_until prefix until [] t = (ok tt, t)
  remove_until prefix until ((key, _) ∷ rest) t =
      let skipped = remove_until prefix until rest t in
      let removed = remove_until prefix until rest (kv.remove t key) in
      if starts_with prefix key
      then if ltb (length key) 8
        then (err panicked, t)
        else (elim (u64_from_bytes (drop (length key - 8) key)) [
          | none ↦ skipped
          | some count ↦ if leb count until then removed else (ok tt, t)
        ])
      else (ok tt, t)

  unfoldable pub remove_to_device_events : Bytes → Bytes → ℕ → Exec Db (Unit {0})
  unfolding remove_until
  remove_to_device_events user_id device_id until s =
      let prefix = device_prefix user_id device_id in
      let last = prefix ++ to_be_bytes until in
      let (r, t) =
        remove_until prefix until (kv.iter_from s.todeviceid_events last true)
          s.todeviceid_events in
      (r, record s { todeviceid_events = t })
