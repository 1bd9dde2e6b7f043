-- ===== src/Notifications.antt =====
-- src/database/key_value/rooms/user.rs: the counts of notifications of a user in a room. The tokens
-- of a sync and the rooms that users share are not modelled.
use Prim.Native.String.{String}
use matrix_server.Base.{ℕ, ◌+◌, ◌<◌, ◌≡◌, refl, Option, none, some, arith, ite}
use matrix_server.Base.Bytes.{
  Bytes, dec_bytes, u64_mod, to_be_bytes, u64_from_bytes, u64_from_bytes-to_be_bytes,
}
use matrix_server.Base.Keys.{◌⋄◌, IsText, join_injective}
use matrix_server.Base.Effect.{Result, ok, bad_database, ok_or, Exec, modify, ◌>>=◌, ◌>>◌}
use matrix_server.Storage.{KvTree}
use matrix_server.Globals.{next_count, current_count}
use matrix_server.Globals.Counting.{next_count_lem}

-- The tree `roomuserid_lastnotificationread` has no field of its own: src/database/mod.rs opens it
-- under the name `userroomid_highlightcount`, so that the two are one tree.
pub record CountDb (T : Type 0) : Type 0 where
  pub global : T
  pub userroomid_notificationcount : T
  pub userroomid_highlightcount : T

module _ {T : Type 0} (kv : KvTree T) where
  -- `services().globals.next_count()?`
  unfoldable pub count : Exec (CountDb T) ℕ
  count s = let (r, global') = next_count kv s.global in (r, record s { global = global' })

  -- The counts are reset before the counter is asked.
  unfoldable pub reset_notification_counts : Bytes → Bytes → Exec (CountDb T) (Unit {0})
  unfolding count
  reset_notification_counts user_id room_id = do
    modify (λ s. record s {
      userroomid_notificationcount =
          kv.insert s.userroomid_notificationcount (user_id ⋄ room_id) (to_be_bytes 0);
      userroomid_highlightcount =
          kv.insert s.userroomid_highlightcount (user_id ⋄ room_id) (to_be_bytes 0);
    })
    n ← count
    modify (λ s. record s {
      userroomid_highlightcount =
          kv.insert s.userroomid_highlightcount (room_id ⋄ user_id) (to_be_bytes n);
    })

  abbrev number_or_zero : Option Bytes → String → Result ℕ
  number_or_zero none message = ok 0
  number_or_zero (some bytes) message = ok_or (u64_from_bytes bytes) (bad_database message)

  unfoldable pub notification_count : Bytes → Bytes → CountDb T → Result ℕ
  notification_count user_id room_id s =
      number_or_zero (kv.get s.userroomid_notificationcount (user_id ⋄ room_id))
        "Invalid notification count in db."

  unfoldable pub highlight_count : Bytes → Bytes → CountDb T → Result ℕ
  highlight_count user_id room_id s =
      number_or_zero (kv.get s.userroomid_highlightcount (user_id ⋄ room_id))
        "Invalid highlight count in db."

  unfoldable pub last_notification_read : Bytes → Bytes → CountDb T → Result ℕ
  last_notification_read user_id room_id s =
      number_or_zero (kv.get s.userroomid_highlightcount (room_id ⋄ user_id))
        "Count in roomuserid_lastprivatereadupdate is invalid."

  -- A reading of the pair `a`, `b` in a tree in which the pair `x`, `y` was set to `new`.
  abbrev reset_to : (x y a b : Bytes) → Result ℕ → Result ℕ → Result ℕ
  reset_to x y a b new old = ite (dec_bytes x a) (ite (dec_bytes y b) new old) old

  -- The three readings after a reset.
  pub record WasReset (u r u' r' : Bytes) (n : ℕ) (s s' : CountDb T) : Type 0 where
    pub notifications :
        notification_count u' r' s' ≡ reset_to u r u' r' (ok 0) (notification_count u' r' s)
    pub highlights :
        highlight_count u' r' s'
        ≡ reset_to r u u' r' (ok (n + 1)) (reset_to u r u' r' (ok 0) (highlight_count u' r' s))
    pub last_read :
        last_notification_read u' r' s'
        ≡ reset_to r u r' u'
            (ok (n + 1))
            (reset_to u r r' u' (ok 0) (last_notification_read u' r' s))

  -- `reset_notification_counts` of a user and a room succeeds; the notifications of that user in
  -- that room read zero after it, and those of any other user or room are as before. The highlights
  -- and the last notification read are kept in one tree, which the highlights read at user and room
  -- and the last notification read at room and user: of two ids read in that order, (room, user)
  -- reads the next count, any other pair that is (user, room) reads zero, and all others read as
  -- before, through either of the two functions. The ids have no separator byte, and the counter
  -- has room.
  pub reset_notification_counts_lem :
      (u r u' r' : Bytes) (n : ℕ) (s : CountDb T)
      → IsText u
      → IsText u'
      → IsText r
      → IsText r'
      → current_count kv s.global ≡ ok n
      → n + 1 < u64_mod
      → (s' : CountDb T) × (reset_notification_counts u r s ≡ (ok tt, s'))
        × WasReset u r u' r' n s s'
  unfolding reset_notification_counts count notification_count highlight_count
      last_notification_read
  reset_notification_counts_lem u r u' r' n s tu tu' tr tr' c room =
      let zero_read = u64_from_bytes-to_be_bytes 0 (omega arith) in
      let count_read = u64_from_bytes-to_be_bytes (n + 1) room in
      let zeroed = kv.insert s.userroomid_highlightcount (u ⋄ r) (to_be_bytes 0) in
      (
        record s {
          global = (next_count kv s.global).1;
          userroomid_notificationcount =
              kv.insert s.userroomid_notificationcount (u ⋄ r) (to_be_bytes 0);
          userroomid_highlightcount = kv.insert zeroed (r ⋄ u) (to_be_bytes (n + 1));
        },
        rw ((next_count_lem kv s.global n c room).0) refl,
        record {
          notifications = ground (
            arith,
            kv.get-insert s.userroomid_notificationcount (u ⋄ r) (to_be_bytes 0) (u' ⋄ r'),
            join_injective u u' r r' tu tu',
            zero_read,
          );
          highlights = ground (
            arith,
            kv.get-insert zeroed (r ⋄ u) (to_be_bytes (n + 1)) (u' ⋄ r'),
            kv.get-insert s.userroomid_highlightcount (u ⋄ r) (to_be_bytes 0) (u' ⋄ r'),
            join_injective u u' r r' tu tu',
            join_injective r u' u r' tr tu',
            zero_read,
            count_read,
          );
          last_read = ground (
            arith,
            kv.get-insert zeroed (r ⋄ u) (to_be_bytes (n + 1)) (r' ⋄ u'),
            kv.get-insert s.userroomid_highlightcount (u ⋄ r) (to_be_bytes 0) (r' ⋄ u'),
            join_injective u r' r u' tu tr',
            join_injective r r' u u' tr tr',
            zero_read,
            count_read,
          );
        },
      )
