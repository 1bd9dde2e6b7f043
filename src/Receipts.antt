-- ===== src/Receipts.antt =====
-- src/database/key_value/rooms/edus/read_receipt.rs: read receipts and private read markers.
pub mod Updating
use matrix_server.Base.{
  ℕ, ◌-◌, ◌+◌, ◌%◌, Bool, true, false, Option, none, some, List, [], ◌∷◌, ◌++◌, if◌then◌else◌, ite,
  ltb, length, take, drop,
}
use matrix_server.Base.Bytes.{Bytes, dec_bytes, to_be_bytes, u64_from_bytes, u64_mod, starts_with}
use matrix_server.Base.Keys.{◌⋄◌, last_part}
use matrix_server.Base.Effect.{
  Result, ok, err, bad_database, panicked, and_then, map_ok, ok_or, Exec, modify, ◌>>=◌, ◌>>◌,
}
use matrix_server.Storage.{KvTree, Entries}
use matrix_server.Json.{Json}
use matrix_server.Globals.{next_count}
use matrix_server.Users.{Names, checked, optional}

pub record ReceiptDb (T : Type 0) : Type 0 where
  pub global : T
  pub readreceiptid_readreceipt : T
  pub roomuserid_privateread : T
  pub roomuserid_lastprivatereadupdate : T

-- `take_while(|(key, _)| key.starts_with(&prefix)).find(..)`: the first key of the user.
unfoldable pub find_old : Bytes → Bytes → Entries → Option Bytes
find_old prefix user_id [] = none
find_old prefix user_id ((key, _) ∷ rest) =
    let later = find_old prefix user_id rest in
    if starts_with prefix key
    then ite (dec_bytes (last_part key) user_id) (some key) later
    else none

-- A receipt: the user, the count and the content. `strip_room` reads a JSON object and takes out its
-- room id. A key that is too short makes the slicing panic.
unfoldable pub parse_receipt :
    {E : Type 0} → Names → (Bytes → Option E) → ℕ → Bytes → Bytes → Result (Bytes × (ℕ × E))
parse_receipt names strip_room n k v =
    if ltb (length k) (n + 8)
    then err panicked
    else and_then
        (ok_or (u64_from_bytes (take 8 (drop n k)))
          (bad_database "Invalid readreceiptid count in db."))
        (λ count.
          if ltb (length k) (n + 9)
          then err panicked
          else and_then
              (checked names.is_utf8 "Invalid readreceiptid userid bytes in db." (drop (n + 9) k))
              (λ text.
                and_then (checked names.is_user_id "Invalid readreceiptid userid in db." text)
                  (λ user_id.
                    map_ok (λ json. (user_id, (count, json)))
                      (ok_or (strip_room v) (
                        bad_database "Read receipt in roomlatestid_roomlatest is invalid json.")))))

unfoldable pub take_receipts :
    {E : Type 0} → Names → (Bytes → Option E) → Bytes → Entries → List (Result (Bytes × (ℕ × E)))
unfolding parse_receipt
take_receipts names strip_room prefix [] = []
take_receipts names strip_room prefix ((k, v) ∷ rest) =
    let more = take_receipts names strip_room prefix rest in
    if starts_with prefix k then parse_receipt names strip_room (length prefix) k v ∷ more else []

module _ {T E : Type 0} (kv : KvTree T) (events : Json E) where
  abbrev Db : Type 0
  Db = ReceiptDb T

  -- `services().globals.next_count()?`
  unfoldable pub draw_next : Exec Db ℕ
  draw_next s = let (r, global') = next_count kv s.global in (r, record s { global = global' })

  abbrev pub remove_old : Option Bytes → T → T
  remove_old none t = t
  remove_old (some old) t = kv.remove t old

  unfoldable pub old_receipt : Bytes → Bytes → T → Option Bytes
  unfolding find_old
  old_receipt user_id room_id t =
      find_old (room_id ⋄ []) user_id
        (kv.iter_from t ((room_id ⋄ []) ++ to_be_bytes (u64_mod - 1)) true)

  unfoldable pub readreceipt_update : Bytes → Bytes → E → Exec Db (Unit {0})
  unfolding old_receipt draw_next
  readreceipt_update user_id room_id event = do
    modify (λ s. record s {
      readreceiptid_readreceipt =
          remove_old (old_receipt user_id room_id s.readreceiptid_readreceipt)
            s.readreceiptid_readreceipt;
    })
    n ← draw_next
    modify (λ s. record s {
      readreceiptid_readreceipt =
          kv.insert s.readreceiptid_readreceipt (room_id ⋄ to_be_bytes n ⋄ user_id)
            (events.to_vec event);
    })

  -- `since + 1` wraps around.
  unfoldable pub readreceipts_since :
      Names → (Bytes → Option E) → Bytes → ℕ → Db → List (Result (Bytes × (ℕ × E)))
  unfolding take_receipts
  readreceipts_since names strip_room room_id since s =
      take_receipts names strip_room (room_id ⋄ []) (
        kv.iter_from s.readreceiptid_readreceipt
          ((room_id ⋄ []) ++ to_be_bytes ((since + 1) % u64_mod)) false)

  unfoldable pub private_read_set : Bytes → Bytes → ℕ → Exec Db (Unit {0})
  unfolding draw_next
  private_read_set room_id user_id count = do
    modify (λ s. record s {
      roomuserid_privateread =
          kv.insert s.roomuserid_privateread (room_id ⋄ user_id) (to_be_bytes count);
    })
    n ← draw_next
    modify (λ s. record s {
      roomuserid_lastprivatereadupdate =
          kv.insert s.roomuserid_lastprivatereadupdate (room_id ⋄ user_id) (to_be_bytes n);
    })

  unfoldable pub private_read_get : Bytes → Bytes → Db → Result (Option ℕ)
  private_read_get room_id user_id s =
      optional (kv.get s.roomuserid_privateread (room_id ⋄ user_id))
        (λ v. ok_or (u64_from_bytes v) (bad_database "Invalid private read marker bytes"))

  unfoldable pub last_privateread_update : Bytes → Bytes → Db → Result ℕ
  last_privateread_update user_id room_id s =
      elim (kv.get s.roomuserid_lastprivatereadupdate (room_id ⋄ user_id)) [
        | none ↦ ok 0
        | some bytes ↦
            ok_or (u64_from_bytes bytes)
              (bad_database "Count in roomuserid_lastprivatereadupdate is invalid.")
      ]
