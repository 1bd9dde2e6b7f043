-- ===== src/Aliases.antt =====
-- src/database/key_value/rooms/alias.rs and src/database/key_value/rooms/directory.rs: the aliases of
-- rooms, and the list of public rooms.
pub mod Resolving
use matrix_server.Base.{ℕ, Bool, true, false, Option, none, some, List, [], ◌∷◌, is_some}
use matrix_server.Base.Bytes.{Bytes, to_be_bytes}
use matrix_server.Base.Keys.{◌⋄◌}
use matrix_server.Base.Effect.{
  Result, ok, err, bad_database, bad_request, not_found, and_then, map_ok, Exec, Error, modify,
  ◌>>=◌, ◌>>◌,
}
use matrix_server.Storage.{KvTree, Entries, remove_prefix}
use matrix_server.Globals.{next_count}
use matrix_server.Users.{checked, optional}

pub record AliasDb (T : Type 0) : Type 0 where
  pub global : T
  pub alias_roomid : T
  pub aliasid_alias : T
  pub publicroomids : T

-- What the crate `ruma` knows of aliases: `alias.alias()` is the part between `#` and `:`.
pub record AliasNames : Type 0 where
  pub is_utf8 : Bytes → Bool
  pub is_room_id : Bytes → Bool
  pub is_alias : Bytes → Bool
  pub localpart : Bytes → Bytes

abbrev pub unknown_alias : Error
unknown_alias = bad_request not_found "Alias does not exist."

unfoldable pub parse_aliases : AliasNames → Entries → List (Result Bytes)
parse_aliases names [] = []
parse_aliases names ((_, bytes) ∷ rest) =
    and_then (checked names.is_utf8 "Invalid alias bytes in aliasid_alias." bytes)
      (checked names.is_alias "Invalid alias in aliasid_alias.")
    ∷ parse_aliases names rest

unfoldable pub parse_rooms : AliasNames → Entries → List (Result Bytes)
parse_rooms names [] = []
parse_rooms names ((bytes, _) ∷ rest) =
    and_then (checked names.is_utf8 "Room ID in publicroomids is invalid unicode." bytes)
      (checked names.is_room_id "Room ID in publicroomids is invalid.")
    ∷ parse_rooms names rest

module _ {T : Type 0} (kv : KvTree T) (names : AliasNames) where
  abbrev Db : Type 0
  Db = AliasDb T

  -- `services().globals.next_count()?`
  unfoldable pub draw : Exec Db ℕ
  draw s = let (r, global') = next_count kv s.global in (r, record s { global = global' })

  unfoldable pub set_alias : Bytes → Bytes → Exec Db (Unit {0})
  unfolding draw
  set_alias alias room_id = do
    modify
        (λ s. record s { alias_roomid = kv.insert s.alias_roomid (names.localpart alias) room_id })
    n ← draw
    modify (λ s. record s {
      aliasid_alias = kv.insert s.aliasid_alias (room_id ⋄ to_be_bytes n) alias;
    })

  unfoldable pub remove_alias : Bytes → Exec Db (Unit {0})
  unfolding remove_prefix
  remove_alias alias s = elim (kv.get s.alias_roomid (names.localpart alias)) [
    | some room_id ↦ (
      ok tt,
      record s {
        aliasid_alias = remove_prefix kv s.aliasid_alias (room_id ⋄ []);
        alias_roomid = kv.remove s.alias_roomid (names.localpart alias);
      },
    )
    | none ↦ (err unknown_alias, s)
  ]

  unfoldable pub resolve_local_alias : Bytes → Db → Result (Option Bytes)
  resolve_local_alias alias s = optional (kv.get s.alias_roomid (names.localpart alias)) (λ bytes.
      and_then (checked names.is_utf8 "Room ID in alias_roomid is invalid unicode." bytes)
        (checked names.is_room_id "Room ID in alias_roomid is invalid."))

  unfoldable pub local_aliases_for_room : Bytes → Db → List (Result Bytes)
  unfolding parse_aliases
  local_aliases_for_room room_id s =
      parse_aliases names (kv.scan_prefix s.aliasid_alias (room_id ⋄ []))

  unfoldable pub set_public : Bytes → Db → Db
  set_public room_id s = record s { publicroomids = kv.insert s.publicroomids room_id [] }

  unfoldable pub set_not_public : Bytes → Db → Db
  set_not_public room_id s = record s { publicroomids = kv.remove s.publicroomids room_id }

  unfoldable pub is_public_room : Bytes → Db → Bool
  is_public_room room_id s = is_some (kv.get s.publicroomids room_id)

  -- The iteration over a whole tree is the scan of the empty prefix.
  unfoldable pub public_rooms : Db → List (Result Bytes)
  unfolding parse_rooms
  public_rooms s = parse_rooms names (kv.scan_prefix s.publicroomids [])
