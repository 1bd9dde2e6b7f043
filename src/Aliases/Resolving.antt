-- ===== src/Aliases/Resolving.antt =====
-- What an alias resolves to after it was set or removed, and what its room lists
-- (src/database/key_value/rooms/alias.rs).
use matrix_server.Base.{ℕ, ◌≡◌, refl, ap, true, none, some, [], ◌∷◌, arith, ite}
use matrix_server.Base.Bytes.{Bytes, dec_bytes, to_be_bytes}
use matrix_server.Base.Keys.{◌⋄◌}
use matrix_server.Base.Effect.{ok}
use matrix_server.Storage.{KvTree, Entries, lookup, remove_prefix, get-remove_prefix}
use matrix_server.Globals.{next_count}
use matrix_server.Globals.Counting.{next_count-ok}
use matrix_server.Aliases.{
  AliasDb, AliasNames, set_alias, remove_alias, resolve_local_alias, local_aliases_for_room,
  parse_aliases, draw,
}

nothing_found : (es : Entries) → ((j : Bytes) → lookup j es ≡ none) → es ≡ []
unfolding lookup
nothing_found [] h = refl
nothing_found ((k, v) ∷ es) h = absurd (ground (arith, h k))

module _ {T : Type 0} (kv : KvTree T) (names : AliasNames) where
  -- `set_alias` makes the alias resolve to the room and adds one entry to the list of aliases.
  pub set_alias_lem :
      (a a' r : Bytes) (s : AliasDb T)
      → names.is_utf8 r ≡ true
      → names.is_room_id r ≡ true
      → (s' : AliasDb T) × (n : ℕ) × (set_alias kv names a r s ≡ (ok tt, s'))
        × (resolve_local_alias kv names a' s'
            ≡ ite
                (dec_bytes (names.localpart a) (names.localpart a'))
                (ok (some r))
                (resolve_local_alias kv names a' s))
        × ((j : Bytes)
            → kv.get s'.aliasid_alias j
              ≡ ite (dec_bytes (r ⋄ to_be_bytes n) j) (some a) (kv.get s.aliasid_alias j))
  unfolding set_alias resolve_local_alias draw
  set_alias_lem a a' r s utf8 valid =
      let (n, e, _) = next_count-ok kv s.global in
      (
        record s {
          global = (next_count kv s.global).1;
          alias_roomid = kv.insert s.alias_roomid (names.localpart a) r;
          aliasid_alias = kv.insert s.aliasid_alias (r ⋄ to_be_bytes n) a;
        },
        n,
        rw e refl,
        ground (
          arith,
          kv.get-insert s.alias_roomid (names.localpart a) r (names.localpart a'),
          utf8,
          valid,
        ),
        λ j. kv.get-insert s.aliasid_alias (r ⋄ to_be_bytes n) a j,
      )

  -- `remove_alias` of an alias that is known returns; afterwards the alias resolves to nothing,
  -- every alias with another local part resolves to what it did before, and the list of aliases of
  -- its room is empty, even if other aliases resolve to the room.
  pub remove_alias_lem :
      (a a' r : Bytes) (s : AliasDb T)
      → kv.get s.alias_roomid (names.localpart a) ≡ some r
      → (s' : AliasDb T) × (remove_alias kv names a s ≡ (ok tt, s'))
        × (resolve_local_alias kv names a' s'
            ≡ ite
                (dec_bytes (names.localpart a) (names.localpart a'))
                (ok none)
                (resolve_local_alias kv names a' s))
        × (local_aliases_for_room kv names r s' ≡ [])
  unfolding remove_alias resolve_local_alias local_aliases_for_room parse_aliases
  remove_alias_lem a a' r s found =
      let t = remove_prefix kv s.aliasid_alias (r ⋄ []) in
      let gone : kv.scan_prefix t (r ⋄ []) ≡ [] = nothing_found (kv.scan_prefix t (r ⋄ [])) (λ j.
        ground (
          arith,
          kv.lookup-scan_prefix t (r ⋄ []) j,
          get-remove_prefix kv s.aliasid_alias (r ⋄ []) j,
        )) in
      (
        record s { aliasid_alias = t; alias_roomid = kv.remove s.alias_roomid (names.localpart a) },
        ground (arith, found),
        ground (arith, kv.get-remove s.alias_roomid (names.localpart a) (names.localpart a')),
        ap (parse_aliases names) gone,
      )
