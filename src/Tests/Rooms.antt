-- ===== src/Tests/Rooms.antt =====
-- Examples for aliases, lazy loading, typing notifications and receipts.
use matrix_server.Base.{◌≡◌, refl, true, none, some, [], ◌∷◌, arith, ℕ}
use matrix_server.Base.Bytes.{Bytes, dec_bytes, to_be_bytes}
use matrix_server.Base.Keys.{◌⋄◌}
use matrix_server.Base.Effect.{ok}
use matrix_server.Storage.{Entries, lookup}
use matrix_server.Storage.Memory.{memory}
use matrix_server.Base.HashSet.{contains}
use matrix_server.Aliases.{
  AliasDb, AliasNames, remove_alias, resolve_local_alias, local_aliases_for_room,
}
use matrix_server.Aliases.Resolving.{remove_alias_lem}
use matrix_server.Typing.{TypingDb, typings_maintain}
use matrix_server.Typing.Maintaining.{IsTimed, typings_maintain_lem}
use matrix_server.Base.{is_some}
use matrix_server.Base.Bytes.{starts_with}
use mathlib.Core.Path.{subst}
use matrix_server.Receipts.{ReceiptDb, readreceipt_update}
use matrix_server.Receipts.Updating.{IsReceipt, readreceipt_update_lem}
use matrix_server.Base.Order.{le_bytes}
use matrix_server.Base.{◌++◌, ◌-◌}
use matrix_server.Base.Bytes.{u64_mod}
use matrix_server.Tests.{json}
use matrix_server.LazyLoading.{
  LazyDb, lazy_load_was_sent_before, lazy_load_confirm_delivery, lazy_load_mark_sent,
  lazy_load-mark-confirm,
}

abbrev names : AliasNames
names = record {
  is_utf8 = λ b. true;
  is_room_id = λ b. true;
  is_alias = λ b. true;
  localpart = λ a. a;
}

abbrev room : Bytes
room = b'!' ∷ []

abbrev main : Bytes
main = b'm' ∷ []

abbrev other : Bytes
other = b'o' ∷ []

abbrev two_aliases : AliasDb Entries
two_aliases = record {
  global = [];
  alias_roomid = (main, room) ∷ (other, room) ∷ [];
  aliasid_alias = (room ⋄ to_be_bytes 1, main) ∷ (room ⋄ to_be_bytes 2, other) ∷ [];
  publicroomids = [];
}

resolves_main : memory.get two_aliases.alias_roomid main ≡ some room
unfolding lookup dec_bytes
resolves_main = refl

remove_alias_lem_example :
    (s' : AliasDb Entries) × (remove_alias memory names main two_aliases ≡ (ok tt, s'))
    × (resolve_local_alias memory names other s'
        ≡ resolve_local_alias memory names other two_aliases)
    × (local_aliases_for_room memory names room s' ≡ [])
unfolding dec_bytes
remove_alias_lem_example = remove_alias_lem memory names main other room two_aliases resolves_main

abbrev unsent : LazyDb Entries
unsent = record { lazyloadedids = []; lazy_load_waiting = λ u d r n. none }

lazy_load-mark-confirm_example :
    lazy_load_was_sent_before memory main other room main (
      lazy_load_confirm_delivery memory main other room 5
        (lazy_load_mark_sent memory main other room (main ∷ []) 5 unsent))
    ≡ true
unfolding dec_bytes contains lookup
lazy_load-mark-confirm_example =
    lazy_load-mark-confirm memory main other room (main ∷ []) 5 unsent main other room main
      (omega arith, tt) (omega arith, tt) (omega arith, tt) (omega arith, tt) (omega arith, tt)
      (omega arith, tt)

abbrev sent : LazyDb Entries
sent = record unsent { lazyloadedids = (main ⋄ other ⋄ room ⋄ main, []) ∷ [] }

abbrev typing : TypingDb Entries
typing = record {
  global = [];
  typingid_userid = (room ⋄ to_be_bytes 100 ⋄ to_be_bytes 1, main) ∷ [];
  roomid_lasttypingupdate = [];
}

typing-IsTimed :
    (k : Bytes)
    → is_some (memory.get typing.typingid_userid k) ≡ true
    → starts_with (room ⋄ []) k ≡ true
    → IsTimed room k
unfolding lookup
typing-IsTimed k h below = (100, 0xff ∷ to_be_bytes 1, omega arith, ground arith)

typings_maintain_lem_example :
    (s' : TypingDb Entries) × (typings_maintain memory 200 room typing ≡ (ok tt, s'))
    × (memory.get s'.typingid_userid (room ⋄ to_be_bytes 100 ⋄ to_be_bytes 1) ≡ none)
unfolding dec_bytes to_be_bytes
typings_maintain_lem_example =
    typings_maintain_lem memory 200 room room (0xff ∷ to_be_bytes 1) 100 typing (omega arith, tt)
      (omega arith, tt) (omega arith) typing-IsTimed

abbrev read_once : ReceiptDb Entries
read_once = record {
  global = [];
  readreceiptid_readreceipt = (room ⋄ to_be_bytes 7 ⋄ main, []) ∷ [];
  roomuserid_privateread = [];
  roomuserid_lastprivatereadupdate = [];
}

receipts_bounded :
    (k : Bytes)
    → is_some (memory.get read_once.readreceiptid_readreceipt k) ≡ true
    → starts_with (room ⋄ []) k ≡ true
    → le_bytes k ((room ⋄ []) ++ to_be_bytes (u64_mod - 1)) ≡ true
unfolding lookup
receipts_bounded k h below =
    let same : room ⋄ to_be_bytes 7 ⋄ main ≡ k = ground arith in
    subst (λ x. le_bytes x ((room ⋄ []) ++ to_be_bytes (u64_mod - 1)) ≡ true) same
      (unfold le_bytes to_be_bytes in refl)

one_receipt :
    (j j' : Bytes)
    → is_some (memory.get read_once.readreceiptid_readreceipt j) ≡ true
    → is_some (memory.get read_once.readreceiptid_readreceipt j') ≡ true
    → IsReceipt room main j
    → IsReceipt room main j'
    → j ≡ j'
unfolding lookup
one_receipt j j' h h' r r' = ground arith

readreceipt_update_lem_example :
    (n : ℕ) × (s' : ReceiptDb Entries) × (readreceipt_update memory json main room other read_once
      ≡ (ok tt, s'))
    × (memory.get s'.readreceiptid_readreceipt (room ⋄ to_be_bytes n ⋄ main) ≡ some other)
    × ((j : Bytes)
        → IsReceipt room main j
        → is_some (memory.get s'.readreceiptid_readreceipt j) ≡ true
        → room ⋄ to_be_bytes n ⋄ main ≡ j)
    × ((j : Bytes)
        → ¬ IsReceipt room main j
        → memory.get s'.readreceiptid_readreceipt j
          ≡ memory.get read_once.readreceiptid_readreceipt j)
readreceipt_update_lem_example =
    readreceipt_update_lem memory json room main other read_once (omega arith, tt) receipts_bounded
      one_receipt
