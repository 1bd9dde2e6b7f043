-- ===== src/StateDiffStore.antt =====
-- src/database/key_value/rooms/state_compressor.rs: a diff as the bytes of one database value.
pub mod Decoding
pub mod Store
use matrix_server.Base.{
  ℕ, zero, suc, Bool, true, false, ◌&&◌, Option, none, some, List, [], ◌∷◌, ◌++◌, ltb, ◌==◌,
  if◌then◌else◌, is_empty, length, take, drop,
}
use matrix_server.Base.Bytes.{Bytes, dec_bytes, to_be_bytes, u64_from_bytes, starts_with}
use matrix_server.Base.HashSet.{insert}
use matrix_server.Base.Effect.{Result, ok, err, bad_database, panicked, and_then}
use matrix_server.Storage.{KvTree}
use matrix_server.StateCompressor.{EventSet, StateDiff}

-- `for e in events { value.extend_from_slice(&e[..]); }`, from an empty value.
abbrev pub concat : List Bytes → Bytes
concat [] = []
concat (e ∷ es) = e ++ concat es

abbrev pub parent_or_zero : Option ℕ → ℕ
parent_or_zero none = 0
parent_or_zero (some p) = p

-- `save_statediff`: the parent, the added events and, if there are any, a zero u64 and the
-- removed events.
unfoldable pub encode_statediff : StateDiff → Bytes
encode_statediff diff =
    to_be_bytes (parent_or_zero diff.parent)
    ++ (concat diff.added
        ++ (if is_empty diff.removed then [] else to_be_bytes 0 ++ concat diff.removed))

-- The `while` loop of `get_statediff` on the bytes from `i` on; `none` if the fuel ran out.
unfoldable pub read_events : ℕ → Bool → Bytes → EventSet → EventSet → Option (EventSet × EventSet)
read_events zero add_mode rest added removed = none
read_events (suc fuel) add_mode rest added removed =
    let v = take 16 rest in
    let separator = read_events fuel false (drop 8 rest) added removed in
    let more_added = read_events fuel add_mode (drop 16 rest) (insert dec_bytes added v) removed in
    let more_removed =
      read_events fuel add_mode (drop 16 rest) added (insert dec_bytes removed v) in
    if ltb (length rest) 16
    then some (added, removed)
    else if add_mode && starts_with (to_be_bytes 0) v
    then separator
    else if add_mode
    then more_added
    else more_removed

abbrev pub nonzero : ℕ → Option ℕ
nonzero p = if p == 0 then none else some p

abbrev pub diff_of : Option ℕ → Option (EventSet × EventSet) → Result StateDiff
diff_of none events = err panicked
diff_of (some p) none = err panicked
diff_of (some p) (some (added, removed)) =
    ok (record { parent = nonzero p; added = added; removed = removed })

-- A value shorter than 8 bytes makes the slicing panic. Each round takes at least 8 bytes, so the
-- length of the value is enough fuel.
unfoldable pub decode_statediff : Bytes → Result StateDiff
unfolding read_events
decode_statediff value =
    diff_of (u64_from_bytes (take 8 value)) (read_events (length value) true (drop 8 value) [] [])

module _ {T : Type 0} (kv : KvTree T) where
  open kv use {get as tree_get, insert as tree_insert}

  unfoldable pub get_statediff : T → ℕ → Result StateDiff
  get_statediff shortstatehash_statediff h =
      elim (tree_get shortstatehash_statediff (to_be_bytes h)) [
        | none ↦ err (bad_database "State hash does not exist")
        | some value ↦ decode_statediff value
      ]

  unfoldable pub save_statediff : T → ℕ → StateDiff → T
  save_statediff shortstatehash_statediff h diff =
      tree_insert shortstatehash_statediff (to_be_bytes h) (encode_statediff diff)
