-- ===== src/StateCompressor.antt =====
-- src/service/rooms/state_compressor/mod.rs: room states stored as layers of diffs.
pub mod Folding
pub mod Diff
pub mod Layers
pub mod Saving
pub mod Reload
pub mod Events
pub mod SaveState
use matrix_server.Base.{
  ℕ, zero, suc, ◌+◌, ◌*◌, ◌%◌, ◌<◌, ◌≡◌, Bool, true, false, Option, none, some, List, [], ◌∷◌, ltb,
  leb, ◌==◌, if◌then◌else◌, length,
}
use matrix_server.Base.Bytes.{Bytes, dec_bytes, u64_mod, to_be_bytes, starts_with}
use matrix_server.Base.HashSet.{HashSet, contains, insert, remove, extend, IsDistinct}
use matrix_server.Base.Effect.{Result, ok, err, panicked}
use matrix_server.Lru.{LruCache}

-- Sixteen bytes: the shortstatekey and the shorteventid, each as a big-endian u64.
abbrev pub CompressedStateEvent : Type 0
CompressedStateEvent = Bytes

abbrev pub EventSet : Type 0
EventSet = HashSet CompressedStateEvent

pub record StateDiff : Type 0 where
  pub parent : Option ℕ
  pub added : EventSet
  pub removed : EventSet

-- One layer of the stack of `load_shortstatehash_info`.
pub record StateInfo : Type 0 where
  pub shortstatehash : ℕ
  pub full_state : EventSet
  pub added : EventSet
  pub removed : EventSet

-- The `Vec` of layers; its last element is the head here.
abbrev pub Stack : Type 0
Stack = List StateInfo

-- `for r in &removed { state.remove(r); }`
unfoldable pub remove_all : EventSet → List CompressedStateEvent → EventSet
remove_all s [] = s
remove_all s (r ∷ rs) = remove_all (remove dec_bytes s r) rs

-- The state of a layer, from the state of its parent.
unfoldable pub apply_diff : EventSet → EventSet → EventSet → EventSet
unfolding remove_all
apply_diff state added removed = remove_all (extend dec_bytes state added) removed

-- The stack's entry for a diff with its full state.
abbrev pub layer : ℕ → StateDiff → EventSet → StateInfo
layer h diff full = record {
  shortstatehash = h;
  full_state = full;
  added = diff.added;
  removed = diff.removed;
}

-- `for x in xs { if !from.remove(&x) { to.insert(x); } }`: the two loops that fold a diff into
-- the parent's diff.
unfoldable pub shift : EventSet → EventSet → List CompressedStateEvent → EventSet × EventSet
shift from to [] = (from, to)
shift from to (x ∷ xs) =
    shift (if contains dec_bytes from x then remove dec_bytes from x else from)
      (if contains dec_bytes from x then to else insert dec_bytes to x) xs

-- Both loops: what is removed cancels what the parent added, then what is new cancels what the
-- parent removed. The pair is `(parent_new, parent_removed)`.
unfoldable pub fold_into_parent : StateInfo → EventSet → EventSet → EventSet × EventSet
unfolding shift
fold_into_parent parent statediffnew statediffremoved =
    let (parent_new, parent_removed) = shift parent.added parent.removed statediffremoved in
    let (parent_removed', parent_new') = shift parent_removed parent_new statediffnew in
    (parent_new', parent_removed')

-- `diffsum * diffsum >= 2 * diff_to_sibling * parent_diff`, on usize.
unfoldable pub is_too_big : ℕ → ℕ → ℕ → Bool
is_too_big diffsum diff_to_sibling parent_diff =
    leb ((2 * diff_to_sibling) % u64_mod * parent_diff % u64_mod) (diffsum * diffsum % u64_mod)

-- Sixteen bytes, the first eight of which are not all zero: no shortstatekey is 0.
abbrev pub IsEvent : CompressedStateEvent → Type 0
IsEvent e = (length e ≡ 16) × (starts_with (to_be_bytes 0) e ≡ false)

abbrev pub AreEvents : EventSet → Type 0
AreEvents s = (e : CompressedStateEvent) → contains dec_bytes s e ≡ true → IsEvent e

abbrev pub IsHash : ℕ → Type 0
IsHash h = (0 < h) × (h < u64_mod)

-- A diff that the database can hold.
pub record IsStorable (d : StateDiff) : Type 0 where
  pub parent_hash : (p : ℕ) → d.parent ≡ some p → IsHash p
  pub added_distinct : IsDistinct dec_bytes d.added
  pub removed_distinct : IsDistinct dec_bytes d.removed
  pub added_events : AreEvents d.added
  pub removed_events : AreEvents d.removed

-- The trait `Data` of the component, with what the service relies on.
pub record StateDiffData (D : Type 0) : Type 0 where
  pub get_statediff : D → ℕ → Result StateDiff
  pub save_statediff : D → ℕ → StateDiff → D
  pub get-save :
      (d : D) (h j : ℕ) (diff : StateDiff)
      → IsHash h
      → IsHash j
      → IsStorable diff
      → get_statediff (save_statediff d h diff) j ≡ (if h == j then ok diff else get_statediff d j)

pub record Service (D C : Type 0) : Type 0 where
  pub db : D
  pub stateinfo_cache : C

module _ {D C : Type 0} (store : StateDiffData D) (lru : LruCache ℕ Stack C) where
  open store use {get_statediff, save_statediff}
  open lru use {get_mut, insert as cache_insert}

  -- The result of a call; `none` if the fuel ran out.
  abbrev pub Outcome : Type 0 → Type 0
  Outcome A = Option (Result A × Service D C)

  -- What is left to do when the parent's stack is loaded; `last().unwrap()` panics on an empty one.
  unfoldable pub push_layer : ℕ → StateDiff → Outcome Stack → Outcome Stack
  unfolding apply_diff
  push_layer h diff none = none
  push_layer h diff (some (err e, s)) = some (err e, s)
  push_layer h diff (some (ok [], s)) = some (err panicked, s)
  push_layer h diff (some (ok (top ∷ below), s)) =
      some (ok (layer h diff (apply_diff top.full_state diff.added diff.removed) ∷ top ∷ below), s)

  -- The fuel bounds the depth of the recursion into parents.
  unfoldable pub load_shortstatehash_info : ℕ → ℕ → Service D C → Outcome Stack
  unfolding push_layer
  load_shortstatehash_info zero h s = none
  load_shortstatehash_info (suc fuel) h s =
      let s' : Service D C = record s { stateinfo_cache = (get_mut s.stateinfo_cache h).1 } in
      elim (get_mut s.stateinfo_cache h).0 [
        | some r ↦ some (ok r, s')
        | none ↦ elim (get_statediff s'.db h) [
          | err e ↦ some (err e, s')
          | ok diff ↦ elim diff.parent [
            | some parent ↦ push_layer h diff (load_shortstatehash_info fuel parent s')
            | none ↦ some (
              ok (layer h diff diff.added ∷ []),
              record s' {
                stateinfo_cache = cache_insert s'.stateinfo_cache h (layer h diff diff.added ∷ []);
              },
            )
          ]
        ]
      ]

  unfoldable pub save_state_from_diff : ℕ → EventSet → EventSet → ℕ → Stack → D → D
  save_state_from_diff h statediffnew statediffremoved diff_to_sibling [] db =
      save_statediff db h
        (record { parent = none; added = statediffnew; removed = statediffremoved })
  save_state_from_diff h statediffnew statediffremoved diff_to_sibling (parent ∷ rest) db =
      let diffsum = length statediffnew + length statediffremoved in
      let folded = fold_into_parent parent statediffnew statediffremoved in
      let deeper = save_state_from_diff h folded.0 folded.1 diffsum rest db in
      if ltb 3 (length (parent ∷ rest))
      then deeper
      else if is_too_big diffsum diff_to_sibling (length parent.added + length parent.removed)
      then deeper
      else save_statediff db h (record {
        parent = some parent.shortstatehash;
        added = statediffnew;
        removed = statediffremoved;
      })
