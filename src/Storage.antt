-- ===== src/Storage.antt =====
-- src/database/abstraction.rs: the trait `KvTree`. The engines behind it (RocksDB, SQLite, sled,
-- heed, persy) are foreign code, so a tree is an interface: the operations, and the documented
-- behaviour of a byte map. A backend's I/O errors are not modelled.
pub mod Listing
pub mod Sorting
pub mod Memory
unfoldable pub use Listing.{Entries, lookup, IsUnique}
unfoldable pub use Sorting.{precedes, IsFirst, IsOrdered}
use matrix_server.Base.{
  ◌≡◌, refl, Bool, Option, none, some, List, [], ◌∷◌, arith, ite, if◌then◌else◌, is_some, false,
}
use matrix_server.Base.Bytes.{Bytes, dec_bytes, starts_with, increment}

pub record KvTree (T : Type 0) : Type 0 where
  pub get : T → Bytes → Option Bytes
  pub insert : T → Bytes → Bytes → T
  pub remove : T → Bytes → T
  -- The entries whose keys begin with a prefix, in the order of keys.
  pub scan_prefix : T → Bytes → Entries
  -- The entries from a key on, or from it backwards; the key itself included.
  pub iter_from : T → Bytes → Bool → Entries
  pub get-insert :
      (t : T) (k v j : Bytes) → get (insert t k v) j ≡ ite (dec_bytes k j) (some v) (get t j)
  pub get-remove : (t : T) (k j : Bytes) → get (remove t k) j ≡ ite (dec_bytes k j) none (get t j)
  pub lookup-scan_prefix :
      (t : T) (p j : Bytes)
      → lookup j (scan_prefix t p) ≡ (if starts_with p j then get t j else none)
  pub scan_prefix-IsUnique : (t : T) (p : Bytes) → IsUnique (scan_prefix t p)
  pub scan_prefix-IsOrdered : (t : T) (p : Bytes) → IsOrdered false (scan_prefix t p)
  pub lookup-iter_from :
      (t : T) (from : Bytes) (backwards : Bool) (j : Bytes)
      → lookup j (iter_from t from backwards)
        ≡ (if precedes backwards from j then get t j else none)
  pub iter_from-IsUnique :
      (t : T) (from : Bytes) (backwards : Bool) → IsUnique (iter_from t from backwards)
  pub iter_from-IsOrdered :
      (t : T) (from : Bytes) (backwards : Bool) → IsOrdered backwards (iter_from t from backwards)

module _ {T : Type 0} (kv : KvTree T) where
  open kv use {get, insert, remove, scan_prefix, get-insert, get-remove, lookup-scan_prefix}

  -- `KvTree::increment`: the tree and the new bytes.
  unfoldable pub tree_increment : T → Bytes → T × Bytes
  tree_increment t key = let new = increment (get t key) in (insert t key new, new)

  -- `for (key, _) in entries { tree.remove(&key)?; }`
  unfoldable pub remove_entries : T → Entries → T
  remove_entries t [] = t
  remove_entries t ((key, _) ∷ rest) = remove_entries (remove t key) rest

  -- The same loop over `scan_prefix(prefix)`.
  unfoldable pub remove_prefix : T → Bytes → T
  unfolding remove_entries
  remove_prefix t prefix = remove_entries t (scan_prefix t prefix)

  -- `KvTree::insert_batch`
  unfoldable pub insert_batch : T → Entries → T
  insert_batch t [] = t
  insert_batch t ((key, value) ∷ rest) = insert_batch (insert t key value) rest

  pub get-remove_entries :
      (t : T) (es : Entries) (j : Bytes)
      → get (remove_entries t es) j ≡ (if is_some (lookup j es) then none else get t j)
  unfolding remove_entries lookup
  get-remove_entries t [] j = refl
  get-remove_entries t ((k, v) ∷ es) j =
      ground (arith, get-remove_entries (remove t k) es j, get-remove t k j)

  -- After the loop exactly the keys below the prefix are gone.
  pub get-remove_prefix :
      (t : T) (p j : Bytes)
      → get (remove_prefix t p) j ≡ (if starts_with p j then none else get t j)
  unfolding remove_prefix
  get-remove_prefix t p j =
      ground (arith, get-remove_entries t (scan_prefix t p) j, lookup-scan_prefix t p j)
