-- ===== src/Lru.antt =====
-- The crate `lru_cache`, as an interface. A cache may forget anything at any time; a hit is a
-- value that was put in under the same key.
use matrix_server.Base.{◌≡◌, ◌⊎◌, Option, some}

pub record LruCache (K V C : Type 0) : Type 0 where
  -- `get_mut`: the hit, and the cache with the entry marked as used.
  pub get_mut : C → K → Option V × C
  pub insert : C → K → V → C
  pub hit_of_insert :
      (c : C) (k j : K) (v w : V)
      → (get_mut (insert c k v) j).0 ≡ some w
      → ((k ≡ j) × (v ≡ w)) ⊎ ((get_mut c j).0 ≡ some w)
  pub hit_of_get_mut :
      (c : C) (k j : K) (w : V) → (get_mut (get_mut c k).1 j).0 ≡ some w → (get_mut c j).0 ≡ some w
