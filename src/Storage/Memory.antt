-- ===== src/Storage/Memory.antt =====
-- A tree in memory, as a list of entries. It shows that the interface `KvTree` can be met, and
-- runs the tests.
use matrix_server.Base.{◌≡◌, Bool, none, some, ◌∷◌, ◌∙◌, arith, ite, if◌then◌else◌, false}
use matrix_server.Base.Bytes.{Bytes, dec_bytes, starts_with}
use matrix_server.Storage.{KvTree}
use matrix_server.Storage.Listing.{
  Entries, lookup, without, pick, lookup-without, lookup-pick, pick-IsUnique, IsUnique,
}
use matrix_server.Storage.Sorting.{
  precedes, IsOrdered, sort, lookup-sort, sort-IsUnique, sort-IsOrdered,
}

unfoldable pub put : Entries → Bytes → Bytes → Entries
put l k v = (k, v) ∷ without k l

pub lookup-put :
    (l : Entries) (k v j : Bytes) → lookup j (put l k v) ≡ ite (dec_bytes k j) (some v) (lookup j l)
unfolding put lookup
lookup-put l k v j = ground (arith, lookup-without k j l)

unfoldable pub from_key : Entries → Bytes → Bool → Entries
unfolding sort pick
from_key l from backwards = sort backwards (pick (precedes backwards from) l)

pub lookup-from_key :
    (l : Entries) (from : Bytes) (backwards : Bool) (j : Bytes)
    → lookup j (from_key l from backwards)
      ≡ (if precedes backwards from j then lookup j l else none)
unfolding from_key
lookup-from_key l from backwards j =
    lookup-sort backwards j (pick (precedes backwards from) l)
      (pick-IsUnique (precedes backwards from) l)
    ∙ lookup-pick (precedes backwards from) j l

pub from_key-IsUnique :
    (l : Entries) (from : Bytes) (backwards : Bool) → IsUnique (from_key l from backwards)
unfolding from_key
from_key-IsUnique l from backwards =
    sort-IsUnique backwards (pick (precedes backwards from) l)
      (pick-IsUnique (precedes backwards from) l)

pub from_key-IsOrdered :
    (l : Entries) (from : Bytes) (backwards : Bool)
    → IsOrdered backwards (from_key l from backwards)
unfolding from_key
from_key-IsOrdered l from backwards = sort-IsOrdered backwards (pick (precedes backwards from) l)

unfoldable pub below : Entries → Bytes → Entries
unfolding sort pick
below l p = sort false (pick (starts_with p) l)

pub lookup-below :
    (l : Entries) (p j : Bytes)
    → lookup j (below l p) ≡ (if starts_with p j then lookup j l else none)
unfolding below
lookup-below l p j =
    lookup-sort false j (pick (starts_with p) l) (pick-IsUnique (starts_with p) l)
    ∙ lookup-pick (starts_with p) j l

pub below-IsUnique : (l : Entries) (p : Bytes) → IsUnique (below l p)
unfolding below
below-IsUnique l p = sort-IsUnique false (pick (starts_with p) l) (pick-IsUnique (starts_with p) l)

pub below-IsOrdered : (l : Entries) (p : Bytes) → IsOrdered false (below l p)
unfolding below
below-IsOrdered l p = sort-IsOrdered false (pick (starts_with p) l)

abbrev pub memory : KvTree Entries
memory = record {
  get = λ l k. lookup k l;
  insert = put;
  remove = λ l k. without k l;
  scan_prefix = below;
  iter_from = from_key;
  get-insert = lookup-put;
  get-remove = λ l k j. lookup-without k j l;
  lookup-scan_prefix = lookup-below;
  scan_prefix-IsUnique = below-IsUnique;
  scan_prefix-IsOrdered = below-IsOrdered;
  lookup-iter_from = lookup-from_key;
  iter_from-IsUnique = from_key-IsUnique;
  iter_from-IsOrdered = from_key-IsOrdered;
}
