-- ===== src/Storage/Sorting.antt =====
-- Entries in the order of their keys, forwards or backwards.
use matrix_server.Base.{
  ◌≡◌, refl, Bool, true, false, none, some, [], ◌∷◌, arith, ite, if◌then◌else◌, Bool-cases, inl,
  inr,
}
use matrix_server.Base.Bytes.{Bytes, dec_bytes}
use matrix_server.Base.Order.{le_bytes, le_bytes_total, le_bytes_trans}
use matrix_server.Storage.Listing.{Entries, lookup, IsUnique}

-- Whether a key comes before another, or is the same.
abbrev pub precedes : Bool → Bytes → Bytes → Bool
precedes true k j = le_bytes j k
precedes false k j = le_bytes k j

-- The key comes before all keys of the list.
abbrev pub IsFirst : Bool → Bytes → Entries → Type 0
IsFirst backwards k [] = Unit {0}
IsFirst backwards k ((j, w) ∷ l) = (precedes backwards k j ≡ true) × IsFirst backwards k l

abbrev pub IsOrdered : Bool → Entries → Type 0
IsOrdered backwards [] = Unit {0}
IsOrdered backwards ((k, v) ∷ l) = IsFirst backwards k l × IsOrdered backwards l

precedes_total : (b : Bool) (k j : Bytes) → precedes b k j ≡ false → precedes b j k ≡ true
precedes_total true k j h = le_bytes_total j k h
precedes_total false k j h = le_bytes_total k j h

precedes_trans :
    (b : Bool) (i j k : Bytes)
    → precedes b i j ≡ true
    → precedes b j k ≡ true
    → precedes b i k ≡ true
precedes_trans true i j k h h' = le_bytes_trans k j i h' h
precedes_trans false i j k h h' = le_bytes_trans i j k h h'

unfoldable pub place : Bool → Bytes → Bytes → Entries → Entries
place b k v [] = (k, v) ∷ []
place b k v ((j, w) ∷ l) =
    let rest = place b k v l in if precedes b k j then (k, v) ∷ (j, w) ∷ l else (j, w) ∷ rest

unfoldable pub sort : Bool → Entries → Entries
unfolding place
sort b [] = []
sort b ((k, v) ∷ l) = place b k v (sort b l)

lookup-place :
    (b : Bool) (k v j : Bytes) (l : Entries)
    → lookup k l ≡ none
    → lookup j (place b k v l) ≡ ite (dec_bytes k j) (some v) (lookup j l)
unfolding lookup place
lookup-place b k v j [] h = refl
lookup-place b k v j ((i, w) ∷ l) h = ground (arith, lookup-place b k v j l)

behind-IsFirst :
    (b : Bool) (k j : Bytes) (l : Entries) → precedes b k j ≡ true → IsFirst b j l → IsFirst b k l
behind-IsFirst b k j [] h f = tt
behind-IsFirst b k j ((i, w) ∷ l) h f = (precedes_trans b k j i h f.0, behind-IsFirst b k j l h f.1)

IsFirst-place :
    (b : Bool) (j k v : Bytes) (l : Entries)
    → precedes b j k ≡ true
    → IsFirst b j l
    → IsFirst b j (place b k v l)
unfolding place
IsFirst-place b j k v [] h f = (h, tt)
IsFirst-place b j k v ((i, w) ∷ l) h f = elim (Bool-cases (precedes b k i)) [
  | inl e ↦ rw e (h, f)
  | inr e ↦ rw e (f.0, IsFirst-place b j k v l h f.1)
]

place-IsOrdered :
    (b : Bool) (k v : Bytes) (l : Entries) → IsOrdered b l → IsOrdered b (place b k v l)
unfolding place
place-IsOrdered b k v [] o = (tt, tt)
place-IsOrdered b k v ((i, w) ∷ l) o = elim (Bool-cases (precedes b k i)) [
  | inl e ↦ rw e ((e, behind-IsFirst b k i l e o.0), o)
  | inr e ↦ rw e (IsFirst-place b i k v l (precedes_total b k i e) o.0, place-IsOrdered b k v l o.1)
]

place-IsUnique :
    (b : Bool) (k v : Bytes) (l : Entries)
    → lookup k l ≡ none
    → IsUnique l
    → IsUnique (place b k v l)
unfolding place lookup
place-IsUnique b k v [] h u = (refl, tt)
place-IsUnique b k v ((i, w) ∷ l) h u = elim (Bool-cases (precedes b k i)) [
  | inl e ↦ rw e (h, u)
  | inr e ↦ rw e (ground (arith, lookup-place b k v i l), place-IsUnique b k v l (ground arith) u.1)
]

pub lookup-sort :
    (b : Bool) (j : Bytes) (l : Entries) → IsUnique l → lookup j (sort b l) ≡ lookup j l
unfolding sort lookup
lookup-sort b j [] u = refl
lookup-sort b j ((k, v) ∷ l) u =
    ground (arith, lookup-place b k v j (sort b l), lookup-sort b k l u.1, lookup-sort b j l u.1)

pub sort-IsUnique : (b : Bool) (l : Entries) → IsUnique l → IsUnique (sort b l)
unfolding sort
sort-IsUnique b [] u = tt
sort-IsUnique b ((k, v) ∷ l) u =
    place-IsUnique b k v (sort b l) (ground (arith, lookup-sort b k l u.1)) (sort-IsUnique b l u.1)

pub sort-IsOrdered : (b : Bool) (l : Entries) → IsOrdered b (sort b l)
unfolding sort
sort-IsOrdered b [] = tt
sort-IsOrdered b ((k, v) ∷ l) = place-IsOrdered b k v (sort b l) (sort-IsOrdered b l)
