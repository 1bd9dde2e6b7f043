-- ===== src/Storage/Listing.antt =====
-- Lists of key and value, as the iterators of a tree yield them.
use matrix_server.Base.{
  ◌≡◌, Bool, Option, none, some, List, [], ◌∷◌, arith, ite, if_pos, if_neg, if◌then◌else◌,
  Bool-cases, inl, inr,
}
use matrix_server.Base.Bytes.{Bytes, dec_bytes}

abbrev pub Entries : Type 0
Entries = List (Bytes × Bytes)

unfoldable pub lookup : Bytes → Entries → Option Bytes
lookup k [] = none
lookup k ((j, v) ∷ l) = ite (dec_bytes j k) (some v) (lookup k l)

-- Without the entries of a key.
unfoldable pub without : Bytes → Entries → Entries
without k [] = []
without k ((j, v) ∷ l) = let rest = without k l in ite (dec_bytes j k) rest ((j, v) ∷ rest)

-- No key stands twice.
abbrev pub IsUnique : Entries → Type 0
IsUnique [] = Unit {0}
IsUnique ((k, v) ∷ l) = (lookup k l ≡ none) × IsUnique l

pub lookup-without :
    (k j : Bytes) (l : Entries) → lookup j (without k l) ≡ ite (dec_bytes k j) none (lookup j l)
unfolding lookup without
lookup-without k j [] = ground arith
lookup-without k j ((i, v) ∷ l) = ground (arith, lookup-without k j l)

pub without-IsUnique : (k : Bytes) (l : Entries) → IsUnique l → IsUnique (without k l)
unfolding without
without-IsUnique k [] u = tt
without-IsUnique k ((j, v) ∷ l) u = elim (dec_bytes j k) [
  | yes p ↦ rw (if_pos _ p) (without-IsUnique k l u.1)
  | no p ↦ rw (if_neg _ p) (ground (arith, lookup-without k j l), without-IsUnique k l u.1)
]

-- The entries whose keys pass a test; of several entries with a key, the first counts.
unfoldable pub pick : (Bytes → Bool) → Entries → Entries
unfolding without
pick p [] = []
pick p ((k, v) ∷ l) = let rest = without k (pick p l) in if p k then (k, v) ∷ rest else rest

pub lookup-pick :
    (p : Bytes → Bool) (j : Bytes) (l : Entries)
    → lookup j (pick p l) ≡ (if p j then lookup j l else none)
unfolding lookup pick
lookup-pick p j [] = ground arith
lookup-pick p j ((k, v) ∷ l) = ground (arith, lookup-without k j (pick p l), lookup-pick p j l)

pub pick-IsUnique : (p : Bytes → Bool) (l : Entries) → IsUnique (pick p l)
unfolding pick
pick-IsUnique p [] = tt
pick-IsUnique p ((k, v) ∷ l) = elim (Bool-cases (p k)) [
  | inl e ↦ rw e (
    ground (arith, lookup-without k k (pick p l)),
    without-IsUnique k (pick p l) (pick-IsUnique p l),
  )
  | inr e ↦ rw e (without-IsUnique k (pick p l) (pick-IsUnique p l))
]
