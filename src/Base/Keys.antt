-- ===== src/Base/Keys.antt =====
-- Database keys: parts joined by the byte 0xff, which no UTF-8 text contains.
use Prim.Native.Nat.{ℕ}
use mathlib.Core.Path.{◌≡◌, refl}
use mathlib.Core.Logic.{◌≢◌, ite}
use mathlib.Core.Bool.{Bool, true, false}
use mathlib.Core.List.{[], ◌∷◌, ◌++◌, append_assoc}
use mathlib.Core.Option.{Option, none, some}
use native.Mathlib.Omega.{arith}
use matrix_server.Base.Tests.{◌==◌, if◌then◌else◌}
use matrix_server.Base.Bytes.{Bytes, dec_bytes, starts_with, starts_with-append}

abbrev pub separator : ℕ
separator = 0xff

-- `key = a; key.push(0xff); key.extend_from_slice(b)`
infixr 66 ◌⋄◌
abbrev pub ◌⋄◌ : Bytes → Bytes → Bytes
a ⋄ b = a ++ separator ∷ b

-- No byte is the separator.
abbrev pub IsText : Bytes → Type 0
IsText [] = Unit {0}
IsText (b ∷ bs) = (b ≢ separator) × IsText bs

-- `bytes.splitn(2, |&b| b == 0xff)`: the part before the first separator, and the rest if there
-- is a separator.
unfoldable pub split_first : Bytes → Bytes × Option Bytes
split_first [] = ([], none)
split_first (b ∷ bs) =
    let (part, rest) = split_first bs in if b == separator then ([], some bs) else (b ∷ part, rest)

unfoldable pub has_separator : Bytes → Bool
has_separator [] = false
has_separator (b ∷ bs) = let later = has_separator bs in if b == separator then true else later

-- `bytes.rsplit(|&b| b == 0xff).next()`: the part behind the last separator.
unfoldable pub last_part : Bytes → Bytes
unfolding has_separator
last_part [] = []
last_part (b ∷ bs) =
    let later = last_part bs in
    if has_separator bs then later else if b == separator then bs else b ∷ bs

-- The part before the last separator, if there is one: what is left for the next call of the
-- iterator `rsplit`.
unfoldable pub before_last : Bytes → Option Bytes
unfolding has_separator
before_last [] = none
before_last (b ∷ bs) =
    let later = before_last bs in
    if has_separator bs
    then (elim later [ none ↦ none | some part ↦ some (b ∷ part) ])
    else if b == separator
    then some []
    else none

pub split_first-join : (a b : Bytes) → IsText a → split_first (a ⋄ b) ≡ (a, some b)
unfolding split_first
split_first-join [] b h = refl
split_first-join (x ∷ a) b h = ground (arith, split_first-join a b h.1)

has_separator-join : (a b : Bytes) → has_separator (a ⋄ b) ≡ true
unfolding has_separator
has_separator-join [] b = refl
has_separator-join (x ∷ a) b = ground (arith, has_separator-join a b)

has_separator_of_text : (a : Bytes) → IsText a → has_separator a ≡ false
unfolding has_separator
has_separator_of_text [] h = refl
has_separator_of_text (x ∷ a) h = ground (arith, has_separator_of_text a h.1)

pub last_part-join : (a b : Bytes) → IsText b → last_part (a ⋄ b) ≡ b
unfolding last_part
last_part-join [] b h = ground (arith, has_separator_of_text b h)
last_part-join (x ∷ a) b h = ground (arith, has_separator-join a b, last_part-join a b h)

pub before_last-join : (a b : Bytes) → IsText b → before_last (a ⋄ b) ≡ some a
unfolding before_last
before_last-join [] b h = ground (arith, has_separator_of_text b h)
before_last-join (x ∷ a) b h = ground (arith, has_separator-join a b, before_last-join a b h)

pub join_injective :
    (a a' b b' : Bytes) → IsText a → IsText a' → a ⋄ b ≡ a' ⋄ b' → (a ≡ a') × (b ≡ b')
join_injective [] [] b b' h h' e = ground arith
join_injective [] (y ∷ a') b b' h h' e = ground arith
join_injective (x ∷ a) [] b b' h h' e = ground arith
join_injective (x ∷ a) (y ∷ a') b b' h h' e =
    let rest = join_injective a a' b b' h.1 h'.1 (ground arith) in ground (arith, rest)

-- A joined key begins with a joined prefix exactly if the first parts agree.
pub starts_with-join :
    (a a' p k : Bytes)
    → IsText a
    → IsText a'
    → starts_with (a ⋄ p) (a' ⋄ k) ≡ ite (dec_bytes a a') (starts_with p k) false
unfolding starts_with
starts_with-join [] [] p k h h' = ground arith
starts_with-join [] (y ∷ a') p k h h' = ground arith
starts_with-join (x ∷ a) [] p k h h' = ground arith
starts_with-join (x ∷ a) (y ∷ a') p k h h' = ground (arith, starts_with-join a a' p k h.1 h'.1)

-- As an equation between keys.
pub dec-join :
    {A : Type 0} (a a' b b' : Bytes) (x y : A)
    → IsText a
    → IsText a'
    → ite (dec_bytes (a ⋄ b) (a' ⋄ b')) x y ≡ ite (dec_bytes a a') (ite (dec_bytes b b') x y) y
dec-join a a' b b' x y h h' = ground (arith, join_injective a a' b b' h h')

pub starts_with_refl : (k : Bytes) → starts_with k k ≡ true
unfolding starts_with
starts_with_refl [] = refl
starts_with_refl (x ∷ k) = ground (arith, starts_with_refl k)

pub split_first_of_text : (a : Bytes) → IsText a → split_first a ≡ (a, none)
unfolding split_first
split_first_of_text [] h = refl
split_first_of_text (x ∷ a) h = ground (arith, split_first_of_text a h.1)

-- A key whose second part begins with `v` begins with the join of the first part and `v`.
pub starts_with-longer : (u v w k : Bytes) → starts_with (u ⋄ v) (u ⋄ (v ++ w) ⋄ k) ≡ true
starts_with-longer u v w k = rw (append_assoc v w (separator ∷ k)) (
    rw (← append_assoc u (separator ∷ v) (w ++ separator ∷ k))
      (starts_with-append (u ⋄ v) (w ++ separator ∷ k)))

-- A key of two parts lies below its prefix.
pub starts_with-part : (a b k : Bytes) → starts_with (a ⋄ b ⋄ []) (a ⋄ b ⋄ k) ≡ true
starts_with-part a b k =
    rw (← append_assoc b (separator ∷ []) k)
      (rw (← append_assoc a (separator ∷ (b ⋄ [])) k) (starts_with-append (a ⋄ b ⋄ []) k))
