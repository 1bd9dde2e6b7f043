-- ===== src/Base/HashSet.antt =====
-- `std::collections::HashSet`, as the program uses it: a list without repetitions, of which only
-- membership and size are used. New elements are appended; the statements do not depend on it.
use mathlib.Core.Path.{◌≡◌, refl, sym, ◌∙◌}
use mathlib.Core.Logic.{inl, inr}
use mathlib.Core.Bool.{Bool, true, false, not, ◌&&◌, ◌||◌}
use mathlib.Core.List.{List, [], ◌∷◌, ◌++◌, append_assoc, append-nil}
use mathlib.Core.Logic.{ite, if_pos, if_neg}
use native.Mathlib.Omega.{arith}
use matrix_server.Base.Tests.{if◌then◌else◌, Bool-cases}
use matrix_server.Base.Lists.{keep}

abbrev pub HashSet {ℓ} : Type ℓ → Type ℓ
HashSet A = List A

module _ {ℓ} {A : Type ℓ} (dec : Discrete A) where
  unfoldable pub contains : HashSet A → A → Bool
  contains [] y = false
  contains (x ∷ s) y = ite (dec x y) true (contains s y)

  unfoldable pub insert : HashSet A → A → HashSet A
  unfolding contains
  insert s x = if contains s x then s else s ++ x ∷ []

  unfoldable pub remove : HashSet A → A → HashSet A
  remove [] x = []
  remove (y ∷ s) x = ite (dec x y) s (y ∷ remove s x)

  unfoldable pub extend : HashSet A → List A → HashSet A
  unfolding insert
  extend s [] = s
  extend s (x ∷ xs) = extend (insert s x) xs

  unfoldable pub difference : HashSet A → HashSet A → HashSet A
  unfolding contains
  difference s t = keep (λ x. not (contains t x)) s

  -- No element twice.
  abbrev pub IsDistinct : HashSet A → Type 0
  IsDistinct [] = Unit {0}
  IsDistinct (x ∷ s) = (contains s x ≡ false) × IsDistinct s

  pub contains-append :
      (s t : HashSet A) (y : A) → contains (s ++ t) y ≡ (contains s y || contains t y)
  unfolding contains
  contains-append [] t y = refl
  contains-append (x ∷ s) t y = ground (arith, contains-append s t y)

  pub contains-insert :
      (s : HashSet A) (x y : A) → contains (insert s x) y ≡ ite (dec x y) true (contains s y)
  unfolding insert contains
  contains-insert s x y = ground (arith, contains-append s (x ∷ []) y)

  pub contains-remove :
      (s : HashSet A) (x y : A)
      → IsDistinct s
      → contains (remove s x) y ≡ ite (dec x y) false (contains s y)
  unfolding remove contains
  contains-remove [] x y d = ground arith
  contains-remove (z ∷ s) x y d = elim (dec x z) [
    | yes p ↦ rw (if_pos _ p) (ground arith)
    | no p ↦ rw (if_neg _ p) (ground (arith, contains-remove s x y d.1))
  ]

  pub contains-extend :
      (s : HashSet A) (xs : List A) (y : A)
      → contains (extend s xs) y ≡ (contains s y || contains xs y)
  unfolding extend contains
  contains-extend s [] y = ground arith
  contains-extend s (x ∷ xs) y =
      ground (arith, contains-extend (insert s x) xs y, contains-insert s x y)

  contains-keep :
      (p : A → Bool) (s : HashSet A) (y : A) → contains (keep p s) y ≡ (contains s y && p y)
  unfolding contains
  contains-keep p [] y = refl
  contains-keep p (x ∷ s) y = ground (arith, contains-keep p s y)

  pub contains-difference :
      (s t : HashSet A) (y : A) → contains (difference s t) y ≡ (contains s y && not (contains t y))
  unfolding difference
  contains-difference s t y = contains-keep (λ x. not (contains t x)) s y

  append-IsDistinct :
      (s : HashSet A) (x : A) → IsDistinct s → contains s x ≡ false → IsDistinct (s ++ x ∷ [])
  unfolding contains
  append-IsDistinct [] x d h = (refl, tt)
  append-IsDistinct (y ∷ s) x d h =
      (ground (arith, contains-append s (x ∷ []) y), append-IsDistinct s x d.1 (ground arith))

  pub insert-IsDistinct : (s : HashSet A) (x : A) → IsDistinct s → IsDistinct (insert s x)
  unfolding insert
  insert-IsDistinct s x d = elim (Bool-cases (contains s x)) [
    | inl e ↦ rw e d
    | inr e ↦ rw e (append-IsDistinct s x d e)
  ]

  pub remove-IsDistinct : (s : HashSet A) (x : A) → IsDistinct s → IsDistinct (remove s x)
  unfolding remove
  remove-IsDistinct [] x d = tt
  remove-IsDistinct (y ∷ s) x d = elim (dec x y) [
    | yes p ↦ rw (if_pos _ p) d.1
    | no p ↦ rw (if_neg _ p) (ground (arith, contains-remove s x y d.1), remove-IsDistinct s x d.1)
  ]

  pub extend-IsDistinct : (s : HashSet A) (xs : List A) → IsDistinct s → IsDistinct (extend s xs)
  unfolding extend
  extend-IsDistinct s [] d = d
  extend-IsDistinct s (x ∷ xs) d = extend-IsDistinct (insert s x) xs (insert-IsDistinct s x d)

  keep-IsDistinct : (p : A → Bool) (s : HashSet A) → IsDistinct s → IsDistinct (keep p s)
  keep-IsDistinct p [] d = tt
  keep-IsDistinct p (x ∷ s) d = elim (Bool-cases (p x)) [
    | inl e ↦ rw e (rw (contains-keep p s x, d.0), keep-IsDistinct p s d.1)
    | inr e ↦ rw e (keep-IsDistinct p s d.1)
  ]

  pub difference-IsDistinct : (s t : HashSet A) → IsDistinct s → IsDistinct (difference s t)
  unfolding difference
  difference-IsDistinct s t d = keep-IsDistinct (λ x. not (contains t x)) s d

  absent_of_append-IsDistinct :
      (s : HashSet A) (x : A) (xs : List A)
      → IsDistinct (s ++ x ∷ xs)
      → (contains s x ≡ false) × IsDistinct ((s ++ x ∷ []) ++ xs)
  unfolding contains
  absent_of_append-IsDistinct [] x xs d = (refl, d)
  absent_of_append-IsDistinct (y ∷ s) x xs d =
      let rest = absent_of_append-IsDistinct s x xs d.1 in
      let apart : contains (s ++ x ∷ xs) y ≡ false = d.0 in
      (
        ground (arith, rest.0, contains-append s (x ∷ xs) y),
        (rw (append_assoc s (x ∷ []) xs) apart, rest.1),
      )

  extend_of_append : (s : HashSet A) (xs : List A) → IsDistinct (s ++ xs) → extend s xs ≡ s ++ xs
  unfolding extend
  extend_of_append s [] d = sym (append-nil s)
  extend_of_append s (x ∷ xs) d =
      let both = absent_of_append-IsDistinct s x xs d in
      rw both.0 (extend_of_append (s ++ x ∷ []) xs both.1 ∙ append_assoc s (x ∷ []) xs)

  -- Collecting distinct elements keeps them as they are.
  pub extend-nil : (xs : List A) → IsDistinct xs → extend [] xs ≡ xs
  extend-nil xs d = extend_of_append [] xs d
