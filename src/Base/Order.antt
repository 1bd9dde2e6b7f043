-- ===== src/Base/Order.antt =====
-- The order of keys, byte by byte, as the engines keep them.
use matrix_server.Base.Tests.{ltb, leb, ◌==◌}
use matrix_server.Base.Lists.{length}
use matrix_server.Base.Bytes.{Bytes, starts_with, to_be_bytes, u64_mod}
use Prim.Native.Nat.{ℕ, ◌+◌, ◌*◌, ◌≤◌, ◌<◌}
use mathlib.Core.Path.{◌≡◌, refl, ◌∙◌}
use mathlib.Core.Bool.{Bool, true, false, ◌&&◌, ◌||◌}
use mathlib.Core.List.{[], ◌∷◌, ◌++◌}
use native.Mathlib.Omega.{arith}

unfoldable pub le_bytes : Bytes → Bytes → Bool
le_bytes [] ys = true
le_bytes (x ∷ xs) [] = false
le_bytes (x ∷ xs) (y ∷ ys) = ltb x y || (x == y && le_bytes xs ys)

pub le_bytes_refl : (xs : Bytes) → le_bytes xs xs ≡ true
unfolding le_bytes
le_bytes_refl [] = refl
le_bytes_refl (x ∷ xs) = ground (arith, le_bytes_refl xs)

pub le_bytes_total : (xs ys : Bytes) → le_bytes xs ys ≡ false → le_bytes ys xs ≡ true
unfolding le_bytes
le_bytes_total [] ys h = ground arith
le_bytes_total (x ∷ xs) [] h = refl
le_bytes_total (x ∷ xs) (y ∷ ys) h = ground (arith, le_bytes_total xs ys)

pub le_bytes_trans :
    (xs ys zs : Bytes) → le_bytes xs ys ≡ true → le_bytes ys zs ≡ true → le_bytes xs zs ≡ true
unfolding le_bytes
le_bytes_trans [] ys zs h k = refl
le_bytes_trans (x ∷ xs) [] zs h k = ground arith
le_bytes_trans (x ∷ xs) (y ∷ ys) [] h k = ground arith
le_bytes_trans (x ∷ xs) (y ∷ ys) (z ∷ zs) h k = ground (arith, le_bytes_trans xs ys zs)

-- Between a key with a prefix and an extension of the prefix, every key has the prefix.
pub starts_with_between :
    (p x j k : Bytes)
    → starts_with p j ≡ true
    → le_bytes j k ≡ true
    → le_bytes k (p ++ x) ≡ true
    → starts_with p k ≡ true
unfolding starts_with le_bytes
starts_with_between [] x j k s h h' = refl
starts_with_between (a ∷ p) x [] k s h h' = ground arith
starts_with_between (a ∷ p) x (b ∷ j) [] s h h' = ground arith
starts_with_between (a ∷ p) x (b ∷ j) (c ∷ k) s h h' = ground (arith, starts_with_between p x j k)

-- The same from below, for a key that follows one with the prefix.
pub starts_with_between' :
    (p x j k : Bytes)
    → starts_with p k ≡ true
    → le_bytes (p ++ x) j ≡ true
    → le_bytes j k ≡ true
    → starts_with p j ≡ true
unfolding starts_with le_bytes
starts_with_between' [] x j k s h h' = refl
starts_with_between' (a ∷ p) x j [] s h h' = ground arith
starts_with_between' (a ∷ p) x [] (c ∷ k) s h h' = ground arith
starts_with_between' (a ∷ p) x (b ∷ j) (c ∷ k) s h h' = ground (arith, starts_with_between' p x j k)

pub le_bytes-append : (p x y : Bytes) → le_bytes (p ++ x) (p ++ y) ≡ le_bytes x y
unfolding le_bytes
le_bytes-append [] x y = refl
le_bytes-append (a ∷ p) x y = ground (arith, le_bytes-append p x y)

abbrev weight : Bytes → ℕ
weight [] = 1
weight (x ∷ xs) = weight xs * 256

abbrev value : Bytes → ℕ
value [] = 0
value (x ∷ xs) = x * weight xs + value xs

abbrev AreBytes : Bytes → Type 0
AreBytes [] = Unit {0}
AreBytes (x ∷ xs) = (x < 256) × AreBytes xs

digit_gap : (x y w : ℕ) → x < y → x * w + w ≤ y * w
digit_gap x y w h = grind arith

digit_top : (x w : ℕ) → x < 256 → x * w + w ≤ w * 256
digit_top x w h = grind arith

value-lt-weight : (xs : Bytes) → AreBytes xs → value xs < weight xs
value-lt-weight [] h = omega arith
value-lt-weight (x ∷ xs) h = omega (arith, value-lt-weight xs h.1, digit_top x (weight xs) h.0)

weight_of_length : (xs ys : Bytes) → length xs ≡ length ys → weight xs ≡ weight ys
weight_of_length [] [] h = refl
weight_of_length [] (y ∷ ys) h = absurd (omega arith)
weight_of_length (x ∷ xs) [] h = absurd (omega arith)
weight_of_length (x ∷ xs) (y ∷ ys) h = omega (arith, weight_of_length xs ys (omega arith))

compare_digits :
    (x y w v v' : ℕ) (b : Bool)
    → v < w
    → v' < w
    → b ≡ leb v v'
    → (ltb x y || (x == y && b)) ≡ leb (x * w + v) (y * w + v')
compare_digits x y w v v' b h h' e = grind (arith, digit_gap x y w, digit_gap y x w)

le_bytes-value :
    (xs ys : Bytes)
    → AreBytes xs
    → AreBytes ys
    → length xs ≡ length ys
    → le_bytes xs ys ≡ leb (value xs) (value ys)
unfolding le_bytes
le_bytes-value [] [] h k e = refl
le_bytes-value [] (y ∷ ys) h k e = absurd (omega arith)
le_bytes-value (x ∷ xs) [] h k e = absurd (omega arith)
le_bytes-value (x ∷ xs) (y ∷ ys) h k e =
    let same = weight_of_length xs ys (omega arith) in
    let smaller : value ys < weight xs = omega (arith, same, value-lt-weight ys k.1) in
    rw (← same) (
      compare_digits x y (weight xs) (value xs) (value ys) (le_bytes xs ys) (value-lt-weight xs h.1)
        smaller (le_bytes-value xs ys h.1 k.1 (omega arith)))

value-to_be_bytes : (n : ℕ) → n < u64_mod → value (to_be_bytes n) ≡ n
unfolding to_be_bytes
value-to_be_bytes n h = omega arith

to_be_bytes-AreBytes : (n : ℕ) → AreBytes (to_be_bytes n)
unfolding to_be_bytes
to_be_bytes-AreBytes n = omega arith

-- Big-endian bytes are ordered as their numbers.
pub le_bytes-to_be_bytes :
    (m n : ℕ) → m < u64_mod → n < u64_mod → le_bytes (to_be_bytes m) (to_be_bytes n) ≡ leb m n
le_bytes-to_be_bytes m n hm hn =
    le_bytes-value (to_be_bytes m) (to_be_bytes n) (to_be_bytes-AreBytes m) (to_be_bytes-AreBytes n)
      (unfold to_be_bytes in refl)
    ∙ rw (value-to_be_bytes m hm, value-to_be_bytes n hn) refl
