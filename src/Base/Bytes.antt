-- ===== src/Base/Bytes.antt =====
-- Byte strings, `u64::to_be_bytes` and the helpers of src/utils/mod.rs on bytes.
use matrix_server.Base.Tests.{ltb, ◌==◌, ==_iff, &&-eq-true, if◌then◌else◌, Option-cases}
use matrix_server.Base.Lists.{length}
use Prim.Native.Nat.{ℕ, zero, suc, ◌+◌, ◌*◌, ◌/◌, ◌%◌, ◌^◌, ◌<◌}
use mathlib.Core.Path.{◌≡◌, refl, sym, ap}
use mathlib.Core.Bool.{Bool, true, false, ◌&&◌}
use mathlib.Core.List.{List, [], ◌∷◌, ◌++◌, nil≢cons, head-eq_of_cons-eq, tail-eq_of_cons-eq}
use mathlib.Core.Logic.{inl, inr}
use mathlib.Core.Option.{Option, none, some}
use native.Mathlib.Omega.{arith}
use native.Mathlib.Decide.{ℕ_discrete}

-- A byte is a number below 256.
abbrev pub Bytes : Type 0
Bytes = List ℕ

dec_cons : (x y : ℕ) (xs ys : Bytes) → Dec (x ≡ y) → Dec (xs ≡ ys) → Dec (x ∷ xs ≡ y ∷ ys)
dec_cons x y xs ys (yes p) (yes q) = yes (λ i. p i ∷ q i)
dec_cons x y xs ys (yes p) (no q) = no (λ e. q (tail-eq_of_cons-eq e))
dec_cons x y xs ys (no p) _ = no (λ e. p (head-eq_of_cons-eq e))

-- Equality of byte strings, decided by comparing them byte by byte.
unfoldable pub dec_bytes : Discrete Bytes
unfolding ℕ_discrete dec_cons
dec_bytes [] [] = yes refl
dec_bytes [] (y ∷ ys) = no (λ e. nil≢cons e)
dec_bytes (x ∷ xs) [] = no (λ e. nil≢cons (sym e))
dec_bytes (x ∷ xs) (y ∷ ys) = dec_cons x y xs ys (ℕ_discrete x y) (dec_bytes xs ys)

abbrev pub u64_mod : ℕ
u64_mod = 2 ^ 64

-- `u64::to_be_bytes`
unfoldable pub to_be_bytes : ℕ → Bytes
to_be_bytes n =
    (n / 2 ^ 56) % 256
    ∷ (n / 2 ^ 48) % 256
    ∷ (n / 2 ^ 40) % 256
    ∷ (n / 2 ^ 32) % 256
    ∷ (n / 2 ^ 24) % 256
    ∷ (n / 2 ^ 16) % 256
    ∷ (n / 2 ^ 8) % 256
    ∷ n % 256
    ∷ []

-- `u64::from_be_bytes`, on a slice of any length.
unfoldable pub from_be_bytes : ℕ → Bytes → ℕ
from_be_bytes acc [] = acc
from_be_bytes acc (b ∷ bs) = from_be_bytes (acc * 256 + b) bs

-- `utils::u64_from_bytes`: the slice must hold exactly 8 bytes.
unfoldable pub u64_from_bytes : Bytes → Option ℕ
unfolding from_be_bytes
u64_from_bytes bytes = if length bytes == 8 then some (from_be_bytes 0 bytes) else none

-- `utils::increment`: a missing or malformed counter starts at one. The addition wraps, as in a
-- release build.
unfoldable pub increment : Option Bytes → Bytes
unfolding to_be_bytes u64_from_bytes
increment none = to_be_bytes 1
increment (some bytes) = elim (u64_from_bytes bytes) [
  | some number ↦ to_be_bytes ((number + 1) % u64_mod)
  | none ↦ to_be_bytes 1
]

-- `k.starts_with(prefix)`, with the prefix first.
unfoldable pub starts_with : Bytes → Bytes → Bool
starts_with [] k = true
starts_with (p ∷ ps) [] = false
starts_with (p ∷ ps) (b ∷ bs) = p == b && starts_with ps bs

-- Every 64-bit integer is read back from its big-endian bytes.
pub u64_from_bytes-to_be_bytes : (n : ℕ) → n < u64_mod → u64_from_bytes (to_be_bytes n) ≡ some n
unfolding u64_from_bytes to_be_bytes
u64_from_bytes-to_be_bytes n h = ap some (omega arith)

pub length-to_be_bytes : (n : ℕ) → length (to_be_bytes n) ≡ 8
unfolding to_be_bytes
length-to_be_bytes n = refl

-- A counter is a u64 after an increment, whatever bytes were stored before.
pub u64_from_bytes-increment :
    (old : Option Bytes) → (n : ℕ) × (u64_from_bytes (increment old) ≡ some n) × (n < u64_mod)
unfolding increment
u64_from_bytes-increment none = (1, u64_from_bytes-to_be_bytes 1 (omega arith), omega arith)
u64_from_bytes-increment (some b) = elim (Option-cases (u64_from_bytes b)) [
  | inl bad ↦ rw (bad, increment) (1, u64_from_bytes-to_be_bytes 1 (omega arith), omega arith)
  | inr (m, ok) ↦
      let n = (m + 1) % u64_mod in
      let lt : n < u64_mod = omega arith in
      rw (ok, increment) (n, u64_from_bytes-to_be_bytes n lt, lt)
]

pub starts_with-append : (p s : Bytes) → starts_with p (p ++ s) ≡ true
unfolding starts_with
starts_with-append [] s = refl
starts_with-append (x ∷ p) s = ground (arith, starts_with-append p s)

-- A key that begins with a prefix is the prefix and a rest.
pub rest_of_starts_with : (p k : Bytes) → starts_with p k ≡ true → (s : Bytes) × (k ≡ p ++ s)
unfolding starts_with
rest_of_starts_with [] k h = (k, refl)
rest_of_starts_with (x ∷ p) [] h = cc
rest_of_starts_with (x ∷ p) (y ∷ k) h =
    let both = &&-eq-true (x == y) (starts_with p k) h in
    let (s, e) = rest_of_starts_with p k both.1 in (s, λ i. (sym ((==_iff x y).0 both.0)) i ∷ e i)

pub to_be_bytes_injective :
    (m n : ℕ) → m < u64_mod → n < u64_mod → to_be_bytes m ≡ to_be_bytes n → m ≡ n
to_be_bytes_injective m n hm hn e =
    ground (arith, u64_from_bytes-to_be_bytes m hm, u64_from_bytes-to_be_bytes n hn)

-- `n.to_string()`: the decimal digits. A u64 has at most 20 of them, so 20 is enough fuel.
unfoldable pub digits : ℕ → ℕ → Bytes
digits zero n = []
digits (suc fuel) n =
    let higher = digits fuel (n / 10) in
    if ltb n 10 then (48 + n) ∷ [] else higher ++ (48 + n % 10) ∷ []

unfoldable pub to_string : ℕ → Bytes
unfolding digits
to_string n = digits 20 n
