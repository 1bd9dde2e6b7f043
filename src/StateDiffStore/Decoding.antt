-- ===== src/StateDiffStore/Decoding.antt =====
-- Reading back what was written (src/database/key_value/rooms/state_compressor.rs).
use matrix_server.Base.{
  ℕ, zero, suc, ◌<◌, ◌≡◌, refl, ◌∙◌, true, false, some, List, [], ◌∷◌, ◌++◌, ltb, length, take,
  drop, arith, All, length-append, take-append, drop-append, append_assoc, ◌*◌, ◌≤◌, if◌then◌else◌,
  is_empty, ◌+◌, ap, Option-cases, inl, inr,
}
use matrix_server.Base.Bytes.{
  Bytes, dec_bytes, to_be_bytes, starts_with, u64_mod, length-to_be_bytes,
  u64_from_bytes-to_be_bytes,
}
use matrix_server.Base.HashSet.{insert, extend, IsDistinct, contains, extend-nil}
use matrix_server.StateCompressor.{EventSet, IsEvent, AreEvents, StateDiff, IsStorable}
use matrix_server.StateDiffStore.{
  concat, read_events, decode_statediff, encode_statediff, parent_or_zero, nonzero, ok,
}

take_exact : (n : ℕ) (xs ys : Bytes) → length xs ≡ n → take n (xs ++ ys) ≡ xs
take_exact n xs ys e = rw (← e) (take-append xs ys)

drop_exact : (n : ℕ) (xs ys : Bytes) → length xs ≡ n → drop n (xs ++ ys) ≡ ys
drop_exact n xs ys e = rw (← e) (drop-append xs ys)

not_short : (xs ys : Bytes) → length xs ≡ 16 → ltb (length (xs ++ ys)) 16 ≡ false
not_short xs ys e = ground (arith, length-append xs ys)

-- One round in each mode, and the round that meets the separator.
round_added :
    (fuel : ℕ) (e more : Bytes) (added removed : EventSet)
    → IsEvent e
    → read_events (suc fuel) true (e ++ more) added removed
      ≡ read_events fuel true more (insert dec_bytes added e) removed
unfolding read_events
round_added fuel e more added removed (n, z) =
    rw (take_exact 16 e more n, drop_exact 16 e more n, not_short e more n) (rw z refl)

round_removed :
    (fuel : ℕ) (e more : Bytes) (added removed : EventSet)
    → length e ≡ 16
    → read_events (suc fuel) false (e ++ more) added removed
      ≡ read_events fuel false more added (insert dec_bytes removed e)
unfolding read_events
round_removed fuel e more added removed n =
    rw (take_exact 16 e more n, drop_exact 16 e more n, not_short e more n) refl

read_removed :
    (fuel : ℕ) (rs : List Bytes) (added removed : EventSet)
    → All IsEvent rs
    → length rs < fuel
    → read_events fuel false (concat rs) added removed ≡ some (added, extend dec_bytes removed rs)
unfolding extend
read_removed (suc fuel) [] added removed h f = unfold read_events in refl
read_removed (suc fuel) (r ∷ rs) added removed h f =
    round_removed fuel r (concat rs) added removed h.0.0
    ∙ read_removed fuel rs added (insert dec_bytes removed r) h.1 (omega arith)
read_removed zero rs added removed h f = absurd (omega arith)

round_separator :
    (fuel : ℕ) (more : Bytes) (added removed : EventSet)
    → 8 ≤ length more
    → read_events (suc fuel) true (to_be_bytes 0 ++ more) added removed
      ≡ read_events fuel false more added removed
unfolding read_events to_be_bytes starts_with
round_separator fuel more added removed h = ground arith

-- The bytes behind the added events: nothing, or the separator and the removed events.
abbrev tail_of : EventSet → Bytes
tail_of removed = if is_empty removed then [] else to_be_bytes 0 ++ concat removed

read_tail :
    (fuel : ℕ) (rs : EventSet) (added : EventSet)
    → All IsEvent rs
    → IsDistinct dec_bytes rs
    → length rs + 1 < fuel
    → read_events fuel true (tail_of rs) added [] ≡ some (added, rs)
read_tail (suc fuel) [] added h d f = unfold read_events in refl
read_tail (suc fuel) (r ∷ rs) added h d f =
    round_separator fuel (concat (r ∷ rs)) added []
      (omega (arith, h.0.0, length-append r (concat rs)))
    ∙ read_removed fuel (r ∷ rs) added [] h (omega arith)
    ∙ ap (λ (s : EventSet). some (added, s)) (extend-nil dec_bytes (r ∷ rs) d)
read_tail zero rs added h d f = absurd (omega arith)

read_added :
    (fuel : ℕ) (es rs : EventSet) (added : EventSet)
    → All IsEvent es
    → All IsEvent rs
    → IsDistinct dec_bytes rs
    → length es + length rs + 1 < fuel
    → read_events fuel true (concat es ++ tail_of rs) added []
      ≡ some (extend dec_bytes added es, rs)
unfolding extend
read_added fuel [] rs added he hr d f = read_tail fuel rs added hr d (omega arith)
read_added (suc fuel) (e ∷ es) rs added he hr d f =
    ap (λ (b : Bytes). read_events (suc fuel) true b added [])
      (append_assoc e (concat es) (tail_of rs))
    ∙ round_added fuel e (concat es ++ tail_of rs) added [] he.0
    ∙ read_added fuel es rs (insert dec_bytes added e) he.1 hr d (omega arith)
read_added zero (e ∷ es) rs added he hr d f = absurd (omega arith)

All-events : (s : EventSet) → AreEvents s → All IsEvent s
unfolding contains
All-events [] h = tt
All-events (e ∷ s) h = (h e (ground arith), All-events s (λ x m. h x (ground arith)))

length-concat : (es : EventSet) → All IsEvent es → length (concat es) ≡ 16 * length es
length-concat [] h = omega arith
length-concat (e ∷ es) h = omega (arith, length-append e (concat es), length-concat es h.1, h.0.0)

length-tail_of : (rs : EventSet) → All IsEvent rs → 16 * length rs ≤ length (tail_of rs)
length-tail_of [] h = omega arith
length-tail_of (r ∷ rs) h =
    omega (arith, length-append (to_be_bytes 0) (concat (r ∷ rs)), length-concat (r ∷ rs) h)

parent_bound : (d : StateDiff) → IsStorable d → parent_or_zero d.parent < u64_mod
parent_bound d st = elim (Option-cases d.parent) [
  | inl e ↦ rw e (omega arith)
  | inr (p, e) ↦ rw e (st.parent_hash p e).1
]

nonzero-parent : (d : StateDiff) → IsStorable d → nonzero (parent_or_zero d.parent) ≡ d.parent
nonzero-parent d st = elim (Option-cases d.parent) [
  | inl e ↦ ground arith
  | inr (p, e) ↦ ground (arith, (st.parent_hash p e).0)
]

-- Decoding the bytes of a storable diff gives the diff back: its parent, its added and its removed
-- events, with fuel enough for the loop. A diff is storable if its parent is no zero hash and its
-- events are distinct, 16 bytes long and begin with a state key other than zero.
pub decode-encode : (d : StateDiff) → IsStorable d → decode_statediff (encode_statediff d) ≡ ok d
unfolding decode_statediff encode_statediff
decode-encode d st =
    let body = concat d.added ++ tail_of d.removed in
    let head = to_be_bytes (parent_or_zero d.parent) in
    let added = All-events d.added st.added_events in
    let rs = All-events d.removed st.removed_events in
    let size : length (head ++ body) ≡ 8 + (16 * length d.added + length (tail_of d.removed)) =
      omega (
        arith,
        length-append head body,
        length-append (concat d.added) (tail_of d.removed),
        length-concat d.added added,
        length-to_be_bytes (parent_or_zero d.parent),
      ) in
    let read =
      read_added (length (head ++ body)) d.added d.removed [] added rs st.removed_distinct
        (omega (arith, size, length-tail_of d.removed rs)) in
    rw
      (
        take_exact 8 head body (length-to_be_bytes _),
        drop_exact 8 head body (length-to_be_bytes _),
        u64_from_bytes-to_be_bytes _ (parent_bound d st),
        read,
        extend-nil dec_bytes d.added st.added_distinct,
        nonzero-parent d st,
      )
      refl
