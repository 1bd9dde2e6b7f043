-- ===== src/StateCompressor/Folding.antt =====
-- Membership in the results of the loops of src/service/rooms/state_compressor/mod.rs.
use matrix_server.Base.{◌≡◌, Bool, not, ◌&&◌, ◌||◌, List, [], ◌∷◌, arith, Bool-cases, inl, inr}
use matrix_server.Base.Bytes.{dec_bytes}
use matrix_server.Base.HashSet.{
  contains, insert, remove, extend, IsDistinct, contains-insert, contains-remove, contains-extend,
  insert-IsDistinct, remove-IsDistinct, extend-IsDistinct,
}
use matrix_server.StateCompressor.{CompressedStateEvent, EventSet, remove_all, apply_diff, shift}

abbrev pub has : EventSet → CompressedStateEvent → Bool
has = contains dec_bytes

remove_all-IsDistinct :
    (s : EventSet) (rs : List CompressedStateEvent)
    → IsDistinct dec_bytes s
    → IsDistinct dec_bytes (remove_all s rs)
unfolding remove_all
remove_all-IsDistinct s [] d = d
remove_all-IsDistinct s (r ∷ rs) d =
    remove_all-IsDistinct (remove dec_bytes s r) rs (remove-IsDistinct dec_bytes s r d)

contains-remove_all :
    (s : EventSet) (rs : List CompressedStateEvent) (y : CompressedStateEvent)
    → IsDistinct dec_bytes s
    → has (remove_all s rs) y ≡ (has s y && not (has rs y))
unfolding remove_all contains
contains-remove_all s [] y d = ground arith
contains-remove_all s (r ∷ rs) y d = ground (
  arith,
  contains-remove_all (remove dec_bytes s r) rs y (remove-IsDistinct dec_bytes s r d),
  contains-remove dec_bytes s r y d,
)

pub contains-apply_diff :
    (state added removed : EventSet) (y : CompressedStateEvent)
    → IsDistinct dec_bytes state
    → has (apply_diff state added removed) y ≡ ((has state y || has added y) && not (has removed y))
unfolding apply_diff
contains-apply_diff state added removed y d = ground (
  arith,
  contains-remove_all (extend dec_bytes state added) removed y
      (extend-IsDistinct dec_bytes state added d),
  contains-extend dec_bytes state added y,
)

pub apply_diff-IsDistinct :
    (state added removed : EventSet)
    → IsDistinct dec_bytes state
    → IsDistinct dec_bytes (apply_diff state added removed)
unfolding apply_diff
apply_diff-IsDistinct state added removed d =
    remove_all-IsDistinct (extend dec_bytes state added) removed
      (extend-IsDistinct dec_bytes state added d)

-- What one loop leaves in `from` and in `to`.
pub record Shifted (from to : EventSet) (xs : List CompressedStateEvent) (r : EventSet × EventSet)
    : Type 0 where
  pub from_distinct : IsDistinct dec_bytes r.0
  pub to_distinct : IsDistinct dec_bytes r.1
  pub in_from : (y : CompressedStateEvent) → has r.0 y ≡ (has from y && not (has xs y))
  pub in_to : (y : CompressedStateEvent) → has r.1 y ≡ (has to y || (has xs y && not (has from y)))

pub shift-Shifted :
    (from to : EventSet) (xs : List CompressedStateEvent)
    → IsDistinct dec_bytes from
    → IsDistinct dec_bytes to
    → IsDistinct dec_bytes xs
    → Shifted from to xs (shift from to xs)
unfolding shift contains
shift-Shifted from to [] df dt dx = record {
  from_distinct = df;
  to_distinct = dt;
  in_from = λ y. ground arith;
  in_to = λ y. ground arith;
}
shift-Shifted from to (x ∷ xs) df dt dx = elim (Bool-cases (has from x)) [
  | inl e ↦ rw e (
      let rest =
        shift-Shifted (remove dec_bytes from x) to xs (remove-IsDistinct dec_bytes from x df) dt
          dx.1 in
      record {
        from_distinct = rest.from_distinct;
        to_distinct = rest.to_distinct;
        in_from = λ y. ground (arith, rest.in_from y, contains-remove dec_bytes from x y df);
        in_to = λ y. ground (arith, rest.in_to y, contains-remove dec_bytes from x y df);
      })
  | inr e ↦ rw e (
      let rest =
        shift-Shifted from (insert dec_bytes to x) xs df (insert-IsDistinct dec_bytes to x dt)
          dx.1 in
      record {
        from_distinct = rest.from_distinct;
        to_distinct = rest.to_distinct;
        in_from = λ y. ground (arith, rest.in_from y, contains-insert dec_bytes to x y);
        in_to = λ y. ground (arith, rest.in_to y, contains-insert dec_bytes to x y);
      })
]
