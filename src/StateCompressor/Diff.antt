-- ===== src/StateCompressor/Diff.antt =====
-- Diffs against a state, and what folding a diff into its parent's diff does to them
-- (src/service/rooms/state_compressor/mod.rs, `save_state_from_diff`).
use matrix_server.Base.{◌≡◌, Bool, true, false, not, ◌&&◌, ◌||◌, [], ◌∷◌, arith, ◌⊎◌, inl, inr}
use matrix_server.Base.Bytes.{dec_bytes}
use matrix_server.Base.HashSet.{IsDistinct}
use matrix_server.StateCompressor.{
  CompressedStateEvent, EventSet, StateInfo, Stack, AreEvents, shift, fold_into_parent,
}
use matrix_server.StateCompressor.Folding.{has, Shifted, shift-Shifted}

-- `added` are events that are not in the state, `removed` are events that are in it.
pub record IsDiff (state added removed : EventSet) : Type 0 where
  pub added_distinct : IsDistinct dec_bytes added
  pub removed_distinct : IsDistinct dec_bytes removed
  pub added_events : AreEvents added
  pub removed_events : AreEvents removed
  pub added_absent : (y : CompressedStateEvent) → has added y ≡ true → has state y ≡ false
  pub removed_present : (y : CompressedStateEvent) → has removed y ≡ true → has state y ≡ true

-- Membership in a state after a diff.
abbrev pub patched : EventSet → EventSet → EventSet → CompressedStateEvent → Bool
patched state added removed y = (has state y || has added y) && not (has removed y)

-- A layer's full state is the state of the layer below, patched by the layer's diff.
pub record IsLayer (info : StateInfo) (base : EventSet) : Type 0 where
  pub diff : IsDiff base info.added info.removed
  pub full_distinct : IsDistinct dec_bytes info.full_state
  pub full_lem :
      (y : CompressedStateEvent) → has info.full_state y ≡ patched base info.added info.removed y

-- The state that a stack stands for; no layer is the empty state.
abbrev pub state_of : Stack → EventSet
state_of [] = []
state_of (top ∷ below) = top.full_state

abbrev pub IsStack : Stack → Type 0
IsStack [] = Unit {0}
IsStack (top ∷ below) = IsLayer top (state_of below) × IsStack below

module _ {parent : StateInfo} {base new gone : EventSet} (l : IsLayer parent base)
    (d : IsDiff parent.full_state new gone) where
  first : Shifted parent.added parent.removed gone (shift parent.added parent.removed gone)
  first =
      shift-Shifted parent.added parent.removed gone l.diff.added_distinct l.diff.removed_distinct
        d.removed_distinct

  abbrev after_first : EventSet × EventSet
  after_first = shift parent.added parent.removed gone

  second : Shifted after_first.1 after_first.0 new (shift after_first.1 after_first.0 new)
  second =
      shift-Shifted after_first.1 after_first.0 new first.to_distinct first.from_distinct
        d.added_distinct

  abbrev folded : EventSet × EventSet
  folded = fold_into_parent parent new gone

  in_new :
      (y : CompressedStateEvent)
      → has folded.0 y ≡ (
          (has parent.added y && not (has gone y))
          || (has new y && not (has parent.removed y || (has gone y && not (has parent.added y)))))
  unfolding fold_into_parent
  in_new y = ground (arith, second.in_to y, first.in_from y, first.in_to y)

  in_gone :
      (y : CompressedStateEvent)
      → has folded.1 y
        ≡ ((has parent.removed y || (has gone y && not (has parent.added y))) && not (has new y))
  unfolding fold_into_parent
  in_gone y = ground (arith, second.in_from y, first.in_to y)

  origin_of_new :
      (y : CompressedStateEvent)
      → has folded.0 y ≡ true
      → (has parent.added y ≡ true) ⊎ (has new y ≡ true)
  origin_of_new y h = ground (arith, in_new y)

  origin_of_gone :
      (y : CompressedStateEvent)
      → has folded.1 y ≡ true
      → (has parent.removed y ≡ true) ⊎ (has gone y ≡ true)
  origin_of_gone y h = ground (arith, in_gone y)

  -- The folded diff gives the same state on the layer below.
  pub patched-fold :
      (y : CompressedStateEvent)
      → patched base folded.0 folded.1 y ≡ patched parent.full_state new gone y
  patched-fold y = ground (
    arith,
    in_new y,
    in_gone y,
    l.full_lem y,
    l.diff.added_absent y,
    l.diff.removed_present y,
    d.added_absent y,
    d.removed_present y,
  )

  pub fold-IsDiff : IsDiff base folded.0 folded.1
  fold-IsDiff = record {
    added_distinct = unfold fold_into_parent in second.to_distinct;
    removed_distinct = unfold fold_into_parent in second.from_distinct;
    added_events = λ y h. elim (origin_of_new y h) [
      | inl old ↦ l.diff.added_events y old
      | inr fresh ↦ d.added_events y fresh
    ];
    removed_events = λ y h. elim (origin_of_gone y h) [
      | inl old ↦ l.diff.removed_events y old
      | inr fresh ↦ d.removed_events y fresh
    ];
    added_absent = λ y h. ground (
      arith,
      in_new y,
      l.full_lem y,
      l.diff.added_absent y,
      l.diff.removed_present y,
      d.added_absent y,
      d.removed_present y,
    );
    removed_present = λ y h. ground (
      arith,
      in_gone y,
      l.full_lem y,
      l.diff.added_absent y,
      l.diff.removed_present y,
      d.added_absent y,
      d.removed_present y,
    );
  }
