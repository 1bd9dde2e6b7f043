-- ===== src/StateCompressor/Saving.antt =====
-- What `save_state_from_diff` leaves in the database (src/service/rooms/state_compressor/mod.rs).
use matrix_server.Base.{
  ℕ, ◌+◌, ◌≤◌, ◌≡◌, refl, ◌∙◌, none, some, [], ◌∷◌, arith, length, inl, inr, Bool-cases, ltb,
  le_of_not-ltb,
}
use matrix_server.Base.HashSet.{contains}
use matrix_server.Base.Effect.{ok, err, Error}
use matrix_server.Lru.{LruCache}
use matrix_server.StateCompressor.{
  CompressedStateEvent, EventSet, StateDiff, StateInfo, Stack, StateDiffData, IsHash, IsStorable,
  layer, apply_diff, fold_into_parent, is_too_big, save_state_from_diff,
}
use matrix_server.StateCompressor.Folding.{has, contains-apply_diff, apply_diff-IsDistinct}
use matrix_server.StateCompressor.Diff.{
  IsDiff, IsLayer, IsStack, state_of, patched, patched-fold, fold-IsDiff,
}
use matrix_server.StateCompressor.Layers.{Layers, Layers-save}

module _ {D C : Type 0} (store : StateDiffData D) (lru : LruCache ℕ Stack C) where
  open store use {get_statediff, save_statediff, get-save}

  abbrev save : ℕ → EventSet → EventSet → ℕ → Stack → D → D
  save = save_state_from_diff store lru

  -- The stack that `load_shortstatehash_info` returned for the previous state of a room.
  abbrev pub IsLoaded : D → Stack → Type 0
  IsLoaded db [] = Unit {0}
  IsLoaded db (top ∷ below) = Layers store db top.shortstatehash (top ∷ below)

  IsLoaded-below :
      (db : D) (top : StateInfo) (below : Stack) → IsLoaded db (top ∷ below) → IsLoaded db below
  IsLoaded-below db top [] l = tt
  IsLoaded-below db top (next ∷ below) (_, _, _, _, _, l) = l

  -- A stack stands in the database under `h`, gives the patched state, and has at most four layers.
  pub record IsSaved (db : D) (h : ℕ) (base added removed : EventSet) (st : Stack) : Type 0 where
    pub layers : Layers store db h st
    pub stack : IsStack st
    pub state : (y : CompressedStateEvent) → has (state_of st) y ≡ patched base added removed y
    pub depth : length st ≤ 4

  IsStorable-root :
      {base new gone : EventSet}
      → IsDiff base new gone
      → IsStorable (record { parent = none; added = new; removed = gone })
  IsStorable-root d = record {
    parent_hash = λ p e. ground arith;
    added_distinct = d.added_distinct;
    removed_distinct = d.removed_distinct;
    added_events = d.added_events;
    removed_events = d.removed_events;
  }

  IsStorable-layer :
      {base new gone : EventSet} (p : ℕ)
      → IsHash p
      → IsDiff base new gone
      → IsStorable (record { parent = some p; added = new; removed = gone })
  IsStorable-layer p hp d = record {
    parent_hash = λ q e. ground arith;
    added_distinct = d.added_distinct;
    removed_distinct = d.removed_distinct;
    added_events = d.added_events;
    removed_events = d.removed_events;
  }

  written :
      (db : D) (h : ℕ) (diff : StateDiff)
      → IsHash h
      → IsStorable diff
      → get_statediff (save_statediff db h diff) h ≡ ok diff
  written db h diff hh st = ground (arith, get-save db h h diff hh hh st)

  IsSaved-root :
      (db : D) (h : ℕ) (new gone : EventSet)
      → IsHash h
      → IsDiff [] new gone
      → IsSaved
          (save_statediff db h (record { parent = none; added = new; removed = gone }))
          h
          []
          new
          gone
          (layer h (record { parent = none; added = new; removed = gone }) new ∷ [])
  unfolding contains
  IsSaved-root db h new gone hh d = record {
    layers = (_, written db h _ hh (IsStorable-root d), hh, refl, refl);
    stack = (
      record {
        diff = d;
        full_distinct = d.added_distinct;
        full_lem = λ y. ground (arith, d.removed_present y);
      },
      tt,
    );
    state = λ y. ground (arith, d.removed_present y);
    depth = omega arith;
  }

  IsHash-of_loaded :
      (db : D) (h : ℕ) (top : StateInfo) (below : Stack)
      → Layers store db h (top ∷ below)
      → IsHash h
  IsHash-of_loaded db h top [] (_, _, hh, _, _) = hh
  IsHash-of_loaded db h top (next ∷ below) (_, _, hh, _, _, _) = hh

  IsSaved-layer :
      (db : D) (h : ℕ) (new gone : EventSet) (top : StateInfo) (below : Stack) {e : Error}
      → get_statediff db h ≡ err e
      → IsHash h
      → IsDiff top.full_state new gone
      → IsStack (top ∷ below)
      → IsLoaded db (top ∷ below)
      → length (top ∷ below) ≤ 3
      → IsSaved
          (save_statediff db h
            (record { parent = some top.shortstatehash; added = new; removed = gone }))
          h
          top.full_state
          new
          gone
          (layer h
              (record { parent = some top.shortstatehash; added = new; removed = gone })
              (apply_diff top.full_state new gone)
            ∷ top
            ∷ below)
  IsSaved-layer db h new gone top below absent hh d st l short =
      let hp = IsHash-of_loaded db top.shortstatehash top below l in
      let full = contains-apply_diff top.full_state new gone in
      record {
        layers = (
          _,
          written db h _ hh (IsStorable-layer top.shortstatehash hp d),
          hh,
          refl,
          refl,
          Layers-save store db h top.shortstatehash _ (top ∷ below) absent hh
              (IsStorable-layer top.shortstatehash hp d) l,
        );
        stack = (
          record {
            diff = d;
            full_distinct = apply_diff-IsDistinct top.full_state new gone st.0.full_distinct;
            full_lem = λ y. full y st.0.full_distinct;
          },
          st,
        );
        state = λ y. full y st.0.full_distinct;
        depth = omega arith;
      }

  -- A stack for the folded diff on the layer below serves for the diff itself.
  IsSaved-deeper :
      {db : D} {h : ℕ} {parent : StateInfo} {base new gone : EventSet} {st : Stack}
      → IsLayer parent base
      → IsDiff parent.full_state new gone
      → IsSaved db h base
          (fold_into_parent parent new gone).0
          (fold_into_parent parent new gone).1
          st
      → IsSaved db h parent.full_state new gone st
  IsSaved-deeper l d s = record {
    layers = s.layers;
    stack = s.stack;
    state = λ y. s.state y ∙ patched-fold l d y;
    depth = s.depth;
  }

  -- After saving, the hash has a stack in the database that gives the state of the parent stack
  -- with the diff applied, whatever layers were merged, and at most four layers.
  pub save-IsSaved :
      (h : ℕ) (new gone : EventSet) (diff_to_sibling : ℕ) (parents : Stack) (db : D) {e : Error}
      → get_statediff db h ≡ err e
      → IsHash h
      → IsStack parents
      → IsLoaded db parents
      → IsDiff (state_of parents) new gone
      → (st : Stack) × IsSaved
          (save h new gone diff_to_sibling parents db)
          h
          (state_of parents)
          new
          gone
          st
  unfolding save_state_from_diff
  save-IsSaved h new gone n [] db absent hh st l d = (_, IsSaved-root db h new gone hh d)
  save-IsSaved h new gone n (parent ∷ rest) db absent hh st l d =
      let diffsum = length new + length gone in
      let folded = fold_into_parent parent new gone in
      let rec =
        save-IsSaved h folded.0 folded.1 diffsum rest db absent hh st.1
          (IsLoaded-below db parent rest l) (fold-IsDiff st.0 d) in
      elim (Bool-cases (ltb 3 (length (parent ∷ rest)))) [
        | inl e ↦ rw e (rec.0, IsSaved-deeper st.0 d rec.1)
        | inr e ↦
            elim (Bool-cases (is_too_big diffsum n (length parent.added + length parent.removed))) [
              | inl e' ↦ rw (e, e') (rec.0, IsSaved-deeper st.0 d rec.1)
              | inr e' ↦
                  rw (e, e')
                    (
                      _,
                      IsSaved-layer db h new gone parent rest absent hh d st l
                          (le_of_not-ltb 3 (length (parent ∷ rest)) e),
                    )
            ]
      ]

  -- `save_state_from_diff`, of a diff under a hash, keeps every chain of diffs that the database
  -- holds, for any hash and stack. The given hash holds nothing in the database, and is positive
  -- and below 2^64. The parents are a valid stack (each layer's full state is the state below it,
  -- patched by the layer's valid diff), and the database holds its chain, or they are empty. The
  -- diff is valid on the parents' state: its events are distinct and of 16 bytes, none of them
  -- begins with the separator, those added are absent from that state, and those removed are
  -- present in it.
  pub save-Layers :
      (h : ℕ) (new gone : EventSet) (diff_to_sibling : ℕ) (parents : Stack) (db : D) {e : Error}
      → get_statediff db h ≡ err e
      → IsHash h
      → IsStack parents
      → IsLoaded db parents
      → IsDiff (state_of parents) new gone
      → (j : ℕ) (st : Stack) → Layers store db j st
      → Layers store (save h new gone diff_to_sibling parents db) j st
  unfolding save_state_from_diff
  save-Layers h new gone n [] db absent hh st l d j sj lj =
      Layers-save store db h j _ sj absent hh (IsStorable-root d) lj
  save-Layers h new gone n (parent ∷ rest) db absent hh st l d j sj lj =
      let diffsum = length new + length gone in
      let folded = fold_into_parent parent new gone in
      let rec =
        save-Layers h folded.0 folded.1 diffsum rest db absent hh st.1
          (IsLoaded-below db parent rest l) (fold-IsDiff st.0 d) j sj lj in
      let hp = IsHash-of_loaded db parent.shortstatehash parent rest l in
      elim (Bool-cases (ltb 3 (length (parent ∷ rest)))) [
        | inl e ↦ rw e rec
        | inr e ↦
            elim (Bool-cases (is_too_big diffsum n (length parent.added + length parent.removed))) [
              | inl e' ↦ rw (e, e') rec
              | inr e' ↦
                  rw (e, e')
                    (Layers-save store db h j _ sj absent hh
                      (IsStorable-layer parent.shortstatehash hp d) lj)
            ]
      ]
