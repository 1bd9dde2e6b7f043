-- ===== src/StateCompressor/Reload.antt =====
-- Saving a diff and loading the new hash (src/service/rooms/state_compressor/mod.rs).
use matrix_server.Base.{ℕ, ◌≤◌, ◌≡◌, some, arith, length}
use matrix_server.Base.Effect.{ok, err, Error}
use matrix_server.Lru.{LruCache}
use matrix_server.StateCompressor.{
  CompressedStateEvent, EventSet, Stack, Service, StateDiffData, IsHash, load_shortstatehash_info,
  save_state_from_diff,
}
use matrix_server.StateCompressor.Folding.{has}
use matrix_server.StateCompressor.Diff.{IsDiff, IsStack, state_of, patched}
use matrix_server.StateCompressor.Layers.{IsCoherent, load-Layers}
use matrix_server.StateCompressor.Saving.{IsLoaded, save-IsSaved, save-Layers}

module _ {D C : Type 0} (store : StateDiffData D) (lru : LruCache ℕ Stack C) where
  -- The service after `save_state_from_diff`.
  abbrev pub after_save : ℕ → EventSet → EventSet → ℕ → Stack → Service D C → Service D C
  after_save h new gone n parents s = record s {
    db = save_state_from_diff store lru h new gone n parents s.db;
  }

  -- The result of a load, and that it is the state with the diff applied.
  pub record Reloaded (fuel h : ℕ) (s : Service D C) (state new gone : EventSet) : Type 0 where
    pub stack : Stack
    pub cache : C
    pub loaded :
        load_shortstatehash_info store lru fuel h s
        ≡ some (ok stack, record s { stateinfo_cache = cache })
    pub full : (y : CompressedStateEvent) → has (state_of stack) y ≡ patched state new gone y
    pub valid : IsStack stack
    pub depth : length stack ≤ 4
    pub coherent : IsCoherent store lru s.db cache

  -- Saving a diff under a fresh hash, on a parent stack that stands in the database, and then
  -- loading that hash with fuel 4 or more ends with a stack of at most four layers whose full state
  -- is the parent state with the diff applied, however many layers were merged; the load changes
  -- nothing but the cache, which stays coherent with the database. The diff adds absent events and
  -- removes present ones, and the cache is coherent before.
  pub load-save :
      (fuel h : ℕ) (new gone : EventSet) (diff_to_sibling : ℕ) (parents : Stack) (s : Service D C)
      {e : Error}
      → IsCoherent store lru s.db s.stateinfo_cache
      → store.get_statediff s.db h ≡ err e
      → IsHash h
      → IsStack parents
      → IsLoaded store lru s.db parents
      → IsDiff (state_of parents) new gone
      → 4 ≤ fuel
      → Reloaded fuel h
          (after_save h new gone diff_to_sibling parents s)
          (state_of parents)
          new
          gone
  load-save fuel h new gone n parents s k absent hh st l d enough =
      let (stack, saved) = save-IsSaved store lru h new gone n parents s.db absent hh st l d in
      let s' = after_save h new gone n parents s in
      let (cache, loaded, coherent) =
        load-Layers store lru fuel h s' stack
          (λ j r hit.
            save-Layers store lru h new gone n parents s.db absent hh st l d j r (k j r hit))
          saved.layers (omega (arith, saved.depth)) in
      record {
        stack = stack;
        cache = cache;
        loaded = loaded;
        full = saved.state;
        valid = saved.stack;
        depth = saved.depth;
        coherent = coherent;
      }
