-- ===== src/StateCompressor/SaveState.antt =====
-- src/service/rooms/state_compressor/mod.rs: `save_state`, on the short ids and the diffs.
use matrix_server.Base.{
  ℕ, ◌≤◌, ◌≡◌, refl, sym, ◌∙◌, Bool, false, ◌==◌, Option, none, some, List, [], ◌∷◌, if◌then◌else◌,
  arith, length, Bool-cases, inl, inr,
}
use mathlib.Core.Path.{subst}
use matrix_server.Base.Bytes.{Bytes, dec_bytes}
use matrix_server.Base.HashSet.{
  contains, difference, contains-difference, difference-IsDistinct, IsDistinct,
}
use matrix_server.Base.Effect.{Result, ok, err, Error}
use matrix_server.Storage.{KvTree}
use matrix_server.Lru.{LruCache}
use matrix_server.Short.{ShortDb, get_or_create_shortstatehash}
use matrix_server.StateCompressor.{
  CompressedStateEvent, EventSet, Stack, Service, StateDiffData, IsHash, AreEvents,
  load_shortstatehash_info, save_state_from_diff,
}
use matrix_server.StateCompressor.Folding.{has}
use matrix_server.StateCompressor.Diff.{IsDiff, IsStack, state_of, patched}
use matrix_server.StateCompressor.Layers.{Layers, IsCoherent, load-Layers, hash_of_head}
use matrix_server.StateCompressor.Saving.{IsLoaded}
use matrix_server.StateCompressor.Reload.{load-save}

-- The short ids, and the service with its database and cache.
pub record States (T D C : Type 0) (L : Type 0 → Type 0 → Type 0) : Type 0 where
  pub short : ShortDb T L
  pub service : Service D C

-- `statediffnew` and `statediffremoved`.
unfoldable pub diff_to : Stack → EventSet → EventSet × EventSet
diff_to [] new = (new, [])
diff_to (parent ∷ rest) new =
    (difference dec_bytes new parent.full_state, difference dec_bytes parent.full_state new)

abbrev is_previous : Option ℕ → ℕ → Bool
is_previous none h = false
is_previous (some p) h = p == h

-- `calculate_hash` is a hash of the crate `ring`, on the events in the order of iteration.
module _ {T D C : Type 0} {L : Type 0 → Type 0 → Type 0} (kv : KvTree T)
    (caches : (K V : Type 0) → LruCache K V (L K V)) (store : StateDiffData D)
    (lru : LruCache ℕ Stack C) (calculate_hash : List Bytes → Bytes) where
  abbrev pub Saved : Type 0
  Saved = Option (Result (ℕ × EventSet × EventSet) × States T D C L)

  unfoldable pub load_parents : ℕ → Option ℕ → Service D C → Option (Result Stack × Service D C)
  load_parents fuel none s = some (ok [], s)
  load_parents fuel (some p) s = load_shortstatehash_info store lru fuel p s

  -- What is left to do when the parents are loaded.
  unfoldable pub save_diff :
      ℕ → Bool → EventSet → ShortDb T L → Option (Result Stack × Service D C) → Saved
  unfolding diff_to
  save_diff h already_existed new short none = none
  save_diff h already_existed new short (some (err e, s)) =
      some (err e, record { short = short; service = s })
  save_diff h already_existed new short (some (ok parents, s)) =
      let d = diff_to parents new in
      let saved = save_state_from_diff store lru h d.0 d.1 2 parents s.db in
      some (
        ok (h, d.0, d.1),
        record { short = short; service = if already_existed then s else record s { db = saved } },
      )

  -- What is left to do when the state's hash has a short id; the flag says whether it had one.
  unfoldable pub save_hashed :
      ℕ → Option ℕ → EventSet → Service D C → Result (ℕ × Bool) × ShortDb T L → Saved
  unfolding load_parents save_diff
  save_hashed fuel previous new s (err e, short) =
      some (err e, record { short = short; service = s })
  save_hashed fuel previous new s (ok (h, already_existed), short) =
      let diff = save_diff h already_existed new short (load_parents fuel previous s) in
      if is_previous previous h
      then some (ok (h, [], []), record { short = short; service = s })
      else diff

  -- The previous hash is that of `get_room_shortstatehash`.
  unfoldable pub save_state : ℕ → Option ℕ → EventSet → States T D C L → Saved
  unfolding save_hashed
  save_state fuel previous new s =
      save_hashed fuel previous new s.service
        (get_or_create_shortstatehash kv caches (calculate_hash new) s.short)

AreEvents-state_of : (st : Stack) → IsStack st → AreEvents (state_of st)
unfolding contains
AreEvents-state_of [] h e m = absurd (ground arith)
AreEvents-state_of (top ∷ below) h e m = elim (Bool-cases (has (state_of below) e)) [
  | inl old ↦ AreEvents-state_of below h.1 e old
  | inr absent ↦ h.0.diff.added_events e (ground (arith, h.0.full_lem e))
]

full-IsDistinct : (st : Stack) → IsStack st → IsDistinct dec_bytes (state_of st)
full-IsDistinct [] h = tt
full-IsDistinct (top ∷ below) h = h.0.full_distinct

AreEvents-difference : (s t : EventSet) → AreEvents s → AreEvents (difference dec_bytes s t)
AreEvents-difference s t h e m = h e (ground (arith, contains-difference dec_bytes s t e))

diff_to-IsDiff :
    (st : Stack) (new : EventSet)
    → IsStack st
    → IsDistinct dec_bytes new
    → AreEvents new
    → IsDiff (state_of st) (diff_to st new).0 (diff_to st new).1
unfolding diff_to contains
diff_to-IsDiff [] new h d ev = record {
  added_distinct = d;
  removed_distinct = tt;
  added_events = ev;
  removed_events = λ e m. absurd (ground arith);
  added_absent = λ y m. refl;
  removed_present = λ y m. absurd (ground arith);
}
diff_to-IsDiff (top ∷ below) new h d ev = record {
  added_distinct = difference-IsDistinct dec_bytes new top.full_state d;
  removed_distinct = difference-IsDistinct dec_bytes top.full_state new h.0.full_distinct;
  added_events = AreEvents-difference new top.full_state ev;
  removed_events = AreEvents-difference top.full_state new (AreEvents-state_of (top ∷ below) h);
  added_absent = λ y m. ground (arith, contains-difference dec_bytes new top.full_state y);
  removed_present = λ y m. ground (arith, contains-difference dec_bytes top.full_state new y);
}

-- The diff leads from the parents' state to the new one.
patched-diff_to :
    (st : Stack) (new : EventSet) (y : CompressedStateEvent)
    → patched (state_of st) (diff_to st new).0 (diff_to st new).1 y ≡ has new y
unfolding diff_to contains
patched-diff_to [] new y = ground arith
patched-diff_to (top ∷ below) new y = ground (
  arith,
  contains-difference dec_bytes new top.full_state y,
  contains-difference dec_bytes top.full_state new y,
)

module _ {T D C : Type 0} {L : Type 0 → Type 0 → Type 0} (kv : KvTree T)
    (caches : (K V : Type 0) → LruCache K V (L K V)) (store : StateDiffData D)
    (lru : LruCache ℕ Stack C) (calculate_hash : List Bytes → Bytes) where
  -- The stack of the previous state.
  abbrev pub IsPrevious : D → Option ℕ → Stack → Type 0
  IsPrevious db none st = st ≡ []
  IsPrevious db (some p) st = Layers store db p st

  loaded_parents :
      (fuel : ℕ) (previous : Option ℕ) (st : Stack) (s : Service D C)
      → IsCoherent store lru s.db s.stateinfo_cache
      → IsPrevious s.db previous st
      → length st ≤ fuel
      → (c : C) × (load_parents kv caches store lru calculate_hash fuel previous s
          ≡ some (ok st, record s { stateinfo_cache = c }))
        × IsCoherent store lru s.db c
  unfolding load_parents
  loaded_parents fuel none st s k e f = (s.stateinfo_cache, rw e refl, k)
  loaded_parents fuel (some p) st s k l f = load-Layers store lru fuel p s st k l f

  previous-IsLoaded :
      (db : D) (previous : Option ℕ) (st : Stack)
      → IsPrevious db previous st
      → IsLoaded store lru db st
  previous-IsLoaded db previous [] l = tt
  previous-IsLoaded db none (top ∷ below) l = absurd (ground arith)
  previous-IsLoaded db (some p) (top ∷ below) l =
      subst (λ x. Layers store db x (top ∷ below)) (sym (hash_of_head store db p top below l)) l

  -- The result of saving a state, and that the new hash loads that state.
  pub record StateSaved (fuel h : ℕ) (previous : Option ℕ) (new : EventSet) (s : States T D C L)
      : Type 0 where
    pub added : EventSet
    pub removed : EventSet
    pub state : States T D C L
    pub returned :
        save_state kv caches store lru calculate_hash fuel previous new s
        ≡ some (ok (h, added, removed), state)
    pub stack : Stack
    pub cache : C
    pub loaded :
        load_shortstatehash_info store lru 4 h state.service
        ≡ some (ok stack, record state.service { stateinfo_cache = cache })
    pub full : (y : CompressedStateEvent) → has (state_of stack) y ≡ has new y

  -- If the hash of a state gets a new short id that holds no diff yet and is not the previous one,
  -- then `save_state` succeeds with that id, and loading it with fuel 4 gives exactly the events of
  -- the state, whatever the previous state of the room was. The previous state has a stack in the
  -- database no higher than the fuel, the cache is coherent, and the state is a set of valid
  -- events.
  pub load-save_state :
      (fuel h : ℕ) (previous : Option ℕ) (new : EventSet) (st : Stack) (s : States T D C L)
      (short : ShortDb T L) {e : Error}
      → get_or_create_shortstatehash kv caches (calculate_hash new) s.short ≡ (ok (h, false), short)
      → is_previous previous h ≡ false
      → store.get_statediff s.service.db h ≡ err e
      → IsHash h
      → IsCoherent store lru s.service.db s.service.stateinfo_cache
      → IsPrevious s.service.db previous st
      → IsStack st
      → length st ≤ fuel
      → IsDistinct dec_bytes new
      → AreEvents new
      → StateSaved fuel h previous new s
  unfolding save_state save_hashed save_diff
  load-save_state fuel h previous new st s short hashed other absent hh k l stack enough d ev =
      let (c, loaded, coherent) = loaded_parents fuel previous st s.service k l enough in
      let mid : Service D C = record s.service { stateinfo_cache = c } in
      let diff = diff_to st new in
      let r =
        load-save store lru 4 h diff.0 diff.1 2 st mid coherent absent hh stack
          (previous-IsLoaded s.service.db previous st l) (diff_to-IsDiff st new stack d ev)
          (omega arith) in
      record {
        added = diff.0;
        removed = diff.1;
        state = record {
          short = short;
          service = record mid {
            db = save_state_from_diff store lru h diff.0 diff.1 2 st s.service.db;
          };
        };
        returned = rw (hashed, loaded, other) refl;
        stack = r.stack;
        cache = r.cache;
        loaded = r.loaded;
        full = λ y. r.full y ∙ patched-diff_to st new y;
      }
