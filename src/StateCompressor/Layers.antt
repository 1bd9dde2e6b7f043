-- ===== src/StateCompressor/Layers.antt =====
-- The chain of diffs behind a hash, as it stands in the database, and that
-- `load_shortstatehash_info` returns it (src/service/rooms/state_compressor/mod.rs).
use matrix_server.Base.{
  ℕ, zero, suc, ◌≤◌, ◌≡◌, refl, sym, ap, none, some, [], ◌∷◌, arith, length, inl, inr, Option-cases,
}
use mathlib.Core.Path.{subst}
use matrix_server.Base.Effect.{ok, err, Error}
use matrix_server.Lru.{LruCache}
use matrix_server.StateCompressor.{
  StateDiff, StateInfo, Stack, Service, StateDiffData, IsHash, IsStorable, layer, apply_diff,
  load_shortstatehash_info,
}

module _ {D : Type 0} (store : StateDiffData D) where
  open store use {get_statediff, save_statediff, get-save}

  -- The stack of a hash: each layer's diff is stored under its hash, names the layer below as its
  -- parent, and gives the full state from the full state below.
  abbrev pub Layers : D → ℕ → Stack → Type 0
  Layers db h [] = ⊥
  Layers db h (info ∷ []) =
      (diff : StateDiff) × (get_statediff db h ≡ ok diff)
      × IsHash h
      × (diff.parent ≡ none)
      × (info ≡ layer h diff diff.added)
  Layers db h (info ∷ top ∷ below) =
      (diff : StateDiff) × (get_statediff db h ≡ ok diff)
      × IsHash h
      × (diff.parent ≡ some top.shortstatehash)
      × (info ≡ layer h diff (apply_diff top.full_state diff.added diff.removed))
      × Layers db top.shortstatehash (top ∷ below)

  pub hash_of_head :
      (db : D) (h : ℕ) (info : StateInfo) (below : Stack)
      → Layers db h (info ∷ below)
      → info.shortstatehash ≡ h
  hash_of_head db h info [] (d, _, _, _, e) = ap (λ (i : StateInfo). i.shortstatehash) e
  hash_of_head db h info (top ∷ below) (d, _, _, _, e, _) =
      ap (λ (i : StateInfo). i.shortstatehash) e

  -- A hash has one stack.
  pub Layers-unique : (db : D) (h : ℕ) (s t : Stack) → Layers db h s → Layers db h t → s ≡ t
  Layers-unique db h (i ∷ []) (j ∷ []) (d, g, _, p, e) (d', g', _, p', e') = ground arith
  Layers-unique db h (i ∷ []) (j ∷ t ∷ ts) (d, g, _, p, e) (d', g', _, p', e', _) = ground arith
  Layers-unique db h (i ∷ s ∷ ss) (j ∷ []) (d, g, _, p, e, _) (d', g', _, p', e') = ground arith
  Layers-unique db h (i ∷ s ∷ ss) (j ∷ t ∷ ts) (d, g, _, p, e, l) (d', g', _, p', e', l') =
      let same : s.shortstatehash ≡ t.shortstatehash = ground arith in
      let ih =
        Layers-unique db s.shortstatehash (s ∷ ss) (t ∷ ts) l
          (subst (λ x. Layers db x (t ∷ ts)) (sym same) l') in
      ground (arith, ih)
  Layers-unique db h [] t l l' = elim l [ ]
  Layers-unique db h (i ∷ []) [] l l' = elim l' [ ]
  Layers-unique db h (i ∷ s ∷ ss) [] l l' = elim l' [ ]

  -- Writing a hash that holds nothing yet leaves every stack as it is.
  pub Layers-save :
      (db : D) (h j : ℕ) (diff : StateDiff) (s : Stack) {e : Error}
      → get_statediff db h ≡ err e
      → IsHash h
      → IsStorable diff
      → Layers db j s
      → Layers (save_statediff db h diff) j s
  Layers-save db h j diff (i ∷ []) absent hh st (d, g, hj, p, e) =
      (d, ground (arith, get-save db h j diff hh hj st), hj, p, e)
  Layers-save db h j diff (i ∷ t ∷ ts) absent hh st (d, g, hj, p, e, l) = (
    d,
    ground (arith, get-save db h j diff hh hj st),
    hj,
    p,
    e,
    Layers-save db h t.shortstatehash diff (t ∷ ts) absent hh st l,
  )
  Layers-save db h j diff [] absent hh st l = elim l [ ]

module _ {D C : Type 0} (store : StateDiffData D) (lru : LruCache ℕ Stack C) where
  open store use {get_statediff}
  open lru use {get_mut, hit_of_insert, hit_of_get_mut}

  -- Every hit of the cache is the stack in the database.
  abbrev pub IsCoherent : D → C → Type 0
  IsCoherent db c = (h : ℕ) (r : Stack) → (get_mut c h).0 ≡ some r → Layers store db h r

  IsCoherent-get_mut : (db : D) (c : C) (h : ℕ) → IsCoherent db c → IsCoherent db (get_mut c h).1
  IsCoherent-get_mut db c h k j r hit = k j r (hit_of_get_mut c h j r hit)

  IsCoherent-insert :
      (db : D) (c : C) (h : ℕ) (r : Stack)
      → IsCoherent db c
      → Layers store db h r
      → IsCoherent db (lru.insert c h r)
  IsCoherent-insert db c h r k l j w hit = elim (hit_of_insert c h j r w hit) [
    | inl (same, value) ↦
        subst (λ x. Layers store db x w) same (subst (λ x. Layers store db h x) value l)
    | inr old ↦ k j w old
  ]

  -- If the database holds a chain of diffs for a hash and every hit of the cache is the chain in
  -- the database, then `load_shortstatehash_info`, with at least as much fuel as the chain has
  -- layers, returns the stack of that chain, hit or miss, leaves the database alone and keeps the
  -- cache coherent.
  pub load-Layers :
      (fuel : ℕ) (h : ℕ) (s : Service D C) (st : Stack)
      → IsCoherent s.db s.stateinfo_cache
      → Layers store s.db h st
      → length st ≤ fuel
      → (c : C) × (load_shortstatehash_info store lru fuel h s
          ≡ some (ok st, record s { stateinfo_cache = c }))
        × IsCoherent s.db c
  unfolding load_shortstatehash_info
  load-Layers zero h s (i ∷ st) k l f = absurd (omega arith)
  load-Layers fuel h s [] k l f = elim l [ ]
  load-Layers (suc fuel) h s (i ∷ []) k (d, g, hh, p, e) f =
      elim (Option-cases (get_mut s.stateinfo_cache h).0) [
        | inr (r, hit) ↦ (
          used,
          ground (arith, Layers-unique store s.db h r (i ∷ []) (k h r hit) (d, g, hh, p, e)),
          IsCoherent-get_mut s.db s.stateinfo_cache h k,
        )
        | inl miss ↦ (
          lru.insert used h (layer h d d.added ∷ []),
          ground arith,
          IsCoherent-insert s.db used h (layer h d d.added ∷ [])
              (IsCoherent-get_mut s.db s.stateinfo_cache h k) (d, g, hh, p, refl),
        )
      ]
    where
      used : C
      used = (get_mut s.stateinfo_cache h).1
  load-Layers (suc fuel) h s (i ∷ top ∷ below) k (d, g, hh, p, e, l) f =
      let used = (get_mut s.stateinfo_cache h).1 in
      let coherent = IsCoherent-get_mut s.db s.stateinfo_cache h k in
      let rec =
        load-Layers fuel top.shortstatehash (record s { stateinfo_cache = used }) (top ∷ below)
          coherent l (omega arith) in
      elim (Option-cases (get_mut s.stateinfo_cache h).0) [
        | inr (r, hit) ↦ (
          used,
          ground (
            arith,
            Layers-unique store s.db h r (i ∷ top ∷ below) (k h r hit) (d, g, hh, p, e, l),
          ),
          coherent,
        )
        | inl miss ↦ (rec.0, ground (arith, rec.1), rec.2)
      ]
