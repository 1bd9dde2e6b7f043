-- ===== src/AuthChain/Chunks.antt =====
-- The chain of a bucket, from the cache or event by event (src/service/rooms/auth_chain/mod.rs).
use mathlib.Core.Path.{subst}
use matrix_server.Base.{
  ℕ, suc, ◌+◌, ◌*◌, ◌≤◌, ◌<◌, ◌≡◌, inl, inr, refl, ap, ◌∙◌, true, Option, none, some, List, [], ◌∷◌,
  ◌++◌, append-nil, arith, length, ℕ_discrete, Option-cases,
}
use matrix_server.Base.Bytes.{dec_bytes, u64_mod}
use matrix_server.Base.HashSet.{HashSet, contains, extend, contains-append}
use matrix_server.Base.Effect.{Result, ok}
use matrix_server.Storage.{KvTree}
use matrix_server.Lru.{LruCache}
use matrix_server.Short.{EventId, RoomId}
use matrix_server.Short.Events.{IsConsistent}
use matrix_server.AuthChain.{Pdu}
use matrix_server.AuthChain.Reaching.{Reaches, IsVisited}
use matrix_server.AuthChain.Pushing.{Holds, Kept}
use matrix_server.AuthChain.Caching.{ChainDb, get_cached_eventid_authchain, cache_auth_chain}
use matrix_server.AuthChain.Cached.{IsUnion, IsCached, IsSound, cache_auth_chain_lem, later-IsUnion}
use matrix_server.AuthChain.Looking.{Looked, get_cached_lem}
use matrix_server.AuthChain.Collecting.{
  Bucket, shorts_of, cached_or_collect, store_chunk, event_chain, chunk_chain, cached_chunk,
}
use matrix_server.AuthChain.Bucketing.{in_bucket, AreEntries, later-AreEntries, contains-cons}
use matrix_server.AuthChain.Single.{
  Collected, entries-AreShorts, extend-IsUnion, same-Kept, same-IsConsistent, nothing-IsUnion,
  earlier, event_chain_lem, events_of,
}

module _ {T : Type 0} {C : Type 0 → Type 0 → Type 0} (kv : KvTree T)
    (lru : (K V : Type 0) → LruCache K V (C K V)) (get_pdu : EventId → Result (Option Pdu))
    (room : RoomId) where
  abbrev Db : Type 0
  Db = ChainDb T C

  -- The bounds: `universe` lists the chains of the starting events, whose events are all of the room,
  -- and no event lists more than `width` others.
  module _ (starting universe : List EventId) (width : ℕ)
      (narrow : (e : EventId) (pdu : Pdu)
        → get_pdu e ≡ ok (some pdu)
        → length pdu.auth_events ≤ width)
      (listed : (x e : EventId) → Holds starting x → Reaches get_pdu x e → Holds universe e)
      (native : (x e : EventId) (pdu : Pdu)
        → Holds starting x
        → IsVisited get_pdu x e
        → get_pdu e ≡ ok (some pdu)
        → pdu.room_id ≡ room) where
    abbrev fuel : ℕ
    fuel = suc (length universe)

    abbrev cost : ℕ
    cost = fuel * width

    abbrev event_run : ℕ → EventId → Db → Result (HashSet ℕ) × Db
    event_run m e s = event_chain kv lru get_pdu fuel room m e s

    chunk_step :
        (m : ℕ) (e : EventId) (chunk : Bucket) (acc chain : HashSet ℕ) (s s' : Db)
        → event_run m e s ≡ (ok chain, s')
        → chunk_chain kv lru get_pdu fuel room ((m, e) ∷ chunk) acc s
          ≡ chunk_chain kv lru get_pdu fuel room chunk (extend ℕ_discrete acc chain) s'
    unfolding chunk_chain
    chunk_step m e chunk acc chain s s' run = ground (arith, run)

    move_event :
        (xs ys : List EventId) (e x : EventId)
        → contains dec_bytes (xs ++ (e ∷ ys)) x ≡ contains dec_bytes (e ∷ (xs ++ ys)) x
    move_event xs ys e x = ground (
      arith,
      contains-append dec_bytes xs (e ∷ ys) x,
      contains-append dec_bytes xs ys x,
      contains-cons e ys x,
      contains-cons e (xs ++ ys) x,
    )

    abbrev chunk_run : Bucket → HashSet ℕ → Db → Result (HashSet ℕ) × Db
    chunk_run = chunk_chain kv lru get_pdu fuel room

    chunk_chain_lem :
        (chunk : Bucket) (before : List EventId) (acc : HashSet ℕ) (s : Db) (n : ℕ)
        → IsConsistent kv lru s.shorts n
        → n + length chunk * cost < u64_mod
        → ((e : EventId) → in_bucket chunk e ≡ true → Holds starting e)
        → AreEntries kv lru get_pdu s.shorts chunk
        → IsSound kv lru get_pdu s
        → IsUnion kv lru get_pdu s.shorts before acc
        → Collected kv lru get_pdu room
            (events_of chunk ++ before)
            s
            n
            (length chunk * cost)
            (chunk_run chunk acc s)
    chunk_chain_lem [] before acc s n k space held entries sound u = record {
      chain = acc;
      s' = s;
      n' = n;
      returned = unfold chunk_chain in refl;
      consistent = k;
      grown = omega arith;
      kept = λ j b h. h;
      sound = sound;
      union = u;
    }
    chunk_chain_lem ((m, e) ∷ chunk) before acc s n k space held entries sound u =
        let c =
          event_chain_lem kv lru get_pdu room starting universe width narrow listed native m e s n k
            (grind arith) (held e (ground arith)) entries.0 sound in
        let u' =
          extend-IsUnion kv lru get_pdu room c.s'.shorts before (e ∷ []) acc c.chain
            (later-IsUnion kv lru get_pdu c.kept u) c.union in
        earlier kv lru get_pdu room cost (chunk_step m e chunk acc c.chain s c.s' c.returned) c.kept
          c.grown (grind arith) (move_event (events_of chunk) before e)
          (chunk_chain_lem chunk (e ∷ before) (extend ℕ_discrete acc c.chain) c.s' c.n' c.consistent
            (grind (arith, c.grown)) (λ x h. held x (ground arith))
            (later-AreEntries kv lru get_pdu s.shorts c.s'.shorts chunk c.kept entries.1) c.sound
            u')

    chunk_hit :
        (chunk : Bucket) (s s' : Db) (chain : HashSet ℕ)
        → get_cached_eventid_authchain kv lru (shorts_of chunk) s ≡ (ok (some chain), s')
        → cached_chunk kv lru get_pdu fuel room chunk s ≡ (ok chain, s')
    unfolding cached_chunk
    chunk_hit chunk s s' chain run =
        unfold cached_or_collect in ap (cached_or_collect kv lru get_pdu fuel room chunk) run

    chunk_miss :
        (chunk : Bucket) (s s' : Db)
        → get_cached_eventid_authchain kv lru (shorts_of chunk) s ≡ (ok none, s')
        → cached_chunk kv lru get_pdu fuel room chunk s
          ≡ store_chunk kv lru get_pdu (shorts_of chunk) (chunk_run chunk [] s')
    unfolding cached_chunk
    chunk_miss chunk s s' run =
        unfold cached_or_collect in ap (cached_or_collect kv lru get_pdu fuel room chunk) run

    store_chunk_step :
        (key : List ℕ) (s s' : Db) (chain : HashSet ℕ)
        → cache_auth_chain kv lru key chain s ≡ (ok tt, s')
        → store_chunk kv lru get_pdu key (ok chain, s) ≡ (ok chain, s')
    unfolding store_chunk
    store_chunk_step key s s' chain run = ground (arith, run)

    abbrev cached_run : Bucket → Db → Result (HashSet ℕ) × Db
    cached_run = cached_chunk kv lru get_pdu fuel room

    hit_chunk :
        (chunk : Bucket) (s : Db) (n : ℕ)
        → IsConsistent kv lru s.shorts n
        → (l : Looked kv lru get_pdu
            (events_of chunk)
            s
            (get_cached_eventid_authchain kv lru (shorts_of chunk) s))
        → (chain : HashSet ℕ) → l.hit ≡ some chain
        → Collected kv lru get_pdu room
            (events_of chunk)
            s
            n
            (length chunk * cost)
            (cached_run chunk s)
    hit_chunk chunk s n k l chain hit = record {
      chain = chain;
      s' = l.s';
      n' = n;
      returned = chunk_hit chunk s l.s' chain (l.returned ∙ ap (λ x. (ok x, l.s')) hit);
      consistent = same-IsConsistent kv lru get_pdu room s.shorts l.s'.shorts n l.same k;
      grown = omega arith;
      kept = same-Kept kv lru get_pdu room s.shorts l.s'.shorts l.same;
      sound = l.sound;
      union =
          later-IsUnion kv lru get_pdu (same-Kept kv lru get_pdu room s.shorts l.s'.shorts l.same)
            (l.union chain hit);
    }

    miss_chunk :
        (chunk : Bucket) (s : Db) (n : ℕ)
        → IsConsistent kv lru s.shorts n
        → n + length chunk * cost < u64_mod
        → ((e : EventId) → in_bucket chunk e ≡ true → Holds starting e)
        → AreEntries kv lru get_pdu s.shorts chunk
        → (l : Looked kv lru get_pdu
            (events_of chunk)
            s
            (get_cached_eventid_authchain kv lru (shorts_of chunk) s))
        → l.hit ≡ none
        → Collected kv lru get_pdu room
            (events_of chunk)
            s
            n
            (length chunk * cost)
            (cached_run chunk s)
    miss_chunk chunk s n k space held entries l hit =
        let here = same-Kept kv lru get_pdu room s.shorts l.s'.shorts l.same in
        let c =
          chunk_chain_lem chunk [] [] l.s' n
            (same-IsConsistent kv lru get_pdu room s.shorts l.s'.shorts n l.same k) space held
            (later-AreEntries kv lru get_pdu s.shorts l.s'.shorts chunk here entries) l.sound
            (nothing-IsUnion kv lru get_pdu room l.s'.shorts) in
        let union : IsUnion kv lru get_pdu c.s'.shorts (events_of chunk) c.chain =
          subst (λ x. IsUnion kv lru get_pdu c.s'.shorts x c.chain) (append-nil (events_of chunk))
            c.union in
        let kept : Kept kv lru s.shorts c.s'.shorts = λ j b h. c.kept j b (here j b h) in
        let cached : IsCached kv lru get_pdu c.s'.shorts (shorts_of chunk) c.chain = record {
          names = events_of chunk;
          shorts =
              entries-AreShorts kv lru get_pdu room c.s'.shorts chunk
                (later-AreEntries kv lru get_pdu s.shorts c.s'.shorts chunk kept entries);
          union = union;
        } in
        let (s', run, same, sound) =
          cache_auth_chain_lem kv lru get_pdu c.s' (shorts_of chunk) c.chain cached c.sound in
        record {
          chain = c.chain;
          s' = s';
          n' = c.n';
          returned =
              chunk_miss chunk s l.s' (l.returned ∙ ap (λ x. (ok x, l.s')) hit)
              ∙ ap (store_chunk kv lru get_pdu (shorts_of chunk)) c.returned
              ∙ store_chunk_step (shorts_of chunk) c.s' s' c.chain run;
          consistent =
              same-IsConsistent kv lru get_pdu room c.s'.shorts s'.shorts c.n' same c.consistent;
          grown = c.grown;
          kept = λ j b h. same-Kept kv lru get_pdu room c.s'.shorts s'.shorts same j b (kept j b h);
          sound = sound;
          union =
              later-IsUnion kv lru get_pdu
                (same-Kept kv lru get_pdu room c.s'.shorts s'.shorts same) union;
        }

    pub cached_chunk_lem :
        (chunk : Bucket) (s : Db) (n : ℕ)
        → IsConsistent kv lru s.shorts n
        → n + length chunk * cost < u64_mod
        → ((e : EventId) → in_bucket chunk e ≡ true → Holds starting e)
        → AreEntries kv lru get_pdu s.shorts chunk
        → IsSound kv lru get_pdu s
        → Collected kv lru get_pdu room
            (events_of chunk)
            s
            n
            (length chunk * cost)
            (cached_run chunk s)
    cached_chunk_lem chunk s n k space held entries sound =
        let l =
          get_cached_lem kv lru get_pdu (shorts_of chunk) (events_of chunk) s n k
            (entries-AreShorts kv lru get_pdu room s.shorts chunk entries) sound in
        elim (Option-cases l.hit) [
          | inr (chain, hit) ↦ hit_chunk chunk s n k l chain hit
          | inl hit ↦ miss_chunk chunk s n k space held entries l hit
        ]
