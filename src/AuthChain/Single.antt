-- ===== src/AuthChain/Single.antt =====
-- The chain of one event, from the cache or by the walk, and unions of chains
-- (src/service/rooms/auth_chain/mod.rs).
use mathlib.Core.Path.{subst}
use matrix_server.Base.{
  ℕ, suc, ◌+◌, ◌*◌, ◌≤◌, ◌<◌, ◌≡◌, inl, inr, refl, sym, ap, ◌∙◌, Option, none, some, List, [], ◌∷◌,
  ◌++◌, arith, length, ℕ_discrete, Option-cases, Bool-cases,
}
use matrix_server.Base.Bytes.{dec_bytes, u64_mod}
use matrix_server.Base.HashSet.{HashSet, contains, extend, contains-extend, contains-append}
use matrix_server.Base.Effect.{Result, ok}
use matrix_server.Storage.{KvTree}
use matrix_server.Lru.{LruCache}
use matrix_server.Short.{EventId, RoomId, ShortDb}
use matrix_server.Short.Events.{IsConsistent}
use matrix_server.AuthChain.{Pdu, get_auth_chain_inner}
use matrix_server.AuthChain.Reaching.{Reaches, IsVisited}
use matrix_server.AuthChain.Pushing.{Holds, Kept, IsShort, AreShorts}
use matrix_server.AuthChain.Walking.{get_auth_chain_inner_lem}
use matrix_server.AuthChain.Progress.{IsChain, Found}
use matrix_server.AuthChain.Caching.{ChainDb, get_cached_eventid_authchain, cache_auth_chain}
use matrix_server.AuthChain.Cached.{
  IsUnion, IsCached, IsSound, cache_auth_chain_lem, renamed-IsUnion, later-IsSound, later-IsUnion,
}
use matrix_server.AuthChain.Looking.{Looked, get_cached_lem}
use matrix_server.AuthChain.Collecting.{Bucket, shorts_of, store_chain, cached_or_walk, event_chain}
use matrix_server.AuthChain.Bucketing.{in_bucket, AreEntries}

-- The events of a bucket.
abbrev pub events_of : Bucket → List EventId
events_of [] = []
events_of ((m, e) ∷ bucket) = e ∷ events_of bucket

pub contains-events_of :
    (bucket : Bucket) (e : EventId) → contains dec_bytes (events_of bucket) e ≡ in_bucket bucket e
unfolding contains
contains-events_of [] e = refl
contains-events_of ((m, j) ∷ bucket) e = ground (arith, contains-events_of bucket e)

module _ {T : Type 0} {C : Type 0 → Type 0 → Type 0} (kv : KvTree T)
    (lru : (K V : Type 0) → LruCache K V (C K V)) (get_pdu : EventId → Result (Option Pdu))
    (room : RoomId) where
  abbrev Db : Type 0
  Db = ChainDb T C

  pub entries-AreShorts :
      (s : ShortDb T C) (bucket : Bucket)
      → AreEntries kv lru get_pdu s bucket
      → AreShorts kv lru s (events_of bucket) (shorts_of bucket)
  unfolding contains
  entries-AreShorts s [] h = record {
    sound = λ m e. absurd (ground arith);
    complete = λ j e. absurd (ground arith);
  }
  entries-AreShorts s ((m, e) ∷ bucket) h =
      let rest = entries-AreShorts s bucket h.1 in
      record {
        sound = λ j i. elim (ℕ_discrete m j) [
          | yes same ↦ (e, ground arith, (ground (arith, h.0.0), ground (arith, h.0.1)))
          | no other ↦
              let (x, held, short) = rest.sound j (ground arith) in (x, ground arith, short)
        ];
        complete = λ x i. elim (dec_bytes e x) [
          | yes same ↦ (m, ground arith, (ground (arith, h.0.0), h.0.1))
          | no other ↦
              let (j, held, short) = rest.complete x (ground arith) in (j, ground arith, short)
        ];
      }

  -- The outcome of a part of the computation: the union of the chains of `names`, `spent` new short ids
  -- at most, and a sound cache.
  pub record Collected (names : List EventId) (s : Db) (n spent : ℕ) (r : Result (HashSet ℕ) × Db)
      : Type 0 where
    pub chain : HashSet ℕ
    pub s' : Db
    pub n' : ℕ
    pub returned : r ≡ (ok chain, s')
    pub consistent : IsConsistent kv lru s'.shorts n'
    pub grown : n' ≤ n + spent
    pub kept : Kept kv lru s.shorts s'.shorts
    pub sound : IsSound kv lru get_pdu s'
    pub union : IsUnion kv lru get_pdu s'.shorts names chain

  single-IsUnion :
      (s : ShortDb T C) (e : EventId) (found : HashSet ℕ)
      → IsChain kv lru get_pdu room e s found
      → IsUnion kv lru get_pdu s (e ∷ []) found
  unfolding contains
  single-IsUnion s e found c = record {
    sound = λ m h. let (a, r, short) = c.sound m h in (e, a, ground arith, r, short);
    complete = λ x a held r.
        let same : e ≡ x = ground arith in
        c.complete a (subst (λ y. Reaches get_pdu y a) (sym same) r);
  }

  pub extend-IsUnion :
      (s : ShortDb T C) (names names' : List EventId) (xs ys : HashSet ℕ)
      → IsUnion kv lru get_pdu s names xs
      → IsUnion kv lru get_pdu s names' ys
      → IsUnion kv lru get_pdu s (names' ++ names) (extend ℕ_discrete xs ys)
  extend-IsUnion s names names' xs ys u w = record {
    sound = λ m h. elim (Bool-cases (contains ℕ_discrete xs m)) [
      | inl i ↦
          let (x, a, held, r, short) = u.sound m i in
          (x, a, ground (arith, contains-append dec_bytes names' names x), r, short)
      | inr i ↦
          let (x, a, held, r, short) =
            w.sound m (ground (arith, contains-extend ℕ_discrete xs ys m)) in
          (x, a, ground (arith, contains-append dec_bytes names' names x), r, short)
    ];
    complete = λ x a held r. elim (Bool-cases (contains dec_bytes names' x)) [
      | inl i ↦
          let (m, j, short) = w.complete x a i r in
          (m, ground (arith, contains-extend ℕ_discrete xs ys m), short)
      | inr i ↦
          let (m, j, short) =
            u.complete x a (ground (arith, contains-append dec_bytes names' names x)) r in
          (m, ground (arith, contains-extend ℕ_discrete xs ys m), short)
    ];
  }

  pub same-Kept : (s s' : ShortDb T C) → s' ≡ s → Kept kv lru s s'
  same-Kept s s' e = subst (λ x. Kept kv lru s x) (sym e) (λ j b h. h)

  pub same-IsConsistent :
      (s s' : ShortDb T C) (n : ℕ) → s' ≡ s → IsConsistent kv lru s n → IsConsistent kv lru s' n
  same-IsConsistent s s' n e = subst (λ x. IsConsistent kv lru x n) (sym e)

  pub nothing-IsUnion : (s : ShortDb T C) → IsUnion kv lru get_pdu s [] []
  unfolding contains
  nothing-IsUnion s = record {
    sound = λ m h. absurd (ground arith);
    complete = λ e a held r. absurd (ground arith);
  }

  pub earlier :
      {s s1 : Db} {n n1 spent all : ℕ} {names names1 : List EventId}
      {r r1 : Result (HashSet ℕ) × Db} (more : ℕ)
      → r ≡ r1
      → Kept kv lru s.shorts s1.shorts
      → n1 ≤ n + more
      → spent + more ≤ all
      → ((x : EventId) → contains dec_bytes names1 x ≡ contains dec_bytes names x)
      → Collected names1 s1 n1 spent r1
      → Collected names s n all r
  earlier more step kept grown sum same c = record {
    chain = c.chain;
    s' = c.s';
    n' = c.n';
    returned = step ∙ c.returned;
    consistent = c.consistent;
    grown = omega (arith, c.grown, grown, sum);
    kept = λ j b h. c.kept j b (kept j b h);
    sound = c.sound;
    union = renamed-IsUnion kv lru get_pdu c.union (λ e h. sym (same e) ∙ h) (λ e h. same e ∙ h);
  }

  -- The bounds: `universe` lists the chains of the starting events, whose events are all of the room,
  -- and no event lists more than `width` others.
  module _ (starting universe : List EventId) (width : ℕ)
      (narrow : (e : EventId) (pdu : Pdu)
        → get_pdu e ≡ ok (some pdu)
        → length pdu.auth_events ≤ width)
      (listed : (x e : EventId) → Holds starting x → Reaches get_pdu x e → Holds universe e)
      (native : (x e : EventId) (pdu : Pdu)
        → Holds starting x
        → IsVisited get_pdu x e
        → get_pdu e ≡ ok (some pdu)
        → pdu.room_id ≡ room) where
    abbrev fuel : ℕ
    fuel = suc (length universe)

    abbrev cost : ℕ
    cost = fuel * width

    inner_lem :
        (s : ShortDb T C) (n : ℕ) (e : EventId)
        → Holds starting e
        → IsConsistent kv lru s n
        → n + cost < u64_mod
        → Found kv lru get_pdu room e s n cost (get_auth_chain_inner kv lru get_pdu fuel room e s)
    inner_lem s n e held k space =
        elim (get_auth_chain_inner_lem kv lru get_pdu room e universe width narrow
          (λ x r. listed e x held r) s n k space) [
            | inl f ↦ f
            | inr f ↦ absurd (f.foreign (native e f.event f.pdu held f.visited f.loaded))
          ]

    store_step :
        (m : ℕ) (s s' : Db) (shorts' : ShortDb T C) (chain : HashSet ℕ)
        → cache_auth_chain kv lru (m ∷ []) chain (record s { shorts = shorts' }) ≡ (ok tt, s')
        → store_chain kv lru get_pdu m (ok (some chain), shorts') s ≡ (ok chain, s')
    unfolding store_chain
    store_step m s s' shorts' chain cache = ground (arith, cache)

    event_hit :
        (m : ℕ) (e : EventId) (s s' : Db) (chain : HashSet ℕ)
        → get_cached_eventid_authchain kv lru (m ∷ []) s ≡ (ok (some chain), s')
        → event_chain kv lru get_pdu fuel room m e s ≡ (ok chain, s')
    unfolding event_chain
    event_hit m e s s' chain run =
        unfold cached_or_walk in ap (cached_or_walk kv lru get_pdu fuel room m e) run

    event_miss :
        (m : ℕ) (e : EventId) (s s' : Db)
        → get_cached_eventid_authchain kv lru (m ∷ []) s ≡ (ok none, s')
        → event_chain kv lru get_pdu fuel room m e s
          ≡ store_chain kv lru get_pdu m
              (get_auth_chain_inner kv lru get_pdu fuel room e s'.shorts)
              s'
    unfolding event_chain
    event_miss m e s s' run =
        unfold cached_or_walk in ap (cached_or_walk kv lru get_pdu fuel room m e) run

    abbrev event_run : ℕ → EventId → Db → Result (HashSet ℕ) × Db
    event_run m e s = event_chain kv lru get_pdu fuel room m e s

    hit_event :
        (m : ℕ) (e : EventId) (s : Db) (n : ℕ)
        → IsConsistent kv lru s.shorts n
        → (l : Looked kv lru get_pdu (e ∷ []) s (get_cached_eventid_authchain kv lru (m ∷ []) s))
        → (chain : HashSet ℕ) → l.hit ≡ some chain
        → Collected (e ∷ []) s n cost (event_run m e s)
    hit_event m e s n k l chain hit = record {
      chain = chain;
      s' = l.s';
      n' = n;
      returned = event_hit m e s l.s' chain (l.returned ∙ ap (λ x. (ok x, l.s')) hit);
      consistent = same-IsConsistent s.shorts l.s'.shorts n l.same k;
      grown = omega arith;
      kept = same-Kept s.shorts l.s'.shorts l.same;
      sound = l.sound;
      union =
          later-IsUnion kv lru get_pdu (same-Kept s.shorts l.s'.shorts l.same) (l.union chain hit);
    }

    miss_event :
        (m : ℕ) (e : EventId) (s : Db) (n : ℕ)
        → IsConsistent kv lru s.shorts n
        → n + cost < u64_mod
        → Holds starting e
        → IsShort kv lru s.shorts e m
        → (l : Looked kv lru get_pdu (e ∷ []) s (get_cached_eventid_authchain kv lru (m ∷ []) s))
        → l.hit ≡ none
        → Collected (e ∷ []) s n cost (event_run m e s)
    miss_event m e s n k space held short l hit =
        let k' = same-IsConsistent s.shorts l.s'.shorts n l.same k in
        let f = inner_lem l.s'.shorts n e held k' space in
        let kept : Kept kv lru s.shorts f.s' =
          λ j b h. f.kept j b (same-Kept s.shorts l.s'.shorts l.same j b h) in
        let stored : IsShort kv lru f.s' e m = (kept e _ short.0, short.1) in
        let union = single-IsUnion f.s' e f.found f.chain in
        let cached : IsCached kv lru get_pdu f.s' (m ∷ []) f.found = record {
          names = e ∷ [];
          shorts = entries-AreShorts f.s' ((m, e) ∷ []) (stored, tt);
          union = union;
        } in
        let (s', run, same, sound) =
          cache_auth_chain_lem kv lru get_pdu (record l.s' { shorts = f.s' }) (m ∷ []) f.found
            cached (later-IsSound kv lru get_pdu f.s' f.kept l.sound) in
        record {
          chain = f.found;
          s' = s';
          n' = f.n';
          returned =
              event_miss m e s l.s' (l.returned ∙ ap (λ x. (ok x, l.s')) hit)
              ∙ ap (λ x. store_chain kv lru get_pdu m x l.s') f.returned
              ∙ store_step m l.s' s' f.s' f.found run;
          consistent = same-IsConsistent f.s' s'.shorts f.n' same f.consistent;
          grown = f.grown;
          kept = λ j b h. same-Kept f.s' s'.shorts same j b (kept j b h);
          sound = sound;
          union = later-IsUnion kv lru get_pdu (same-Kept f.s' s'.shorts same) union;
        }

    pub event_chain_lem :
        (m : ℕ) (e : EventId) (s : Db) (n : ℕ)
        → IsConsistent kv lru s.shorts n
        → n + cost < u64_mod
        → Holds starting e
        → IsShort kv lru s.shorts e m
        → IsSound kv lru get_pdu s
        → Collected (e ∷ []) s n cost (event_run m e s)
    event_chain_lem m e s n k space held short sound =
        let l =
          get_cached_lem kv lru get_pdu (m ∷ []) (e ∷ []) s n k
            (entries-AreShorts s.shorts ((m, e) ∷ []) (short, tt)) sound in
        elim (Option-cases l.hit) [
          | inr (chain, hit) ↦ hit_event m e s n k l chain hit
          | inl hit ↦ miss_event m e s n k space held short l hit
        ]
