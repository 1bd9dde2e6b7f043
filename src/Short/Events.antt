-- ===== src/Short/Events.antt =====
-- The short ids of events (src/database/key_value/rooms/short.rs) are a bijection with the event
-- ids that have one, through the caches too.
use matrix_server.Base.{
  ℕ, ◌+◌, ◌≤◌, ◌<◌, ◌≡◌, ◌↔◌, ap, ◌∙◌, Option, none, some, arith, inl, inr, Option-cases, true,
}
use mathlib.Core.Path.{subst}
use matrix_server.Base.Bytes.{
  Bytes, dec_bytes, to_be_bytes, u64_from_bytes, u64_mod, u64_from_bytes-to_be_bytes,
  to_be_bytes_injective,
}
use matrix_server.Base.Effect.{ok}
use matrix_server.Storage.{KvTree}
use matrix_server.Globals.{next_count, current_count}
use matrix_server.Globals.Counting.{next_count_lem}
use matrix_server.Lru.{LruCache}
use matrix_server.Short.{
  EventId, ShortDb, Parsers, get_or_create_shorteventid, get_eventid_from_short,
}

module _ {T : Type 0} {C : Type 0 → Type 0 → Type 0} (kv : KvTree T)
    (lru : (K V : Type 0) → LruCache K V (C K V)) where
  abbrev Db : Type 0
  Db = ShortDb T C

  abbrev short_hit : Db → EventId → Option ℕ
  short_hit s e = ((lru EventId ℕ).get_mut s.eventidshort_cache e).0

  abbrev id_hit : Db → ℕ → Option EventId
  id_hit s m = ((lru ℕ EventId).get_mut s.shorteventid_cache m).0

  -- The counter stands at `n`; each stored short id is at most `n` and leads back to its event; a
  -- hit of a cache is what the database holds.
  pub record IsConsistent (s : Db) (n : ℕ) : Type 0 where
    pub at_count : current_count kv s.global ≡ ok n
    pub bounded : n < u64_mod
    pub index :
        (e : EventId) (b : Bytes)
        → kv.get s.eventid_shorteventid e ≡ some b
        → (m : ℕ) × (b ≡ to_be_bytes m)
          × (m ≤ n)
          × (kv.get s.shorteventid_eventid (to_be_bytes m) ≡ some e)
    pub short_hits :
        (e : EventId) (m : ℕ)
        → short_hit s e ≡ some m
        → (kv.get s.eventid_shorteventid e ≡ some (to_be_bytes m)) × (m < u64_mod)
    pub id_hits :
        (m : ℕ) (e : EventId)
        → id_hit s m ≡ some e
        → (kv.get s.shorteventid_eventid (to_be_bytes m) ≡ some e) × (m ≤ n)

  -- `m` is the short id of `e` in the state `s'`, reached from `s`; no other id has changed.
  pub record Shortened (e : EventId) (s : Db) (m : ℕ) (s' : Db) (n' : ℕ) : Type 0 where
    pub consistent : IsConsistent s' n'
    pub stored : kv.get s'.eventid_shorteventid e ≡ some (to_be_bytes m)
    pub back : kv.get s'.shorteventid_eventid (to_be_bytes m) ≡ some e
    pub small : m < u64_mod
    pub kept :
        (j : EventId) (b : Bytes)
        → kv.get s.eventid_shorteventid j ≡ some b
        → kv.get s'.eventid_shorteventid j ≡ some b

  abbrev used : Db → EventId → Db
  used s e = record s { eventidshort_cache = ((lru EventId ℕ).get_mut s.eventidshort_cache e).1 }

  used-IsConsistent : {s : Db} {n : ℕ} (e : EventId) → IsConsistent s n → IsConsistent (used s e) n
  used-IsConsistent {s} e k = record {
    at_count = k.at_count;
    bounded = k.bounded;
    index = k.index;
    id_hits = k.id_hits;
    short_hits =
        λ j m hit. k.short_hits j m ((lru EventId ℕ).hit_of_get_mut s.eventidshort_cache e j m hit);
  }

  -- Caching a short id that the database holds.
  cached-IsConsistent :
      {s : Db} {n : ℕ} (e : EventId) (m : ℕ)
      → IsConsistent s n
      → kv.get s.eventid_shorteventid e ≡ some (to_be_bytes m)
      → m < u64_mod
      → IsConsistent
          (record s { eventidshort_cache = (lru EventId ℕ).insert s.eventidshort_cache e m })
          n
  cached-IsConsistent {s} e m k stored small = record {
    at_count = k.at_count;
    bounded = k.bounded;
    index = k.index;
    id_hits = k.id_hits;
    short_hits = λ j w hit. elim ((lru EventId ℕ).hit_of_insert s.eventidshort_cache e j m w hit) [
      | inl (same, value) ↦ ground arith
      | inr old ↦ k.short_hits j w old
    ];
  }

  -- A short id that is stored, read back.
  stored_lem :
      {s : Db} {n : ℕ} (e : EventId) (b : Bytes)
      → IsConsistent s n
      → kv.get s.eventid_shorteventid e ≡ some b
      → (m : ℕ) × (u64_from_bytes b ≡ some m) × Shortened e s m s n
  stored_lem {s} {n} e b k h =
      let (m, eq, le, back) = k.index e b h in
      let small : m < u64_mod = omega (arith, k.bounded) in
      (
        m,
        rw eq (u64_from_bytes-to_be_bytes m small),
        record {
          consistent = k;
          stored = h ∙ ap some eq;
          back = back;
          small = small;
          kept = λ j c g. g;
        },
      )

  abbrev created : Db → EventId → ℕ → Db
  created s e m = record s {
    global = (next_count kv s.global).1;
    eventid_shorteventid = kv.insert s.eventid_shorteventid e (to_be_bytes m);
    shorteventid_eventid = kv.insert s.shorteventid_eventid (to_be_bytes m) e;
  }

  created-Shortened :
      {s : Db} {n : ℕ} (e : EventId)
      → IsConsistent s n
      → n + 1 < u64_mod
      → kv.get s.eventid_shorteventid e ≡ none
      → Shortened e s (n + 1) (created s e (n + 1)) (n + 1)
  created-Shortened {s} {n} e k room absent =
      let m = n + 1 in
      let fwd = kv.get-insert s.eventid_shorteventid e (to_be_bytes m) in
      let bwd = kv.get-insert s.shorteventid_eventid (to_be_bytes m) e in
      record {
        consistent = record {
          at_count = (next_count_lem kv s.global n k.at_count room).1;
          bounded = room;
          index = λ j b h. created_index j b h;
          short_hits =
              λ j w hit. let (h, small) = k.short_hits j w hit in (ground (arith, fwd j), small);
          id_hits = λ w j hit.
              let (h, le) = k.id_hits w j hit in
              (
                ground (
                  arith,
                  bwd (to_be_bytes w),
                  to_be_bytes_injective m w room (omega (arith, k.bounded)),
                ),
                omega arith,
              );
        };
        stored = ground (arith, fwd e);
        back = ground (arith, bwd (to_be_bytes m));
        small = room;
        kept = λ j b h. ground (arith, fwd j);
      }
    where
      created_index :
          (j : EventId) (b : Bytes)
          → kv.get (created s e (n + 1)).eventid_shorteventid j ≡ some b
          → (w : ℕ) × (b ≡ to_be_bytes w)
            × (w ≤ n + 1)
            × (kv.get (created s e (n + 1)).shorteventid_eventid (to_be_bytes w) ≡ some j)
      created_index j b h = elim (dec_bytes e j) [
        | yes same ↦ (
          n + 1,
          ground (arith, kv.get-insert s.eventid_shorteventid e (to_be_bytes (n + 1)) j),
          omega arith,
          ground (
            arith,
            kv.get-insert s.shorteventid_eventid (to_be_bytes (n + 1)) e (to_be_bytes (n + 1)),
          ),
        )
        | no other ↦
            let (w, eq, le, back) =
              k.index j b
                (ground (arith, kv.get-insert s.eventid_shorteventid e (to_be_bytes (n + 1)) j)) in
            (
              w,
              eq,
              omega arith,
              ground (
                arith,
                kv.get-insert s.shorteventid_eventid (to_be_bytes (n + 1)) e (to_be_bytes w),
                to_be_bytes_injective (n + 1) w room (omega (arith, k.bounded)),
              ),
            )
      ]

  -- The outcome of a call that gives an event its short id.
  pub record Gave (e : EventId) (s : Db) (n : ℕ) : Type 0 where
    pub short : ℕ
    pub state : Db
    pub new_count : ℕ
    pub returned : get_or_create_shorteventid kv lru e s ≡ (ok short, state)
    pub grown : (n ≤ new_count) × (new_count ≤ n + 1)
    pub shortened : Shortened e s short state new_count

  -- Caching the id and going through the cache keep what is known of the id.
  cached-Shortened :
      {s s' : Db} {n : ℕ} (e : EventId) (m : ℕ)
      → Shortened e s m s' n
      → Shortened e s m
          (record s' { eventidshort_cache = (lru EventId ℕ).insert s'.eventidshort_cache e m })
          n
  cached-Shortened e m h = record {
    consistent = cached-IsConsistent e m h.consistent h.stored h.small;
    stored = h.stored;
    back = h.back;
    small = h.small;
    kept = h.kept;
  }

  abbrev with_cache : Db → EventId → ℕ → Db
  with_cache s e m = record s {
    eventidshort_cache = (lru EventId ℕ).insert s.eventidshort_cache e m;
  }

  from_used :
      {s s' : Db} {m n : ℕ} (e : EventId) → Shortened e (used s e) m s' n → Shortened e s m s' n
  from_used e h = record {
    consistent = h.consistent;
    stored = h.stored;
    back = h.back;
    small = h.small;
    kept = h.kept;
  }

  -- In a consistent state the call returns, with an id that is stored both ways; an event that has
  -- an id keeps it.
  pub get_or_create_shorteventid_lem :
      (e : EventId) (s : Db) (n : ℕ) → IsConsistent s n → n + 1 < u64_mod → Gave e s n
  unfolding get_or_create_shorteventid
  get_or_create_shorteventid_lem e s n k room =
      let k' = used-IsConsistent e k in
      elim (Option-cases (short_hit s e)) [
        | inr (m, hit) ↦
            let (w, read, h) =
              stored_lem {s = used s e} e (to_be_bytes m) k' (k.short_hits e m hit).0 in
            let same : w ≡ m =
              ground (arith, u64_from_bytes-to_be_bytes m (k.short_hits e m hit).1) in
            record {
              short = m;
              state = used s e;
              new_count = n;
              returned = ground arith;
              grown = omega arith;
              shortened = subst (λ x. Shortened e s x (used s e) n) same (from_used e h);
            }
        | inl miss ↦ elim (Option-cases (kv.get s.eventid_shorteventid e)) [
          | inr (b, found) ↦
              let (m, read, h) = stored_lem {s = used s e} e b k' found in
              record {
                short = m;
                state = with_cache (used s e) e m;
                new_count = n;
                returned = ground arith;
                grown = omega arith;
                shortened = from_used e (cached-Shortened e m h);
              }
          | inl absent ↦ record {
            short = n + 1;
            state = with_cache (created (used s e) e (n + 1)) e (n + 1);
            new_count = n + 1;
            returned = ground (arith, next_count_lem kv s.global n k.at_count room);
            grown = omega arith;
            shortened =
                from_used e (cached-Shortened e (n + 1) (created-Shortened e k' room absent));
          }
        ]
      ]

  -- Reading a short id back gives the event, in every consistent state.
  pub get_eventid_from_short_lem :
      (parsers : Parsers) (e : EventId) (m : ℕ) (s : Db) (n : ℕ)
      → IsConsistent s n
      → parsers.is_utf8 e ≡ true
      → parsers.is_event_id e ≡ true
      → kv.get s.shorteventid_eventid (to_be_bytes m) ≡ some e
      → (get_eventid_from_short kv lru parsers m s).0 ≡ ok e
  unfolding get_eventid_from_short
  get_eventid_from_short_lem parsers e m s n k utf8 valid h = elim (Option-cases (id_hit s m)) [
    | inl miss ↦ ground arith
    | inr (j, hit) ↦ ground (arith, k.id_hits m j hit)
  ]

  -- From a consistent database whose counter has room for one more id, `get_or_create_shorteventid`
  -- returns a short id of a valid event id, and `get_eventid_from_short` leads from that short id
  -- back to the event id, through the caches or not.
  pub get_eventid_from_short-get_or_create :
      (parsers : Parsers) (e : EventId) (s : Db) (n : ℕ)
      → IsConsistent s n
      → n + 1 < u64_mod
      → parsers.is_utf8 e ≡ true
      → parsers.is_event_id e ≡ true
      → (short : ℕ) × (s' : Db) × (get_or_create_shorteventid kv lru e s ≡ (ok short, s'))
        × ((get_eventid_from_short kv lru parsers short s').0 ≡ ok e)
  get_eventid_from_short-get_or_create parsers e s n k room utf8 valid =
      let g = get_or_create_shorteventid_lem e s n k room in
      (
        g.short,
        g.state,
        g.returned,
        get_eventid_from_short_lem parsers e g.short g.state g.new_count g.shortened.consistent utf8
            valid g.shortened.back,
      )

  pub same_short_iff :
      (e e' : EventId) (m m' : ℕ) (s : Db) (n : ℕ)
      → IsConsistent s n
      → kv.get s.eventid_shorteventid e ≡ some (to_be_bytes m)
      → m < u64_mod
      → kv.get s.eventid_shorteventid e' ≡ some (to_be_bytes m')
      → m' < u64_mod
      → (m ≡ m') ↔ (e ≡ e')
  same_short_iff e e' m m' s n k h lt h' lt' =
      let (w, eq, _, back) = k.index e (to_be_bytes m) h in
      let (w', eq', _, back') = k.index e' (to_be_bytes m') h' in
      (λ same. ground arith, λ same. ground (arith, to_be_bytes_injective m m' lt lt'))

  -- From a consistent database whose counter has room for two more ids, two calls of
  -- `get_or_create_shorteventid`, one after the other, both return a short id, and the two short
  -- ids are equal exactly if the two event ids are.
  pub shorteventid_injective :
      (e e' : EventId) (s : Db) (n : ℕ)
      → IsConsistent s n
      → n + 2 < u64_mod
      → (short short' : ℕ) × (s' s'' : Db) × (get_or_create_shorteventid kv lru e s
          ≡ (ok short, s'))
        × (get_or_create_shorteventid kv lru e' s' ≡ (ok short', s''))
        × ((short ≡ short') ↔ (e ≡ e'))
  shorteventid_injective e e' s n k room =
      let g = get_or_create_shorteventid_lem e s n k (omega arith) in
      let h =
        get_or_create_shorteventid_lem e' g.state g.new_count g.shortened.consistent
          (omega (arith, g.grown)) in
      let kept = h.shortened.kept e (to_be_bytes g.short) g.shortened.stored in
      (
        g.short,
        h.short,
        g.state,
        h.state,
        g.returned,
        h.returned,
        same_short_iff e e' g.short h.short h.state h.new_count h.shortened.consistent kept
            g.shortened.small h.shortened.stored h.shortened.small,
      )
