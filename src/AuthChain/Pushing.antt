-- ===== src/AuthChain/Pushing.antt =====
-- The loop over the authorizing events of one event (src/service/rooms/auth_chain/mod.rs).
use matrix_server.Base.{
  ℕ, ◌+◌, ◌≤◌, ◌<◌, ◌≡◌, ◌⊎◌, inl, inr, refl, sym, ap, ◌∙◌, Bool, true, false, some, List, [], ◌∷◌,
  arith, length, if◌then◌else◌, ℕ_discrete, Bool-cases,
}
use matrix_server.Base.Bytes.{Bytes, dec_bytes, to_be_bytes, u64_mod}
use matrix_server.Base.HashSet.{HashSet, contains, insert, IsDistinct, contains-insert}
use matrix_server.Base.Effect.{Result, ok}
use matrix_server.Storage.{KvTree}
use matrix_server.Lru.{LruCache}
use matrix_server.Short.{EventId, ShortDb, get_or_create_shorteventid}
use matrix_server.Short.Events.{IsConsistent, get_or_create_shorteventid_lem, same_short_iff}
use matrix_server.AuthChain.{push_auth_events}

abbrev pub Holds : List EventId → EventId → Type 0
Holds es e = contains dec_bytes es e ≡ true

module _ {T : Type 0} {C : Type 0 → Type 0 → Type 0} (kv : KvTree T)
    (lru : (K V : Type 0) → LruCache K V (C K V)) where
  abbrev Db : Type 0
  Db = ShortDb T C

  -- `m` is stored auth the short id of `e`.
  abbrev pub IsShort : Db → EventId → ℕ → Type 0
  IsShort s e m = (kv.get s.eventid_shorteventid e ≡ some (to_be_bytes m)) × (m < u64_mod)

  -- The set holds the short ids of the listed events and no other.
  pub record AreShorts (s : Db) (names : List EventId) (found : HashSet ℕ) : Type 0 where
    pub sound :
        (m : ℕ) → contains ℕ_discrete found m ≡ true → (e : EventId) × Holds names e × IsShort s e m
    pub complete :
        (e : EventId)
        → Holds names e
        → (m : ℕ) × (contains ℕ_discrete found m ≡ true) × IsShort s e m

  -- Short ids stay.
  abbrev pub Kept : Db → Db → Type 0
  Kept s s' =
      (e : EventId) (b : Bytes)
      → kv.get s.eventid_shorteventid e ≡ some b
      → kv.get s'.eventid_shorteventid e ≡ some b

  pub later-AreShorts :
      {s s' : Db} {names : List EventId} {found : HashSet ℕ}
      → Kept s s'
      → AreShorts s names found
      → AreShorts s' names found
  later-AreShorts k h = record {
    sound = λ m e.
        let (j, held, short) = h.sound m e in (j, held, (k j (to_be_bytes m) short.0, short.1));
    complete = λ j e.
        let (m, held, short) = h.complete j e in (m, held, (k j (to_be_bytes m) short.0, short.1));
  }

  added-AreShorts :
      {s : Db} {names : List EventId} {found : HashSet ℕ} (a : EventId) (m : ℕ)
      → IsShort s a m
      → AreShorts s names found
      → AreShorts s (a ∷ names) (insert ℕ_discrete found m)
  unfolding contains
  added-AreShorts {names} {found} a m short h = record {
    sound = λ j e. elim (ℕ_discrete m j) [
      | yes same ↦ (a, ground arith, (ground arith, ground arith))
      | no other ↦
          let (b, held, short') =
            h.sound j (ground (arith, contains-insert ℕ_discrete found m j)) in
          (b, ground arith, short')
    ];
    complete = λ b e. elim (dec_bytes a b) [
      | yes same ↦
          (m, ground (arith, contains-insert ℕ_discrete found m m), (ground arith, short.1))
      | no other ↦
          let (j, held, short') = h.complete b (ground arith) in
          (j, ground (arith, contains-insert ℕ_discrete found m j), short')
    ];
  }

  -- Of events with short ids, the set tells whether they are listed.
  held_iff :
      {s : Db} {n : ℕ} {names : List EventId} {found : HashSet ℕ} (a : EventId) (m : ℕ)
      → IsConsistent kv lru s n
      → IsShort s a m
      → AreShorts s names found
      → contains ℕ_discrete found m ≡ contains dec_bytes names a
  held_iff {s} {n} {names} {found} a m k short h = elim (Bool-cases (contains ℕ_discrete found m)) [
    | inl e ↦
        let (b, held, short') = h.sound m e in
        let same = (same_short_iff kv lru b a m m s n k short'.0 short'.1 short.0 short.1).0 refl in
        e ∙ sym (ap (contains dec_bytes names) (sym same) ∙ held)
    | inr e ↦ elim (Bool-cases (contains dec_bytes names a)) [
      | inr e' ↦ e ∙ sym e'
      | inl held ↦
          let (j, held', short') = h.complete a held in
          let same =
            (same_short_iff kv lru a a j m s n k short'.0 short'.1 short.0 short.1).1 refl in
          let hit : contains ℕ_discrete found m ≡ true =
            ap (contains ℕ_discrete found) (sym same) ∙ held' in
          cc
    ]
  ]

  -- What the loop has done: the events `names'` are those of `names` and of `auth`.
  pub record Pushed (auth names todo : List EventId) (found : HashSet ℕ) (s : Db) (n : ℕ)
      : Type 0 where
    pub names' : List EventId
    pub todo' : List EventId
    pub found' : HashSet ℕ
    pub s' : Db
    pub n' : ℕ
    pub run : push_auth_events kv lru auth found todo s ≡ (ok (found', todo'), s')
    pub consistent : IsConsistent kv lru s' n'
    pub grown : n' ≤ n + length auth
    pub kept : Kept s s'
    pub shorts : AreShorts s' names' found'
    pub distinct : IsDistinct dec_bytes names'
    pub size : length todo' + length names ≡ length todo + length names'
    pub old : (e : EventId) → Holds names e → Holds names' e
    pub new : (e : EventId) → Holds auth e → Holds names' e
    pub only : (e : EventId) → Holds names' e → Holds names e ⊎ (Holds auth e × Holds todo' e)
    pub still : (e : EventId) → Holds todo e → Holds todo' e
    pub pending : (e : EventId) → Holds todo' e → Holds todo e ⊎ Holds auth e

  abbrev push :
      List EventId → HashSet ℕ → List EventId → Db → Result (HashSet ℕ × List EventId) × Db
  push = push_auth_events kv lru

  push_step :
      (a : EventId) (auth todo : List EventId) (found : HashSet ℕ) (s s' : Db) (m : ℕ) (b : Bool)
      → get_or_create_shorteventid kv lru a s ≡ (ok m, s')
      → contains ℕ_discrete found m ≡ b
      → push (a ∷ auth) found todo s ≡ (
          if b
          then push auth found todo s'
          else push auth (insert ℕ_discrete found m) (a ∷ todo) s')
  unfolding push_auth_events
  push_step a auth todo found s s' m b e e' = ground (arith, e, e')

  -- The first event is listed already.
  skip_event :
      {auth names todo : List EventId} {found : HashSet ℕ} {s s' : Db} {n n' : ℕ} (a : EventId)
      → push (a ∷ auth) found todo s ≡ push auth found todo s'
      → n' ≤ n + 1
      → Kept s s'
      → Holds names a
      → Pushed auth names todo found s' n'
      → Pushed (a ∷ auth) names todo found s n
  unfolding contains
  skip_event a step grown kept held p = record {
    names' = p.names';
    todo' = p.todo';
    found' = p.found';
    s' = p.s';
    n' = p.n';
    run = step ∙ p.run;
    consistent = p.consistent;
    grown = omega (arith, p.grown, grown);
    kept = λ j b h. p.kept j b (kept j b h);
    shorts = p.shorts;
    distinct = p.distinct;
    size = p.size;
    old = p.old;
    still = p.still;
    new = λ b h. elim (dec_bytes a b) [
      | yes same ↦ p.old b (ground arith)
      | no other ↦ p.new b (ground arith)
    ];
    only = λ b h. elim (p.only b h) [ inl x ↦ inl x | inr x ↦ inr (ground (arith, x.0), x.1) ];
    pending = λ b h. elim (p.pending b h) [ inl x ↦ inl x | inr x ↦ inr (ground arith) ];
  }

  -- The first event is listed and pushed.
  take_event :
      {auth names todo : List EventId} {found found1 : HashSet ℕ} {s s' : Db} {n n' : ℕ}
      (a : EventId)
      → push (a ∷ auth) found todo s ≡ push auth found1 (a ∷ todo) s'
      → n' ≤ n + 1
      → Kept s s'
      → Pushed auth (a ∷ names) (a ∷ todo) found1 s' n'
      → Pushed (a ∷ auth) names todo found s n
  unfolding contains
  take_event a step grown kept p = record {
    names' = p.names';
    todo' = p.todo';
    found' = p.found';
    s' = p.s';
    n' = p.n';
    run = step ∙ p.run;
    consistent = p.consistent;
    grown = omega (arith, p.grown, grown);
    kept = λ j b h. p.kept j b (kept j b h);
    shorts = p.shorts;
    distinct = p.distinct;
    size = omega (arith, p.size);
    old = λ b h. p.old b (ground arith);
    still = λ b h. p.still b (ground arith);
    new = λ b h. elim (dec_bytes a b) [
      | yes same ↦ p.old b (ground arith)
      | no other ↦ p.new b (ground arith)
    ];
    only = λ b h. elim (p.only b h) [
      | inr x ↦ inr (ground (arith, x.0), x.1)
      | inl x ↦ elim (dec_bytes a b) [
        | yes same ↦ inr (ground arith, p.still b (ground arith))
        | no other ↦ inl (ground arith)
      ]
    ];
    pending = λ b h. elim (p.pending b h) [
      | inr x ↦ inr (ground arith)
      | inl x ↦ elim (dec_bytes a b) [
        | yes same ↦ inr (ground arith)
        | no other ↦ inl (ground arith)
      ]
    ];
  }

  pub push_auth_events_lem :
      (auth names todo : List EventId) (found : HashSet ℕ) (s : Db) (n : ℕ)
      → IsConsistent kv lru s n
      → n + length auth < u64_mod
      → AreShorts s names found
      → IsDistinct dec_bytes names
      → Pushed auth names todo found s n
  push_auth_events_lem [] names todo found s n k room shorts d = record {
    names' = names;
    todo' = todo;
    found' = found;
    s' = s;
    n' = n;
    run = unfold push_auth_events in refl;
    consistent = k;
    grown = omega arith;
    kept = λ e b h. h;
    shorts = shorts;
    distinct = d;
    size = refl;
    old = λ e h. h;
    new = λ e h. unfold contains in ground arith;
    only = λ e h. inl h;
    still = λ e h. h;
    pending = λ e h. inl h;
  }
  push_auth_events_lem (a ∷ auth) names todo found s n k room shorts d =
      let g = get_or_create_shorteventid_lem kv lru a s n k (omega arith) in
      let sh = g.shortened in
      let later = later-AreShorts sh.kept shorts in
      let short : IsShort g.state a g.short = (sh.stored, sh.small) in
      let known = held_iff a g.short sh.consistent short later in
      elim (Bool-cases (contains dec_bytes names a)) [
        | inl e ↦
            skip_event a (push_step a auth todo found s g.state g.short true g.returned (known ∙ e))
              g.grown.1 sh.kept e
              (push_auth_events_lem auth names todo found g.state g.new_count sh.consistent
                (omega (arith, g.grown)) later d)
        | inr e ↦
            take_event a
              (push_step a auth todo found s g.state g.short false g.returned (known ∙ e)) g.grown.1
              sh.kept
              (push_auth_events_lem auth (a ∷ names) (a ∷ todo) (insert ℕ_discrete found g.short)
                g.state g.new_count sh.consistent (omega (arith, g.grown))
                (added-AreShorts a g.short short later) (e, d))
      ]
