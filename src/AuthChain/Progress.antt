-- ===== src/AuthChain/Progress.antt =====
-- The rounds of the walk over the events: what holds between them
-- (src/service/rooms/auth_chain/mod.rs).
use matrix_server.Base.{
  ℕ, ◌+◌, ◌≤◌, ◌≡◌, ◌≢◌, ◌⊎◌, inl, inr, refl, sym, ap, ◌∙◌, true, Option, some, List, [], ◌∷◌,
  arith,
}
use matrix_server.Base.Bytes.{dec_bytes}
use matrix_server.Base.HashSet.{HashSet, contains, IsDistinct}
use matrix_server.Base.Effect.{Result, ok, err}
use matrix_server.Storage.{KvTree}
use matrix_server.Lru.{LruCache}
use matrix_server.Short.{EventId, RoomId, ShortDb}
use matrix_server.Short.Events.{IsConsistent}
use matrix_server.AuthChain.{Pdu, evil, ℕ_discrete}
use matrix_server.AuthChain.Reaching.{Reaches, IsVisited, direct, further}
use matrix_server.AuthChain.Pushing.{Holds, Kept, IsShort, AreShorts, Pushed}

module _ {T : Type 0} {C : Type 0 → Type 0 → Type 0} (kv : KvTree T)
    (lru : (K V : Type 0) → LruCache K V (C K V)) (get_pdu : EventId → Result (Option Pdu))
    (room : RoomId) (start : EventId) where
  abbrev Db : Type 0
  Db = ShortDb T C

  -- The set holds the short ids of the event's chain and no other.
  pub record IsChain (s : Db) (found : HashSet ℕ) : Type 0 where
    pub sound :
        (m : ℕ)
        → contains ℕ_discrete found m ≡ true
        → (e : EventId) × Reaches get_pdu start e × IsShort kv lru s e m
    pub complete :
        (e : EventId)
        → Reaches get_pdu start e
        → (m : ℕ) × (contains ℕ_discrete found m ≡ true) × IsShort kv lru s e m

  -- The walk from the state `s` at count `n` has returned the chain; it took at most `spent` new ids.
  pub record Found (s : Db) (n spent : ℕ) (r : Result (Option (HashSet ℕ)) × Db) : Type 0 where
    pub found : HashSet ℕ
    pub s' : Db
    pub n' : ℕ
    pub returned : r ≡ (ok (some found), s')
    pub consistent : IsConsistent kv lru s' n'
    pub grown : n' ≤ n + spent
    pub kept : Kept kv lru s s'
    pub chain : IsChain s' found
    pub rooms :
        (e : EventId) (pdu : Pdu)
        → IsVisited get_pdu start e
        → get_pdu e ≡ ok (some pdu)
        → pdu.room_id ≡ room

  pub record Refused (r : Result (Option (HashSet ℕ)) × Db) : Type 0 where
    pub event : EventId
    pub pdu : Pdu
    pub visited : IsVisited get_pdu start event
    pub loaded : get_pdu event ≡ ok (some pdu)
    pub foreign : pdu.room_id ≢ room
    pub returned : r.0 ≡ err evil

  abbrev pub IsDone : List EventId → EventId → Type 0
  IsDone names e =
      (pdu : Pdu)
      → get_pdu e ≡ ok (some pdu)
      → (pdu.room_id ≡ room) × ((a : EventId) → Holds pdu.auth_events a → Holds names a)

  -- What holds at the top of the `while` loop; `names` are the events found so far.
  pub record Walking (names todo : List EventId) (found : HashSet ℕ) (s : Db) (n : ℕ) : Type 0 where
    pub consistent : IsConsistent kv lru s n
    pub shorts : AreShorts kv lru s names found
    pub distinct : IsDistinct dec_bytes names
    pub reached : (e : EventId) → Holds names e → Reaches get_pdu start e
    pub pending : (e : EventId) → Holds todo e → IsVisited get_pdu start e
    pub closed : (e : EventId) → (e ≡ start) ⊎ Holds names e → Holds todo e ⊎ IsDone names e

  done :
      {names : List EventId} {found : HashSet ℕ} {s : Db} {n : ℕ} (e : EventId)
      → Walking names [] found s n
      → (e ≡ start) ⊎ Holds names e
      → IsDone names e
  unfolding contains
  done e w v = elim (w.closed e v) [ inl x ↦ absurd (ground arith) | inr d ↦ d ]

  all_named :
      {names : List EventId} {found : HashSet ℕ} {s : Db} {n : ℕ} (e : EventId)
      → Walking names [] found s n
      → Reaches get_pdu start e
      → Holds names e
  all_named e w (direct a i) = (done start w (inl refl) i.pdu i.loaded).1 e i.listed
  all_named e w (further a b r i) = (done a w (inr (all_named a w r)) i.pdu i.loaded).1 e i.listed

  pub finished-Found :
      (names : List EventId) (found : HashSet ℕ) (s : Db) (n spent : ℕ)
      → Walking names [] found s n
      → Found s n spent (ok (some found), s)
  finished-Found names found s n spent w = record {
    found = found;
    s' = s;
    n' = n;
    returned = refl;
    consistent = w.consistent;
    grown = omega arith;
    kept = λ e b h. h;
    chain = record {
      sound = λ m h. let (e, held, short) = w.shorts.sound m h in (e, w.reached e held, short);
      complete = λ e r. w.shorts.complete e (all_named e w r);
    };
    rooms = λ e pdu v l. elim v [
      | inl same ↦ (done e w (inl same) pdu l).0
      | inr r ↦ (done e w (inr (all_named e w r)) pdu l).0
    ];
  }

  pub earlier-Found :
      {s s1 : Db} {n n1 spent all : ℕ} {r : Result (Option (HashSet ℕ)) × Db} (more : ℕ)
      → Kept kv lru s s1
      → n1 ≤ n + more
      → spent + more ≤ all
      → Found s1 n1 spent r
      → Found s n all r
  earlier-Found more kept grown sum f = record {
    found = f.found;
    s' = f.s';
    n' = f.n';
    returned = f.returned;
    consistent = f.consistent;
    grown = omega (arith, f.grown, grown, sum);
    kept = λ e b h. f.kept e b (kept e b h);
    chain = f.chain;
    rooms = f.rooms;
  }

  -- An event that cannot be loaded is passed over.
  pub passed-Walking :
      {e : EventId} {names todo : List EventId} {found : HashSet ℕ} {s : Db} {n : ℕ}
      → ((pdu : Pdu) → get_pdu e ≢ ok (some pdu))
      → Walking names (e ∷ todo) found s n
      → Walking names todo found s n
  unfolding contains
  passed-Walking {e} missing w = record {
    consistent = w.consistent;
    shorts = w.shorts;
    distinct = w.distinct;
    reached = w.reached;
    pending = λ x h. w.pending x (ground arith);
    closed = λ x h. elim (w.closed x h) [
      | inr d ↦ inr d
      | inl held ↦ elim (dec_bytes e x) [
        | no other ↦ inl (ground arith)
        | yes same ↦ inr (λ pdu l. absurd (missing pdu (ap get_pdu same ∙ l)))
      ]
    ];
  }

  authorized :
      {e : EventId} (a : EventId) (pdu : Pdu)
      → IsVisited get_pdu start e
      → get_pdu e ≡ ok (some pdu)
      → Holds pdu.auth_events a
      → Reaches get_pdu start a
  authorized {e} a pdu (inl same) l h =
      direct a (record { pdu = pdu; loaded = sym (ap get_pdu same) ∙ l; listed = h })
  authorized {e} a pdu (inr r) l h = further e a r (record { pdu = pdu; loaded = l; listed = h })

  now-IsDone :
      {e : EventId} (names : List EventId) (x : EventId) (pdu : Pdu)
      → get_pdu e ≡ ok (some pdu)
      → pdu.room_id ≡ room
      → ((a : EventId) → Holds pdu.auth_events a → Holds names a)
      → e ≡ x
      → IsDone names x
  now-IsDone {e} names x pdu loaded same_room all same q l =
      let equal : ok (some pdu) ≡ ok (some q) = sym loaded ∙ ap get_pdu same ∙ l in
      let one : pdu ≡ q = cc in
      (
        ap (λ y. y.room_id) (sym one) ∙ same_room,
        λ a i. all a (ap (λ y. contains dec_bytes y.auth_events a) one ∙ i),
      )

  -- After the loop over the authorizing events of the event on top.
  pub next-Walking :
      {e : EventId} {names todo : List EventId} {found : HashSet ℕ} {s : Db} {n : ℕ} (pdu : Pdu)
      → get_pdu e ≡ ok (some pdu)
      → pdu.room_id ≡ room
      → Walking names (e ∷ todo) found s n
      → (p : Pushed kv lru pdu.auth_events names todo found s n)
      → Walking p.names' p.todo' p.found' p.s' p.n'
  unfolding contains
  next-Walking {e} {names} {todo} pdu loaded same_room w p =
      let top : IsVisited get_pdu start e = w.pending e (ground arith) in
      let before : (x : EventId)
          → (x ≡ start) ⊎ Holds names x
          → Holds p.todo' x ⊎ IsDone p.names' x =
        λ x h. elim (w.closed x h) [
          | inr d ↦ inr (λ q l. let (r, all) = d q l in (r, λ a i. p.old a (all a i)))
          | inl held ↦ elim (dec_bytes e x) [
            | yes same ↦ inr (now-IsDone p.names' x pdu loaded same_room p.new same)
            | no other ↦ inl (p.still x (ground arith))
          ]
        ] in
      record {
        consistent = p.consistent;
        shorts = p.shorts;
        distinct = p.distinct;
        reached = λ x h. elim (p.only x h) [
          | inl held ↦ w.reached x held
          | inr new ↦ authorized x pdu top loaded new.0
        ];
        pending = λ x h. elim (p.pending x h) [
          | inl held ↦ w.pending x (ground arith)
          | inr new ↦ inr (authorized x pdu top loaded new)
        ];
        closed = λ x h. elim h [
          | inl same ↦ before x (inl same)
          | inr held ↦ elim (p.only x held) [ inl was ↦ before x (inr was) | inr new ↦ inl new.1 ]
        ];
      }
