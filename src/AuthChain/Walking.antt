-- ===== src/AuthChain/Walking.antt =====
-- The walk over the events ends, with the event's chain or at an event of another room
-- (src/service/rooms/auth_chain/mod.rs).
use matrix_server.Base.{
  ℕ, zero, suc, ◌+◌, ◌*◌, ◌≤◌, ◌<◌, ◌≡◌, ◌≢◌, ◌⊎◌, inl, inr, sym, ap, Option, none, some, List, [],
  ◌∷◌, arith, length,
}
use mathlib.Core.Path.{subst}
use matrix_server.Base.Bytes.{dec_bytes, u64_mod}
use matrix_server.Base.HashSet.{HashSet, contains}
use matrix_server.Base.Effect.{Result, ok, err, Result-cases}
use matrix_server.Storage.{KvTree}
use matrix_server.Lru.{LruCache}
use matrix_server.Short.{EventId, RoomId, ShortDb}
use matrix_server.Short.Events.{IsConsistent}
use matrix_server.AuthChain.{Pdu, evil, push_auth_events, walk, get_auth_chain_inner}
use matrix_server.AuthChain.Reaching.{Reaches, length_of_distinct}
use matrix_server.AuthChain.Pushing.{Holds, Kept, push_auth_events_lem}
use matrix_server.AuthChain.Progress.{
  Found, Refused, Walking, finished-Found, earlier-Found, passed-Walking, next-Walking,
}

module _ {T : Type 0} {C : Type 0 → Type 0 → Type 0} (kv : KvTree T)
    (lru : (K V : Type 0) → LruCache K V (C K V)) (get_pdu : EventId → Result (Option Pdu))
    (room : RoomId) (start : EventId) where
  abbrev Db : Type 0
  Db = ShortDb T C

  -- The bounds that the walk needs: no event lists more than `width` others, and `universe` lists the
  -- chain.
  module _ (universe : List EventId) (width : ℕ)
      (narrow : (e : EventId) (pdu : Pdu)
        → get_pdu e ≡ ok (some pdu)
        → length pdu.auth_events ≤ width)
      (listed : (e : EventId) → Reaches get_pdu start e → Holds universe e) where
    names_fit :
        {names todo : List EventId} {found : HashSet ℕ} {s : Db} {n : ℕ}
        → Walking kv lru get_pdu room start names todo found s n
        → length names ≤ length universe
    names_fit {names} w =
        length_of_distinct names universe w.distinct (λ e h. listed e (w.reached e h))

    abbrev walked : ℕ → List EventId → HashSet ℕ → Db → Result (Option (HashSet ℕ)) × Db
    walked fuel = walk kv lru get_pdu fuel room

    abbrev Outcome : Db → ℕ → ℕ → Result (Option (HashSet ℕ)) × Db → Type 0
    Outcome s n spent r =
        Found kv lru get_pdu room start s n spent r ⊎ Refused kv lru get_pdu room start r

    earlier :
        {s s1 : Db} {n n1 spent all : ℕ} {r r' : Result (Option (HashSet ℕ)) × Db} (more : ℕ)
        → r ≡ r'
        → Kept kv lru s s1
        → n1 ≤ n + more
        → spent + more ≤ all
        → Outcome s1 n1 spent r'
        → Outcome s n all r
    earlier {s} {n} {all} more step kept grown sum (inl f) = inl (
        subst (Found kv lru get_pdu room start s n all) (sym step)
          (earlier-Found kv lru get_pdu room start more kept grown sum f))
    earlier more step kept grown sum (inr f) =
        inr (subst (Refused kv lru get_pdu room start) (sym step) f)

    pass_step :
        (fuel : ℕ) (e : EventId) (todo : List EventId) (found : HashSet ℕ) (s : Db)
        → ((pdu : Pdu) → get_pdu e ≢ ok (some pdu))
        → walked (suc fuel) (e ∷ todo) found s ≡ walked fuel todo found s
    unfolding walk
    pass_step fuel e todo found s missing = elim (Result-cases (get_pdu e)) [
      | inr (x, l) ↦ ground (arith, l)
      | inl (none, l) ↦ ground (arith, l)
      | inl (some pdu, l) ↦ absurd (missing pdu l)
    ]

    refuse_step :
        (fuel : ℕ) (e : EventId) (todo : List EventId) (found : HashSet ℕ) (s : Db) (pdu : Pdu)
        → get_pdu e ≡ ok (some pdu)
        → pdu.room_id ≢ room
        → walked (suc fuel) (e ∷ todo) found s ≡ (err evil, s)
    unfolding walk
    refuse_step fuel e todo found s pdu l other = ground (arith, l)

    push_step :
        (fuel : ℕ) (e : EventId) (todo todo' : List EventId) (found found' : HashSet ℕ) (s s' : Db)
        (pdu : Pdu)
        → get_pdu e ≡ ok (some pdu)
        → pdu.room_id ≡ room
        → push_auth_events kv lru pdu.auth_events found todo s ≡ (ok (found', todo'), s')
        → walked (suc fuel) (e ∷ todo) found s ≡ walked fuel todo' found' s'
    unfolding walk
    push_step fuel e todo todo' found found' s s' pdu l same run = ground (arith, l, run)

    loads :
        (e : EventId)
        → ((pdu : Pdu) → get_pdu e ≢ ok (some pdu)) ⊎ ((pdu : Pdu) × (get_pdu e ≡ ok (some pdu)))
    loads e = elim (Result-cases (get_pdu e)) [
      | inr (x, l) ↦ inl (λ pdu h. cc)
      | inl (none, l) ↦ inl (λ pdu h. cc)
      | inl (some pdu, l) ↦ inr (pdu, l)
    ]

    top : (e : EventId) (todo : List EventId) → Holds (e ∷ todo) e
    unfolding contains
    top e todo = ground arith

    walk_lem :
        (fuel : ℕ) (names todo : List EventId) (found : HashSet ℕ) (s : Db) (n : ℕ)
        → Walking kv lru get_pdu room start names todo found s n
        → length todo + length universe ≤ fuel + length names
        → n + fuel * width < u64_mod
        → Outcome s n (fuel * width) (walked fuel todo found s)
    walk_lem zero names [] found s n w size space =
        unfold walk in
        inl (finished-Found kv lru get_pdu room start names found s n (zero * width) w)
    walk_lem (suc fuel) names [] found s n w size space =
        unfold walk in
        inl (finished-Found kv lru get_pdu room start names found s n (suc fuel * width) w)
    walk_lem zero names (e ∷ todo) found s n w size space =
        absurd (omega (arith, size, names_fit w))
    walk_lem (suc fuel) names (e ∷ todo) found s n w size space = elim (loads e) [
      | inl missing ↦
          earlier 0 (pass_step fuel e todo found s missing) (λ j b h. h) (omega arith) (grind arith)
            (walk_lem fuel names todo found s n (passed-Walking kv lru get_pdu room start missing w)
              (omega (arith, size)) (grind arith))
      | inr (pdu, l) ↦ elim (dec_bytes pdu.room_id room) [
        | no other ↦ inr (record {
          event = e;
          pdu = pdu;
          visited = w.pending e (top e todo);
          loaded = l;
          foreign = other;
          returned = ap (λ r. r.0) (refuse_step fuel e todo found s pdu l other);
        })
        | yes same ↦
            let p =
              push_auth_events_lem kv lru pdu.auth_events names todo found s n w.consistent
                (grind (arith, narrow e pdu l)) w.shorts w.distinct in
            earlier (length pdu.auth_events)
              (push_step fuel e todo p.todo' found p.found' s p.s' pdu l same p.run) p.kept p.grown
              (grind (arith, narrow e pdu l))
              (walk_lem fuel p.names' p.todo' p.found' p.s' p.n'
                (next-Walking kv lru get_pdu room start pdu l same w p)
                (omega (arith, size, p.size)) (grind (arith, narrow e pdu l, p.grown)))
      ]
    ]

    begun-Walking :
        (s : Db) (n : ℕ)
        → IsConsistent kv lru s n
        → Walking kv lru get_pdu room start [] (start ∷ []) [] s n
    unfolding contains
    begun-Walking s n k = record {
      consistent = k;
      shorts = record {
        sound = λ m h. absurd (ground arith);
        complete = λ e h. absurd (ground arith);
      };
      distinct = tt;
      reached = λ e h. absurd (ground arith);
      pending = λ e h. inl (ground arith);
      closed = λ e h. elim h [ inl same ↦ inl (ground arith) | inr held ↦ absurd (ground arith) ];
    }

    -- With one round more than `universe` has events as fuel, where `universe` lists the
    -- authorization chain of an event, `get_auth_chain_inner` ends. Either all visited events
    -- belong to the room and it returns the short ids of exactly the events of the chain, with the
    -- short ids consistent afterwards and none changed, or a visited event belongs to another room
    -- and it returns the error `Evil event in db`. It assumes that the short ids are consistent,
    -- that no event lists more than `width` others and that the counter has room for `width` new
    -- short ids in each round.
    pub get_auth_chain_inner_lem :
        (s : Db) (n : ℕ)
        → IsConsistent kv lru s n
        → n + suc (length universe) * width < u64_mod
        → Found kv lru get_pdu room start s n
            (suc (length universe) * width)
            (get_auth_chain_inner kv lru get_pdu (suc (length universe)) room start s)
          ⊎ Refused kv lru get_pdu room start
              (get_auth_chain_inner kv lru get_pdu (suc (length universe)) room start s)
    unfolding get_auth_chain_inner
    get_auth_chain_inner_lem s n k space =
        walk_lem (suc (length universe)) [] (start ∷ []) [] s n (begun-Walking s n k) (omega arith)
          space
