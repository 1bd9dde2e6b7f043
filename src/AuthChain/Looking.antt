-- ===== src/AuthChain/Looking.antt =====
-- A lookup in the cache of chains (src/database/key_value/rooms/auth_chain.rs,
-- `get_cached_eventid_authchain`).
use mathlib.Core.Path.{subst}
use matrix_server.Base.{
  ℕ, ◌≡◌, inl, inr, refl, Option, none, some, Option-cases, List, [], ◌∷◌, arith,
}
use matrix_server.Base.Bytes.{to_be_bytes}
use matrix_server.Base.HashSet.{HashSet}
use matrix_server.Base.Effect.{Result, ok}
use matrix_server.Storage.{KvTree}
use matrix_server.Lru.{LruCache}
use matrix_server.Short.{EventId}
use matrix_server.Short.Events.{IsConsistent}
use matrix_server.AuthChain.{Pdu}
use matrix_server.AuthChain.Pushing.{AreShorts}
use matrix_server.AuthChain.Caching.{
  ChainDb, get_stored_authchain, get_stored, get_cached_eventid_authchain,
}
use matrix_server.AuthChain.Cached.{
  IsUnion, IsSound, cached_of_key, used-IsSound, inserted-IsSound, small_key,
}

module _ {T : Type 0} {C : Type 0 → Type 0 → Type 0} (kv : KvTree T)
    (lru : (K V : Type 0) → LruCache K V (C K V)) (get_pdu : EventId → Result (Option Pdu)) where
  abbrev Db : Type 0
  Db = ChainDb T C

  abbrev ram : LruCache (List ℕ) (HashSet ℕ) (C (List ℕ) (HashSet ℕ))
  ram = lru (List ℕ) (HashSet ℕ)

  -- A lookup: what it finds is the union of the chains.
  pub record Looked (names : List EventId) (s : Db) (r : Result (Option (HashSet ℕ)) × Db)
      : Type 0 where
    pub hit : Option (HashSet ℕ)
    pub s' : Db
    pub returned : r ≡ (ok hit, s')
    pub same : s'.shorts ≡ s.shorts
    pub sound : IsSound kv lru get_pdu s'
    pub union : (chain : HashSet ℕ) → hit ≡ some chain → IsUnion kv lru get_pdu s.shorts names chain

  missed : {names : List EventId} (s : Db) → IsSound kv lru get_pdu s → Looked names s (ok none, s)
  missed s c = record {
    hit = none;
    s' = s;
    returned = refl;
    same = refl;
    sound = c;
    union = λ chain e. absurd (ground arith);
  }

  get_stored_lem :
      (key : List ℕ) (names : List EventId) (s : Db) (n : ℕ)
      → IsConsistent kv lru s.shorts n
      → AreShorts kv lru s.shorts names key
      → IsSound kv lru get_pdu s
      → Looked names s (get_stored kv lru key s)
  unfolding get_stored get_stored_authchain
  get_stored_lem [] names s n k h c = missed s c
  get_stored_lem (event ∷ next ∷ key) names s n k h c = missed s c
  get_stored_lem (event ∷ []) names s n k h c =
      elim (Option-cases (kv.get s.shorteventid_authchain (to_be_bytes event))) [
        | inl absent ↦ record {
          hit = none;
          s' = s;
          returned = ground (arith, absent);
          same = refl;
          sound = c;
          union = λ chain e. absurd (ground arith);
        }
        | inr (bytes, found) ↦
            let (chain, d, cached) =
              c.stored event bytes (small_key kv lru get_pdu event h) found in
            record {
              hit = some chain;
              s' = record s { auth_chain_cache = ram.insert s.auth_chain_cache (event ∷ []) chain };
              returned = ground (arith, found, d);
              same = refl;
              sound = inserted-IsSound kv lru get_pdu (event ∷ []) chain cached c;
              union = λ w e.
                  subst (IsUnion kv lru get_pdu s.shorts names) (ground arith)
                    (cached_of_key kv lru get_pdu k h cached);
            }
      ]

  pub get_cached_lem :
      (key : List ℕ) (names : List EventId) (s : Db) (n : ℕ)
      → IsConsistent kv lru s.shorts n
      → AreShorts kv lru s.shorts names key
      → IsSound kv lru get_pdu s
      → Looked names s (get_cached_eventid_authchain kv lru key s)
  unfolding get_cached_eventid_authchain
  get_cached_lem key names s n k h c = elim (Option-cases (ram.get_mut s.auth_chain_cache key).0) [
    | inr (chain, hit) ↦ record {
      hit = some chain;
      s' = record s { auth_chain_cache = (ram.get_mut s.auth_chain_cache key).1 };
      returned = ground (arith, hit);
      same = refl;
      sound = used-IsSound kv lru get_pdu key c;
      union = λ w e.
          subst (IsUnion kv lru get_pdu s.shorts names) (ground arith)
            (cached_of_key kv lru get_pdu k h (c.hits key chain hit));
    }
    | inl miss ↦
        let l =
          get_stored_lem key names
            (record s { auth_chain_cache = (ram.get_mut s.auth_chain_cache key).1 }) n k h
            (used-IsSound kv lru get_pdu key c) in
        record {
          hit = l.hit;
          s' = l.s';
          returned = ground (arith, miss, l.returned);
          same = l.same;
          sound = l.sound;
          union = l.union;
        }
  ]
