-- ===== src/AuthChain/Cached.antt =====
-- What the cache of chains holds are chains (src/database/key_value/rooms/auth_chain.rs).
use mathlib.Core.Path.{subst}
use matrix_server.Base.{
  ℕ, ◌<◌, ◌≡◌, inl, inr, refl, sym, ap, ◌∙◌, true, Option, some, List, [], ◌∷◌, arith, ℕ_discrete,
  All,
}
use matrix_server.Base.Bytes.{Bytes, dec_bytes, to_be_bytes, u64_mod, to_be_bytes_injective}
use matrix_server.Base.HashSet.{HashSet, contains, extend, contains-extend}
use matrix_server.Base.Effect.{Result, ok}
use matrix_server.Storage.{KvTree}
use matrix_server.Lru.{LruCache}
use matrix_server.Short.{EventId, ShortDb}
use matrix_server.Short.Events.{IsConsistent, same_short_iff}
use matrix_server.AuthChain.{Pdu}
use matrix_server.AuthChain.Reaching.{Reaches}
use matrix_server.AuthChain.Pushing.{Holds, Kept, IsShort, AreShorts, later-AreShorts}
use matrix_server.AuthChain.Caching.{
  ChainDb, encode_chain, decode_chain, decode_chain-encode_chain, cache_auth_chain,
}

module _ {T : Type 0} {C : Type 0 → Type 0 → Type 0} (kv : KvTree T)
    (lru : (K V : Type 0) → LruCache K V (C K V)) (get_pdu : EventId → Result (Option Pdu)) where
  abbrev Db : Type 0
  Db = ChainDb T C

  -- The set holds the short ids of the events' chains and no other.
  pub record IsUnion (s : ShortDb T C) (names : List EventId) (chain : HashSet ℕ) : Type 0 where
    pub sound :
        (m : ℕ)
        → contains ℕ_discrete chain m ≡ true
        → (e a : EventId) × Holds names e × Reaches get_pdu e a × IsShort kv lru s a m
    pub complete :
        (e a : EventId)
        → Holds names e
        → Reaches get_pdu e a
        → (m : ℕ) × (contains ℕ_discrete chain m ≡ true) × IsShort kv lru s a m

  -- The key lists the short ids of events of which the set is the union of chains.
  pub record IsCached (s : ShortDb T C) (key : List ℕ) (chain : HashSet ℕ) : Type 0 where
    pub names : List EventId
    pub shorts : AreShorts kv lru s names key
    pub union : IsUnion s names chain

  abbrev ram : LruCache (List ℕ) (HashSet ℕ) (C (List ℕ) (HashSet ℕ))
  ram = lru (List ℕ) (HashSet ℕ)

  pub record IsSound (s : Db) : Type 0 where
    pub hits :
        (key : List ℕ) (chain : HashSet ℕ)
        → (ram.get_mut s.auth_chain_cache key).0 ≡ some chain
        → IsCached s.shorts key chain
    pub stored :
        (n : ℕ) (bytes : Bytes)
        → n < u64_mod
        → kv.get s.shorteventid_authchain (to_be_bytes n) ≡ some bytes
        → (chain : HashSet ℕ) × (decode_chain bytes ≡ ok chain) × IsCached s.shorts (n ∷ []) chain

  pub later-IsUnion :
      {s s' : ShortDb T C} {names : List EventId} {chain : HashSet ℕ}
      → Kept kv lru s s'
      → IsUnion s names chain
      → IsUnion s' names chain
  later-IsUnion k u = record {
    sound = λ m h.
        let (e, a, held, r, short) = u.sound m h in
        (e, a, held, r, (k a (to_be_bytes m) short.0, short.1));
    complete = λ e a held r.
        let (m, h, short) = u.complete e a held r in (m, h, (k a (to_be_bytes m) short.0, short.1));
  }

  later-IsCached :
      {s s' : ShortDb T C} {key : List ℕ} {chain : HashSet ℕ}
      → Kept kv lru s s'
      → IsCached s key chain
      → IsCached s' key chain
  later-IsCached k c = record {
    names = c.names;
    shorts = later-AreShorts kv lru k c.shorts;
    union = later-IsUnion k c.union;
  }

  pub later-IsSound :
      {s : Db} (shorts' : ShortDb T C)
      → Kept kv lru s.shorts shorts'
      → IsSound s
      → IsSound (record s { shorts = shorts' })
  later-IsSound shorts' k c = record {
    hits = λ key chain h. later-IsCached k (c.hits key chain h);
    stored = λ n bytes small h.
        let (chain, d, cached) = c.stored n bytes small h in (chain, d, later-IsCached k cached);
  }

  -- Two lists of events with the same short ids have the same events.
  same_names :
      {s : ShortDb T C} {n : ℕ} {key : List ℕ} {names names' : List EventId}
      → IsConsistent kv lru s n
      → AreShorts kv lru s names key
      → AreShorts kv lru s names' key
      → (e : EventId) → Holds names e
      → Holds names' e
  same_names {s} {n} {names'} k h h' e held =
      let (m, m_in, short) = h.complete e held in
      let (j, held', short') = h'.sound m m_in in
      let same = (same_short_iff kv lru j e m m s n k short'.0 short'.1 short.0 short.1).0 refl in
      ap (contains dec_bytes names') (sym same) ∙ held'

  pub renamed-IsUnion :
      {s : ShortDb T C} {names names' : List EventId} {chain : HashSet ℕ}
      → IsUnion s names chain
      → ((e : EventId) → Holds names e → Holds names' e)
      → ((e : EventId) → Holds names' e → Holds names e)
      → IsUnion s names' chain
  renamed-IsUnion u f g = record {
    sound = λ m h. let (e, a, held, r, short) = u.sound m h in (e, a, f e held, r, short);
    complete = λ e a held r. u.complete e a (g e held) r;
  }

  pub cached_of_key :
      {s : ShortDb T C} {n : ℕ} {key : List ℕ} {names : List EventId} {chain : HashSet ℕ}
      → IsConsistent kv lru s n
      → AreShorts kv lru s names key
      → IsCached s key chain
      → IsUnion s names chain
  cached_of_key k h c = renamed-IsUnion c.union (same_names k c.shorts h) (same_names k h c.shorts)

  pub used-IsSound :
      {s : Db} (key : List ℕ)
      → IsSound s
      → IsSound (record s { auth_chain_cache = (ram.get_mut s.auth_chain_cache key).1 })
  used-IsSound {s} key c = record {
    hits = λ j chain h. c.hits j chain (ram.hit_of_get_mut s.auth_chain_cache key j chain h);
    stored = c.stored;
  }

  pub inserted-IsSound :
      {s : Db} (key : List ℕ) (chain : HashSet ℕ)
      → IsCached s.shorts key chain
      → IsSound s
      → IsSound (record s { auth_chain_cache = ram.insert s.auth_chain_cache key chain })
  inserted-IsSound {s} key chain new c = record {
    hits = λ j w h. elim (ram.hit_of_insert s.auth_chain_cache key j chain w h) [
      | inl (same, value) ↦
          subst (λ x. IsCached s.shorts x w) same (subst (λ x. IsCached s.shorts key x) value new)
      | inr old ↦ c.hits j w old
    ];
    stored = c.stored;
  }

  each_small :
      (chain : HashSet ℕ)
      → ((m : ℕ) → contains ℕ_discrete chain m ≡ true → m < u64_mod)
      → All (λ m. m < u64_mod) chain
  unfolding contains
  each_small [] h = tt
  each_small (m ∷ chain) h = (h m (ground arith), each_small chain (λ j e. h j (ground arith)))

  collected-IsCached :
      {s : ShortDb T C} {key : List ℕ} {chain : HashSet ℕ}
      → IsCached s key chain
      → IsCached s key (extend ℕ_discrete [] chain)
  collected-IsCached {chain} c = record {
    names = c.names;
    shorts = c.shorts;
    union = record {
      sound = λ m h.
          c.union.sound m
            (unfold contains in ground (arith, contains-extend ℕ_discrete [] chain m));
      complete = λ e a held r.
          let (m, h, short) = c.union.complete e a held r in
          (m, unfold contains in ground (arith, contains-extend ℕ_discrete [] chain m), short);
    };
  }

  pub small_key :
      {s : ShortDb T C} {names : List EventId} (event : ℕ)
      → AreShorts kv lru s names (event ∷ [])
      → event < u64_mod
  unfolding contains
  small_key event h = let (e, held, short) = h.sound event (ground arith) in short.1

  small_of_union :
      {s : ShortDb T C} {names : List EventId} {chain : HashSet ℕ} (m : ℕ)
      → IsUnion s names chain
      → contains ℕ_discrete chain m ≡ true
      → m < u64_mod
  small_of_union m u h = let (e, a, held, r, short) = u.sound m h in short.1

  persisted-IsSound :
      {s : Db} (event : ℕ) (chain : HashSet ℕ)
      → IsCached s.shorts (event ∷ []) chain
      → IsSound s
      → IsSound (record s {
        shorteventid_authchain =
            kv.insert s.shorteventid_authchain (to_be_bytes event) (encode_chain chain);
      })
  persisted-IsSound {s} event chain new c = record {
    hits = c.hits;
    stored = λ n bytes small h. elim (ℕ_discrete event n) [
      | yes same ↦
          let written : bytes ≡ encode_chain chain = ground (
            arith,
            kv.get-insert s.shorteventid_authchain (to_be_bytes event) (encode_chain chain)
                (to_be_bytes n),
          ) in
          (
            extend ℕ_discrete [] chain,
            rw written (
                decode_chain-encode_chain chain
                  (each_small chain (λ m e. small_of_union m new.union e))),
            subst (λ x. IsCached s.shorts (x ∷ []) (extend ℕ_discrete [] chain)) same
                (collected-IsCached new),
          )
      | no other ↦ c.stored n bytes small (
          ground (
            arith,
            kv.get-insert s.shorteventid_authchain (to_be_bytes event) (encode_chain chain)
                (to_be_bytes n),
            to_be_bytes_injective event n (small_key event new.shorts) small,
          ))
    ];
  }

  -- If every hit of the cache in memory and every stored value, read back from its bytes, is the
  -- union of the chains of the events of its key, then this still holds after `cache_auth_chain`
  -- with a key and the union of the chains of its events.
  pub cache_auth_chain-IsSound :
      (s : Db) (key : List ℕ) (chain : HashSet ℕ)
      → IsCached s.shorts key chain
      → IsSound s
      → IsSound (cache_auth_chain kv lru key chain s).1
  unfolding cache_auth_chain
  cache_auth_chain-IsSound s [] chain new c = inserted-IsSound [] chain new c
  cache_auth_chain-IsSound s (event ∷ []) chain new c =
      inserted-IsSound (event ∷ []) chain new (persisted-IsSound event chain new c)
  cache_auth_chain-IsSound s (event ∷ next ∷ key) chain new c =
      inserted-IsSound (event ∷ next ∷ key) chain new c

  -- Caching leaves the short ids alone.
  pub cache_auth_chain_lem :
      (s : Db) (key : List ℕ) (chain : HashSet ℕ)
      → IsCached s.shorts key chain
      → IsSound s
      → (s' : Db) × (cache_auth_chain kv lru key chain s ≡ (ok tt, s'))
        × (s'.shorts ≡ s.shorts)
        × IsSound s'
  unfolding cache_auth_chain
  cache_auth_chain_lem s key chain new c = (
    (cache_auth_chain kv lru key chain s).1,
    refl,
    refl,
    cache_auth_chain-IsSound s key chain new c,
  )
