-- ===== src/AuthChain/Caching.antt =====
-- src/database/key_value/rooms/auth_chain.rs: the cache of chains, in memory and, for single events,
-- in the database.
use matrix_server.Base.{
  ℕ, zero, suc, ◌<◌, ◌≤◌, ◌≡◌, refl, ap, false, Option, none, some, List, [], ◌∷◌, ◌++◌, arith,
  if◌then◌else◌, ltb, ℕ_discrete, length, take, drop, All, length-append, take-append, drop-append,
}
use matrix_server.Base.Bytes.{
  Bytes, to_be_bytes, u64_from_bytes, u64_mod, length-to_be_bytes, u64_from_bytes-to_be_bytes,
}
use matrix_server.Base.HashSet.{HashSet, extend}
use matrix_server.Base.Effect.{Result, ok, err, panicked, Exec, map_ok, and_then, ok_or}
use matrix_server.Storage.{KvTree}
use matrix_server.Lru.{LruCache}
use matrix_server.Short.{ShortDb}

pub record ChainDb (T : Type 0) (C : Type 0 → Type 0 → Type 0) : Type 0 where
  pub shorts : ShortDb T C
  pub shorteventid_authchain : T
  pub auth_chain_cache : C (List ℕ) (HashSet ℕ)

-- `auth_chain.iter().flat_map(|s| s.to_be_bytes().to_vec()).collect()`
unfoldable pub encode_chain : HashSet ℕ → Bytes
encode_chain [] = []
encode_chain (m ∷ chain) = to_be_bytes m ++ encode_chain chain

-- `chain.chunks_exact(8).map(|chunk| u64_from_bytes(chunk).expect(..))`. Each chunk takes eight bytes,
-- so the length is enough fuel.
unfoldable pub read_chunks : ℕ → Bytes → Result (List ℕ)
read_chunks zero bytes = ok []
read_chunks (suc fuel) bytes =
    let rest = read_chunks fuel (drop 8 bytes) in
    if ltb (length bytes) 8
    then ok []
    else and_then (ok_or (u64_from_bytes (take 8 bytes)) panicked)
        (λ m. map_ok (λ more. m ∷ more) rest)

unfoldable pub decode_chain : Bytes → Result (HashSet ℕ)
unfolding read_chunks
decode_chain bytes = map_ok (extend ℕ_discrete []) (read_chunks (length bytes) bytes)

module _ {T : Type 0} {C : Type 0 → Type 0 → Type 0} (kv : KvTree T)
    (lru : (K V : Type 0) → LruCache K V (C K V)) where
  abbrev Db : Type 0
  Db = ChainDb T C

  abbrev ram : LruCache (List ℕ) (HashSet ℕ) (C (List ℕ) (HashSet ℕ))
  ram = lru (List ℕ) (HashSet ℕ)

  -- The lookup of a single event in the database.
  unfoldable pub get_stored_authchain : ℕ → Exec Db (Option (HashSet ℕ))
  unfolding decode_chain
  get_stored_authchain event s = elim (kv.get s.shorteventid_authchain (to_be_bytes event)) [
    | none ↦ (ok none, s)
    | some bytes ↦ elim (decode_chain bytes) [
      | err e ↦ (err e, s)
      | ok chain ↦ (
        ok (some chain),
        record s { auth_chain_cache = ram.insert s.auth_chain_cache (event ∷ []) chain },
      )
    ]
  ]

  unfoldable pub get_stored : List ℕ → Exec Db (Option (HashSet ℕ))
  unfolding get_stored_authchain
  get_stored [] s = (ok none, s)
  get_stored (event ∷ []) s = get_stored_authchain event s
  get_stored (event ∷ next ∷ key) s = (ok none, s)

  unfoldable pub get_cached_eventid_authchain : List ℕ → Exec Db (Option (HashSet ℕ))
  unfolding get_stored
  get_cached_eventid_authchain key s =
      let found = ram.get_mut s.auth_chain_cache key in
      let s' : Db = record s { auth_chain_cache = found.1 } in
      elim found.0 [ some chain ↦ (ok (some chain), s') | none ↦ get_stored key s' ]

  -- Chains of single events are persisted.
  abbrev persist : List ℕ → HashSet ℕ → T → T
  persist [] chain t = t
  persist (event ∷ []) chain t = kv.insert t (to_be_bytes event) (encode_chain chain)
  persist (event ∷ next ∷ key) chain t = t

  unfoldable pub cache_auth_chain : List ℕ → HashSet ℕ → Exec Db (Unit {0})
  unfolding encode_chain
  cache_auth_chain key chain s = (
    ok tt,
    record s {
      shorteventid_authchain = persist key chain s.shorteventid_authchain;
      auth_chain_cache = ram.insert s.auth_chain_cache key chain;
    },
  )

read_chunks-encode_chain :
    (fuel : ℕ) (chain : HashSet ℕ)
    → All (λ m. m < u64_mod) chain
    → length chain ≤ fuel
    → read_chunks fuel (encode_chain chain) ≡ ok chain
unfolding read_chunks encode_chain to_be_bytes
read_chunks-encode_chain zero [] small enough = refl
read_chunks-encode_chain (suc fuel) [] small enough = refl
read_chunks-encode_chain zero (m ∷ chain) small enough = absurd (omega arith)
read_chunks-encode_chain (suc fuel) (m ∷ chain) small enough =
    let head : take 8 (to_be_bytes m ++ encode_chain chain) ≡ to_be_bytes m =
      take-append (to_be_bytes m) (encode_chain chain) in
    let tail : drop 8 (to_be_bytes m ++ encode_chain chain) ≡ encode_chain chain =
      drop-append (to_be_bytes m) (encode_chain chain) in
    let long : ltb (length (to_be_bytes m ++ encode_chain chain)) 8 ≡ false =
      ground (arith, length-append (to_be_bytes m) (encode_chain chain), length-to_be_bytes m) in
    rw
      (
        long,
        head,
        tail,
        u64_from_bytes-to_be_bytes m small.0,
        read_chunks-encode_chain fuel chain small.1 (omega arith),
      )
      refl

length-encode_chain : (chain : HashSet ℕ) → length chain ≤ length (encode_chain chain)
unfolding encode_chain
length-encode_chain [] = omega arith
length-encode_chain (m ∷ chain) = omega (
  arith,
  length-encode_chain chain,
  length-append (to_be_bytes m) (encode_chain chain),
  length-to_be_bytes m,
)

-- A persisted chain is read back as a set with the same elements, if they fit in 64 bits.
pub decode_chain-encode_chain :
    (chain : HashSet ℕ)
    → All (λ m. m < u64_mod) chain
    → decode_chain (encode_chain chain) ≡ ok (extend ℕ_discrete [] chain)
unfolding decode_chain
decode_chain-encode_chain chain small =
    ap (map_ok (extend ℕ_discrete [])) (
      read_chunks-encode_chain (length (encode_chain chain)) chain small
        (length-encode_chain chain))
