-- ===== src/Users/Taking.antt =====
-- One-time keys are handed out once (src/database/key_value/users.rs).
use matrix_server.Base.{
  ◌≡◌, ◌≢◌, ◌⊎◌, refl, sym, true, Option, none, some, [], ◌∷◌, ◌++◌, arith, ite, if◌then◌else◌,
  Option-cases, inl, inr,
}
use matrix_server.Base.Bytes.{Bytes, to_be_bytes, dec_bytes, starts_with}
use matrix_server.Base.Keys.{◌⋄◌, last_part, starts_with-longer}
use matrix_server.Base.Effect.{Result, ok, map_ok, Exec}
use matrix_server.Storage.{KvTree, Entries, lookup}
use matrix_server.Json.{Json, RawJson}
use matrix_server.Globals.{next_count}
use matrix_server.Globals.Counting.{next_count-ok}
use matrix_server.Users.{UserDb, Names, draw_count}
use matrix_server.Users.OneTimeKeys.{
  Counts, add_one, mark_update, take_first, take_one_time_key, parse_key, algorithm_prefix,
  count_algorithms, count_one_time_keys,
}

module _ {T I K : Type 0} (kv : KvTree T) (names : Names) (ids : Json I) (keys : RawJson K)
    (algorithm : I → Bytes) where
  abbrev take : Bytes → Bytes → Bytes → Exec (UserDb T) (Option (I × K))
  take = take_one_time_key kv names ids keys algorithm

  abbrev prefix : Bytes → Bytes → Bytes → Bytes
  prefix = algorithm_prefix kv names ids keys algorithm

  -- The key that was handed out: it was stored below the prefix, is gone, and all others are as before.
  pub record Taken (p : Bytes) (r : Result (Option (I × K))) (s s' : UserDb T) : Type 0 where
    pub key : Bytes
    pub value : Bytes
    pub stored : kv.get s.onetimekeyid_onetimekeys key ≡ some value
    pub below : starts_with p key ≡ true
    pub returned : r ≡ map_ok some (parse_key kv names ids keys algorithm key value)
    pub removed :
        (j : Bytes)
        → kv.get s'.onetimekeyid_onetimekeys j
          ≡ ite (dec_bytes key j) none (kv.get s.onetimekeyid_onetimekeys j)

  -- No key is stored below the prefix, and none was handed out.
  pub record Exhausted (p : Bytes) (r : Result (Option (I × K))) (s s' : UserDb T) : Type 0 where
    pub absent :
        (j : Bytes) → (if starts_with p j then kv.get s.onetimekeyid_onetimekeys j else none) ≡ none
    pub returned : r ≡ ok none
    pub same : s'.onetimekeyid_onetimekeys ≡ s.onetimekeyid_onetimekeys

  mark_update_lem :
      (u : Bytes) (s : UserDb T)
      → (s' : UserDb T) × (mark_update kv names ids keys algorithm u s ≡ (ok tt, s'))
        × (s'.onetimekeyid_onetimekeys ≡ s.onetimekeyid_onetimekeys)
  unfolding mark_update draw_count
  mark_update_lem u s =
      let (n, e, _) = next_count-ok kv s.global in
      (
        record s {
          global = (next_count kv s.global).1;
          userid_lastonetimekeyupdate = kv.insert s.userid_lastonetimekeyupdate u (to_be_bytes n);
        },
        rw e refl,
        refl,
      )

  abbrev first : Entries → Exec (UserDb T) (Option (I × K))
  first = take_first kv names ids keys algorithm

  first_lem :
      (p : Bytes) (es : Entries) (s s' : UserDb T)
      → ((j : Bytes)
          → lookup j es ≡ (if starts_with p j then kv.get s.onetimekeyid_onetimekeys j else none))
      → s'.onetimekeyid_onetimekeys ≡ s.onetimekeyid_onetimekeys
      → Exhausted p (first es s').0 s (first es s').1 ⊎ Taken p (first es s').0 s (first es s').1
  unfolding take_first lookup
  first_lem p [] s s' h same =
      inl (record { absent = λ j. sym (h j); returned = refl; same = same })
  first_lem p ((k, v) ∷ rest) s s' h same =
      let found : (if starts_with p k then kv.get s.onetimekeyid_onetimekeys k else none) ≡ some v =
        ground (arith, h k) in
      inr (record {
        key = k;
        value = v;
        stored = ground (arith, found);
        below = ground (arith, found);
        returned = refl;
        removed = λ j. ground (arith, kv.get-remove s'.onetimekeyid_onetimekeys k j, same);
      })

  -- `take_one_time_key` either returns none, leaves the one-time keys as they are, and no key of
  -- the algorithm is stored for the device; or it returns a stored key of the device and algorithm,
  -- parsed (an error if it cannot be parsed), and exactly that key is gone afterwards. So no key is
  -- handed out twice.
  pub take_one_time_key_lem :
      (u d a : Bytes) (s : UserDb T)
      → Exhausted (prefix u d a) (take u d a s).0 s (take u d a s).1
        ⊎ Taken (prefix u d a) (take u d a s).0 s (take u d a s).1
  unfolding take_one_time_key
  take_one_time_key_lem u d a s =
      let (s', e, same) = mark_update_lem u s in
      let p = prefix u d a in
      rw e (
        first_lem p (kv.scan_prefix s'.onetimekeyid_onetimekeys p) s s'
          (λ j. ground (arith, kv.lookup-scan_prefix s'.onetimekeyid_onetimekeys p j, same)) same)

  add_one-ne-nil : (a : Bytes) (cs : Counts) → add_one a cs ≢ []
  unfolding add_one
  add_one-ne-nil a [] e = cc
  add_one-ne-nil a ((b, n) ∷ cs) e = ground arith

  counts_grow :
      (es : Entries) (cs : Counts)
      → cs ≢ []
      → count_algorithms kv names ids keys algorithm es cs ≢ ok []
  unfolding count_algorithms
  counts_grow [] cs h e = h (ground arith)
  counts_grow ((k, v) ∷ es) cs h e = elim (Option-cases (ids.from_slice (last_part k))) [
    | inl bad ↦ ground arith
    | inr (i, good) ↦
        counts_grow es (add_one (algorithm i) cs) (add_one-ne-nil (algorithm i) cs) (ground arith)
  ]

  count_some :
      (es : Entries) (j v : Bytes)
      → lookup j es ≡ some v
      → count_algorithms kv names ids keys algorithm es [] ≢ ok []
  unfolding count_algorithms lookup
  count_some [] j v h e = cc
  count_some ((k, w) ∷ es) j v h e = elim (Option-cases (ids.from_slice (last_part k))) [
    | inl bad ↦ ground arith
    | inr (i, good) ↦
        counts_grow es (add_one (algorithm i) []) (add_one-ne-nil (algorithm i) []) (ground arith)
  ]

  -- If a one-time key is stored for a device whose id extends a given device id, then
  -- `count_one_time_keys` of the given device never returns that there are no keys.
  pub count_one_time_keys-longer_device :
      (u d w i v : Bytes) (s : UserDb T)
      → kv.get s.onetimekeyid_onetimekeys (u ⋄ (d ++ w) ⋄ i) ≡ some v
      → count_one_time_keys kv names ids keys algorithm u d s ≢ ok []
  unfolding count_one_time_keys
  count_one_time_keys-longer_device u d w i v s h =
      let key = u ⋄ (d ++ w) ⋄ i in
      count_some (kv.scan_prefix s.onetimekeyid_onetimekeys (u ⋄ d)) key v (
        ground (
          arith,
          kv.lookup-scan_prefix s.onetimekeyid_onetimekeys (u ⋄ d) key,
          starts_with-longer u d w i,
        ))
