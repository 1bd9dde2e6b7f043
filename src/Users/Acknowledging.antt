-- ===== src/Users/Acknowledging.antt =====
-- A device acknowledges its messages up to a count (src/database/key_value/users.rs,
-- `remove_to_device_events`).
use matrix_server.Base.{
  ℕ, ◌-◌, ◌<◌, ◌≡◌, refl, sym, ap, ◌∙◌, true, false, ◌&&◌, none, [], ◌∷◌, ◌++◌, if◌then◌else◌, ltb,
  leb, length, drop, arith, ite, is_some, Bool-cases, inl, inr, drop-append, length-append,
  append_assoc,
}
use matrix_server.Base.Bytes.{
  Bytes, dec_bytes, to_be_bytes, u64_mod, starts_with, starts_with-append,
  u64_from_bytes-to_be_bytes, length-to_be_bytes,
}
use matrix_server.Base.Keys.{◌⋄◌, IsText, starts_with-join, separator}
use matrix_server.Base.Order.{le_bytes, starts_with_between, le_bytes-append, le_bytes-to_be_bytes}
use matrix_server.Base.Effect.{Result, ok}
use matrix_server.Storage.{KvTree, Entries, lookup, IsUnique, IsFirst, IsOrdered}
use matrix_server.Json.{Json}
use matrix_server.Users.{UserDb, Names}
use matrix_server.Users.ToDevice.{device_prefix, remove_until, remove_to_device_events}

-- A key that is below the prefix is the prefix and a count.
abbrev pub IsCounted : Bytes → Bytes → Type 0
IsCounted p k = starts_with p k ≡ true → (n : ℕ) × (n < u64_mod) × (k ≡ p ++ to_be_bytes n)

-- What holds of each entry of the backward iteration.
abbrev AreUntil : Bytes → ℕ → Entries → Type 0
AreUntil p until [] = Unit {0}
AreUntil p until ((k, v) ∷ l) =
    (le_bytes k (p ++ to_be_bytes until) ≡ true) × IsCounted p k × AreUntil p until l

last_eight :
    (p : Bytes) (n : ℕ)
    → drop (length (p ++ to_be_bytes n) - 8) (p ++ to_be_bytes n) ≡ to_be_bytes n
last_eight p n =
    let size : length (p ++ to_be_bytes n) - 8 ≡ length p =
      omega (arith, length-append p (to_be_bytes n), length-to_be_bytes n) in
    rw size (drop-append p (to_be_bytes n))

prefix-append : (u d x : Bytes) → device_prefix u d ++ x ≡ u ⋄ d ⋄ x
prefix-append u d x =
    append_assoc u (separator ∷ (d ⋄ [])) x
    ∙ ap (λ z. u ++ (separator ∷ z)) (append_assoc d (separator ∷ []) x)

below_prefix :
    (u d u' d' x : Bytes)
    → IsText u
    → IsText d
    → IsText u'
    → IsText d'
    → starts_with (device_prefix u d) (u' ⋄ d' ⋄ x)
      ≡ ite (dec_bytes u u') (ite (dec_bytes d d') true false) false
unfolding starts_with
below_prefix u d u' d' x tu td tu' td' =
    starts_with-join u u' (d ⋄ []) (d' ⋄ x) tu tu' ∙ rw (starts_with-join d d' [] x td td') refl

le_bytes_below :
    (u d u' d' x y : Bytes)
    → u ≡ u'
    → d ≡ d'
    → le_bytes (u' ⋄ d' ⋄ x) (device_prefix u d ++ y) ≡ le_bytes x y
le_bytes_below u d u' d' x y eu ed =
    rw (← eu, ← ed, ← prefix-append u d x) (le_bytes-append (device_prefix u d) x y)

-- Behind a key without the prefix no key has it.
absent_behind :
    (p : Bytes) (until : ℕ) (k j : Bytes) (l : Entries)
    → le_bytes k (p ++ to_be_bytes until) ≡ true
    → starts_with p k ≡ false
    → IsFirst true k l
    → starts_with p j ≡ true
    → lookup j l ≡ none
unfolding lookup
absent_behind p until k j [] le out f s = refl
absent_behind p until k j ((i, v) ∷ l) le out f s =
    ground (arith, absent_behind p until k j l, starts_with_between p (to_be_bytes until) j k)

module _ {T E : Type 0} (kv : KvTree T) (names : Names) (events : Json E) where
  abbrev loop : Bytes → ℕ → Entries → T → Result (Unit {0}) × T
  loop = remove_until kv names events

  loop_step :
      (p : Bytes) (until n : ℕ) (v : Bytes) (rest : Entries) (t : T)
      → n < u64_mod
      → until < u64_mod
      → le_bytes (p ++ to_be_bytes n) (p ++ to_be_bytes until) ≡ true
      → loop p until ((p ++ to_be_bytes n, v) ∷ rest) t
        ≡ loop p until rest (kv.remove t (p ++ to_be_bytes n))
  unfolding remove_until
  loop_step p until n v rest t lt lt' le =
      let number = u64_from_bytes-to_be_bytes n lt in
      let small : leb n until ≡ true =
        sym (le_bytes-to_be_bytes n until lt lt')
        ∙ sym (le_bytes-append p (to_be_bytes n) (to_be_bytes until))
        ∙ le in
      let long : ltb (length (p ++ to_be_bytes n)) 8 ≡ false =
        ground (arith, length-append p (to_be_bytes n), length-to_be_bytes n) in
      rw (starts_with-append p (to_be_bytes n), long, last_eight p n, number, small) refl

  loop_removes :
      (p : Bytes) (until n : ℕ) (k v : Bytes) (rest : Entries) (t : T)
      → k ≡ p ++ to_be_bytes n
      → n < u64_mod
      → until < u64_mod
      → le_bytes k (p ++ to_be_bytes until) ≡ true
      → loop p until ((k, v) ∷ rest) t ≡ loop p until rest (kv.remove t k)
  loop_removes p until n k v rest t e lt lt' le =
      let le' : le_bytes (p ++ to_be_bytes n) (p ++ to_be_bytes until) ≡ true =
        ap (λ x. le_bytes x (p ++ to_be_bytes until)) (sym e) ∙ le in
      rw e (loop_step p until n v rest t lt lt' le')

  loop_lem :
      (p : Bytes) (until : ℕ) (l : Entries) (t : T)
      → until < u64_mod
      → IsOrdered true l
      → AreUntil p until l
      → (t' : T) × (loop p until l t ≡ (ok tt, t'))
        × ((j : Bytes)
            → kv.get t' j ≡ (if starts_with p j && is_some (lookup j l) then none else kv.get t j))
  unfolding remove_until lookup
  loop_lem p until [] t lt o a = (t, refl, λ j. ground arith)
  loop_lem p until ((k, v) ∷ l) t lt o (le, counted, a) = elim (Bool-cases (starts_with p k)) [
    | inr out ↦ (t, rw out refl, λ j. ground (arith, absent_behind p until k j l le out o.0))
    | inl in_it ↦
        let (n, small, e) = counted in_it in
        let (t', run, after) = loop_lem p until l (kv.remove t k) lt o.1 a in
        (
          t',
          loop_removes p until n k v l t e small lt le ∙ run,
          λ j. ground (arith, after j, kv.get-remove t k j),
        )
  ]

  lookup-AreUntil :
      (p : Bytes) (until : ℕ) (l : Entries)
      → IsUnique l
      → ((j : Bytes)
          → is_some (lookup j l) ≡ true
          → (le_bytes j (p ++ to_be_bytes until) ≡ true) × IsCounted p j)
      → AreUntil p until l
  unfolding lookup
  lookup-AreUntil p until [] u h = tt
  lookup-AreUntil p until ((k, v) ∷ l) u h =
      let (le, counted) = h k (ground arith) in
      (le, counted, lookup-AreUntil p until l u.1 (λ j e. h j (ground arith)))

  -- `remove_to_device_events` of a device up to a count returns, and removes exactly the messages
  -- of that user and device whose count is at most the given one: each message of a later count, of
  -- another device or of another user is stored as before. The ids are texts without the byte 0xff,
  -- and the keys stored below the device are its prefix and a 64-bit count.
  pub remove_to_device_events_lem :
      (u d u' d' : Bytes) (until n : ℕ) (s : UserDb T)
      → IsText u
      → IsText d
      → IsText u'
      → IsText d'
      → until < u64_mod
      → n < u64_mod
      → ((j : Bytes)
          → is_some (kv.get s.todeviceid_events j) ≡ true
          → IsCounted (device_prefix u d) j)
      → let old = kv.get s.todeviceid_events (u' ⋄ d' ⋄ to_be_bytes n) in
        ((remove_to_device_events kv names events u d until s).0 ≡ ok tt)
        × (kv.get
              (remove_to_device_events kv names events u d until s).1.todeviceid_events
              (u' ⋄ d' ⋄ to_be_bytes n)
            ≡ ite
                (dec_bytes u u')
                (ite (dec_bytes d d') (if leb n until then none else old) old)
                old)
  unfolding remove_to_device_events
  remove_to_device_events_lem u d u' d' until n s tu td tu' td' lt lt' h =
      let p = device_prefix u d in
      let t = s.todeviceid_events in
      let last = p ++ to_be_bytes until in
      let es = kv.iter_from t last true in
      let (t', run, after) = loop_lem p until es t lt (kv.iter_from-IsOrdered t last true) (
        lookup-AreUntil p until es (kv.iter_from-IsUnique t last true)
          (λ j e. ground (arith, kv.lookup-iter_from t last true j, h j))) in
      let key = u' ⋄ d' ⋄ to_be_bytes n in
      (
        ap (λ x. x.0) run,
        ap (λ x. kv.get x.1 key) run
            ∙ after key
            ∙ rw (kv.lookup-iter_from t last true key) (
                ground (
                  arith,
                  below_prefix u d u' d' (to_be_bytes n) tu td tu' td',
                  le_bytes_below u d u' d' (to_be_bytes n) (to_be_bytes until),
                  le_bytes-to_be_bytes n until lt' lt,
                )),
      )
