-- ===== src/Typing/Maintaining.antt =====
-- Notifications end with their timeout (src/database/key_value/rooms/edus/typing.rs, `typings_maintain`).
use mathlib.Core.Path.{subst}
use matrix_server.Base.{
  ℕ, ◌<◌, ◌≡◌, refl, sym, ap, ◌∙◌, Bool, true, false, ◌&&◌, Option, none, some, [], ◌∷◌, ◌++◌,
  if◌then◌else◌, ite, ltb, leb, arith, length, take, is_some, Bool-cases, inl, inr, append_assoc,
  length-append, take-append,
}
use matrix_server.Base.Bytes.{
  Bytes, dec_bytes, to_be_bytes, u64_from_bytes, u64_mod, starts_with, u64_from_bytes-to_be_bytes,
  length-to_be_bytes,
}
use matrix_server.Base.Keys.{
  ◌⋄◌, IsText, separator, split_first, split_first-join, starts_with-join,
}
use matrix_server.Base.Order.{le_bytes, le_bytes-append, le_bytes-to_be_bytes}
use matrix_server.Base.Effect.{Result, ok, map_ok}
use matrix_server.Storage.{KvTree, Entries, lookup, IsFirst, IsOrdered}
use matrix_server.Globals.Counting.{next_count-ok}
use matrix_server.Typing.{
  TypingDb, remove_outdated, mark_outdated, typings_maintain, draw_number, next_count,
}

-- A key of the room: the timeout and what follows it.
abbrev pub IsTimed : Bytes → Bytes → Type 0
IsTimed r k = (n : ℕ) × (y : Bytes) × (n < u64_mod) × (k ≡ r ⋄ (to_be_bytes n ++ y))

le_bytes-front :
    (a b z y : Bytes)
    → length a ≡ length b
    → le_bytes (a ++ z) (b ++ y) ≡ true
    → le_bytes a b ≡ true
unfolding le_bytes
le_bytes-front [] b z y e h = refl
le_bytes-front (x ∷ a) [] z y e h = absurd (omega arith)
le_bytes-front (x ∷ a) (w ∷ b) z y e h = ground (arith, le_bytes-front a b z y)

part-append : (r x : Bytes) → (r ⋄ []) ++ x ≡ r ⋄ x
part-append r x = append_assoc r (separator ∷ []) x

timeout_order :
    (r z y : Bytes) (m n : ℕ)
    → m < u64_mod
    → n < u64_mod
    → le_bytes (r ⋄ (to_be_bytes m ++ z)) (r ⋄ (to_be_bytes n ++ y)) ≡ true
    → leb m n ≡ true
timeout_order r z y m n lm ln h =
    let inner : le_bytes (to_be_bytes m ++ z) (to_be_bytes n ++ y) ≡ true =
      sym (le_bytes-append (r ⋄ []) (to_be_bytes m ++ z) (to_be_bytes n ++ y))
      ∙ rw (part-append r (to_be_bytes m ++ z), part-append r (to_be_bytes n ++ y)) h in
    sym (le_bytes-to_be_bytes m n lm ln)
    ∙ le_bytes-front (to_be_bytes m) (to_be_bytes n) z y
        (length-to_be_bytes m ∙ sym (length-to_be_bytes n)) inner

first_eight : (n : ℕ) (y : Bytes) → take 8 (to_be_bytes n ++ y) ≡ to_be_bytes n
unfolding to_be_bytes
first_eight n y = take-append (to_be_bytes n) y

-- The timeout in a key, as the loop reads it.
abbrev timeout_in : Option Bytes → Option ℕ
timeout_in none = none
timeout_in (some part) = u64_from_bytes (take 8 part)

abbrev timeout_of : Bytes → Option ℕ
timeout_of k = timeout_in (split_first k).1

timeout_of_key :
    (r y : Bytes) (n : ℕ) → IsText r → n < u64_mod → timeout_of (r ⋄ (to_be_bytes n ++ y)) ≡ some n
timeout_of_key r y n text lt =
    ap (λ x. timeout_in x.1) (split_first-join r (to_be_bytes n ++ y) text)
    ∙ ap u64_from_bytes (first_eight n y)
    ∙ u64_from_bytes-to_be_bytes n lt

same_timeout :
    (r y z : Bytes) (m n : ℕ)
    → IsText r
    → m < u64_mod
    → n < u64_mod
    → r ⋄ (to_be_bytes m ++ z) ≡ r ⋄ (to_be_bytes n ++ y)
    → m ≡ n
same_timeout r y z m n text lm ln e =
    let both : some m ≡ some n =
      sym (timeout_of_key r z m text lm) ∙ ap timeout_of e ∙ timeout_of_key r y n text ln in
    cc

lookup-IsFirst :
    (k j : Bytes) (l : Entries)
    → IsFirst false k l
    → is_some (lookup j l) ≡ true
    → le_bytes k j ≡ true
unfolding lookup
lookup-IsFirst k j [] f e = absurd (ground arith)
lookup-IsFirst k j ((i, v) ∷ l) f e = ground (arith, lookup-IsFirst k j l f.1, f.0)

module _ {T : Type 0} (kv : KvTree T) where
  abbrev loop : ℕ → Entries → T → Result Bool × T
  loop = remove_outdated kv

  loop_step :
      (now : ℕ) (r z v : Bytes) (m : ℕ) (k : Bytes) (rest : Entries) (t : T)
      → IsText r
      → m < u64_mod
      → k ≡ r ⋄ (to_be_bytes m ++ z)
      → loop now ((k, v) ∷ rest) t ≡ (
          if ltb m now
          then (
            map_ok (λ _. true) (loop now rest (kv.remove t k)).0,
            (loop now rest (kv.remove t k)).1,
          )
          else (ok false, t))
  unfolding remove_outdated
  loop_step now r z v m k rest t text lt e =
      let long : ltb (length (to_be_bytes m ++ z)) 8 ≡ false =
        ground (arith, length-append (to_be_bytes m) z, length-to_be_bytes m) in
      let part : (split_first k).1 ≡ some (to_be_bytes m ++ z) =
        rw e (ap (λ x. x.1) (split_first-join r (to_be_bytes m ++ z) text)) in
      ground (arith, part, long, first_eight m z, u64_from_bytes-to_be_bytes m lt)

  removed_step :
      (now : ℕ) (r z v : Bytes) (m : ℕ) (k : Bytes) (rest : Entries) (t t' : T) (b : Bool)
      → IsText r
      → m < u64_mod
      → k ≡ r ⋄ (to_be_bytes m ++ z)
      → ltb m now ≡ true
      → loop now rest (kv.remove t k) ≡ (ok b, t')
      → loop now ((k, v) ∷ rest) t ≡ (ok true, t')
  removed_step now r z v m k rest t t' b text lt e old run =
      loop_step now r z v m k rest t text lt e ∙ rw (old, run) refl

  ended_step :
      (now : ℕ) (r z v : Bytes) (m : ℕ) (k : Bytes) (rest : Entries) (t : T)
      → IsText r
      → m < u64_mod
      → k ≡ r ⋄ (to_be_bytes m ++ z)
      → ltb m now ≡ false
      → loop now ((k, v) ∷ rest) t ≡ (ok false, t)
  ended_step now r z v m k rest t text lt e new =
      loop_step now r z v m k rest t text lt e ∙ rw new refl

  loop_lem :
      (now : ℕ) (r : Bytes) (l : Entries) (t : T)
      → IsText r
      → IsOrdered false l
      → ((k : Bytes) → is_some (lookup k l) ≡ true → IsTimed r k)
      → (b : Bool) × (t' : T) × (loop now l t ≡ (ok b, t'))
        × ((n : ℕ) (y : Bytes)
            → n < u64_mod
            → kv.get t' (r ⋄ (to_be_bytes n ++ y)) ≡ (
                if is_some (lookup (r ⋄ (to_be_bytes n ++ y)) l) && ltb n now
                then none
                else kv.get t (r ⋄ (to_be_bytes n ++ y))))
        × ((j : Bytes) → lookup j l ≡ none → kv.get t' j ≡ kv.get t j)
  unfolding lookup
  loop_lem now r [] t text o timed =
      (false, t, unfold remove_outdated in refl, λ n y lt. ground arith, λ j h. refl)
  loop_lem now r ((k, v) ∷ l) t text o timed =
      let (m, z, lm, e) = timed k (ground arith) in
      let (b, t', run, after, others) =
        loop_lem now r l (kv.remove t k) text o.1 (λ j h. timed j (ground arith)) in
      elim (Bool-cases (ltb m now)) [
        | inl old ↦ (
          true,
          t',
          removed_step now r z v m k l t t' b text lm e old run,
          λ n y lt.
              let key = r ⋄ (to_be_bytes n ++ y) in
              let same : k ≡ key → m ≡ n = λ q. same_timeout r y z m n text lm lt (sym e ∙ q) in
              ground (arith, after n y lt, kv.get-remove t k key, same, old),
          λ j h. ground (arith, others j, kv.get-remove t k j),
        )
        | inr new ↦ (
          false,
          t,
          ended_step now r z v m k l t text lm e new,
          λ n y lt.
              let key = r ⋄ (to_be_bytes n ++ y) in
              let same : k ≡ key → m ≡ n = λ q. same_timeout r y z m n text lm lt (sym e ∙ q) in
              let behind : is_some (lookup key l) ≡ true → leb m n ≡ true = λ h.
                timeout_order r z y m n lm lt
                  (ap (λ x. le_bytes x key) (sym e) ∙ lookup-IsFirst k key l o.0 h) in
              ground (arith, same, behind, new),
          λ j h. refl,
        )
      ]

  mark_outdated_lem :
      (r : Bytes) (b : Bool) (s : TypingDb T)
      → (s' : TypingDb T) × (mark_outdated kv r b s ≡ (ok tt, s'))
        × (s'.typingid_userid ≡ s.typingid_userid)
  unfolding mark_outdated draw_number
  mark_outdated_lem r false s = (s, refl, refl)
  mark_outdated_lem r true s =
      let (n, e, _) = next_count-ok kv s.global in
      (
        record s {
          global = (next_count kv s.global).1;
          roomid_lasttypingupdate = kv.insert s.roomid_lasttypingupdate r (to_be_bytes n);
        },
        rw e refl,
        refl,
      )

  maintain_step :
      (now : ℕ) (r : Bytes) (s : TypingDb T) (t : T) (s' : TypingDb T) (b : Bool)
      → loop now (kv.scan_prefix s.typingid_userid (r ⋄ [])) s.typingid_userid ≡ (ok b, t)
      → mark_outdated kv r b (record s { typingid_userid = t }) ≡ (ok tt, s')
      → typings_maintain kv now r s ≡ (ok tt, s')
  unfolding typings_maintain
  maintain_step now r s t s' b run marked = ground (arith, run, marked)

  -- `typings_maintain` of a room returns, and afterwards no notification of the room is stored
  -- whose timeout is before the current time, while those of a later timeout and those of other
  -- rooms are stored as before. The room ids are texts without the byte 0xff, and the keys stored
  -- below the room are its prefix, a 64-bit timeout and more bytes.
  pub typings_maintain_lem :
      (now : ℕ) (r r' y : Bytes) (n : ℕ) (s : TypingDb T)
      → IsText r
      → IsText r'
      → n < u64_mod
      → ((k : Bytes)
          → is_some (kv.get s.typingid_userid k) ≡ true
          → starts_with (r ⋄ []) k ≡ true
          → IsTimed r k)
      → let old = kv.get s.typingid_userid (r' ⋄ (to_be_bytes n ++ y)) in
        (s' : TypingDb T) × (typings_maintain kv now r s ≡ (ok tt, s'))
        × (kv.get s'.typingid_userid (r' ⋄ (to_be_bytes n ++ y))
            ≡ ite (dec_bytes r r') (if ltb n now then none else old) old)
  unfolding starts_with
  typings_maintain_lem now r r' y n s text text' lt timed =
      let t = s.typingid_userid in
      let es = kv.scan_prefix t (r ⋄ []) in
      let key = r' ⋄ (to_be_bytes n ++ y) in
      let (b, t', run, after, others) =
        loop_lem now r es t text (kv.scan_prefix-IsOrdered t (r ⋄ [])) (λ k h.
          timed k (ground (arith, kv.lookup-scan_prefix t (r ⋄ []) k))
            (ground (arith, kv.lookup-scan_prefix t (r ⋄ []) k))) in
      let (s', marked, same) = mark_outdated_lem r b (record s { typingid_userid = t' }) in
      let below : starts_with (r ⋄ []) key ≡ ite (dec_bytes r r') true false =
        starts_with-join r r' [] (to_be_bytes n ++ y) text text' in
      let here : r ≡ r'
          → kv.get t' key ≡ (if is_some (lookup key es) && ltb n now then none else kv.get t key) =
        λ p.
          subst
            (λ x. kv.get t' (x ⋄ (to_be_bytes n ++ y)) ≡ (
              if is_some (lookup (x ⋄ (to_be_bytes n ++ y)) es) && ltb n now
              then none
              else kv.get t (x ⋄ (to_be_bytes n ++ y))))
            p (after n y lt) in
      (
        s',
        maintain_step now r s t' s' b run marked,
        ap (λ x. kv.get x key) same
            ∙ ground (arith, here, others key, kv.lookup-scan_prefix t (r ⋄ []) key, below),
      )
