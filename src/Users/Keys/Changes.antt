-- ===== src/Users/Keys/Changes.antt =====
-- The list of key changes between two counts (src/database/key_value/users.rs, `keys_changed`).
use matrix_server.Base.{
  ℕ, ◌+◌, ◌%◌, ◌<◌, ◌≡◌, refl, sym, ap, ◌∙◌, true, false, ◌&&◌, none, some, [], ◌∷◌, ◌++◌,
  if◌then◌else◌, ltb, leb, arith, is_some, append_assoc, Bool-cases, inl, inr,
}
use matrix_server.Base.Bytes.{
  Bytes, to_be_bytes, u64_mod, starts_with, starts_with-append, u64_from_bytes-to_be_bytes,
}
use matrix_server.Base.Keys.{◌⋄◌, IsText, separator, split_first-join}
use matrix_server.Base.Order.{le_bytes, starts_with_between', le_bytes-append, le_bytes-to_be_bytes}
use matrix_server.Storage.{KvTree, Entries, lookup, IsFirst, IsOrdered}
use matrix_server.Users.{UserDb}
use matrix_server.Users.Acknowledging.{IsCounted}
use matrix_server.Users.Keys.{is_change, take_changes, changes}

part-append : (r x : Bytes) → (r ⋄ []) ++ x ≡ r ⋄ x
part-append r x = append_assoc r (separator ∷ []) x

is_change_lem :
    (r : Bytes) (to n : ℕ)
    → IsText r
    → n < u64_mod
    → is_change (r ⋄ []) to ((r ⋄ []) ++ to_be_bytes n) ≡ leb n to
unfolding is_change
is_change_lem r to n text lt =
    rw
      (
        starts_with-append (r ⋄ []) (to_be_bytes n),
        part-append r (to_be_bytes n),
        split_first-join r (to_be_bytes n) text,
        u64_from_bytes-to_be_bytes n lt,
      )
      refl

is_change_key :
    (r : Bytes) (to n : ℕ)
    → IsText r
    → n < u64_mod
    → is_change (r ⋄ []) to (r ⋄ to_be_bytes n) ≡ leb n to
is_change_key r to n text lt =
    ap (is_change (r ⋄ []) to) (sym (part-append r (to_be_bytes n))) ∙ is_change_lem r to n text lt

le_bytes-part : (r x y : Bytes) → le_bytes (r ⋄ x) (r ⋄ y) ≡ le_bytes x y
le_bytes-part r x y = rw (← part-append r x, ← part-append r y) (le_bytes-append (r ⋄ []) x y)

leb_trans : (l m n : ℕ) → leb l m ≡ true → leb m n ≡ true → leb l n ≡ true
leb_trans l m n h k = ground arith

change_below :
    (r : Bytes) (to : ℕ) (k : Bytes)
    → is_change (r ⋄ []) to k ≡ true
    → starts_with (r ⋄ []) k ≡ true
unfolding is_change
change_below r to k h = ground arith

-- A key that follows one that is no change, at or behind a key of the room, is no change.
no_change_behind :
    (r x : Bytes) (to : ℕ) (k j : Bytes)
    → IsText r
    → IsCounted (r ⋄ []) k
    → IsCounted (r ⋄ []) j
    → le_bytes ((r ⋄ []) ++ x) k ≡ true
    → le_bytes k j ≡ true
    → is_change (r ⋄ []) to k ≡ false
    → is_change (r ⋄ []) to j ≡ false
no_change_behind r x to k j text ck cj from le out = elim (Bool-cases (is_change (r ⋄ []) to j)) [
  | inr e ↦ e
  | inl e ↦
      let below = change_below r to j e in
      let (n, ltn, en) = cj below in
      let (m, ltm, em) = ck (starts_with_between' (r ⋄ []) x k j below from le) in
      let order : le_bytes (to_be_bytes m) (to_be_bytes n) ≡ true =
        sym (le_bytes-append (r ⋄ []) (to_be_bytes m) (to_be_bytes n)) ∙ rw (← em, ← en) le in
      let late : leb m to ≡ false = sym (is_change_lem r to m text ltm) ∙ rw (← em) out in
      let soon : leb n to ≡ true = sym (is_change_lem r to n text ltn) ∙ rw (← en) e in
      let small : leb m n ≡ true = sym (le_bytes-to_be_bytes m n ltm ltn) ∙ order in
      let early = leb_trans m n to small soon in cc
]

lookup-IsFirst :
    (k j : Bytes) (l : Entries)
    → IsFirst false k l
    → is_some (lookup j l) ≡ true
    → le_bytes k j ≡ true
unfolding lookup
lookup-IsFirst k j [] f e = ground arith
lookup-IsFirst k j ((i, v) ∷ l) f e = ground (arith, lookup-IsFirst k j l f.1, f.0)

take_changes_lem :
    (r x : Bytes) (to : ℕ) (l : Entries) (j : Bytes)
    → IsText r
    → IsOrdered false l
    → ((i : Bytes) → is_some (lookup i l) ≡ true → IsCounted (r ⋄ []) i)
    → ((i : Bytes) → is_some (lookup i l) ≡ true → le_bytes ((r ⋄ []) ++ x) i ≡ true)
    → lookup j (take_changes (r ⋄ []) to l) ≡ (if is_change (r ⋄ []) to j then lookup j l else none)
unfolding lookup take_changes
take_changes_lem r x to [] j text o counted from = ground arith
take_changes_lem r x to ((k, v) ∷ l) j text o counted from =
    let rest =
      take_changes_lem r x to l j text o.1 (λ i e. counted i (ground arith))
        (λ i e. from i (ground arith)) in
    elim (Bool-cases (is_change (r ⋄ []) to k)) [
      | inl e ↦ ground (arith, rest, e)
      | inr e ↦
          let behind : is_some (lookup j l) ≡ true → is_change (r ⋄ []) to j ≡ false = λ found.
            no_change_behind r x to k j text (counted k (ground arith)) (counted j (ground arith))
              (from k (ground arith)) (lookup-IsFirst k j l o.0 found) e in
          ground (arith, behind, e)
    ]

module _ {T : Type 0} (kv : KvTree T) where
  -- The entries that `keys_changed` lists for a user or room hold the stored entry of a count
  -- exactly if the count is greater than `from` and at most `to`. The id is a text without the byte
  -- 0xff, `from` is less than the greatest 64-bit number, and the keys stored below the id are its
  -- prefix and a 64-bit count.
  pub changes_lem :
      (r : Bytes) (from to n : ℕ) (s : UserDb T)
      → IsText r
      → from + 1 < u64_mod
      → n < u64_mod
      → ((j : Bytes) → is_some (kv.get s.keychangeid_userid j) ≡ true → IsCounted (r ⋄ []) j)
      → lookup (r ⋄ to_be_bytes n) (changes kv r from (some to) s)
        ≡ (if ltb from n && leb n to then kv.get s.keychangeid_userid (r ⋄ to_be_bytes n) else none)
  unfolding changes
  changes_lem r from to n s text ltf lt counted =
      let p = r ⋄ [] in
      let start = to_be_bytes ((from + 1) % u64_mod) in
      let key = r ⋄ to_be_bytes n in
      let es = kv.iter_from s.keychangeid_userid (r ⋄ start) false in
      let small : (from + 1) % u64_mod ≡ from + 1 = omega arith in
      let same : le_bytes (r ⋄ start) key ≡ leb (from + 1) n =
        le_bytes-part r start (to_be_bytes n)
        ∙ rw small (le_bytes-to_be_bytes (from + 1) n ltf lt) in
      take_changes_lem r start to es key text
        (kv.iter_from-IsOrdered s.keychangeid_userid (r ⋄ start) false)
        (λ i e.
          counted i (ground (arith, kv.lookup-iter_from s.keychangeid_userid (r ⋄ start) false i)))
        (λ i e.
          rw (part-append r start)
            (ground (arith, kv.lookup-iter_from s.keychangeid_userid (r ⋄ start) false i)))
      ∙ rw
          (
            is_change_key r to n text lt,
            kv.lookup-iter_from s.keychangeid_userid (r ⋄ start) false key,
            same,
          )
          (ground arith)
