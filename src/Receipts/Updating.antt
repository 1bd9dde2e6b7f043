-- ===== src/Receipts/Updating.antt =====
-- A user has one receipt in a room (src/database/key_value/rooms/edus/read_receipt.rs).
use mathlib.Core.Path.{subst}
use matrix_server.Base.{
  ℕ, ◌-◌, ◌≡◌, ◌≢◌, inl, inr, refl, sym, ap, ◌∙◌, true, none, some, [], ◌∷◌, ◌++◌, arith, is_some,
  Option-cases, append_assoc,
}
use matrix_server.Base.Bytes.{Bytes, to_be_bytes, u64_mod, starts_with, starts_with-append}
use matrix_server.Base.Keys.{◌⋄◌, IsText, separator, last_part, last_part-join}
use matrix_server.Base.Order.{le_bytes, starts_with_between}
use matrix_server.Base.Effect.{ok}
use matrix_server.Json.{Json}
use matrix_server.Storage.{KvTree, Entries, lookup, IsFirst, IsOrdered}
use matrix_server.Globals.{next_count}
use matrix_server.Globals.Counting.{next_count-ok}
use matrix_server.Receipts.{
  ReceiptDb, find_old, old_receipt, remove_old, readreceipt_update, draw_next,
}

-- A key of the user's receipts in the room.
abbrev pub IsReceipt : Bytes → Bytes → Bytes → Type 0
IsReceipt r u k = (starts_with (r ⋄ []) k ≡ true) × (last_part k ≡ u)

lookup-IsFirst :
    (k j : Bytes) (l : Entries)
    → IsFirst true k l
    → is_some (lookup j l) ≡ true
    → le_bytes j k ≡ true
unfolding lookup
lookup-IsFirst k j [] f e = absurd (ground arith)
lookup-IsFirst k j ((i, v) ∷ l) f e = ground (arith, lookup-IsFirst k j l f.1, f.0)

-- The search misses no receipt of a backward listing, and finds only a receipt.
find_old-none :
    (r u x : Bytes) (l : Entries)
    → IsOrdered true l
    → ((k : Bytes) → is_some (lookup k l) ≡ true → le_bytes k ((r ⋄ []) ++ x) ≡ true)
    → find_old (r ⋄ []) u l ≡ none
    → (j : Bytes) → IsReceipt r u j
    → lookup j l ≡ none
unfolding lookup find_old
find_old-none r u x [] o until e j h = refl
find_old-none r u x ((k, v) ∷ l) o until e j h =
    let below : le_bytes k ((r ⋄ []) ++ x) ≡ true = until k (ground arith) in
    let behind : is_some (lookup j l) ≡ true → starts_with (r ⋄ []) k ≡ true =
      λ f. starts_with_between (r ⋄ []) x j k h.0 (lookup-IsFirst k j l o.0 f) below in
    let rest : find_old (r ⋄ []) u l ≡ none → lookup j l ≡ none =
      λ f. find_old-none r u x l o.1 (λ i g. until i (ground arith)) f j h in
    ground (arith, behind, rest, h.0, h.1)

find_old-some :
    (r u k : Bytes) (l : Entries)
    → find_old (r ⋄ []) u l ≡ some k
    → IsReceipt r u k × (is_some (lookup k l) ≡ true)
unfolding lookup find_old
find_old-some r u k [] e = absurd (ground arith)
find_old-some r u k ((i, v) ∷ l) e = (
  (ground (arith, find_old-some r u k l), ground (arith, find_old-some r u k l)),
  ground (arith, find_old-some r u k l),
)

module _ {T E : Type 0} (kv : KvTree T) (events : Json E) where
  -- Removing the old receipt removes the user's only one.
  removed_lem :
      (r u : Bytes) (t : T)
      → ((k : Bytes)
          → is_some (kv.get t k) ≡ true
          → starts_with (r ⋄ []) k ≡ true
          → le_bytes k ((r ⋄ []) ++ to_be_bytes (u64_mod - 1)) ≡ true)
      → ((j j' : Bytes)
          → is_some (kv.get t j) ≡ true
          → is_some (kv.get t j') ≡ true
          → IsReceipt r u j
          → IsReceipt r u j'
          → j ≡ j')
      → ((j : Bytes)
          → IsReceipt r u j
          → kv.get (remove_old kv events (old_receipt kv events u r t) t) j ≡ none)
        × ((j : Bytes)
            → ¬ IsReceipt r u j
            → kv.get (remove_old kv events (old_receipt kv events u r t) t) j ≡ kv.get t j)
  unfolding old_receipt
  removed_lem r u t bound single =
      let last = (r ⋄ []) ++ to_be_bytes (u64_mod - 1) in
      let es = kv.iter_from t last true in
      let until : (k : Bytes) → is_some (lookup k es) ≡ true → le_bytes k last ≡ true =
        λ k h. ground (arith, kv.lookup-iter_from t last true k) in
      elim (Option-cases (find_old (r ⋄ []) u es)) [
        | inl none_found ↦
            let absent : (j : Bytes) → IsReceipt r u j → lookup j es ≡ none =
              find_old-none r u (to_be_bytes (u64_mod - 1)) es (kv.iter_from-IsOrdered t last true)
                until none_found in
            rw none_found (
              λ j h. ground (arith, absent j h, kv.lookup-iter_from t last true j, bound j, h.0),
              λ j h. refl,
            )
        | inr (k, found) ↦
            let (receipt, listed) = find_old-some r u k es found in
            let stored : is_some (kv.get t k) ≡ true =
              ground (arith, kv.lookup-iter_from t last true k) in
            rw found (
              λ j h.
                  let same : is_some (kv.get t j) ≡ true → k ≡ j =
                    λ f. single k j stored f receipt h in
                  ground (arith, same, kv.get-remove t k j),
              λ j h.
                  let other : k ≢ j = λ p. h (subst (IsReceipt r u) p receipt) in
                  ground (arith, other, kv.get-remove t k j),
            )
      ]

  new-IsReceipt : (r u x : Bytes) → IsText u → IsReceipt r u (r ⋄ x ⋄ u)
  new-IsReceipt r u x text = (
    rw (← append_assoc r (separator ∷ []) (x ⋄ u)) (starts_with-append (r ⋄ []) (x ⋄ u)),
    ap last_part (sym (append_assoc r (separator ∷ x) (separator ∷ u)))
        ∙ last_part-join (r ⋄ x) u text,
  )

  -- If a user has at most one read receipt in a room, then `readreceipt_update` returns, and
  -- afterwards the user has exactly one receipt there, the given one; every other stored entry is
  -- as before. The user id is a text without the byte 0xff, and the keys stored below the room are
  -- not behind the room with eight bytes 0xff.
  pub readreceipt_update_lem :
      (r u : Bytes) (event : E) (s : ReceiptDb T)
      → IsText u
      → ((k : Bytes)
          → is_some (kv.get s.readreceiptid_readreceipt k) ≡ true
          → starts_with (r ⋄ []) k ≡ true
          → le_bytes k ((r ⋄ []) ++ to_be_bytes (u64_mod - 1)) ≡ true)
      → ((j j' : Bytes)
          → is_some (kv.get s.readreceiptid_readreceipt j) ≡ true
          → is_some (kv.get s.readreceiptid_readreceipt j') ≡ true
          → IsReceipt r u j
          → IsReceipt r u j'
          → j ≡ j')
      → (n : ℕ) × (s' : ReceiptDb T) × (readreceipt_update kv events u r event s ≡ (ok tt, s'))
        × (kv.get s'.readreceiptid_readreceipt (r ⋄ to_be_bytes n ⋄ u) ≡ some (events.to_vec event))
        × ((j : Bytes)
            → IsReceipt r u j
            → is_some (kv.get s'.readreceiptid_readreceipt j) ≡ true
            → r ⋄ to_be_bytes n ⋄ u ≡ j)
        × ((j : Bytes)
            → ¬ IsReceipt r u j
            → kv.get s'.readreceiptid_readreceipt j ≡ kv.get s.readreceiptid_readreceipt j)
  unfolding readreceipt_update draw_next
  readreceipt_update_lem r u event s text bound single =
      let t = s.readreceiptid_readreceipt in
      let t' = remove_old kv events (old_receipt kv events u r t) t in
      let (n, e, _) = next_count-ok kv s.global in
      let key = r ⋄ to_be_bytes n ⋄ u in
      let (gone, kept) = removed_lem r u t bound single in
      (
        n,
        record s {
          global = (next_count kv s.global).1;
          readreceiptid_readreceipt = kv.insert t' key (events.to_vec event);
        },
        rw e refl,
        ground (arith, kv.get-insert t' key (events.to_vec event) key),
        λ j h f. ground (arith, kv.get-insert t' key (events.to_vec event) j, gone j h),
        λ j h.
            let other : key ≢ j =
              λ p. h (subst (IsReceipt r u) p (new-IsReceipt r u (to_be_bytes n) text)) in
            ground (arith, other, kv.get-insert t' key (events.to_vec event) j, kept j h),
      )
