-- ===== src/LazyLoading.antt =====
-- src/service/rooms/lazy_loading/mod.rs and src/database/key_value/rooms/lazy_load.rs: which members of
-- a room were sent to a device.
use matrix_server.Base.{
  ℕ, ◌≡◌, refl, ◌∙◌, Bool, false, ◌||◌, Option, none, some, List, [], ◌∷◌, arith, ite, is_some,
  ℕ_discrete,
}
use matrix_server.Base.Bytes.{Bytes, dec_bytes, starts_with}
use matrix_server.Base.Keys.{◌⋄◌, IsText, dec-join, starts_with-join}
use matrix_server.Base.HashSet.{HashSet, contains}
use matrix_server.Storage.{KvTree, remove_prefix, get-remove_prefix}

-- `HashMap<(OwnedUserId, OwnedDeviceId, OwnedRoomId, u64), HashSet<OwnedUserId>>`
abbrev pub Waiting : Type 0
Waiting = Bytes → Bytes → Bytes → ℕ → Option (HashSet Bytes)

unfoldable pub put_waiting : Waiting → Bytes → Bytes → Bytes → ℕ → Option (HashSet Bytes) → Waiting
put_waiting w user device room count value u d r n =
    ite (dec_bytes user u)
      (ite (dec_bytes device d)
        (ite (dec_bytes room r) (ite (ℕ_discrete count n) value (w u d r n)) (w u d r n))
        (w u d r n))
      (w u d r n)

pub record LazyDb (T : Type 0) : Type 0 where
  pub lazyloadedids : T
  pub lazy_load_waiting : Waiting

module _ {T : Type 0} (kv : KvTree T) where
  abbrev Db : Type 0
  Db = LazyDb T

  unfoldable pub lazy_load_was_sent_before : Bytes → Bytes → Bytes → Bytes → Db → Bool
  lazy_load_was_sent_before user_id device_id room_id ll_user s =
      is_some (kv.get s.lazyloadedids (user_id ⋄ device_id ⋄ room_id ⋄ ll_user))

  unfoldable pub lazy_load_mark_sent : Bytes → Bytes → Bytes → HashSet Bytes → ℕ → Db → Db
  unfolding put_waiting
  lazy_load_mark_sent user_id device_id room_id lazy_load count s = record s {
    lazy_load_waiting =
        put_waiting s.lazy_load_waiting user_id device_id room_id count (some lazy_load);
  }

  -- The loop of the database's `lazy_load_confirm_delivery`.
  unfoldable pub insert_confirmed : Bytes → Bytes → Bytes → List Bytes → T → T
  insert_confirmed user_id device_id room_id [] t = t
  insert_confirmed user_id device_id room_id (ll_id ∷ rest) t =
      insert_confirmed user_id device_id room_id rest
        (kv.insert t (user_id ⋄ device_id ⋄ room_id ⋄ ll_id) [])

  unfoldable pub lazy_load_confirm_delivery : Bytes → Bytes → Bytes → ℕ → Db → Db
  unfolding insert_confirmed put_waiting
  lazy_load_confirm_delivery user_id device_id room_id since s =
      elim (s.lazy_load_waiting user_id device_id room_id since) [
        | some user_ids ↦ record {
          lazyloadedids = insert_confirmed user_id device_id room_id user_ids s.lazyloadedids;
          lazy_load_waiting = put_waiting s.lazy_load_waiting user_id device_id room_id since none;
        }
        | none ↦ s
      ]

  unfoldable pub lazy_load_reset : Bytes → Bytes → Bytes → Db → Db
  unfolding remove_prefix
  lazy_load_reset user_id device_id room_id s = record s {
    lazyloadedids = remove_prefix kv s.lazyloadedids (user_id ⋄ device_id ⋄ room_id ⋄ []);
  }

  sent-insert_confirmed :
      (u d r : Bytes) (users : List Bytes) (t : T) (u' d' r' l : Bytes)
      → IsText u
      → IsText d
      → IsText r
      → IsText u'
      → IsText d'
      → IsText r'
      → is_some (kv.get (insert_confirmed u d r users t) (u' ⋄ d' ⋄ r' ⋄ l)) ≡ (
          ite
            (dec_bytes u u')
            (ite (dec_bytes d d') (ite (dec_bytes r r') (contains dec_bytes users l) false) false)
            false
          || is_some (kv.get t (u' ⋄ d' ⋄ r' ⋄ l)))
  unfolding insert_confirmed contains
  sent-insert_confirmed u d r [] t u' d' r' l tu td tr' tu' td' tr'' = ground arith
  sent-insert_confirmed u d r (x ∷ users) t u' d' r' l tu td tr' tu' td' tr'' =
      let key = u' ⋄ d' ⋄ r' ⋄ l in
      let old = kv.get t key in
      let here : kv.get (kv.insert t (u ⋄ d ⋄ r ⋄ x) []) key
          ≡ ite (dec_bytes u u')
              (ite (dec_bytes d d') (ite (dec_bytes r r') (ite (dec_bytes x l) (some []) old) old)
                old)
              old =
        kv.get-insert t (u ⋄ d ⋄ r ⋄ x) [] key
        ∙ rw
            (
              dec-join u u' (d ⋄ r ⋄ x) (d' ⋄ r' ⋄ l) (some []) old tu tu',
              dec-join d d' (r ⋄ x) (r' ⋄ l) (some []) old td td',
              dec-join r r' x l (some []) old tr' tr'',
            )
            refl in
      ground (
        arith,
        sent-insert_confirmed u d r users (kv.insert t (u ⋄ d ⋄ r ⋄ x) []) u' d' r' l tu td tr' tu'
            td' tr'',
        here,
      )

  put_waiting-same :
      (w : Waiting) (u d r : Bytes) (n : ℕ) (v : Option (HashSet Bytes))
      → put_waiting w u d r n v u d r n ≡ v
  unfolding put_waiting
  put_waiting-same w u d r n v = ground arith

  -- After `lazy_load_mark_sent` of a set of members at a count and `lazy_load_confirm_delivery` of
  -- that count, a member counts as sent to a device in a room exactly if it did before, or the
  -- user, the device and the room are the confirmed ones and the set has the member. The ids of
  -- users, devices and rooms are texts without the byte 0xff.
  pub lazy_load-mark-confirm :
      (u d r : Bytes) (users : HashSet Bytes) (n : ℕ) (s : LazyDb T) (u' d' r' l : Bytes)
      → IsText u
      → IsText d
      → IsText r
      → IsText u'
      → IsText d'
      → IsText r'
      → lazy_load_was_sent_before u' d' r' l
          (lazy_load_confirm_delivery u d r n (lazy_load_mark_sent u d r users n s))
        ≡ (ite
              (dec_bytes u u')
              (ite (dec_bytes d d') (ite (dec_bytes r r') (contains dec_bytes users l) false) false)
              false
            || lazy_load_was_sent_before u' d' r' l s)
  unfolding lazy_load_was_sent_before lazy_load_confirm_delivery lazy_load_mark_sent
  lazy_load-mark-confirm u d r users n s u' d' r' l tu td tr' tu' td' tr'' =
      rw (lazy_load_confirm_delivery, put_waiting-same s.lazy_load_waiting u d r n (some users))
        (sent-insert_confirmed u d r users s.lazyloadedids u' d' r' l tu td tr' tu' td' tr'')

  -- After a reset no member counts as sent to the device in the room; elsewhere nothing changes.
  pub lazy_load-reset :
      (u d r : Bytes) (s : LazyDb T) (u' d' r' l : Bytes)
      → IsText u
      → IsText d
      → IsText r
      → IsText u'
      → IsText d'
      → IsText r'
      → lazy_load_was_sent_before u' d' r' l (lazy_load_reset u d r s)
        ≡ ite
            (dec_bytes u u')
            (ite
              (dec_bytes d d')
              (ite (dec_bytes r r') false (lazy_load_was_sent_before u' d' r' l s))
              (lazy_load_was_sent_before u' d' r' l s))
            (lazy_load_was_sent_before u' d' r' l s)
  unfolding lazy_load_was_sent_before lazy_load_reset starts_with
  lazy_load-reset u d r s u' d' r' l tu td tr' tu' td' tr'' = ground (
    arith,
    get-remove_prefix kv s.lazyloadedids (u ⋄ d ⋄ r ⋄ []) (u' ⋄ d' ⋄ r' ⋄ l),
    starts_with-join u u' (d ⋄ r ⋄ []) (d' ⋄ r' ⋄ l) tu tu',
    starts_with-join d d' (r ⋄ []) (r' ⋄ l) td td',
    starts_with-join r r' [] l tr' tr'',
  )
