-- ===== src/StateCache/Mirror.antt =====
-- The two directions of each index of src/database/key_value/rooms/state_cache.rs.
use matrix_server.Base.{◌≡◌, sym, Option, some, [], arith, is_some}
use matrix_server.Base.Bytes.{Bytes, dec_bytes}
use matrix_server.Base.Keys.{◌⋄◌, IsText, join_injective}
use matrix_server.Storage.{KvTree}
use matrix_server.Json.{RawJson}
use matrix_server.StateCache.{
  UserId, RoomId, MemberDb, Env, mark_as_joined, mark_as_invited, mark_as_left, forget,
}
use matrix_server.StateCache.Membership.{mark_as_invited_lem, mark_as_left_lem}

module _ {T : Type 0} (kv : KvTree T) where
  -- `by_user` has the key of a user and a room exactly if `by_room` has it the other way round.
  abbrev pub Mirror : T → T → Type 0
  Mirror by_user by_room =
      (u : UserId) (r : RoomId)
      → IsText u
      → IsText r
      → is_some (kv.get by_user (u ⋄ r)) ≡ is_some (kv.get by_room (r ⋄ u))

  Mirror-insert :
      (a b : T) (u : UserId) (r : RoomId) (v w : Bytes)
      → IsText u
      → IsText r
      → Mirror a b
      → Mirror (kv.insert a (u ⋄ r) v) (kv.insert b (r ⋄ u) w)
  Mirror-insert a b u r v w tu tr h u' r' tu' tr' = ground (
    arith,
    h u' r' tu' tr',
    kv.get-insert a (u ⋄ r) v (u' ⋄ r'),
    kv.get-insert b (r ⋄ u) w (r' ⋄ u'),
    join_injective u u' r r' tu tu',
    join_injective r r' u u' tr tr',
  )

  Mirror-remove :
      (a b : T) (u : UserId) (r : RoomId)
      → IsText u
      → IsText r
      → Mirror a b
      → Mirror (kv.remove a (u ⋄ r)) (kv.remove b (r ⋄ u))
  Mirror-remove a b u r tu tr h u' r' tu' tr' = ground (
    arith,
    h u' r' tu' tr',
    kv.get-remove a (u ⋄ r) (u' ⋄ r'),
    kv.get-remove b (r ⋄ u) (r' ⋄ u'),
    join_injective u u' r r' tu tu',
    join_injective r r' u u' tr tr',
  )

  -- Every key is a room and a user.
  abbrev pub IsKeyed : T → Type 0
  IsKeyed t =
      (k v : Bytes) → kv.get t k ≡ some v → (r u : Bytes) × IsText r × IsText u × (k ≡ r ⋄ u)

  IsKeyed-insert :
      (t : T) (r u v : Bytes) → IsText r → IsText u → IsKeyed t → IsKeyed (kv.insert t (r ⋄ u) v)
  IsKeyed-insert t r u v tr tu h k w e = elim (dec_bytes (r ⋄ u) k) [
    | yes same ↦ (r, u, tr, tu, sym same)
    | no other ↦ h k w (ground (arith, kv.get-insert t (r ⋄ u) v k))
  ]

  IsKeyed-remove : (t : T) (j : Bytes) → IsKeyed t → IsKeyed (kv.remove t j)
  IsKeyed-remove t j h k w e = h k w (ground (arith, kv.get-remove t j k))

  pub record IsMirrored (s : MemberDb T) : Type 0 where
    pub keyed : IsKeyed s.roomuserid_joined
    pub joined : Mirror s.userroomid_joined s.roomuserid_joined
    pub invited : Mirror s.userroomid_invitestate s.roomuserid_invitecount
    pub left : Mirror s.userroomid_leftstate s.roomuserid_leftcount

module _ {T S : Type 0} (kv : KvTree T) (states : RawJson S) (no_state : S) (env : Env) (u : UserId)
    (r : RoomId) (tu : IsText u) (tr : IsText r) (s : MemberDb T) (h : IsMirrored kv s) where
  joined-IsMirrored : IsMirrored kv (mark_as_joined kv states no_state env u r s)
  unfolding mark_as_joined
  joined-IsMirrored = record {
    keyed = IsKeyed-insert kv s.roomuserid_joined r u [] tr tu h.keyed;
    joined = Mirror-insert kv s.userroomid_joined s.roomuserid_joined u r [] [] tu tr h.joined;
    invited =
        Mirror-remove kv s.userroomid_invitestate s.roomuserid_invitecount u r tu tr h.invited;
    left = Mirror-remove kv s.userroomid_leftstate s.roomuserid_leftcount u r tu tr h.left;
  }

  invited-IsMirrored :
      (st : Option S) → IsMirrored kv (mark_as_invited kv states no_state env u r st s).1
  invited-IsMirrored st =
      let (n, e) = mark_as_invited_lem kv states no_state env u r st s in
      rw e (record {
        keyed = IsKeyed-remove kv s.roomuserid_joined (r ⋄ u) h.keyed;
        joined = Mirror-remove kv s.userroomid_joined s.roomuserid_joined u r tu tr h.joined;
        invited =
            Mirror-insert kv s.userroomid_invitestate s.roomuserid_invitecount u r _ _ tu tr
              h.invited;
        left = Mirror-remove kv s.userroomid_leftstate s.roomuserid_leftcount u r tu tr h.left;
      })

  left-IsMirrored : IsMirrored kv (mark_as_left kv states no_state env u r s).1
  left-IsMirrored =
      let (n, e) = mark_as_left_lem kv states no_state env u r s in
      rw e (record {
        keyed = IsKeyed-remove kv s.roomuserid_joined (r ⋄ u) h.keyed;
        joined = Mirror-remove kv s.userroomid_joined s.roomuserid_joined u r tu tr h.joined;
        invited =
            Mirror-remove kv s.userroomid_invitestate s.roomuserid_invitecount u r tu tr h.invited;
        left = Mirror-insert kv s.userroomid_leftstate s.roomuserid_leftcount u r _ _ tu tr h.left;
      })

  forget-IsMirrored : IsMirrored kv (forget kv states no_state env r u s)
  unfolding forget
  forget-IsMirrored = record {
    keyed = h.keyed;
    joined = h.joined;
    invited = h.invited;
    left = Mirror-remove kv s.userroomid_leftstate s.roomuserid_leftcount u r tu tr h.left;
  }

  -- If the trees that are keyed by user and room agree with the trees that are keyed by room and
  -- user, on who is joined, invited and has left, then they still do after `mark_as_joined`,
  -- `mark_as_invited`, `mark_as_left` and `forget` for ids without the separator byte.
  pub marks-IsMirrored :
      (st : Option S)
      → IsMirrored kv (mark_as_joined kv states no_state env u r s)
        × IsMirrored kv (mark_as_invited kv states no_state env u r st s).1
        × IsMirrored kv (mark_as_left kv states no_state env u r s).1
        × IsMirrored kv (forget kv states no_state env r u s)
  marks-IsMirrored st =
      (joined-IsMirrored, invited-IsMirrored st, left-IsMirrored, forget-IsMirrored)
