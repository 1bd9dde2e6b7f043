-- ===== src/StateCache/Membership.antt =====
-- The memberships of src/database/key_value/rooms/state_cache.rs: a user is joined, invited or has
-- left, never two of these at once after a mark, and both directions of the index agree.
use matrix_server.Base.{ℕ, ◌≡◌, refl, Bool, true, false, Option, [], arith, ite}
use matrix_server.Base.Bytes.{dec_bytes, to_be_bytes}
use matrix_server.Base.Keys.{◌⋄◌, IsText, join_injective}
use matrix_server.Base.Effect.{ok}
use matrix_server.Storage.{KvTree}
use matrix_server.Globals.{next_count}
use matrix_server.Globals.Counting.{next_count-ok}
use matrix_server.Json.{RawJson}
use matrix_server.StateCache.{
  UserId, RoomId, MemberDb, Env, unwrap_or, count, mark_as_joined, mark_as_invited, mark_as_left,
  is_joined, is_invited, is_left,
}

module _ {T S : Type 0} (kv : KvTree T) (states : RawJson S) (no_state : S) (env : Env) where
  abbrev Db : Type 0
  Db = MemberDb T

  -- Joined, invited, left.
  abbrev pub membership : UserId → RoomId → Db → Bool × Bool × Bool
  membership u r s = (
    is_joined kv states no_state env u r s,
    is_invited kv states no_state env u r s,
    is_left kv states no_state env u r s,
  )

  -- The state after `mark_as_invited`, whose counter call gave `n`.
  abbrev pub invited : UserId → RoomId → Option S → ℕ → Db → Db
  invited u r st n s = record s {
    global = (next_count kv s.global).1;
    userroomid_invitestate =
        kv.insert s.userroomid_invitestate (u ⋄ r)
          (states.to_vec (unwrap_or kv states no_state env st));
    roomuserid_invitecount = kv.insert s.roomuserid_invitecount (r ⋄ u) (to_be_bytes n);
    userroomid_joined = kv.remove s.userroomid_joined (u ⋄ r);
    roomuserid_joined = kv.remove s.roomuserid_joined (r ⋄ u);
    userroomid_leftstate = kv.remove s.userroomid_leftstate (u ⋄ r);
    roomuserid_leftcount = kv.remove s.roomuserid_leftcount (r ⋄ u);
  }

  abbrev pub left : UserId → RoomId → ℕ → Db → Db
  left u r n s = record s {
    global = (next_count kv s.global).1;
    userroomid_leftstate = kv.insert s.userroomid_leftstate (u ⋄ r) (states.to_vec no_state);
    roomuserid_leftcount = kv.insert s.roomuserid_leftcount (r ⋄ u) (to_be_bytes n);
    userroomid_joined = kv.remove s.userroomid_joined (u ⋄ r);
    roomuserid_joined = kv.remove s.roomuserid_joined (r ⋄ u);
    userroomid_invitestate = kv.remove s.userroomid_invitestate (u ⋄ r);
    roomuserid_invitecount = kv.remove s.roomuserid_invitecount (r ⋄ u);
  }

  pub mark_as_invited_lem :
      (u : UserId) (r : RoomId) (st : Option S) (s : Db)
      → (n : ℕ) × (mark_as_invited kv states no_state env u r st s ≡ (ok tt, invited u r st n s))
  unfolding mark_as_invited count
  mark_as_invited_lem u r st s = let (n, e, _) = next_count-ok kv s.global in (n, rw e refl)

  pub mark_as_left_lem :
      (u : UserId) (r : RoomId) (s : Db)
      → (n : ℕ) × (mark_as_left kv states no_state env u r s ≡ (ok tt, left u r n s))
  unfolding mark_as_left count
  mark_as_left_lem u r s = let (n, e, _) = next_count-ok kv s.global in (n, rw e refl)

  module _ (u u' : UserId) (r r' : RoomId) (tu : IsText u) (tu' : IsText u') where
    -- The membership after a mark: the new one for this user in this room, the old one elsewhere.
    abbrev pub marked : Bool × Bool × Bool → Db → Bool × Bool × Bool
    marked new s =
        ite (dec_bytes u u') (ite (dec_bytes r r') new (membership u' r' s)) (membership u' r' s)

    -- After `mark_as_joined` the user is joined to the room, neither invited to it nor gone from
    -- it, and the membership of any other user or room is as before. User ids have no separator
    -- byte.
    pub membership-mark_as_joined :
        (s : Db)
        → membership u' r' (mark_as_joined kv states no_state env u r s)
          ≡ marked (true, false, false) s
    unfolding mark_as_joined is_joined is_invited is_left
    membership-mark_as_joined s = ground (
      arith,
      join_injective u u' r r' tu tu',
      kv.get-insert s.userroomid_joined (u ⋄ r) [] (u' ⋄ r'),
      kv.get-remove s.userroomid_invitestate (u ⋄ r) (u' ⋄ r'),
      kv.get-remove s.userroomid_leftstate (u ⋄ r) (u' ⋄ r'),
    )

    -- `mark_as_invited` succeeds; after it the user is invited to the room and nothing else there,
    -- and the membership of any other user or room is as before. User ids have no separator byte.
    pub membership-mark_as_invited :
        (st : Option S) (s : Db)
        → (s' : Db) × (mark_as_invited kv states no_state env u r st s ≡ (ok tt, s'))
          × (membership u' r' s' ≡ marked (false, true, false) s)
    unfolding is_joined is_invited is_left
    membership-mark_as_invited st s =
        let (n, e) = mark_as_invited_lem u r st s in
        (
          invited u r st n s,
          e,
          ground (
            arith,
            join_injective u u' r r' tu tu',
            kv.get-remove s.userroomid_joined (u ⋄ r) (u' ⋄ r'),
            kv.get-insert s.userroomid_invitestate (u ⋄ r)
                (states.to_vec (unwrap_or kv states no_state env st)) (u' ⋄ r'),
            kv.get-remove s.userroomid_leftstate (u ⋄ r) (u' ⋄ r'),
          ),
        )

    -- `mark_as_left` succeeds; after it the user has left the room and is nothing else there, and
    -- the membership of any other user or room is as before. User ids have no separator byte.
    pub membership-mark_as_left :
        (s : Db)
        → (s' : Db) × (mark_as_left kv states no_state env u r s ≡ (ok tt, s'))
          × (membership u' r' s' ≡ marked (false, false, true) s)
    unfolding is_joined is_invited is_left
    membership-mark_as_left s =
        let (n, e) = mark_as_left_lem u r s in
        (
          left u r n s,
          e,
          ground (
            arith,
            join_injective u u' r r' tu tu',
            kv.get-remove s.userroomid_joined (u ⋄ r) (u' ⋄ r'),
            kv.get-remove s.userroomid_invitestate (u ⋄ r) (u' ⋄ r'),
            kv.get-insert s.userroomid_leftstate (u ⋄ r) (states.to_vec no_state) (u' ⋄ r'),
          ),
        )
