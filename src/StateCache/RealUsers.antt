-- ===== src/StateCache/RealUsers.antt =====
-- What `update_joined_count` and `get_our_real_users` compute
-- (src/database/key_value/rooms/state_cache.rs).
use matrix_server.Base.{
  ◌<◌, ◌≡◌, Bool, false, not, ◌&&◌, ◌||◌, some, List, [], ◌∷◌, arith, ite, length, Option-cases,
  inl, inr,
}
use matrix_server.Base.Bytes.{dec_bytes, to_be_bytes, u64_mod, u64_from_bytes-to_be_bytes}
use matrix_server.Base.HashSet.{HashSet, contains, insert, contains-insert}
use matrix_server.Base.Effect.{ok}
use matrix_server.Storage.{KvTree}
use matrix_server.Json.{RawJson}
use matrix_server.StateCache.{UserId, RoomId, MemberDb, Env}
use matrix_server.StateCache.Reading.{
  oks, room_members, room_members_invited, room_joined_count, room_invited_count,
}
use matrix_server.StateCache.Counts.{real_users, update_joined_count, get_our_real_users}

module _ {T S : Type 0} (kv : KvTree T) (states : RawJson S) (no_state : S) (env : Env) where
  abbrev members : RoomId → MemberDb T → List UserId
  members r s = oks (room_members kv states no_state env r s)

  -- An active user of this server.
  abbrev pub is_real : UserId → Bool
  is_real x = ite (dec_bytes (env.server_of x) env.our_server) (not (env.is_deactivated x)) false

  contains-real_users :
      (ms users : List UserId) (x : UserId)
      → contains dec_bytes (real_users kv states no_state env ms users) x
        ≡ (contains dec_bytes users x || (contains dec_bytes ms x && is_real x))
  unfolding real_users contains
  contains-real_users [] users x = ground arith
  contains-real_users (m ∷ ms) users x = ground (
    arith,
    contains-insert dec_bytes users m x,
    contains-real_users ms users x,
    contains-real_users ms (insert dec_bytes users m) x,
  )

  -- The set is the active local members of the room.
  pub record IsReal (r : RoomId) (s : MemberDb T) (users : HashSet UserId) : Type 0 where
    pub exact :
        (x : UserId)
        → contains dec_bytes users x ≡ (contains dec_bytes (members r s) x && is_real x)

  -- If the set that is cached for a room, if any, is the set of its active local members, then
  -- `get_our_real_users` never panics, returns exactly that set, computed or from the cache, and
  -- leaves it in the cache.
  pub get_our_real_users_lem :
      (r : RoomId) (s : MemberDb T)
      → ((users : HashSet UserId) → s.our_real_users_cache r ≡ some users → IsReal r s users)
      → (users : HashSet UserId) × (s' : MemberDb T) × (get_our_real_users kv states no_state env r
            s
          ≡ (ok users, s'))
        × IsReal r s users
        × (s'.our_real_users_cache r ≡ some users)
  unfolding get_our_real_users contains
  get_our_real_users_lem r s fresh = elim (Option-cases (s.our_real_users_cache r)) [
    | inr (users, hit) ↦ (users, s, ground arith, fresh users hit, hit)
    | inl miss ↦
        let users = real_users kv states no_state env (members r s) [] in
        (
          users,
          update_joined_count kv states no_state env r s,
          ground arith,
          record { exact = λ x. contains-real_users (members r s) [] x },
          ground arith,
        )
  ]

  -- After `update_joined_count` the stored counts of a room are the numbers of its parsed joined
  -- and invited members, if these numbers fit in 64 bits.
  pub room_counts-update :
      (r : RoomId) (s : MemberDb T)
      → length (members r s) < u64_mod
      → length (oks (room_members_invited kv states no_state env r s)) < u64_mod
      → (room_joined_count kv states no_state env r (update_joined_count kv states no_state env r s)
          ≡ ok (some (length (members r s))))
        × (room_invited_count kv states no_state env r
              (update_joined_count kv states no_state env r s)
            ≡ ok (some (length (oks (room_members_invited kv states no_state env r s)))))
  unfolding room_joined_count room_invited_count update_joined_count
  room_counts-update r s lt lt' =
      let joined = length (members r s) in
      let invited = length (oks (room_members_invited kv states no_state env r s)) in
      (
        ground (
          arith,
          kv.get-insert s.roomid_joinedcount r (to_be_bytes joined) r,
          u64_from_bytes-to_be_bytes joined lt,
        ),
        ground (
          arith,
          kv.get-insert s.roomid_invitedcount r (to_be_bytes invited) r,
          u64_from_bytes-to_be_bytes invited lt',
        ),
      )
