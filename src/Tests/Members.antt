-- ===== src/Tests/Members.antt =====
-- Examples for the memberships: one user joined to one room.
use matrix_server.Base.{◌≡◌, ◌≢◌, refl, true, false, none, some, [], ◌∷◌, arith, ℕ_discrete}
use matrix_server.Base.Bytes.{dec_bytes}
use matrix_server.Base.HashSet.{HashSet, contains}
use matrix_server.Base.Effect.{ok}
use matrix_server.Storage.{Entries, lookup}
use matrix_server.Storage.Memory.{memory, put}
use matrix_server.StateCache.{
  UserId, RoomId, MemberDb, mark_as_joined, mark_as_invited, mark_as_left, mark_as_once_joined,
  once_joined, forget, is_joined,
}
use matrix_server.StateCache.Reading.{oks, room_members, rooms_joined, room_useroncejoined}
use matrix_server.StateCache.Counts.{get_our_real_users}
use matrix_server.StateCache.Membership.{
  membership, marked, membership-mark_as_joined, membership-mark_as_left,
}
use matrix_server.StateCache.Mirror.{IsMirrored, marks-IsMirrored}
use matrix_server.StateCache.Listing.{
  room_members_lem, rooms_joined-longer_user, room_useroncejoined-mark,
}
use matrix_server.StateCache.RealUsers.{IsReal, get_our_real_users_lem}
use matrix_server.Tests.{raw, env}

abbrev nobody : MemberDb Entries
nobody = record {
  global = [];
  roomuseroncejoinedids = [];
  userroomid_joined = [];
  roomuserid_joined = [];
  userroomid_invitestate = [];
  roomuserid_invitecount = [];
  userroomid_leftstate = [];
  roomuserid_leftcount = [];
  roomid_joinedcount = [];
  roomid_invitedcount = [];
  roomserverids = [];
  serverroomids = [];
  our_real_users_cache = λ r. none;
  appservice_in_room_cache = λ r. none;
}

abbrev alice : UserId
alice = b'a' ∷ []

abbrev alice_x : UserId
alice_x = b'a' ∷ b'x' ∷ []

abbrev room : RoomId
room = b'r' ∷ []

nobody-IsMirrored : IsMirrored memory nobody
unfolding lookup
nobody-IsMirrored = record {
  keyed = λ k v h. absurd (ground arith);
  joined = λ u r tu tr. refl;
  invited = λ u r tu tr. refl;
  left = λ u r tu tr. refl;
}

abbrev one : MemberDb Entries
one = mark_as_joined memory raw [] env alice_x room nobody

membership-mark_as_joined_example :
    membership memory raw [] env alice room (mark_as_joined memory raw [] env alice room nobody)
    ≡ marked memory raw [] env alice alice room room
        (omega arith)
        (omega arith)
        (true, false, false)
        nobody
membership-mark_as_joined_example =
    membership-mark_as_joined memory raw [] env alice alice room room (omega arith) (omega arith)
      nobody

membership-mark_as_left_example :
    (s' : MemberDb Entries) × (mark_as_left memory raw [] env alice_x room one ≡ (ok tt, s'))
    × (membership memory raw [] env alice_x room s'
        ≡ marked memory raw [] env alice_x alice_x room room
            (omega arith)
            (omega arith)
            (false, false, true)
            one)
membership-mark_as_left_example =
    membership-mark_as_left memory raw [] env alice_x alice_x room room (omega arith) (omega arith)
      one

one-IsMirrored : IsMirrored memory one
one-IsMirrored =
    (marks-IsMirrored memory raw [] env alice_x room (omega arith) (omega arith) nobody
      nobody-IsMirrored none).0

marks-IsMirrored_example :
    IsMirrored memory (mark_as_joined memory raw [] env alice room one)
    × IsMirrored memory (mark_as_invited memory raw [] env alice room none one).1
    × IsMirrored memory (mark_as_left memory raw [] env alice room one).1
    × IsMirrored memory (forget memory raw [] env room alice one)
marks-IsMirrored_example =
    marks-IsMirrored memory raw [] env alice room (omega arith) (omega arith) one one-IsMirrored
      none

room_members_lem_example :
    contains dec_bytes (oks (room_members memory raw [] env room one)) alice_x
    ≡ is_joined memory raw [] env alice_x room one
room_members_lem_example =
    room_members_lem memory raw [] env alice_x room one (omega arith) (omega arith) refl refl
      one-IsMirrored

alice_x_joined : is_joined memory raw [] env alice_x room one ≡ true
unfolding is_joined mark_as_joined put lookup dec_bytes ℕ_discrete
alice_x_joined = refl

rooms_joined-longer_user_example :
    contains dec_bytes (oks (rooms_joined memory raw [] env alice one)) room ≡ true
rooms_joined-longer_user_example =
    rooms_joined-longer_user memory raw [] env alice (b'x' ∷ []) room one (omega arith) refl refl
      alice_x_joined

not_a_room : alice ≢ room
not_a_room e = grind arith

room_useroncejoined-mark_example :
    (once_joined memory raw [] env alice room (mark_as_once_joined memory raw [] env alice room one)
      ≡ true)
    × (contains dec_bytes
          (oks (
            room_useroncejoined memory raw [] env room
              (mark_as_once_joined memory raw [] env alice room one)))
          alice
        ≡ contains dec_bytes (oks (room_useroncejoined memory raw [] env room one)) alice)
room_useroncejoined-mark_example =
    room_useroncejoined-mark memory raw [] env alice room alice one (omega arith) (omega arith)
      not_a_room

get_our_real_users_lem_example :
    (users : HashSet UserId) × (s' : MemberDb Entries) × (get_our_real_users memory raw [] env room
        nobody
      ≡ (ok users, s'))
    × IsReal memory raw [] env room nobody users
    × (s'.our_real_users_cache room ≡ some users)
get_our_real_users_lem_example =
    get_our_real_users_lem memory raw [] env room nobody (λ users h. absurd (ground arith))
