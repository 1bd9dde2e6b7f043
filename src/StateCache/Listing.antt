-- ===== src/StateCache/Listing.antt =====
-- The iterators of src/database/key_value/rooms/state_cache.rs list what the marks wrote.
use matrix_server.Base.{
  Bool-cases, sym, Option-cases, inl, inr, ap, ◌∙◌, append_assoc, ◌≡◌, refl, Bool, true, some, List,
  [], ◌∷◌, ◌++◌, arith, is_some, ◌≢◌,
}
use matrix_server.Base.Bytes.{Bytes, dec_bytes, starts_with, starts_with-append}
use matrix_server.Base.Keys.{◌⋄◌, IsText, last_part, last_part-join, starts_with-join, separator}
use matrix_server.Base.HashSet.{contains}
use matrix_server.Base.Effect.{Result, ok, Result-cases}
use matrix_server.Storage.{KvTree, Entries, lookup, IsUnique}
use matrix_server.Json.{RawJson}
use matrix_server.StateCache.{
  UserId, RoomId, MemberDb, Env, mark_as_once_joined, String, is_joined, once_joined,
}
use matrix_server.StateCache.Mirror.{IsMirrored, IsKeyed}
use matrix_server.StateCache.Reading.{
  parse_last, parse_keys, oks, room_members, rooms_joined, room_useroncejoined,
}

-- A key in a list of entries has its last part among the parsed ones, if it parses.
parsed_of_lookup :
    (parse : Bytes → Result Bytes) (es : Entries) (k v x : Bytes)
    → lookup k es ≡ some v
    → parse k ≡ ok x
    → contains dec_bytes (oks (parse_keys parse es)) x ≡ true
unfolding lookup parse_keys oks contains
parsed_of_lookup parse [] k v x h p = cc
parsed_of_lookup parse ((j, w) ∷ es) k v x h p = elim (dec_bytes j k) [
  | yes same ↦ ground arith
  | no other ↦ ground (arith, parsed_of_lookup parse es k v x)
]

-- What is parsed out of a list of entries comes from one of its keys.
lookup_of_parsed :
    (parse : Bytes → Result Bytes) (es : Entries) (x : Bytes)
    → IsUnique es
    → contains dec_bytes (oks (parse_keys parse es)) x ≡ true
    → (k v : Bytes) × (lookup k es ≡ some v) × (parse k ≡ ok x)
unfolding lookup parse_keys oks contains
lookup_of_parsed parse [] x u h = cc
lookup_of_parsed parse ((j, w) ∷ es) x u h = elim (Result-cases (parse j)) [
  | inr (e, bad) ↦
      let (k, v, l, p) = lookup_of_parsed parse es x u.1 (ground arith) in (k, v, ground arith, p)
  | inl (y, good) ↦ elim (dec_bytes y x) [
    | yes same ↦ (j, w, ground arith, good ∙ ap ok same)
    | no other ↦
        let (k, v, l, p) = lookup_of_parsed parse es x u.1 (ground arith) in (k, v, ground arith, p)
  ]
]

last_of_parsed :
    (is_utf8 is_valid : Bytes → Bool) (m m' : String) (k x : Bytes)
    → parse_last is_utf8 is_valid m m' k ≡ ok x
    → last_part k ≡ x
last_of_parsed is_utf8 is_valid m m' k x h = ground arith

starts_with-longer : (u w r : Bytes) → starts_with u ((u ++ w) ⋄ r) ≡ true
starts_with-longer u w r =
    rw (append_assoc u w (separator ∷ r)) (starts_with-append u (w ++ separator ∷ r))

starts_with-room : (r u : Bytes) → starts_with (r ⋄ []) (r ⋄ u) ≡ true
starts_with-room r u = rw (← append_assoc r (separator ∷ []) u) (starts_with-append (r ⋄ []) u)

starts_with_nil : (k : Bytes) → starts_with [] k ≡ true
unfolding starts_with
starts_with_nil k = refl

module _ {T S : Type 0} (kv : KvTree T) (states : RawJson S) (no_state : S) (env : Env) where
  abbrev members : RoomId → MemberDb T → List Bytes
  members r s = oks (room_members kv states no_state env r s)

  abbrev parse_user : Bytes → Result Bytes
  parse_user =
      parse_last env.is_utf8 env.is_user_id "User ID in roomuserid_joined is invalid unicode."
        "User ID in roomuserid_joined is invalid."

  -- A listed user has its key in the room's index.
  listed :
      (u : UserId) (r : RoomId) (s : MemberDb T)
      → IsText r
      → IsKeyed kv s.roomuserid_joined
      → contains dec_bytes (members r s) u ≡ true
      → is_some (kv.get s.roomuserid_joined (r ⋄ u)) ≡ true
  unfolding room_members
  listed u r s tr keyed m =
      let es = kv.scan_prefix s.roomuserid_joined (r ⋄ []) in
      let (k, v, l, p) =
        lookup_of_parsed parse_user es u (kv.scan_prefix-IsUnique s.roomuserid_joined (r ⋄ [])) m in
      let law = kv.lookup-scan_prefix s.roomuserid_joined (r ⋄ []) k in
      let found : kv.get s.roomuserid_joined k ≡ some v = ground arith in
      let below : starts_with (r ⋄ []) k ≡ true = ground arith in
      let (r', u', tr', tu', e) = keyed k v found in
      let user : u' ≡ u =
        sym (last_part-join r' u' tu')
        ∙ ap last_part (sym e)
        ∙ last_of_parsed env.is_utf8 env.is_user_id _ _ k u p in
      let room : r ≡ r' = ground (arith, starts_with-join r r' [] u' tr tr') in
      let here : kv.get s.roomuserid_joined (r ⋄ u) ≡ some v = rw (room, ← user, ← e) found in
      rw here refl

  unlisted :
      (u : UserId) (r : RoomId) (s : MemberDb T) (v : Bytes)
      → IsText u
      → env.is_utf8 u ≡ true
      → env.is_user_id u ≡ true
      → kv.get s.roomuserid_joined (r ⋄ u) ≡ some v
      → contains dec_bytes (members r s) u ≡ true
  unfolding room_members
  unlisted u r s v tu utf8 valid found =
      parsed_of_lookup parse_user (kv.scan_prefix s.roomuserid_joined (r ⋄ [])) (r ⋄ u) v u
        (ground
          (arith, kv.lookup-scan_prefix s.roomuserid_joined (r ⋄ []) (r ⋄ u), starts_with-room r u))
        (ground (arith, last_part-join r u tu))

  -- In a mirrored database, a valid user id is in the parsed part of `room_members` exactly if
  -- `is_joined` says so. The ids have no separator byte.
  pub room_members_lem :
      (u : UserId) (r : RoomId) (s : MemberDb T)
      → IsText u
      → IsText r
      → env.is_utf8 u ≡ true
      → env.is_user_id u ≡ true
      → IsMirrored kv s
      → contains dec_bytes (members r s) u ≡ is_joined kv states no_state env u r s
  unfolding is_joined
  room_members_lem u r s tu tr utf8 valid h =
      elim (Bool-cases (contains dec_bytes (members r s) u)) [
        | inl m ↦ m ∙ sym (h.joined u r tu tr ∙ listed u r s tr h.keyed m)
        | inr m ↦ elim (Option-cases (kv.get s.roomuserid_joined (r ⋄ u))) [
          | inl absent ↦ ground (arith, h.joined u r tu tr)
          | inr (v, found) ↦ ground (arith, unlisted u r s v tu utf8 valid found)
        ]
      ]

  -- `rooms_joined` of a user id lists each valid room that a user is joined to whose id begins with
  -- that user id, whether or not the user itself is joined.
  pub rooms_joined-longer_user :
      (u w : UserId) (r : RoomId) (s : MemberDb T)
      → IsText r
      → env.is_utf8 r ≡ true
      → env.is_room_id r ≡ true
      → is_joined kv states no_state env (u ++ w) r s ≡ true
      → contains dec_bytes (oks (rooms_joined kv states no_state env u s)) r ≡ true
  unfolding rooms_joined is_joined
  rooms_joined-longer_user u w r s tr utf8 valid h =
      elim (Option-cases (kv.get s.userroomid_joined ((u ++ w) ⋄ r))) [
        | inl absent ↦ absurd (ground arith)
        | inr (v, found) ↦
            let key = (u ++ w) ⋄ r in
            parsed_of_lookup
              (parse_last env.is_utf8 env.is_room_id
                "Room ID in userroomid_joined is invalid unicode."
                "Room ID in userroomid_joined is invalid.")
              (kv.scan_prefix s.userroomid_joined u) key v r
              (ground
                (arith, kv.lookup-scan_prefix s.userroomid_joined u key, starts_with-longer u w r))
              (ground (arith, last_part-join (u ++ w) r tr))
      ]

  listing_le :
      (parse : Bytes → Result Bytes) (es es' : Entries) (x : Bytes)
      → IsUnique es
      → ((k : Bytes) → lookup k es ≡ lookup k es')
      → contains dec_bytes (oks (parse_keys parse es)) x ≡ true
      → contains dec_bytes (oks (parse_keys parse es')) x ≡ true
  listing_le parse es es' x u same m =
      let (k, v, l, p) = lookup_of_parsed parse es x u m in
      parsed_of_lookup parse es' k v x (sym (same k) ∙ l) p

  same_listing :
      (parse : Bytes → Result Bytes) (es es' : Entries) (x : Bytes)
      → IsUnique es
      → IsUnique es'
      → ((k : Bytes) → lookup k es ≡ lookup k es')
      → contains dec_bytes (oks (parse_keys parse es)) x
        ≡ contains dec_bytes (oks (parse_keys parse es')) x
  same_listing parse es es' x u u' same =
      elim (Bool-cases (contains dec_bytes (oks (parse_keys parse es)) x)) [
        | inl m ↦ m ∙ sym (listing_le parse es es' x u same m)
        | inr m ↦ elim (Bool-cases (contains dec_bytes (oks (parse_keys parse es')) x)) [
          | inl m' ↦ absurd (ground (arith, listing_le parse es' es x u' (λ k. sym (same k)) m'))
          | inr m' ↦ m ∙ sym m'
        ]
      ]

  -- After `mark_as_once_joined` for a user and a room `once_joined` holds, but the listing
  -- `room_useroncejoined` of the room contains what it did before. The ids are different and have
  -- no separator byte.
  pub room_useroncejoined-mark :
      (u : UserId) (r : RoomId) (x : Bytes) (s : MemberDb T)
      → IsText u
      → IsText r
      → u ≢ r
      → (once_joined kv states no_state env u r (mark_as_once_joined kv states no_state env u r s)
          ≡ true)
        × (contains dec_bytes
              (oks (
                room_useroncejoined kv states no_state env r
                  (mark_as_once_joined kv states no_state env u r s)))
              x
            ≡ contains dec_bytes (oks (room_useroncejoined kv states no_state env r s)) x)
  unfolding room_useroncejoined mark_as_once_joined once_joined
  room_useroncejoined-mark u r x s tu tr ne =
      let t = s.roomuseroncejoinedids in
      let t' = kv.insert t (u ⋄ r) [] in
      (
        ground (arith, kv.get-insert t (u ⋄ r) [] (u ⋄ r)),
        same_listing _ (kv.scan_prefix t' (r ⋄ [])) (kv.scan_prefix t (r ⋄ [])) x
            (kv.scan_prefix-IsUnique t' (r ⋄ [])) (kv.scan_prefix-IsUnique t (r ⋄ []))
            (λ k. ground (
              arith,
              kv.lookup-scan_prefix t' (r ⋄ []) k,
              kv.lookup-scan_prefix t (r ⋄ []) k,
              kv.get-insert t (u ⋄ r) [] k,
              starts_with-join r u [] r tr tu,
            )),
      )
