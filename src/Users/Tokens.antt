-- ===== src/Users/Tokens.antt =====
-- Access tokens (src/database/key_value/users.rs): the two trees that hold them are inverse.
use matrix_server.Base.{
  ◌≡◌, ◌≢◌, refl, Bool, true, false, Option, none, some, [], arith, ite, if◌then◌else◌, is_some,
  ◌⊎◌, ◌∙◌, if_pos, if_neg, Bool-cases, Option-cases, inl, inr,
}
use matrix_server.Base.Bytes.{Bytes, dec_bytes, starts_with}
use matrix_server.Base.Keys.{◌⋄◌, IsText, split_first-join, split_first_of_text, starts_with-join}
use matrix_server.Base.Effect.{ok}
use matrix_server.Storage.{KvTree, get-remove_prefix}
use matrix_server.Json.{Json}
use matrix_server.Users.{UserDb, Names, find_from_token}
use matrix_server.Users.Devices.{set_token, remove_device, drop_token, get_device_metadata}

module _ {T : Type 0} (kv : KvTree T) where
  -- Each device's token leads back to the device, and each token belongs to its device.
  pub record IsInverse (tokens devices : T) : Type 0 where
    pub forth : (d t : Bytes) → kv.get tokens d ≡ some t → kv.get devices t ≡ some d
    pub back : (t d : Bytes) → kv.get devices t ≡ some d → kv.get tokens d ≡ some t

  -- The token's trees after an old token, if there is one, gave way to the token `t` of the device `d`.
  module _ (a b : T) (h : IsInverse a b) (d t : Bytes)
      (fresh : (w : Bytes) → kv.get b t ≡ some w → w ≡ d) where
    abbrev left : T
    left = drop_token kv (kv.get a d) b

    get-left :
        (j : Bytes)
        → ((kv.get left j ≡ kv.get b j) × (kv.get a d ≢ some j))
          ⊎ ((kv.get a d ≡ some j) × (kv.get left j ≡ none))
    get-left j = elim (Option-cases (kv.get a d)) [
      | inl absent ↦ inl (rw absent refl, λ q. ground arith)
      | inr (old, e) ↦ elim (dec_bytes old j) [
        | yes same ↦ inr (ground arith, ground (arith, kv.get-remove b old j))
        | no other ↦ inl (ground (arith, kv.get-remove b old j), λ q. ground arith)
      ]
    ]

    forth-set :
        (e u : Bytes) → kv.get (kv.insert a d t) e ≡ some u → kv.get (kv.insert left t d) u ≡ some e
    forth-set e u q = elim (get-left u) [
      | inl kept ↦
          ground
            (arith, kept, kv.get-insert a d t e, kv.get-insert left t d u, h.forth e u, fresh e)
      | inr (old, gone) ↦
          ground
            (arith, old, kv.get-insert a d t e, kv.get-insert left t d u, h.forth e u, h.forth d u)
    ]

    back-set :
        (u e : Bytes) → kv.get (kv.insert left t d) u ≡ some e → kv.get (kv.insert a d t) e ≡ some u
    back-set u e q = elim (get-left u) [
      | inl kept ↦ ground (arith, kept, kv.get-insert a d t e, kv.get-insert left t d u, h.back u e)
      | inr (old, gone) ↦ ground (arith, gone, kv.get-insert a d t e, kv.get-insert left t d u)
    ]

    set-IsInverse : IsInverse (kv.insert a d t) (kv.insert left t d)
    set-IsInverse = record { forth = forth-set; back = back-set }

  -- The trees without the device and its token.
  module _ (a b : T) (h : IsInverse a b) (d old : Bytes) (held : kv.get a d ≡ some old) where
    remove-IsInverse : IsInverse (kv.remove a d) (kv.remove b old)
    remove-IsInverse = record {
      forth = λ e u q. ground (
        arith,
        held,
        kv.get-remove a d e,
        kv.get-remove b old u,
        h.forth e u,
        h.forth d old,
        h.back old e,
      );
      back = λ u e q.
          ground (arith, held, kv.get-remove a d e, kv.get-remove b old u, h.forth e u, h.back u e);
    }

module _ {T D F : Type 0} (kv : KvTree T) (names : Names) (devices : Json D)
    (filters : Json F) where
  below_device : (u d n : Bytes) → IsText u → IsText d → starts_with (u ⋄ d ⋄ []) (u ⋄ d ⋄ n) ≡ true
  unfolding starts_with
  below_device u d n tu td =
      ground (arith, starts_with-join u u (d ⋄ []) (d ⋄ n) tu tu, starts_with-join d d [] n td td)

  abbrev pub IsIndexed : UserDb T → Type 0
  IsIndexed s = IsInverse kv s.userdeviceid_token s.token_userdeviceid

  abbrev is_token : Option Bytes → Bytes → Bool
  is_token none x = false
  is_token (some token) x = ite (dec_bytes token x) true false

  abbrev set : Bytes → Bytes → Bytes → UserDb T → UserDb T
  set u d t s = record s {
    userdeviceid_token = kv.insert s.userdeviceid_token (u ⋄ d) t;
    token_userdeviceid =
        kv.insert (drop_token kv (kv.get s.userdeviceid_token (u ⋄ d)) s.token_userdeviceid) t
          (u ⋄ d);
  }

  get-drop_token :
      (o : Option Bytes) (b : T) (x : Bytes)
      → kv.get (drop_token kv o b) x ≡ (if is_token o x then none else kv.get b x)
  get-drop_token none b x = refl
  get-drop_token (some old) b x = ground (arith, kv.get-remove b old x)

  find_of_pair :
      (u d : Bytes) (s : UserDb T) (x : Bytes)
      → IsText u
      → IsText d
      → names.is_utf8 u ≡ true
      → names.is_user_id u ≡ true
      → names.is_utf8 d ≡ true
      → kv.get s.token_userdeviceid x ≡ some (u ⋄ d)
      → find_from_token kv names x s ≡ ok (some (u, d))
  unfolding find_from_token
  find_of_pair u d s x tu td utf8 valid utf8' e =
      rw (e, split_first-join u d tu) (ground (arith, split_first_of_text d td))

  find_same :
      (s s' : UserDb T) (x : Bytes)
      → kv.get s'.token_userdeviceid x ≡ kv.get s.token_userdeviceid x
      → find_from_token kv names x s' ≡ find_from_token kv names x s
  unfolding find_from_token
  find_same s s' x e = rw e refl

  find_none :
      (s : UserDb T) (x : Bytes)
      → kv.get s.token_userdeviceid x ≡ none
      → find_from_token kv names x s ≡ ok none
  unfolding find_from_token
  find_none s x e = rw e refl

  -- `set_token` for a device with metadata returns; the trees from devices to tokens and from
  -- tokens to devices stay inverse to each other; and then `find_from_token` finds the user and
  -- device under the new token, nothing under the device's old token if that is another, and what
  -- it found before under every other token. The ids are texts without the byte 0xff that the
  -- parsers accept, the trees are inverse before, and the token is not in use by another device.
  pub set_token_lem :
      (u d t x : Bytes) (s : UserDb T)
      → IsText u
      → IsText d
      → names.is_utf8 u ≡ true
      → names.is_user_id u ≡ true
      → names.is_utf8 d ≡ true
      → is_some (kv.get s.userdeviceid_metadata (u ⋄ d)) ≡ true
      → IsIndexed s
      → ((w : Bytes) → kv.get s.token_userdeviceid t ≡ some w → w ≡ u ⋄ d)
      → (s' : UserDb T) × (set_token kv names devices filters u d t s ≡ (ok tt, s'))
        × IsIndexed s'
        × (find_from_token kv names x s'
            ≡ ite (dec_bytes t x) (ok (some (u, d))) (
                if is_token (kv.get s.userdeviceid_token (u ⋄ d)) x
                then ok none
                else find_from_token kv names x s))
  unfolding set_token
  set_token_lem u d t x s tu td utf8 valid utf8' known h fresh =
      let s' = set u d t s in
      let dropped = get-drop_token (kv.get s.userdeviceid_token (u ⋄ d)) s.token_userdeviceid x in
      let inserted =
        kv.get-insert (drop_token kv (kv.get s.userdeviceid_token (u ⋄ d)) s.token_userdeviceid) t
          (u ⋄ d) x in
      (
        s',
        rw known refl,
        set-IsInverse kv s.userdeviceid_token s.token_userdeviceid h (u ⋄ d) t fresh,
        elim (dec_bytes t x) [
          | yes same ↦
              rw (if_pos _ same)
                (find_of_pair u d s' x tu td utf8 valid utf8' (ground (arith, inserted, same)))
          | no other ↦
              rw (if_neg _ other)
                (elim (Bool-cases (is_token (kv.get s.userdeviceid_token (u ⋄ d)) x)) [
                  | inl e ↦ rw e (find_none s' x (ground (arith, inserted, dropped, other, e)))
                  | inr e ↦ rw e (find_same s s' x (ground (arith, inserted, dropped, other, e)))
                ])
        ],
      )

  -- After `remove_device` the trees of tokens are inverse to each other if they were before,
  -- `find_from_token` finds nothing under the token of the removed device and what it found before
  -- under every other token, the device has no metadata, and no message to the device is left. The
  -- ids are texts without the byte 0xff.
  pub remove_device_lem :
      (u d x n : Bytes) (s : UserDb T)
      → IsText u
      → IsText d
      → IsIndexed s
      → IsIndexed (remove_device kv names devices filters u d s)
        × (find_from_token kv names x (remove_device kv names devices filters u d s) ≡ (
            if is_token (kv.get s.userdeviceid_token (u ⋄ d)) x
            then ok none
            else find_from_token kv names x s))
        × (get_device_metadata kv names devices filters u d
              (remove_device kv names devices filters u d s)
            ≡ ok none)
        × (kv.get (remove_device kv names devices filters u d s).todeviceid_events (u ⋄ d ⋄ n)
            ≡ none)
  unfolding remove_device get_device_metadata
  remove_device_lem u d x n s tu td h = (
    elim (Option-cases (kv.get s.userdeviceid_token (u ⋄ d))) [
      | inl e ↦ rw e h
      | inr (old, e) ↦
          rw e (remove-IsInverse kv s.userdeviceid_token s.token_userdeviceid h (u ⋄ d) old e)
    ],
    elim (Bool-cases (is_token (kv.get s.userdeviceid_token (u ⋄ d)) x)) [
      | inl e ↦ rw e (find_none _ x (get-drop_token _ s.token_userdeviceid x ∙ rw e refl))
      | inr e ↦ rw e (find_same s _ x (get-drop_token _ s.token_userdeviceid x ∙ rw e refl))
    ],
    ground (arith, kv.get-remove s.userdeviceid_metadata (u ⋄ d) (u ⋄ d)),
    ground (
      arith,
      get-remove_prefix kv s.todeviceid_events (u ⋄ d ⋄ []) (u ⋄ d ⋄ n),
      below_device u d n tu td,
    ),
  )
