-- ===== src/Sending/Keys.antt =====
-- The keys of requests (src/service/sending/mod.rs, `get_prefix`, and
-- src/database/key_value/sending.rs): what is queued is parsed back, and prefixes of kinds keep apart.
use matrix_server.Base.{
  ℕ, ◌≡◌, refl, true, false, [], ◌∷◌, ◌++◌, is_empty, arith, append_assoc, ◌∙◌, ap, ◌⊎◌, inl, inr,
}
use matrix_server.Base.Bytes.{Bytes, to_be_bytes, starts_with}
use matrix_server.Base.Keys.{◌⋄◌, separator, IsText, split_first-join, starts_with-join}
use matrix_server.Base.Effect.{ok}
use matrix_server.Sending.{
  OutgoingKind, appservice, push, normal, SendingEventType, pdu, edu, same_kind, get_prefix, Names,
  value_of, event_of, parse_appservice, parse_push, parse_normal, parse_servercurrentevent,
}

-- A kind whose names are texts, which the parsers accept.
abbrev pub IsKind : Names → OutgoingKind → Type 0
IsKind names (appservice server) = IsText server × (names.is_utf8 server ≡ true)
IsKind names (push user pushkey) =
    IsText user
    × IsText pushkey
    × (names.is_utf8 user ≡ true)
    × (names.is_user_id user ≡ true)
    × (names.is_utf8 pushkey ≡ true)
IsKind names (normal server) =
    IsText server
    × (names.is_utf8 server ≡ true)
    × (names.is_server_name server ≡ true)
    × (starts_with (b'+' ∷ []) server ≡ false)
    × (starts_with (b'$' ∷ []) server ≡ false)

-- An edu has a text.
abbrev pub IsEvent : SendingEventType → Type 0
IsEvent (pdu id) = Unit {0}
IsEvent (edu json) = is_empty json ≡ false

-- The end of a key; `n` is the count that was drawn for an edu.
abbrev pub end_of : SendingEventType → ℕ → Bytes
end_of (pdu id) n = id
end_of (edu json) n = to_be_bytes n

event_of-end : (e : SendingEventType) (n : ℕ) → IsEvent e → event_of (end_of e n) (value_of e) ≡ e
event_of-end (pdu id) n h = refl
event_of-end (edu json) n h = ground arith

join-append : (a t : Bytes) → (a ⋄ []) ++ t ≡ a ⋄ t
join-append a t = append_assoc a (separator ∷ []) t

join_join-append : (a b t : Bytes) → (a ⋄ b ⋄ []) ++ t ≡ a ⋄ b ⋄ t
join_join-append a b t =
    append_assoc a (separator ∷ (b ⋄ [])) t ∙ ap (λ (x : Bytes). a ⋄ x) (join-append b t)

-- What follows the mark of a normal key.
parse_unmarked :
    (names : Names) (key value : Bytes)
    → starts_with (b'+' ∷ []) key ≡ false
    → starts_with (b'$' ∷ []) key ≡ false
    → parse_servercurrentevent names key value ≡ parse_normal names key value
unfolding parse_servercurrentevent
parse_unmarked names [] value p d = refl
parse_unmarked names (b ∷ key) value p d = ground arith

mark_of_join :
    (mark : ℕ) (server t : Bytes)
    → (mark ≡ b'+') ⊎ (mark ≡ b'$')
    → starts_with (mark ∷ []) server ≡ false
    → starts_with (mark ∷ []) (server ⋄ t) ≡ false
unfolding starts_with
mark_of_join mark [] t m h = ground arith
mark_of_join mark (b ∷ server) t m h = h

pub parse_key :
    (names : Names) (kind : OutgoingKind) (e : SendingEventType) (n : ℕ)
    → IsKind names kind
    → IsEvent e
    → parse_servercurrentevent names (get_prefix kind ++ end_of e n) (value_of e) ≡ ok (kind, e)
unfolding parse_servercurrentevent get_prefix parse_appservice parse_push parse_normal starts_with
parse_key names (appservice server) e n k h = ground (
  arith,
  join-append server (end_of e n),
  split_first-join server (end_of e n) k.0,
  event_of-end e n h,
)
parse_key names (push user pushkey) e n k h = ground (
  arith,
  join_join-append user pushkey (end_of e n),
  split_first-join user (pushkey ⋄ end_of e n) k.0,
  split_first-join pushkey (end_of e n) k.1,
  event_of-end e n h,
)
parse_key names (normal server) e n k h =
    rw
      (
        join-append server (end_of e n),
        parse_unmarked names (server ⋄ end_of e n) (value_of e)
            (mark_of_join b'+' server (end_of e n) (inl refl) k.3)
            (mark_of_join b'$' server (end_of e n) (inr refl) k.4),
      )
      (ground (arith, split_first-join server (end_of e n) k.0, event_of-end e n h))

-- A key below the prefix of a kind is a key of that kind.
pub starts_with-get_prefix :
    (names : Names) (kind kind' : OutgoingKind) (t : Bytes)
    → IsKind names kind
    → IsKind names kind'
    → starts_with (get_prefix kind) (get_prefix kind' ++ t) ≡ same_kind kind kind'
unfolding get_prefix same_kind starts_with
starts_with-get_prefix names (appservice a) (appservice b) t k k' =
    ground (arith, join-append b t, starts_with-join a b [] t k.0 k'.0)
starts_with-get_prefix names (appservice a) (push v q) t k k' = refl
starts_with-get_prefix names (appservice a) (normal b) t k k' =
    ground (arith, join-append b t, mark_of_join b'+' b t (inl refl) k'.3)
starts_with-get_prefix names (push u p) (appservice b) t k k' = refl
starts_with-get_prefix names (push u p) (push v q) t k k' = ground (
  arith,
  join_join-append v q t,
  starts_with-join u v (p ⋄ []) (q ⋄ t) k.0 k'.0,
  starts_with-join p q [] t k.1 k'.1,
)
starts_with-get_prefix names (push u p) (normal b) t k k' =
    ground (arith, join-append b t, mark_of_join b'$' b t (inr refl) k'.4)
starts_with-get_prefix names (normal a) (appservice b) t k k' =
    ground (arith, join-append b t, starts_with-join a (b'+' ∷ b) [] t k.0 (omega arith, k'.0), k.3)
starts_with-get_prefix names (normal a) (push v q) t k k' = ground (
  arith,
  join_join-append v q t,
  starts_with-join a (b'$' ∷ v) [] (q ⋄ t) k.0 (omega arith, k'.0),
  k.4,
)
starts_with-get_prefix names (normal a) (normal b) t k k' =
    ground (arith, join-append b t, starts_with-join a b [] t k.0 k'.0)

pub same_kind_refl : (kind : OutgoingKind) → same_kind kind kind ≡ true
unfolding same_kind
same_kind_refl (appservice a) = ground arith
same_kind_refl (push u p) = ground arith
same_kind_refl (normal a) = ground arith
