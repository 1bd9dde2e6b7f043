-- ===== src/Tests/Chains.antt =====
-- Examples for authorization chains: an event that one other event of its room authorizes.
use mathlib.Core.Path.{subst}
use matrix_server.Base.{
  ℕ, ◌<◌, ◌≤◌, ◌≡◌, ◌⊎◌, inl, inr, refl, true, Option, none, some, [], ◌∷◌, ite, length, arith,
  ℕ_discrete,
}
use matrix_server.Base.Bytes.{Bytes, dec_bytes, to_be_bytes, u64_mod}
use matrix_server.Base.HashSet.{contains}
use matrix_server.Base.Effect.{Result, ok}
use matrix_server.Storage.{Entries, lookup}
use matrix_server.Storage.Memory.{memory}
use matrix_server.Short.{EventId}
use matrix_server.AuthChain.{Pdu, get_auth_chain_inner}
use matrix_server.AuthChain.Reaching.{IsAuth, Reaches, direct, further}
use matrix_server.AuthChain.Pushing.{Holds}
use matrix_server.AuthChain.Walking.{get_auth_chain_inner_lem}
use matrix_server.AuthChain.Progress.{Found, Refused}
use matrix_server.AuthChain.Caching.{ChainDb, cache_auth_chain}
use matrix_server.AuthChain.Cached.{IsCached, IsSound, cache_auth_chain-IsSound}
use matrix_server.AuthChain.Collecting.{get_auth_chain}
use matrix_server.AuthChain.Single.{Collected}
use matrix_server.AuthChain.Union.{get_auth_chain_lem}
use matrix_server.Tests.{forgetful, never}
use matrix_server.Tests.Numbers.{shorts, shorts-IsConsistent}

abbrev room : Bytes
room = b'!' ∷ []

abbrev message : EventId
message = b'$' ∷ b'm' ∷ []

abbrev creation : EventId
creation = b'$' ∷ b'c' ∷ []

abbrev message_pdu : Pdu
message_pdu = record { room_id = room; auth_events = creation ∷ [] }

abbrev creation_pdu : Pdu
creation_pdu = record { room_id = room; auth_events = [] }

abbrev get_pdu : EventId → Result (Option Pdu)
get_pdu e =
    ite (dec_bytes e message) (ok (some message_pdu))
      (ite (dec_bytes e creation) (ok (some creation_pdu)) (ok none))

two_pdus :
    (e : EventId) (pdu : Pdu)
    → get_pdu e ≡ ok (some pdu)
    → (message_pdu ≡ pdu) ⊎ (creation_pdu ≡ pdu)
two_pdus e pdu h = elim (dec_bytes e message) [
  | yes p ↦ inl (ground arith)
  | no p ↦ elim (dec_bytes e creation) [ yes q ↦ inr (ground arith) | no q ↦ absurd (ground arith) ]
]

narrow : (e : EventId) (pdu : Pdu) → get_pdu e ≡ ok (some pdu) → length pdu.auth_events ≤ 1
narrow e pdu h = elim (two_pdus e pdu h) [
  | inl p ↦ subst (λ x. length x.auth_events ≤ 1) p (omega arith)
  | inr p ↦ subst (λ x. length x.auth_events ≤ 1) p (omega arith)
]

authorized : (e a : EventId) → IsAuth get_pdu e a → Holds (creation ∷ []) a
unfolding contains
authorized e a i = elim (two_pdus e i.pdu i.loaded) [
  | inl p ↦
      subst (λ x. contains dec_bytes x.auth_events a ≡ true → Holds (creation ∷ []) a) p (λ h. h)
        i.listed
  | inr p ↦
      subst (λ x. contains dec_bytes x.auth_events a ≡ true → Holds (creation ∷ []) a) p
        (λ h. absurd (ground arith)) i.listed
]

reached : (e a : EventId) → Reaches get_pdu e a → Holds (creation ∷ []) a
reached e a (direct _ i) = authorized e a i
reached e a (further b _ r i) = authorized b a i

one_room : (e : EventId) (pdu : Pdu) → get_pdu e ≡ ok (some pdu) → pdu.room_id ≡ room
one_room e pdu h = elim (two_pdus e pdu h) [
  | inl p ↦ subst (λ x. x.room_id ≡ room) p refl
  | inr p ↦ subst (λ x. x.room_id ≡ room) p refl
]

get_auth_chain_inner_lem_example :
    Found memory forgetful get_pdu room message shorts 0 2
      (get_auth_chain_inner memory forgetful get_pdu 2 room message shorts)
    ⊎ Refused memory forgetful get_pdu room message
        (get_auth_chain_inner memory forgetful get_pdu 2 room message shorts)
get_auth_chain_inner_lem_example =
    get_auth_chain_inner_lem memory forgetful get_pdu room message (creation ∷ []) 1 narrow
      (reached message) shorts 0 shorts-IsConsistent (omega arith)

abbrev uncached : ChainDb Entries (λ K V. Unit {0})
uncached = record { shorts = shorts; shorteventid_authchain = []; auth_chain_cache = tt }

uncached-IsSound : IsSound memory forgetful get_pdu uncached
unfolding lookup
uncached-IsSound = record { hits = λ key chain h. never h; stored = λ n bytes small h. never h }

get_auth_chain_lem_example :
    Collected memory forgetful get_pdu room
      (message ∷ [])
      uncached
      0
      3
      (get_auth_chain memory forgetful get_pdu 2 room (message ∷ []) uncached)
get_auth_chain_lem_example =
    get_auth_chain_lem memory forgetful get_pdu room (message ∷ []) (creation ∷ []) 1 narrow
      (λ x e h r. reached x e r) (λ x e pdu h v l. one_room e pdu l) uncached 0 shorts-IsConsistent
      uncached-IsSound (omega arith)

abbrev numbered : ChainDb Entries (λ K V. Unit {0})
numbered = record uncached {
  shorts = record shorts {
    eventid_shorteventid = (message, to_be_bytes 1) ∷ (creation, to_be_bytes 2) ∷ [];
    shorteventid_eventid = (to_be_bytes 1, message) ∷ (to_be_bytes 2, creation) ∷ [];
  };
}

numbered-IsSound : IsSound memory forgetful get_pdu numbered
unfolding lookup
numbered-IsSound = record { hits = λ key chain h. never h; stored = λ n bytes small h. never h }

creation_authorizes : IsAuth get_pdu message creation
unfolding contains dec_bytes
creation_authorizes = record { pdu = message_pdu; loaded = refl; listed = refl }

only_number : (n m : ℕ) → contains ℕ_discrete (n ∷ []) m ≡ true → n ≡ m
unfolding contains
only_number n m h = ground arith

only_event : (e a : EventId) → Holds (e ∷ []) a → e ≡ a
unfolding contains
only_event e a h = ground arith

abbrev StoredAs : ℕ → EventId → Type 0
StoredAs m e =
    (memory.get numbered.shorts.eventid_shorteventid e ≡ some (to_be_bytes m)) × (m < u64_mod)

message_stored : StoredAs 1 message
unfolding lookup dec_bytes
message_stored = (refl, omega arith)

creation_stored : StoredAs 2 creation
unfolding lookup dec_bytes
creation_stored = (refl, omega arith)

chain-IsCached : IsCached memory forgetful get_pdu numbered.shorts (1 ∷ []) (2 ∷ [])
unfolding lookup contains dec_bytes
chain-IsCached = record {
  names = message ∷ [];
  shorts = record {
    sound =
        λ m h. (message, refl, subst (λ x. StoredAs x message) (only_number 1 m h) message_stored);
    complete = λ e h. (1, refl, subst (StoredAs 1) (only_event message e h) message_stored);
  };
  union = record {
    sound = λ m h. (
      message,
      creation,
      refl,
      direct creation creation_authorizes,
      subst (λ x. StoredAs x creation) (only_number 2 m h) creation_stored,
    );
    complete = λ e a h r.
        (2, refl, subst (StoredAs 2) (only_event creation a (reached e a r)) creation_stored);
  };
}

cache_auth_chain-IsSound_example :
    IsSound memory forgetful get_pdu
      (cache_auth_chain memory forgetful (1 ∷ []) (2 ∷ []) numbered).1
cache_auth_chain-IsSound_example =
    cache_auth_chain-IsSound memory forgetful get_pdu numbered (1 ∷ []) (2 ∷ []) chain-IsCached
      numbered-IsSound
