-- ===== src/AuthChain/Reaching.antt =====
-- The specification of the walk: an event's chain, its authorizing events and theirs
-- (src/service/rooms/auth_chain/mod.rs).
use matrix_server.Base.{suc, ◌≡◌, ◌≢◌, ◌⊎◌, true, Option, some, List, [], ◌∷◌, arith, length, ◌≤◌}
use matrix_server.Base.Bytes.{dec_bytes}
use matrix_server.Base.HashSet.{contains, remove, IsDistinct}
use matrix_server.Base.Effect.{Result, ok}
use matrix_server.Short.{EventId}
use matrix_server.AuthChain.{Pdu}

module _ (get_pdu : EventId → Result (Option Pdu)) where
  -- `a` is an authorizing event of `e`.
  pub record IsAuth (e a : EventId) : Type 0 where
    pub pdu : Pdu
    pub loaded : get_pdu e ≡ ok (some pdu)
    pub listed : contains dec_bytes pdu.auth_events a ≡ true

  pub data Reaches (e : EventId) : EventId → Type 0 where
    direct : (a : EventId) → IsAuth e a → Reaches e a
    further : (a b : EventId) → Reaches e a → IsAuth a b → Reaches e b

  -- The event itself or one of its chain.
  abbrev pub IsVisited : EventId → EventId → Type 0
  IsVisited e a = (a ≡ e) ⊎ Reaches e a

contains-remove_other :
    (u : List EventId) (e x : EventId)
    → e ≢ x
    → contains dec_bytes u x ≡ true
    → contains dec_bytes (remove dec_bytes u e) x ≡ true
unfolding contains remove
contains-remove_other [] e x ne h = h
contains-remove_other (y ∷ u) e x ne h = ground (arith, contains-remove_other u e x ne)

length-remove :
    (u : List EventId) (e : EventId)
    → contains dec_bytes u e ≡ true
    → length u ≡ suc (length (remove dec_bytes u e))
unfolding contains remove
length-remove [] e h = ground arith
length-remove (y ∷ u) e h = ground (arith, length-remove u e)

-- Distinct elements of a list are at most as many as the list has.
pub length_of_distinct :
    (xs u : List EventId)
    → IsDistinct dec_bytes xs
    → ((x : EventId) → contains dec_bytes xs x ≡ true → contains dec_bytes u x ≡ true)
    → length xs ≤ length u
unfolding contains
length_of_distinct [] u d h = omega arith
length_of_distinct (x ∷ xs) u d h =
    let here : contains dec_bytes u x ≡ true = h x (ground arith) in
    let rest =
      length_of_distinct xs (remove dec_bytes u x) d.1
        (λ y e. contains-remove_other u x y (λ same. ground (arith, d.0)) (h y (ground arith))) in
    omega (arith, rest, length-remove u x here)
