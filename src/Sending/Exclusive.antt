-- ===== src/Sending/Exclusive.antt =====
-- At most one transaction for each destination (src/service/sending/mod.rs, `handler`).
use matrix_server.Base.{
  ℕ, ◌+◌, ◌<◌, ◌-◌, ◌≡◌, refl, Bool, true, false, Option, none, some, List, [], ◌∷◌, if◌then◌else◌,
  ltb, arith, Bool-cases, Option-cases, inl, inr, is_empty, sym, ◌∙◌, ◌||◌, ◌&&◌,
}
use matrix_server.Base.Bytes.{Bytes}
use matrix_server.Base.Effect.{Result, ok, Result-cases}
use matrix_server.Storage.{KvTree}
use matrix_server.Sending.{
  OutgoingKind, appservice, push, normal, SendingEventType, same_kind, SendingDb, Names,
}
use matrix_server.Sending.Transactions.{
  TransactionStatus, running, failed, retrying, Statuses, Future, Handler, set_status,
  min_elapsed_duration, update_status, take_out, fail_status, receive, succeed, more_events, fail,
}

pub kind_of_same : (a b : OutgoingKind) → same_kind a b ≡ true → a ≡ b
unfolding same_kind
kind_of_same (appservice a) (appservice b) h = ground arith
kind_of_same (appservice a) (push v q) h = ground arith
kind_of_same (appservice a) (normal b) h = ground arith
kind_of_same (push u p) (appservice b) h = ground arith
kind_of_same (push u p) (push v q) h = ground arith
kind_of_same (push u p) (normal b) h = ground arith
kind_of_same (normal a) (appservice b) h = ground arith
kind_of_same (normal a) (push v q) h = ground arith
kind_of_same (normal a) (normal b) h = ground arith

abbrev pub is_active : Option TransactionStatus → Bool
is_active none = false
is_active (some running) = true
is_active (some (failed n time)) = false
is_active (some (retrying n)) = true

abbrev bit : Bool → ℕ
bit b = if b then 1 else 0

-- The number of transactions to a destination that are being sent.
abbrev pub in_flight : OutgoingKind → List Future → ℕ
in_flight j [] = 0
in_flight j ((kind, events) ∷ fs) = bit (same_kind kind j) + in_flight j fs

-- One transaction is being sent to a destination that is running or retrying, and none to others.
abbrev pub IsExclusive : {T : Type 0} → Handler T → Type 0
IsExclusive s =
    (j : OutgoingKind) → in_flight j s.futures ≡ bit (is_active (s.current_transaction_status j))

in_flight-take_out :
    (kind j : OutgoingKind) (fs : List Future)
    → 0 < in_flight kind fs
    → in_flight j fs ≡ bit (same_kind kind j) + in_flight j (take_out kind fs)
unfolding take_out
in_flight-take_out kind j [] h = absurd (omega arith)
in_flight-take_out kind j ((i, events) ∷ fs) h = elim (Bool-cases (same_kind i kind)) [
  | inl same ↦ rw (same, kind_of_same i kind same) refl
  | inr other ↦ ground (arith, in_flight-take_out kind j fs (ground arith))
]

update_status_lem :
    (now : ℕ) (st : Option TransactionStatus) (allow retry : Bool) (st' : TransactionStatus)
    → update_status now st ≡ ok (allow, retry, st')
    → (is_active (some st') ≡ (allow || is_active st)) × ((allow && is_active st) ≡ false)
unfolding update_status
update_status_lem now none allow retry st' h = ground arith
update_status_lem now (some running) allow retry st' h = ground arith
update_status_lem now (some (retrying n)) allow retry st' h = ground arith
update_status_lem now (some (failed n time)) allow retry st' h =
    elim (Option-cases (min_elapsed_duration n)) [
      | inl e ↦ absurd (ground arith)
      | inr (d, e) ↦ elim (Bool-cases (ltb (now - time) d)) [
        | inl early ↦ ground arith
        | inr late ↦ ground arith
      ]
    ]

fail_status-inactive :
    (now : ℕ) (st : Option TransactionStatus) → is_active (fail_status now st) ≡ false
unfolding fail_status
fail_status-inactive now none = refl
fail_status-inactive now (some running) = refl
fail_status-inactive now (some (retrying n)) = refl
fail_status-inactive now (some (failed n time)) = refl

abbrev Agree : List Future → Statuses → Type 0
Agree fs m = (j : OutgoingKind) → in_flight j fs ≡ bit (is_active (m j))

Agree-take_out :
    (kind : OutgoingKind) (st : Option TransactionStatus) (fs : List Future) (m : Statuses)
    → Agree fs m
    → 0 < in_flight kind fs
    → is_active st ≡ false
    → Agree (take_out kind fs) (set_status kind st m)
Agree-take_out kind st fs m h pos idle j = elim (Bool-cases (same_kind kind j)) [
  | inl same ↦
      let e = kind_of_same kind j same in ground (arith, in_flight-take_out kind j fs pos, h j)
  | inr other ↦ ground (arith, in_flight-take_out kind j fs pos, h j)
]

-- A transaction to an idle destination begins.
Agree-begin :
    (kind : OutgoingKind) (events : List SendingEventType) (st : Option TransactionStatus)
    (fs : List Future) (m : Statuses)
    → Agree fs m
    → is_active (m kind) ≡ false
    → is_active st ≡ true
    → Agree ((kind, events) ∷ fs) (set_status kind st m)
Agree-begin kind events st fs m h idle busy j = elim (Bool-cases (same_kind kind j)) [
  | inl same ↦ let e = kind_of_same kind j same in ground (arith, h j)
  | inr other ↦ ground (arith, h j)
]

Agree-set_status :
    (kind : OutgoingKind) (st : Option TransactionStatus) (fs : List Future) (m : Statuses)
    → Agree fs m
    → is_active (m kind) ≡ is_active st
    → Agree fs (set_status kind st m)
Agree-set_status kind st fs m h same_activity j = elim (Bool-cases (same_kind kind j)) [
  | inl same ↦ let e = kind_of_same kind j same in ground (arith, h j)
  | inr other ↦ ground (arith, h j)
]

module _ {T : Type 0} (kv : KvTree T) (names : Names)
    (select_edus : Bytes → SendingDb T → Result (List Bytes × ℕ)) where
  receive-IsExclusive :
      (kind : OutgoingKind) (e : SendingEventType) (key : Bytes) (now : ℕ) (s : Handler T)
      → IsExclusive s
      → IsExclusive (receive kv names select_edus kind e key now s).1
  unfolding receive
  receive-IsExclusive kind e key now s h =
      elim (Result-cases (update_status now (s.current_transaction_status kind))) [
        | inr (bad, eq) ↦ rw (receive, eq) h
        | inl ((true, true, st), eq) ↦
            let u = update_status_lem now (s.current_transaction_status kind) true true st eq in
            rw (receive, eq)
              (Agree-begin kind [] (some st) s.futures s.current_transaction_status h u.1 u.0)
        | inl ((true, false, st), eq) ↦
            let u = update_status_lem now (s.current_transaction_status kind) true false st eq in
            rw (receive, eq)
              (Agree-begin kind [] (some st) s.futures s.current_transaction_status h u.1 u.0)
        | inl ((false, retry, st), eq) ↦
            let u = update_status_lem now (s.current_transaction_status kind) false retry st eq in
            rw (receive, eq)
              (Agree-set_status kind (some st) s.futures s.current_transaction_status h (sym u.0))
      ]

  succeed-IsExclusive :
      (kind : OutgoingKind) (s : Handler T)
      → 0 < in_flight kind s.futures
      → IsExclusive s
      → IsExclusive (succeed kv names select_edus kind s)
  unfolding succeed
  succeed-IsExclusive kind s pos h =
      elim (Bool-cases (is_empty (more_events kv names select_edus kind s))) [
        | inl e ↦ rw e (Agree-take_out kind none s.futures s.current_transaction_status h pos refl)
        | inr e ↦ rw e (λ j. sym (in_flight-take_out kind j s.futures pos) ∙ h j)
      ]

  fail-IsExclusive :
      (kind : OutgoingKind) (now : ℕ) (s : Handler T)
      → 0 < in_flight kind s.futures
      → IsExclusive s
      → IsExclusive (fail kv names select_edus kind now s)
  unfolding fail
  fail-IsExclusive kind now s pos h =
      Agree-take_out kind _ s.futures s.current_transaction_status h pos
        (fail_status-inactive now (s.current_transaction_status kind))

  -- What can happen to the handler: an event arrives, or a transaction that is being sent ends.
  pub data Step : Handler T → Handler T → Type 0 where
    arrives :
        (kind : OutgoingKind) (e : SendingEventType) (key : Bytes) (now : ℕ) (s : Handler T)
        → Step s (receive kv names select_edus kind e key now s).1
    succeeds :
        (kind : OutgoingKind) (s : Handler T)
        → 0 < in_flight kind s.futures
        → Step s (succeed kv names select_edus kind s)
    fails :
        (kind : OutgoingKind) (now : ℕ) (s : Handler T)
        → 0 < in_flight kind s.futures
        → Step s (fail kv names select_edus kind now s)

  pub data Reaches : Handler T → Handler T → Type 0 where
    here : (s : Handler T) → Reaches s s
    later : {s t u : Handler T} → Step s t → Reaches t u → Reaches s u

  Step-IsExclusive : {s t : Handler T} → Step s t → IsExclusive s → IsExclusive t
  Step-IsExclusive (arrives kind e key now s) h = receive-IsExclusive kind e key now s h
  Step-IsExclusive (succeeds kind s pos) h = succeed-IsExclusive kind s pos h
  Step-IsExclusive (fails kind now s pos) h = fail-IsExclusive kind now s pos h

  -- In any run of the handler in which events arrive and transactions that are being sent succeed
  -- or fail, at any time and in any order, this stays true: a destination that is running or
  -- retrying has exactly one transaction that is being sent, and any other destination has none.
  pub Reaches-IsExclusive : {s t : Handler T} → Reaches s t → IsExclusive s → IsExclusive t
  Reaches-IsExclusive (here s) h = h
  Reaches-IsExclusive (later step rest) h = Reaches-IsExclusive rest (Step-IsExclusive step h)
