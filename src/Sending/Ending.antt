-- ===== src/Sending/Ending.antt =====
-- The requests of a destination after its transaction has ended well (src/service/sending/mod.rs,
-- `handler`).
use matrix_server.Base.{
  ℕ, ◌≡◌, refl, Bool, true, false, ◌||◌, Option, none, List, [], ◌∷◌, ◌++◌, if◌then◌else◌, arith,
  is_some, is_empty, Bool-cases, inl, inr, ap, sym, ◌∙◌, some,
}
use matrix_server.Base.Bytes.{Bytes}
use matrix_server.Base.Effect.{Result}
use matrix_server.Storage.{KvTree}
use matrix_server.Sending.{
  OutgoingKind, SendingEventType, get_prefix, SendingDb, Names, delete_all_active_requests_for,
  same_kind,
}
use matrix_server.Sending.Keys.{IsKind, same_kind_refl}
use matrix_server.Sending.Moving.{
  waiting, active, is_among, mark_as_active_lem, requests-delete_all_requests_for,
}
use matrix_server.Sending.Transactions.{Handler, Future, more_events, succeed, take_out, map_list}
use matrix_server.Sending.Exclusive.{in_flight, kind_of_same}

-- The events of the first transaction that is being sent to a destination.
abbrev pub sent_to : OutgoingKind → List Future → Option (List SendingEventType)
sent_to kind [] = none
sent_to kind ((j, events) ∷ fs) = if same_kind j kind then some events else sent_to kind fs

-- The transaction that sends new events, where there are any.
abbrev pub events_of : List (SendingEventType × Bytes) → Option (List SendingEventType)
events_of events =
    if is_empty events then none else some (map_list (λ (r : SendingEventType × Bytes). r.0) events)

sent_to_idle :
    (kind : OutgoingKind) (fs : List Future) → in_flight kind fs ≡ 0 → sent_to kind fs ≡ none
sent_to_idle kind [] h = refl
sent_to_idle kind ((j, events) ∷ fs) h = ground (arith, sent_to_idle kind fs (ground arith))

-- Without its transaction a destination has none, and the others have theirs.
sent_to-take_out :
    (kind other : OutgoingKind) (fs : List Future)
    → in_flight kind fs ≡ 1
    → sent_to other (take_out kind fs) ≡ (if same_kind kind other then none else sent_to other fs)
unfolding take_out
sent_to-take_out kind other [] h = absurd (omega arith)
sent_to-take_out kind other ((j, events) ∷ fs) h = elim (Bool-cases (same_kind j kind)) [
  | inl same ↦
      let e = kind_of_same j kind same in
      let rest = sent_to_idle kind fs (ground arith) in
      elim (Bool-cases (same_kind kind other)) [
        | inl here ↦ let e' = kind_of_same kind other here in ground arith
        | inr there ↦ ground arith
      ]
  | inr different ↦
      let rest = sent_to-take_out kind other fs (ground arith) in
      elim (Bool-cases (same_kind kind other)) [
        | inl here ↦ let e' = kind_of_same kind other here in ground arith
        | inr there ↦ ground arith
      ]
]

module _ {T : Type 0} (kv : KvTree T) (names : Names)
    (select_edus : Bytes → SendingDb T → Result (List Bytes × ℕ)) where
  abbrev next_events : OutgoingKind → Handler T → List (SendingEventType × Bytes)
  next_events = more_events kv names select_edus

  abbrev waits : Bytes → SendingDb T → Option Bytes
  waits = waiting kv names

  abbrev is_sent : Bytes → SendingDb T → Bool
  is_sent j s = is_some (active kv names j s)

  idle_after_delete :
      (kind : OutgoingKind) (t : Bytes) (s : SendingDb T)
      → IsKind names kind
      → is_sent (get_prefix kind ++ t) (delete_all_active_requests_for kv names kind s) ≡ false
  idle_after_delete kind t s k =
      ground (
        arith,
        (requests-delete_all_requests_for kv names kind kind t s k k).2,
        same_kind_refl kind,
      )

  waiting_after_delete :
      (kind : OutgoingKind) (j : Bytes) (s : SendingDb T)
      → waits j (delete_all_active_requests_for kv names kind s) ≡ waits j s
  unfolding delete_all_active_requests_for
  waiting_after_delete kind j s = refl

  none_among :
      (j : Bytes) (events : List (SendingEventType × Bytes))
      → is_empty events ≡ true
      → is_among kv names j events ≡ false
  none_among j [] h = refl
  none_among j (e ∷ events) h = cc

  or_of_idle : (a b : Bool) → b ≡ false → (a || b) ≡ a
  or_of_idle a b h = ground arith

  requests_after :
      (kind : OutgoingKind) (t : Bytes) (s : Handler T)
      → IsKind names kind
      → (is_sent (get_prefix kind ++ t) (succeed kv names select_edus kind s).db
          ≡ is_among kv names (get_prefix kind ++ t) (next_events kind s))
        × (waits (get_prefix kind ++ t) (succeed kv names select_edus kind s).db ≡ (
            if is_among kv names (get_prefix kind ++ t) (next_events kind s)
            then none
            else waits (get_prefix kind ++ t) s.db))
  unfolding succeed
  requests_after kind t s k =
      let key = get_prefix kind ++ t in
      let db = delete_all_active_requests_for kv names kind s.db in
      let moved = mark_as_active_lem kv names (next_events kind s) key db in
      let idle = idle_after_delete kind t s.db k in
      let kept = waiting_after_delete kind key s.db in
      elim (Bool-cases (is_empty (next_events kind s))) [
        | inl e ↦ rw e (
          idle ∙ sym (none_among key (next_events kind s) e),
          rw (none_among key (next_events kind s) e) kept,
        )
        | inr e ↦ rw e (
          moved.1 ∙ or_of_idle (is_among kv names key (next_events kind s)) (is_sent key db) idle,
          moved.0
              ∙ ap
                  (λ (w : Option Bytes).
                    if is_among kv names key (next_events kind s) then none else w)
                  kept,
        )
      ]

  status_after :
      (kind : OutgoingKind) (s : Handler T)
      → (succeed kv names select_edus kind s).current_transaction_status kind
        ≡ (if is_empty (next_events kind s) then none else s.current_transaction_status kind)
  unfolding succeed
  status_after kind s = ground (arith, same_kind_refl kind)

  -- The state `s'` after a transaction of `kind` has succeeded in the state `s`: for a request of
  -- that kind, and for the transactions that are being sent to any destination `other`.
  pub record Succeeded (kind other : OutgoingKind) (t : Bytes) (s s' : Handler T) : Type 0 where
    pub is_active :
        is_sent (get_prefix kind ++ t) s'.db
        ≡ is_among kv names (get_prefix kind ++ t) (next_events kind s)
    pub still_waits : waits (get_prefix kind ++ t) s'.db ≡ (
        if is_among kv names (get_prefix kind ++ t) (next_events kind s)
        then none
        else waits (get_prefix kind ++ t) s.db)
    pub transaction :
        sent_to other s'.futures
        ≡ (if same_kind kind other then events_of (next_events kind s) else sent_to other s.futures)
    pub status :
        s'.current_transaction_status kind
        ≡ (if is_empty (next_events kind s) then none else s.current_transaction_status kind)

  transaction_after :
      (kind other : OutgoingKind) (s : Handler T)
      → in_flight kind s.futures ≡ 1
      → sent_to other (succeed kv names select_edus kind s).futures
        ≡ (if same_kind kind other then events_of (next_events kind s) else sent_to other s.futures)
  unfolding succeed
  transaction_after kind other s one =
      let others = sent_to-take_out kind other s.futures one in
      elim (Bool-cases (is_empty (next_events kind s))) [
        | inl e ↦ rw e others
        | inr e ↦ rw e (ground (arith, others))
      ]

  -- After a transaction of a valid kind, the only one of its kind that was being sent, has
  -- succeeded: if there are next events for the kind then a transaction that sends exactly these is
  -- being sent to it and its status is as before, and if there are none then no transaction is
  -- being sent to it and its status is removed; what is being sent to any other destination is as
  -- before. A request of the kind is active exactly if its key is among the next events; then it
  -- does not wait any more, and otherwise it waits as before.
  pub succeed_lem :
      (kind other : OutgoingKind) (t : Bytes) (s : Handler T)
      → IsKind names kind
      → in_flight kind s.futures ≡ 1
      → Succeeded kind other t s (succeed kv names select_edus kind s)
  succeed_lem kind other t s k one =
      let key = get_prefix kind ++ t in
      let requests = requests_after kind t s k in
      record {
        is_active = requests.0;
        still_waits = requests.1;
        transaction = transaction_after kind other s one;
        status = status_after kind s;
      }
