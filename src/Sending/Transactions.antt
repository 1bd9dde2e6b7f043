-- ===== src/Sending/Transactions.antt =====
-- src/service/sending/mod.rs: which requests are sent, and what happens when one ends. A future is
-- a transaction that is being sent; the HTTP request itself is foreign.
use matrix_server.Base.{
  ℕ, ◌+◌, ◌*◌, ◌-◌, ◌%◌, Bool, true, false, Option, none, some, List, [], ◌∷◌, ◌++◌, if◌then◌else◌,
  ltb, is_empty, take,
}
use matrix_server.Base.Bytes.{Bytes, u64_mod}
use matrix_server.Base.Effect.{Result, ok, err, panicked}
use matrix_server.Storage.{KvTree}
use matrix_server.Sending.{
  OutgoingKind, appservice, push, normal, SendingEventType, edu, same_kind, SendingDb, Names,
  active_requests_for, queued_requests, mark_as_active, delete_all_active_requests_for,
  set_latest_educount,
}

-- An instant is a number of nanoseconds.
pub data TransactionStatus : Type 0 where
  running : TransactionStatus
  -- The number of failures, and the time of the last one.
  failed : ℕ → ℕ → TransactionStatus
  retrying : ℕ → TransactionStatus

abbrev pub Statuses : Type 0
Statuses = OutgoingKind → Option TransactionStatus

abbrev pub Future : Type 0
Future = OutgoingKind × List SendingEventType

-- The locals of `handler`, and the database.
pub record Handler (T : Type 0) : Type 0 where
  pub db : SendingDb T
  pub current_transaction_status : Statuses
  pub futures : List Future

abbrev pub set_status : OutgoingKind → Option TransactionStatus → Statuses → Statuses
set_status kind status m j = if same_kind kind j then status else m j

abbrev pub second : ℕ
second = 1000000000

-- `Duration::from_secs(30) * (*tries) * (*tries)`, at most a day; the product panics if its seconds
-- leave u64.
unfoldable pub min_elapsed_duration : ℕ → Option ℕ
min_elapsed_duration tries =
    if ltb (30 * tries * tries) u64_mod
    then some (
        if ltb (60 * 60 * 24) (30 * tries * tries)
        then 60 * 60 * 24 * second
        else 30 * tries * tries * second)
    else none

-- The flags `allow` and `retry`, and the new status.
unfoldable pub update_status :
    ℕ → Option TransactionStatus → Result (Bool × Bool × TransactionStatus)
unfolding min_elapsed_duration
update_status now none = ok (true, false, running)
update_status now (some running) = ok (false, false, running)
update_status now (some (retrying tries)) = ok (false, false, retrying tries)
update_status now (some (failed tries time)) = elim (min_elapsed_duration tries) [
  | none ↦ err panicked
  | some duration ↦
      if ltb (now - time) duration
      then ok (false, false, failed tries time)
      else ok (true, true, retrying tries)
]

-- `filter_map(|r| r.ok())`
unfoldable pub oks : {A : Type 0} → List (Result A) → List A
oks [] = []
oks (ok a ∷ rs) = a ∷ oks rs
oks (err e ∷ rs) = oks rs

unfoldable pub map_list : {A B : Type 0} → (A → B) → List A → List B
map_list f [] = []
map_list f (x ∷ xs) = f x ∷ map_list f xs

-- What became of a future is told by its kind, which takes it out.
unfoldable pub take_out : OutgoingKind → List Future → List Future
take_out kind [] = []
take_out kind ((j, events) ∷ fs) =
    let rest = take_out kind fs in if same_kind j kind then fs else (j, events) ∷ rest

-- A failed transaction, as `and_modify` on its entry; the number of failures is a u32.
unfoldable pub fail_status : ℕ → Option TransactionStatus → Option TransactionStatus
fail_status now none = none
fail_status now (some running) = some (failed 1 now)
fail_status now (some (retrying n)) = some (failed ((n + 1) % 4294967296) now)
fail_status now (some (failed n time)) = some (failed n time)

-- `select_edus` reads the rooms of the server, device lists and receipts.
module _ {T : Type 0} (kv : KvTree T) (names : Names)
    (select_edus : Bytes → SendingDb T → Result (List Bytes × ℕ)) where
  abbrev add_edus :
      Result (List Bytes × ℕ)
      → Bytes
      → List SendingEventType
      → SendingDb T
      → List SendingEventType × SendingDb T
  add_edus (err e) server events db = (events, db)
  add_edus (ok (edus, last_count)) server events db =
      (events ++ map_list edu edus, set_latest_educount kv names server last_count db)

  -- The new events, with the edus that a server should get.
  unfoldable pub events_to_send :
      OutgoingKind → List SendingEventType → SendingDb T → List SendingEventType × SendingDb T
  unfolding map_list
  events_to_send (appservice id) events db = (events, db)
  events_to_send (push user pushkey) events db = (events, db)
  events_to_send (normal server) events db = add_edus (select_edus server db) server events db

  -- `select_events` on one new event, and the push to `futures` in the handler, which ignores errors
  -- but not panics.
  unfoldable pub receive :
      OutgoingKind → SendingEventType → Bytes → ℕ → Handler T → Result (Unit {0}) × Handler T
  unfolding update_status oks events_to_send map_list
  receive kind event key now s = elim (update_status now (s.current_transaction_status kind)) [
    | err e ↦ (err e, s)
    | ok (allow, retry, status) ↦
        let s' : Handler T = record s {
          current_transaction_status = set_status kind (some status) s.current_transaction_status;
        } in
        let old =
          map_list (λ (r : Bytes × SendingEventType). r.1)
            (oks (active_requests_for kv names kind s.db)) in
        let new =
          events_to_send kind (event ∷ []) (mark_as_active kv names ((event, key) ∷ []) s.db) in
        if allow
        then if retry
          then (ok tt, record s' { futures = (kind, old) ∷ s.futures })
          else (ok tt, record s' { db = new.1; futures = (kind, new.0) ∷ s.futures })
        else (ok tt, s')
  ]

  -- The events that were queued since the transaction began, thirty at most.
  unfoldable pub more_events : OutgoingKind → Handler T → List (SendingEventType × Bytes)
  unfolding oks
  more_events kind s =
      take 30
        (oks (queued_requests kv names kind (delete_all_active_requests_for kv names kind s.db)))

  -- The branch for a transaction that ended well.
  unfoldable pub succeed : OutgoingKind → Handler T → Handler T
  unfolding take_out more_events map_list
  succeed kind s =
      let db = delete_all_active_requests_for kv names kind s.db in
      let new_events = more_events kind s in
      let futures = take_out kind s.futures in
      if is_empty new_events
      then record s {
        db = db;
        futures = futures;
        current_transaction_status = set_status kind none s.current_transaction_status;
      }
      else record s {
        db = mark_as_active kv names new_events db;
        futures = (kind, map_list (λ (r : SendingEventType × Bytes). r.0) new_events) ∷ futures;
      }

  -- The branch for a transaction that failed.
  unfoldable pub fail : OutgoingKind → ℕ → Handler T → Handler T
  unfolding take_out fail_status
  fail kind now s = record s {
    futures = take_out kind s.futures;
    current_transaction_status =
        set_status kind (fail_status now (s.current_transaction_status kind))
          s.current_transaction_status;
  }
