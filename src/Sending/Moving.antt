-- ===== src/Sending/Moving.antt =====
-- Requests on their way (src/database/key_value/sending.rs): queued, marked as active, deleted.
use matrix_server.Base.{
  ℕ, ◌≡◌, refl, Bool, true, false, ◌||◌, Option, none, some, List, [], ◌∷◌, ◌++◌, if◌then◌else◌,
  ite, arith, is_some, ap, ◌∙◌,
}
use matrix_server.Base.Bytes.{Bytes, dec_bytes, to_be_bytes, starts_with}
use matrix_server.Base.Effect.{ok}
use matrix_server.Storage.{KvTree, get-remove_prefix, insert_batch}
use matrix_server.Globals.{next_count}
use matrix_server.Globals.Counting.{next_count-ok}
use matrix_server.Sending.{
  OutgoingKind, SendingEventType, pdu, edu, same_kind, get_prefix, SendingDb, Names, value_of,
  count, request_batch, queue_requests, delete_all_requests_for, delete_all_active_requests_for,
  mark_as_active, parse_servercurrentevent,
}
use matrix_server.Sending.Keys.{
  IsKind, IsEvent, end_of, parse_key, starts_with-get_prefix, same_kind_refl,
}

module _ {T : Type 0} (kv : KvTree T) (names : Names) where
  -- The waiting and the active request of a key.
  abbrev pub waiting : Bytes → SendingDb T → Option Bytes
  waiting j s = kv.get s.servernameevent_data j

  abbrev pub active : Bytes → SendingDb T → Option Bytes
  active j s = kv.get s.servercurrentevent_data j

  -- A request that was queued under a key, from the state `s` to `s'`.
  pub record Queued (kind : OutgoingKind) (e : SendingEventType) (key : Bytes) (s s' : SendingDb T)
      : Type 0 where
    pub stored :
        (j : Bytes) → waiting j s' ≡ ite (dec_bytes key j) (some (value_of e)) (waiting j s)
    pub unsent : (j : Bytes) → active j s' ≡ active j s
    pub parsed : parse_servercurrentevent names key (value_of e) ≡ ok (kind, e)
    pub below : starts_with (get_prefix kind) key ≡ true

  queue_one :
      (kind : OutgoingKind) (e : SendingEventType) (s : SendingDb T)
      → (n : ℕ) × (s' : SendingDb T) × (queue_requests kv names ((kind, e) ∷ []) s
          ≡ (ok ((get_prefix kind ++ end_of e n) ∷ []), s'))
        × (s'.servernameevent_data
            ≡ kv.insert s.servernameevent_data (get_prefix kind ++ end_of e n) (value_of e))
        × (s'.servercurrentevent_data ≡ s.servercurrentevent_data)
  unfolding queue_requests request_batch count insert_batch
  queue_one kind (pdu id) s = (0, _, refl, refl, refl)
  queue_one kind (edu json) s =
      let (n, e, _) = next_count-ok kv s.global in
      (
        n,
        record s {
          global = (next_count kv s.global).1;
          servernameevent_data =
              kv.insert s.servernameevent_data (get_prefix kind ++ to_be_bytes n) json;
        },
        rw e refl,
        refl,
        refl,
      )

  -- Queueing an event for a kind whose names are valid returns its key. The event then waits under
  -- that key, which lies below the prefix of the kind and is parsed back to the kind and the event,
  -- while all else that waits or is active is as before. An edu is not empty.
  pub queue_requests_lem :
      (kind : OutgoingKind) (e : SendingEventType) (s : SendingDb T)
      → IsKind names kind
      → IsEvent e
      → (key : Bytes) × (s' : SendingDb T) × (queue_requests kv names ((kind, e) ∷ []) s
          ≡ (ok (key ∷ []), s'))
        × Queued kind e key s s'
  queue_requests_lem kind e s k h =
      let (n, s', returned, queue, current) = queue_one kind e s in
      let key = get_prefix kind ++ end_of e n in
      (
        key,
        s',
        returned,
        record {
          stored = λ j.
              ap (λ (t : T). kv.get t j) queue
              ∙ kv.get-insert s.servernameevent_data key (value_of e) j;
          unsent = λ j. ap (λ (t : T). kv.get t j) current;
          parsed = parse_key names kind e n k h;
          below =
              ground (
                arith,
                starts_with-get_prefix names kind kind (end_of e n) k k,
                same_kind_refl kind,
              );
        },
      )

  -- Deleting the requests of a valid kind removes those of that kind, waiting or active, and keeps
  -- those of any other valid kind; deleting the active ones does so for these.
  pub requests-delete_all_requests_for :
      (kind kind' : OutgoingKind) (t : Bytes) (s : SendingDb T)
      → IsKind names kind
      → IsKind names kind'
      → (waiting (get_prefix kind' ++ t) (delete_all_requests_for kv names kind s)
          ≡ (if same_kind kind kind' then none else waiting (get_prefix kind' ++ t) s))
        × (active (get_prefix kind' ++ t) (delete_all_requests_for kv names kind s)
            ≡ (if same_kind kind kind' then none else active (get_prefix kind' ++ t) s))
        × (active (get_prefix kind' ++ t) (delete_all_active_requests_for kv names kind s)
            ≡ (if same_kind kind kind' then none else active (get_prefix kind' ++ t) s))
  unfolding delete_all_requests_for delete_all_active_requests_for
  requests-delete_all_requests_for kind kind' t s k k' =
      let key = get_prefix kind' ++ t in
      let same = starts_with-get_prefix names kind kind' t k k' in
      (
        ground (arith, get-remove_prefix kv s.servernameevent_data (get_prefix kind) key, same),
        ground (arith, get-remove_prefix kv s.servercurrentevent_data (get_prefix kind) key, same),
        ground (arith, get-remove_prefix kv s.servercurrentevent_data (get_prefix kind) key, same),
      )

  -- Whether one of the events has the key.
  abbrev pub is_among : Bytes → List (SendingEventType × Bytes) → Bool
  is_among j [] = false
  is_among j ((e, key) ∷ events) = ite (dec_bytes key j) true (is_among j events)

  -- After `mark_as_active` a key waits only if it did before and is not one of the keys given, and
  -- is active exactly if it was or is one of them.
  pub mark_as_active_lem :
      (events : List (SendingEventType × Bytes)) (j : Bytes) (s : SendingDb T)
      → (waiting j (mark_as_active kv names events s)
          ≡ (if is_among j events then none else waiting j s))
        × (is_some (active j (mark_as_active kv names events s))
            ≡ (is_among j events || is_some (active j s)))
  unfolding mark_as_active
  mark_as_active_lem [] j s = (refl, refl)
  mark_as_active_lem ((e, key) ∷ events) j s =
      let s' : SendingDb T = record s {
        servercurrentevent_data = kv.insert s.servercurrentevent_data key (value_of e);
        servernameevent_data = kv.remove s.servernameevent_data key;
      } in
      let rest = mark_as_active_lem events j s' in
      (
        ground (arith, rest, kv.get-remove s.servernameevent_data key j),
        ground (arith, rest, kv.get-insert s.servercurrentevent_data key (value_of e) j),
      )
