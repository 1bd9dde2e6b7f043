-- ===== src/Tests/Requests.antt =====
-- Examples for the requests to other servers: one server, one event.
use matrix_server.Base.{
  ℕ, ◌<◌, ◌≡◌, refl, true, none, List, [], ◌∷◌, ◌++◌, if◌then◌else◌, arith, is_some,
}
use matrix_server.Base.Bytes.{Bytes, starts_with}
use matrix_server.Base.Effect.{ok, Result}
use matrix_server.Storage.{Entries}
use matrix_server.Storage.Memory.{memory}
use matrix_server.Sending.{
  OutgoingKind, appservice, normal, SendingEventType, edu, get_prefix, SendingDb, Names,
  queue_requests,
}
use matrix_server.Sending.Keys.{IsKind}
use matrix_server.Sending.Moving.{Queued, queue_requests_lem}
use matrix_server.Sending.Transactions.{Handler, receive, succeed}
use matrix_server.Sending.Exclusive.{
  in_flight, IsExclusive, here, later, arrives, Reaches-IsExclusive,
}
use matrix_server.Sending.Ending.{Succeeded, succeed_lem}

abbrev names : Names
names = record { is_utf8 = λ b. true; is_user_id = λ b. true; is_server_name = λ b. true }

abbrev server : OutgoingKind
server = normal (b'x' ∷ [])

abbrev bridge : OutgoingKind
bridge = appservice (b'x' ∷ [])

server-IsKind : IsKind names server
unfolding starts_with
server-IsKind = (omega arith, refl, refl, refl, refl)

bridge-IsKind : IsKind names bridge
bridge-IsKind = (omega arith, refl)

abbrev nothing : SendingDb Entries
nothing = record {
  global = [];
  servernameevent_data = [];
  servercurrentevent_data = [];
  servername_educount = [];
}

abbrev event : SendingEventType
event = edu (b'{' ∷ b'}' ∷ [])

queue_requests_lem_example :
    (key : Bytes) × (s' : SendingDb Entries) × (queue_requests memory names
        ((server, event) ∷ [])
        nothing
      ≡ (ok (key ∷ []), s'))
    × Queued memory names server event key nothing s'
queue_requests_lem_example = queue_requests_lem memory names server event nothing server-IsKind refl

abbrev queued : SendingDb Entries
queued = (queue_requests memory names ((server, event) ∷ []) nothing).1

abbrev key_x : Bytes
key_x = get_prefix bridge ++ (b'k' ∷ [])

abbrev no_edus : Bytes → SendingDb Entries → Result (List Bytes × ℕ)
no_edus b s = ok ([], 0)

abbrev idle : Handler Entries
idle = record { db = queued; current_transaction_status = λ j. none; futures = [] }

abbrev sending : Handler Entries
sending = (receive memory names no_edus server event key_x 0 idle).1

one_in_flight : 0 < 1
one_in_flight = omega arith

Reaches-IsExclusive_example : IsExclusive sending
Reaches-IsExclusive_example =
    Reaches-IsExclusive memory names no_edus
      (later (arrives server event key_x 0 idle) (here sending)) (λ j. refl)

sending_one : in_flight server sending.futures ≡ 1
unfolding receive matrix_server.Sending.same_kind matrix_server.Base.Bytes.dec_bytes
sending_one = refl

succeed_lem_example :
    Succeeded memory names no_edus server server
      (b'k' ∷ [])
      sending
      (succeed memory names no_edus server sending)
succeed_lem_example =
    succeed_lem memory names no_edus server server (b'k' ∷ []) sending server-IsKind sending_one
