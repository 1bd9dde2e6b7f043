-- ===== src/Tests/Numbers.antt =====
-- Examples for the counter and the short ids.
use matrix_server.Base.{ite, ℕ, ◌≡◌, ◌↔◌, refl, true, [], ◌∷◌, arith, none, some}
use matrix_server.Base.Bytes.{Bytes, to_be_bytes, dec_bytes}
use matrix_server.Base.Effect.{ok}
use matrix_server.Storage.{Entries, lookup}
use matrix_server.Storage.Memory.{memory}
use matrix_server.Globals.{current_count}
use matrix_server.Short.{ShortDb, Parsers, get_or_create_shorteventid, get_eventid_from_short}
use matrix_server.Short.Events.{
  IsConsistent, get_eventid_from_short-get_or_create, shorteventid_injective,
}
use matrix_server.TransactionIds.{add_txnid, existing_txnid, existing_txnid-add_txnid}
use matrix_server.Notifications.{
  CountDb, WasReset, reset_notification_counts, reset_notification_counts_lem,
}
use matrix_server.Base.Keys.{◌⋄◌}
use matrix_server.Tests.{forgetful}

abbrev empty : Entries
empty = []

fresh_count : current_count memory empty ≡ ok 0
unfolding current_count lookup
fresh_count = refl

abbrev pub shorts : ShortDb Entries (λ K V. Unit {0})
shorts = record {
  global = [];
  eventid_shorteventid = [];
  shorteventid_eventid = [];
  statekey_shortstatekey = [];
  shortstatekey_statekey = [];
  statehash_shortstatehash = [];
  roomid_shortroomid = [];
  eventidshort_cache = tt;
  shorteventid_cache = tt;
  statekeyshort_cache = tt;
  shortstatekey_cache = tt;
}

abbrev pub dollar : Bytes
dollar = b'$' ∷ []

abbrev bang : Bytes
bang = b'!' ∷ []

abbrev pub parsers : Parsers
parsers = record { is_utf8 = λ b. true; is_event_id = λ b. true; is_event_type = λ b. true }

pub shorts-IsConsistent : IsConsistent memory forgetful shorts 0
unfolding lookup
shorts-IsConsistent = record {
  at_count = fresh_count;
  bounded = omega arith;
  index = λ e b h. absurd (ground arith);
  short_hits = λ e m h. absurd (ground arith);
  id_hits = λ m e h. absurd (ground arith);
}

get_eventid_from_short-get_or_create_example :
    (short : ℕ) × (s' : ShortDb Entries (λ K V. Unit {0})) × (get_or_create_shorteventid memory
        forgetful dollar shorts
      ≡ (ok short, s'))
    × ((get_eventid_from_short memory forgetful parsers short s').0 ≡ ok dollar)
get_eventid_from_short-get_or_create_example =
    get_eventid_from_short-get_or_create memory forgetful parsers dollar shorts 0
      shorts-IsConsistent (omega arith) refl refl

shorteventid_injective_example :
    (short short' : ℕ) × (s' s'' : ShortDb Entries (λ K V. Unit {0})) × (get_or_create_shorteventid
        memory forgetful dollar shorts
      ≡ (ok short, s'))
    × (get_or_create_shorteventid memory forgetful bang s' ≡ (ok short', s''))
    × ((short ≡ short') ↔ (dollar ≡ bang))
shorteventid_injective_example =
    shorteventid_injective memory forgetful dollar bang shorts 0 shorts-IsConsistent (omega arith)

existing_txnid-add_txnid_example :
    existing_txnid memory dollar none bang (add_txnid memory dollar none bang dollar [])
    ≡ ite
        (dec_bytes dollar dollar)
        (ite
          (dec_bytes [] [])
          (ite (dec_bytes bang bang) (some dollar) (existing_txnid memory dollar none bang []))
          (existing_txnid memory dollar none bang []))
        (existing_txnid memory dollar none bang [])
existing_txnid-add_txnid_example =
    existing_txnid-add_txnid memory dollar dollar none none bang bang dollar [] (omega arith)
      (omega arith) tt tt

abbrev counts : CountDb Entries
counts = record {
  global = [];
  userroomid_notificationcount = (dollar ⋄ bang, to_be_bytes 7) ∷ [];
  userroomid_highlightcount = [];
}

reset_notification_counts_lem_example :
    (s' : CountDb Entries) × (reset_notification_counts memory dollar bang counts ≡ (ok tt, s'))
    × WasReset memory dollar bang dollar bang 0 counts s'
reset_notification_counts_lem_example =
    reset_notification_counts_lem memory dollar bang dollar bang 0 counts (omega arith)
      (omega arith) (omega arith) (omega arith) fresh_count (omega arith)
