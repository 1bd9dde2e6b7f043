-- ===== src/Tests/States.antt =====
-- Examples for the room states: a root with two events, and a diff on it.
use matrix_server.Base.{
  ℕ, ◌≡◌, refl, true, false, none, some, [], ◌∷◌, arith, length, ℕ_discrete, List,
}
use matrix_server.Base.Bytes.{dec_bytes, to_be_bytes, starts_with, Bytes, increment, u64_from_bytes}
use matrix_server.Base.HashSet.{contains}
use matrix_server.Base.Effect.{ok, err, bad_database}
use matrix_server.Storage.{Entries, lookup, tree_increment}
use matrix_server.Storage.Memory.{memory, put}
use matrix_server.StateCompressor.{
  CompressedStateEvent, StateDiff, Stack, Service, layer, IsStorable, AreEvents,
  load_shortstatehash_info, save_state_from_diff, IsEvent,
}
use matrix_server.StateCompressor.Diff.{IsDiff, IsStack}
use matrix_server.StateCompressor.Layers.{Layers, IsCoherent, load-Layers}
use matrix_server.StateCompressor.Saving.{save-Layers}
use matrix_server.StateCompressor.Reload.{Reloaded, after_save, load-save}
use matrix_server.StateDiffStore.{encode_statediff, decode_statediff, get_statediff}
use matrix_server.StateDiffStore.Decoding.{decode-encode}
use matrix_server.StateDiffStore.Store.{statediff_data}
use matrix_server.Globals.{counter, next_count}
use matrix_server.Short.{ShortDb, get_or_create_shortstatehash, count}
use matrix_server.StateCompressor.Events.{
  compress_state_event, parse_compressed_state_event, parse-compress,
}
use matrix_server.StateCompressor.SaveState.{States, StateSaved, load-save_state}
use matrix_server.Tests.Numbers.{shorts, parsers, dollar, shorts-IsConsistent}
use matrix_server.Tests.{forgetful, never}

abbrev event_a : CompressedStateEvent
event_a = 0 ∷ 0 ∷ 0 ∷ 0 ∷ 0 ∷ 0 ∷ 0 ∷ 1 ∷ 0 ∷ 0 ∷ 0 ∷ 0 ∷ 0 ∷ 0 ∷ 0 ∷ 5 ∷ []

abbrev event_b : CompressedStateEvent
event_b = 0 ∷ 0 ∷ 0 ∷ 0 ∷ 0 ∷ 0 ∷ 0 ∷ 1 ∷ 0 ∷ 0 ∷ 0 ∷ 0 ∷ 0 ∷ 0 ∷ 0 ∷ 6 ∷ []

abbrev root : StateDiff
root = record { parent = none; added = event_a ∷ []; removed = [] }

-- Replaces the one event by the other, on the state 1.
abbrev change : StateDiff
change = record { parent = some 1; added = event_b ∷ []; removed = event_a ∷ [] }

single_event :
    (e : CompressedStateEvent)
    → (length e ≡ 16)
    → starts_with (to_be_bytes 0) e ≡ false
    → AreEvents (e ∷ [])
unfolding contains
single_event e n z x h = ground (arith, n, z)

event_a-events : AreEvents (event_a ∷ [])
event_a-events = single_event event_a refl (unfold starts_with to_be_bytes in refl)

event_b-events : AreEvents (event_b ∷ [])
event_b-events = single_event event_b refl (unfold starts_with to_be_bytes in refl)

nothing-events : AreEvents []
unfolding contains
nothing-events x h = absurd (ground arith)

change-IsStorable : IsStorable change
unfolding contains
change-IsStorable = record {
  parent_hash = λ p e. (ground arith, ground arith);
  added_distinct = (refl, tt);
  removed_distinct = (refl, tt);
  added_events = event_b-events;
  removed_events = event_a-events;
}

decode-encode_example : decode_statediff (encode_statediff change) ≡ ok change
decode-encode_example = decode-encode change change-IsStorable

abbrev stored : Entries
stored = (to_be_bytes 1, encode_statediff root) ∷ []

abbrev service : Service Entries (Unit {0})
service = record { db = stored; stateinfo_cache = tt }

abbrev stack : Stack
stack = layer 1 root root.added ∷ []

root-IsStorable : IsStorable root
unfolding contains
root-IsStorable = record {
  parent_hash = λ p e. never e;
  added_distinct = (refl, tt);
  removed_distinct = tt;
  added_events = event_a-events;
  removed_events = nothing-events;
}

stored_root : get_statediff memory stored 1 ≡ ok root
unfolding get_statediff lookup dec_bytes ℕ_discrete to_be_bytes encode_statediff decode_statediff
stored_root = decode-encode root root-IsStorable

nothing_at_2 : get_statediff memory stored 2 ≡ err (bad_database "State hash does not exist")
unfolding get_statediff lookup dec_bytes ℕ_discrete to_be_bytes
nothing_at_2 = refl

stack-Layers : Layers (statediff_data memory) stored 1 stack
stack-Layers = (root, stored_root, (omega arith, omega arith), refl, refl)

stack-IsStack : IsStack stack
unfolding contains
stack-IsStack = (
  record {
    diff = record {
      added_distinct = (refl, tt);
      removed_distinct = tt;
      added_events = event_a-events;
      removed_events = nothing-events;
      added_absent = λ y h. refl;
      removed_present = λ y h. absurd (ground arith);
    };
    full_distinct = (refl, tt);
    full_lem = λ y. ground arith;
  },
  tt,
)

change-IsDiff : IsDiff (event_a ∷ []) change.added change.removed
unfolding contains dec_bytes ℕ_discrete
change-IsDiff = record {
  added_distinct = (refl, tt);
  removed_distinct = (refl, tt);
  added_events = event_b-events;
  removed_events = event_a-events;
  added_absent = λ y h. other y h;
  removed_present = λ y h. h;
}
  where
    other :
        (y : CompressedStateEvent)
        → contains dec_bytes (event_b ∷ []) y ≡ true
        → contains dec_bytes (event_a ∷ []) y ≡ false
    other y h = ground arith

load-Layers_example :
    (c : Unit {0}) × (load_shortstatehash_info
        (statediff_data memory)
        (forgetful ℕ Stack)
        4
        1
        service
      ≡ some (ok stack, record service { stateinfo_cache = c }))
    × IsCoherent (statediff_data memory) (forgetful ℕ Stack) stored c
load-Layers_example =
    load-Layers (statediff_data memory) (forgetful ℕ Stack) 4 1 service stack (λ h r hit. never hit)
      stack-Layers (omega arith)

save-Layers_example :
    Layers
      (statediff_data memory)
      (save_state_from_diff
        (statediff_data memory)
        (forgetful ℕ Stack)
        2
        change.added
        change.removed
        2
        stack
        stored)
      1
      stack
save-Layers_example =
    save-Layers (statediff_data memory) (forgetful ℕ Stack) 2 change.added change.removed 2 stack
      stored nothing_at_2 (omega arith, omega arith) stack-IsStack stack-Layers change-IsDiff 1
      stack stack-Layers

load-save_example :
    Reloaded
      (statediff_data memory)
      (forgetful ℕ Stack)
      4
      2
      (after_save
        (statediff_data memory)
        (forgetful ℕ Stack)
        2
        change.added
        change.removed
        2
        stack
        service)
      (event_a ∷ [])
      change.added
      change.removed
load-save_example =
    load-save (statediff_data memory) (forgetful ℕ Stack) 4 2 change.added change.removed 2 stack
      service (λ h r hit. never hit) nothing_at_2 (omega arith, omega arith) stack-IsStack
      stack-Layers change-IsDiff (omega arith)

parse-compress_example :
    (c : CompressedStateEvent) × (s' : ShortDb Entries (λ K V. Unit {0})) × (compress_state_event
        memory forgetful 5 dollar shorts
      ≡ (ok c, s'))
    × IsEvent c
    × ((parse_compressed_state_event memory forgetful parsers c s').0 ≡ ok (5, dollar))
parse-compress_example =
    parse-compress memory forgetful parsers 5 dollar shorts 0 (omega arith) (omega arith)
      shorts-IsConsistent (omega arith) refl refl

abbrev no_hash : List Bytes → Bytes
no_hash keys = []

-- The counter stands at 1, the short id of the state before.
abbrev states : States Entries Entries (Unit {0}) (λ K V. Unit {0})
states = record {
  short = record shorts { global = (counter, to_be_bytes 1) ∷ [] };
  service = service;
}

hashed : get_or_create_shortstatehash memory forgetful (no_hash (event_b ∷ [])) states.short ≡ (
  ok (2, false),
  (get_or_create_shortstatehash memory forgetful (no_hash (event_b ∷ [])) states.short).1,
)
unfolding get_or_create_shortstatehash lookup dec_bytes ℕ_discrete next_count tree_increment
    increment u64_from_bytes to_be_bytes count put
hashed = refl

load-save_state_example :
    StateSaved memory forgetful
      (statediff_data memory)
      (forgetful ℕ Stack)
      no_hash
      4
      2
      (some 1)
      (event_b ∷ [])
      states
unfolding contains
load-save_state_example =
    load-save_state memory forgetful (statediff_data memory) (forgetful ℕ Stack) no_hash 4 2
      (some 1) (event_b ∷ []) stack states
      (get_or_create_shortstatehash memory forgetful (no_hash (event_b ∷ [])) states.short).1 hashed
      (ground arith) nothing_at_2 (omega arith, omega arith) (λ h r hit. never hit) stack-Layers
      stack-IsStack (omega arith) (refl, tt) event_b-events
