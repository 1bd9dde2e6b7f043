-- ===== src/StateCompressor/Events.antt =====
-- src/service/rooms/state_compressor/mod.rs: a state key and an event as sixteen bytes.
use matrix_server.Base.{
  ℕ, ◌+◌, ◌<◌, ◌≡◌, refl, sym, ap, ◌∙◌, true, Option, none, some, ◌++◌, arith, take, drop,
  take-append, drop-append, length-append, Bool-cases, inl, inr,
}
use matrix_server.Base.Bytes.{
  u64_mod, to_be_bytes, u64_from_bytes, starts_with, rest_of_starts_with, to_be_bytes_injective,
  u64_from_bytes-to_be_bytes, length-to_be_bytes,
}
use matrix_server.Base.Effect.{ok, err, panicked, Exec, lift, pure, ◌>>=◌}
use matrix_server.Storage.{KvTree}
use matrix_server.Lru.{LruCache}
use matrix_server.Short.{
  EventId, ShortDb, Parsers, get_or_create_shorteventid, get_eventid_from_short,
}
use matrix_server.Short.Events.{
  IsConsistent, get_or_create_shorteventid_lem, get_eventid_from_short_lem,
}
use matrix_server.StateCompressor.{CompressedStateEvent, IsEvent}

module _ {T : Type 0} {C : Type 0 → Type 0 → Type 0} (kv : KvTree T)
    (lru : (K V : Type 0) → LruCache K V (C K V)) where
  unfoldable pub compress_state_event : ℕ → EventId → Exec (ShortDb T C) CompressedStateEvent
  compress_state_event shortstatekey event_id = do
    short ← get_or_create_shorteventid kv lru event_id
    pure (to_be_bytes shortstatekey ++ to_be_bytes short)

  -- The event id of the second half, if both halves are numbers.
  unfoldable pub parse_halves : Parsers → Option ℕ → Option ℕ → Exec (ShortDb T C) (ℕ × EventId)
  parse_halves parsers none short = lift (err panicked)
  parse_halves parsers (some key) none = lift (err panicked)
  parse_halves parsers (some key) (some short) = do
    event_id ← get_eventid_from_short kv lru parsers short
    pure (key, event_id)

  unfoldable pub parse_compressed_state_event :
      Parsers → CompressedStateEvent → Exec (ShortDb T C) (ℕ × EventId)
  unfolding parse_halves
  parse_compressed_state_event parsers compressed_event =
      parse_halves parsers (u64_from_bytes (take 8 compressed_event))
        (u64_from_bytes (drop 8 compressed_event))

first_half : (k m : ℕ) → take 8 (to_be_bytes k ++ to_be_bytes m) ≡ to_be_bytes k
first_half k m = rw (← length-to_be_bytes k) (take-append (to_be_bytes k) (to_be_bytes m))

second_half : (k m : ℕ) → drop 8 (to_be_bytes k ++ to_be_bytes m) ≡ to_be_bytes m
second_half k m = rw (← length-to_be_bytes k) (drop-append (to_be_bytes k) (to_be_bytes m))

-- A state key other than zero makes an event that a diff can hold.
halves-IsEvent : (k m : ℕ) → 0 < k → k < u64_mod → IsEvent (to_be_bytes k ++ to_be_bytes m)
halves-IsEvent k m pos lt = (
  omega (
    arith,
    length-append (to_be_bytes k) (to_be_bytes m),
    length-to_be_bytes k,
    length-to_be_bytes m,
  ),
  elim (Bool-cases (starts_with (to_be_bytes 0) (to_be_bytes k ++ to_be_bytes m))) [
    | inr e ↦ e
    | inl e ↦
        let (rest, same) = rest_of_starts_with (to_be_bytes 0) (to_be_bytes k ++ to_be_bytes m) e in
        let heads : to_be_bytes k ≡ to_be_bytes 0 =
          sym (first_half k m)
          ∙ ap (take 8) same
          ∙ rw (← length-to_be_bytes 0) (take-append (to_be_bytes 0) rest) in
        absurd (omega (arith, to_be_bytes_injective k 0 lt (omega arith) heads))
  ],
)

module _ {T : Type 0} {C : Type 0 → Type 0 → Type 0} (kv : KvTree T)
    (lru : (K V : Type 0) → LruCache K V (C K V)) where
  -- From a consistent database of short ids with room for one more, compressing a state key other
  -- than zero and a valid event id gives sixteen bytes that begin with a key other than zero, and
  -- parsing them gives the state key and the event id back.
  pub parse-compress :
      (parsers : Parsers) (k : ℕ) (e : EventId) (s : ShortDb T C) (n : ℕ)
      → 0 < k
      → k < u64_mod
      → IsConsistent kv lru s n
      → n + 1 < u64_mod
      → parsers.is_utf8 e ≡ true
      → parsers.is_event_id e ≡ true
      → (c : CompressedStateEvent) × (s' : ShortDb T C) × (compress_state_event kv lru k e s
          ≡ (ok c, s'))
        × IsEvent c
        × ((parse_compressed_state_event kv lru parsers c s').0 ≡ ok (k, e))
  unfolding compress_state_event parse_compressed_state_event
  parse-compress parsers k e s n pos lt consistent room utf8 valid =
      let g = get_or_create_shorteventid_lem kv lru e s n consistent room in
      let back =
        get_eventid_from_short_lem kv lru parsers e g.short g.state g.new_count
          g.shortened.consistent utf8 valid g.shortened.back in
      (
        to_be_bytes k ++ to_be_bytes g.short,
        g.state,
        rw g.returned refl,
        halves-IsEvent k g.short pos lt,
        rw
            (
              first_half k g.short,
              second_half k g.short,
              u64_from_bytes-to_be_bytes k lt,
              u64_from_bytes-to_be_bytes g.short g.shortened.small,
            )
            (ground (arith, back)),
      )
