-- ===== src/StateDiffStore/Store.antt =====
-- The key-value database implements the trait `Data` of the state compressor
-- (src/database/key_value/rooms/state_compressor.rs).
use matrix_server.Base.{ℕ, ◌≡◌, arith, if◌then◌else◌, ◌==◌}
use matrix_server.Base.Bytes.{to_be_bytes, to_be_bytes_injective}
use matrix_server.Base.Effect.{ok}
use matrix_server.Storage.{KvTree}
use matrix_server.StateCompressor.{StateDiff, StateDiffData, IsHash, IsStorable}
use matrix_server.StateDiffStore.{get_statediff, save_statediff, encode_statediff}
use matrix_server.StateDiffStore.Decoding.{decode-encode}

module _ {T : Type 0} (kv : KvTree T) where
  -- The law of the trait, for hashes and diffs that the database can hold.
  pub get_statediff-save :
      (t : T) (h j : ℕ) (diff : StateDiff)
      → IsHash h
      → IsHash j
      → IsStorable diff
      → get_statediff kv (save_statediff kv t h diff) j
        ≡ (if h == j then ok diff else get_statediff kv t j)
  unfolding get_statediff save_statediff
  get_statediff-save t h j diff hh hj st = ground (
    arith,
    kv.get-insert t (to_be_bytes h) (encode_statediff diff) (to_be_bytes j),
    decode-encode diff st,
    to_be_bytes_injective h j hh.1 hj.1,
  )

  abbrev pub statediff_data : StateDiffData T
  statediff_data = record {
    get_statediff = get_statediff kv;
    save_statediff = save_statediff kv;
    get-save = get_statediff-save;
  }
