-- ===== src/TransactionIds.antt =====
-- src/database/key_value/transaction_ids.rs: the responses to transactions of clients.
use matrix_server.Base.{◌≡◌, Option, none, some, [], arith, ite}
use matrix_server.Base.Bytes.{Bytes, dec_bytes}
use matrix_server.Base.Keys.{◌⋄◌, IsText, join_injective}
use matrix_server.Storage.{KvTree}

-- `device_id.map(|d| d.as_bytes()).unwrap_or_default()`
abbrev pub device_bytes : Option Bytes → Bytes
device_bytes none = []
device_bytes (some device_id) = device_id

module _ {T : Type 0} (kv : KvTree T) where
  unfoldable pub add_txnid : Bytes → Option Bytes → Bytes → Bytes → T → T
  add_txnid user_id device_id txn_id response userdevicetxnid_response =
      kv.insert userdevicetxnid_response (user_id ⋄ device_bytes device_id ⋄ txn_id) response

  unfoldable pub existing_txnid : Bytes → Option Bytes → Bytes → T → Option Bytes
  existing_txnid user_id device_id txn_id userdevicetxnid_response =
      kv.get userdevicetxnid_response (user_id ⋄ device_bytes device_id ⋄ txn_id)

  -- After `add_txnid` the response to that transaction of that user and device is read back, and
  -- those of any other user, device or transaction are as before; no device is the same as a device
  -- with an empty id. Users and devices have no separator byte.
  pub existing_txnid-add_txnid :
      (u u' : Bytes) (d d' : Option Bytes) (i i' : Bytes) (response : Bytes) (t : T)
      → IsText u
      → IsText u'
      → IsText (device_bytes d)
      → IsText (device_bytes d')
      → existing_txnid u' d' i' (add_txnid u d i response t)
        ≡ ite
            (dec_bytes u u')
            (ite
              (dec_bytes (device_bytes d) (device_bytes d'))
              (ite (dec_bytes i i') (some response) (existing_txnid u' d' i' t))
              (existing_txnid u' d' i' t))
            (existing_txnid u' d' i' t)
  unfolding existing_txnid add_txnid
  existing_txnid-add_txnid u u' d d' i i' response t tu tu' td td' =
      let key = u ⋄ device_bytes d ⋄ i in
      ground (
        arith,
        kv.get-insert t key response (u' ⋄ device_bytes d' ⋄ i'),
        join_injective u u' (device_bytes d ⋄ i) (device_bytes d' ⋄ i') tu tu',
        join_injective (device_bytes d) (device_bytes d') i i' td td',
      )
