-- ===== src/Lib.antt =====
-- A verification library for the Matrix homeserver of this repository.
--
-- The server keeps everything in key-value trees (src/database/abstraction.rs). A service in
-- src/service/ holds the logic of a component and calls the database through a trait `Data`, which
-- src/database/key_value/ implements on the trees. A single counter numbers all that happens.
--
--   Base              bytes, u64 as big-endian bytes, keys joined by 0xff, hash sets, results and
--                     the state monad of fallible handlers (src/utils/mod.rs, src/utils/error.rs)
--   Storage           the trait `KvTree` as a record of operations and laws, and an instance in
--                     memory, which Listing and Sorting serve (src/database/abstraction.rs)
--   Lru, Json         the crates `lru_cache` and `serde_json` as interfaces
--   Globals           next_count, current_count and the schema version
--                     (src/database/key_value/globals.rs)
--   Short             short ids (src/database/key_value/rooms/short.rs)
--   StateCompressor   room states as stacks of diffs (src/service/rooms/state_compressor/mod.rs):
--                     Folding and Diff are about merging a diff into its parent, Layers about
--                     loading, Saving about saving, Reload about both, Events about single
--                     events, SaveState about `save_state`
--   StateDiffStore    a diff as bytes, and the trait `Data` of the state compressor
--                     (src/database/key_value/rooms/state_compressor.rs)
--   KeyBackups        backups of room keys (src/database/key_value/key_backups.rs)
--   StateCache        memberships of rooms (src/database/key_value/rooms/state_cache.rs): Reading
--                     has the queries, Counts the update of the counts and caches
--   Sending           requests to other servers: the queue (src/database/key_value/sending.rs), and in
--                     Transactions the handler that sends them (src/service/sending/mod.rs). Keys is
--                     about their keys, Moving about queueing, marking and deleting them, Exclusive
--                     about runs of the handler, Ending about the end of a transaction
--   Users             accounts and profiles (src/database/key_value/users.rs). Devices has the devices
--                     and their tokens, Tokens is about the two trees of tokens; OneTimeKeys has the
--                     one-time keys, Taking is about handing them out; ToDevice has the messages to
--                     devices, Acknowledging is about removing them; Keys has device keys and
--                     cross-signing keys, Keys/Changes is about the list of changes
--   AuthChain         authorization chains: the walk over the events
--                     (src/service/rooms/auth_chain/mod.rs), its specification in Reaching and its
--                     proof in Pushing, Progress and Walking; Caching has the cache
--                     (src/database/key_value/rooms/auth_chain.rs), Cached is about what it holds,
--                     Looking about lookups; Collecting has `get_auth_chain`, and Bucketing, Single,
--                     Chunks and Union are about its buckets, its events, its chunks and the whole
--   Aliases           aliases and public rooms (src/database/key_value/rooms/alias.rs and directory.rs);
--                     Resolving is about setting and removing an alias
--   LazyLoading       which members were sent to which device (src/service/rooms/lazy_loading/mod.rs,
--                     src/database/key_value/rooms/lazy_load.rs)
--   Typing            typing notifications (src/database/key_value/rooms/edus/typing.rs); Maintaining is
--                     about their end
--   Receipts          read receipts (src/database/key_value/rooms/edus/read_receipt.rs); Updating is
--                     about replacing the old one
--   Notifications     the counts of notifications (src/database/key_value/rooms/user.rs)
--   TransactionIds    transactions of clients (src/database/key_value/transaction_ids.rs)
--   Tests             instances, small databases and examples
--
-- A handler that changes the database takes its state, a record of trees and caches, and returns a
-- result with the new state; `Exec` is the monad of these. The tree operations of the model do not
-- fail: an I/O error of the engine ends a handler at once in the code, and is left out. A panic is
-- the error `panicked`. Texts are the bytes of their UTF-8 form; `IsText` says that the byte 0xff is
-- not among them. What the crate `ruma` accepts as an id is a parameter. A hash set is a list without
-- duplicates, whose order stands for the order of iteration; a hash map is a function.
--
-- The recursion of `load_shortstatehash_info` into parents has fuel, and no more than the number of
-- layers is needed, which saving keeps at four at most. The loop that reads a diff from bytes has the
-- length of the value as fuel, and takes at least eight bytes in each round.
--
-- The handler of the sending queue is a step function for each branch of its loop. The instants are
-- numbers of nanoseconds, the requests that are being sent are a list, and `select_edus` is an
-- argument.
--
-- The walk over authorizing events has fuel. The events found so far are distinct events of the chain,
-- and each round visits one of them or the event that the walk began with, so that the length of the
-- chain and one more is enough. What `get_pdu` of the timeline finds is an argument, since the walk
-- does not change it.
--
-- The lookups of a user's rooms and of a room's encryption that a change of keys makes are arguments
-- too. Texts of JSON are written and read by the interfaces of Json, where JSON `null` is read as
-- `None` if the code reads an `Option`; `sign_key`, `get_master_key` and
-- `get_self_signing_key`, which edit JSON values, are left out, and the removal of the room id from a
-- receipt is an argument.
--
-- Not modelled: the database engines, the HTTP endpoints, event authorization and state resolution
-- (the crate `ruma`), cryptography, presence, account data, interactive
-- authentication, appservices, pushers and media, the timeline and the event handler, search, the
-- updates of memberships, the administration room, and the start with its migrations.
pub mod Base
pub mod Storage
pub mod Lru
pub mod StateCompressor
pub mod StateDiffStore
pub mod Globals
pub mod Short
pub mod Json
pub mod KeyBackups
pub mod StateCache
pub mod Sending
pub mod Notifications
pub mod Users
pub mod AuthChain
pub mod Aliases
pub mod LazyLoading
pub mod Typing
pub mod Receipts
pub mod TransactionIds
mod Tests
