-- ===== src/Lib.antt =====
-- ipfs-embed: the address book that decides which addresses of which peers are kept, probed, dialled
-- and redialled, the loop that serves network commands and swarm events, the block store and the
-- facade over both, and the command line program with its line protocol.
--
-- Parts of the program and their modules, with paths from the repository's root:
-- - src/net/peers.rs, its helpers on addresses: Multiaddr. A `Multiaddr` is its list of protocols,
--   and `PeerCodec` stands for the multihash of a peer id, with the law that it reads back.
-- - src/net/peer_info.rs: PeerInfo (`PeerInfo`, `AddressSource`, `push_failure`, `ingest_address`) and
--   PeerInfo.Rtt (`Rtt`). Clock readings are arguments, a `Duration` is its nanoseconds, and `none` is
--   the panic of an overflow; `u32` arithmetic wraps by `% 2 ^ 32`.
-- - src/net/address_handler.rs, and libp2p's dial requests and errors as the program reads them: Dialing.
-- - src/net/peers.rs, `AddressBook`: AddressBook has its state and the calls of the behaviour,
--   AddressBook.Identify `set_info`, AddressBook.Callbacks and AddressBook.Failing the callbacks of
--   `NetworkBehaviour`, AddressBook.Steps all of them as one step relation. Events has the `Event`s and
--   `Env`, what the environment answers during one call: the clock, which receivers are alive, and
--   random numbers. The remaining modules below AddressBook hold proofs.
-- - src/net/behaviour.rs, `NetworkBackendBehaviour`: Behaviour has the state and the calls that it passes
--   on to the address book, Behaviour.Queries the table of queries and the events that answer it,
--   Behaviour.Starting the methods that start queries, Behaviour.Topics the subscriptions.
-- - src/net/mod.rs, `poll_swarm`: Service, a fold over the inputs of the loop (`handle_command` and
--   `handle_event`); its children hold proofs about runs, but for Service.Client: `SyncQuery` as a poll
--   of its channel, with fuel for the loop, and `forward_listener_events`.
-- - src/db.rs: Storage has `StorageConfig` and the record `BlockStore` of the calls that are made of the
--   library ipfs-sqlite-block-store, Storage.Batch the operations on a transaction, Storage.Calls
--   `StorageService` (`rw` is `run_rw`). The laws of the library are hypotheses: `IsBlockStore`, the view
--   of a store as a map, and for `evict` that a round that stops early collected `gc_min_blocks`.
-- - src/net/mod.rs, `NetworkService`: Network, where the answer of the command channel is an argument;
--   Network.Sending has the methods that send commands, Network.Reading those that read.
-- - src/executor.rs: Executor, the two runtimes and the handles of their tasks.
-- - src/lib.rs: Ipfs has `get`, `fetch`, `insert` and `sync`, Ipfs.Delegates the methods that hand on,
--   Ipfs.Config the configurations of src/lib.rs and src/net/config.rs.
-- - cli/src/lib.rs: Cli has what its parsers share and the record `Formats` of foreign printing and
--   reading, with the laws `IsFormats` of peer ids and `Cid`s; Cli.Words has texts as scalar values, and `split_whitespace`,
--   Cli.Hex the data of a block, Cli.Command and Cli.Event `Display` and `FromStr`, Cli.Arguments `Config`.
-- - cli/src/main.rs: Cli.Setup, the calls before the loops, and Cli.Program, the printed events
--   and one round of the loop over input lines.
-- - harness/src/lib.rs: Harness, the roles of simulated nodes and the trees of blocks.
-- - Common has the shared names, lists, equality tests, and maps as association lists. Examples runs the
--   operations on concrete inputs.
--
-- How the parts interact: `poll_swarm` hands each command or event to a method of the behaviour, which
-- changes its tables, asks a protocol, or calls the address book. The address book notifies its
-- subscribers and queues dials, which `poll` gives to the swarm; failures of dials come back with the
-- handler that was sent with them, which carries the redials left.
-- `Ipfs` reads and writes blocks by transactions of the store, and sends commands to `poll_swarm`; what
-- bitswap does to the store while a `fetch` waits is an argument (`Fetching`). The program reads a line
-- into a `Command`, calls `Ipfs`, and prints an `Event`.
--
-- Kademlia, gossipsub, broadcast, bitswap, mDNS, ping, identify and the swarm are libraries: the
-- model records what they are asked (`requests`, `actions`) and takes each answer as an argument,
-- without an assumption on it. A `HashMap` is an association list: a loop over one, as in
-- `prune_peers`, takes the order of the list. Messages sent on channels are kept in the order sent
-- (`sent`, `replies`, `gossip`). The gauges are statics of the process: the field `metrics` of a
-- book (`Metrics`) is what this book added to them, and a gauge is the sum over the books of the
-- process. A loop over inputs recurs on their list and needs no fuel; `poll_sync` and `evict` have
-- fuel, and their theorems say how much is enough. `none` as the result of an operation is a panic,
-- or with fuel a loop that has not ended.
--
-- Not modelled: src/variable.rs (a lock around a value that is a field here), src/telemetry.rs
-- (an HTTP endpoint), the construction of transports in src/net/mod.rs, opening
-- the files of the store, the start of the simulated network in harness/src/lib.rs, and the scenarios in
-- harness/src/bin and examples (tests and demonstrations).
pub mod Common
pub mod Multiaddr
pub mod PeerInfo
pub mod Dialing
pub mod Events
pub mod AddressBook
pub mod Behaviour
pub mod Service
pub mod Storage
pub mod Network
pub mod Executor
pub mod Ipfs
pub mod Cli
pub mod Harness
pub mod Examples
