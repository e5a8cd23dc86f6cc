-- ===== src/Examples/Blocks.antt =====
-- A block through the store and the facade: src/db.rs, src/lib.rs and the client of src/net/mod.rs.
use ipfs_embed.Common.{ℕ, ◌≡◌, ◌≢◌, ◌⊎◌, refl, none, some, List, [], ◌∷◌, arith, ◌==◌, ◌||◌, nat_eq}
use ipfs_embed.Common.{string_eq}
use ipfs_embed.Common.Assoc
use ipfs_embed.Multiaddr.{PeerId}
use ipfs_embed.AddressBook.Connected.{is_connected}
use ipfs_embed.Behaviour
use ipfs_embed.Behaviour.{Cid, Done, NetworkError, bitswap_failed}
use ipfs_embed.Storage.{ok, failed, Error, Block}
use ipfs_embed.Storage.Batch
use ipfs_embed.Storage.Calls
use ipfs_embed.Storage.Contents.{stored}
use ipfs_embed.Storage.Evicting.{evict_lem, Ends}
use ipfs_embed.Network.{GetQuery, sent, received, dropped}
use ipfs_embed.Network.Reading.{connections}
use ipfs_embed.Network.Listed.{connections-is_connected, lists_peer}
use ipfs_embed.Ipfs
use ipfs_embed.Ipfs.{Ipfs, Fetching}
use ipfs_embed.Ipfs.Fetched.{get-insert, fetch_lem}
use ipfs_embed.Ipfs.Synced.{sync_lem, Branches, listed}
use ipfs_embed.Common.{Option}
use ipfs_embed.Examples.{book}
use ipfs_embed.Examples.Store.{memory_store, memory_store-IsBlockStore, left, progress}
use ipfs_embed.Examples.Store.{storage, block, node, not_found}

-- While the query runs, bitswap puts block 7 into the store.
abbrev fetching : Fetching memory_store
fetching = record {
  command = sent;
  channel = 8;
  query = received (record { id = Behaviour.QueryId.bitswap 1; rx = 10 });
  outcome = received (Behaviour.Result.ok tt);
  cancel = sent;
  meanwhile = λ s. record s { store = (7, 3 ∷ 4 ∷ []) ∷ s.store };
}

-- Two blocks, of which each round collects one: the first stops early.
evict_example : Ends memory_store left 3 (Calls.evict memory_store 3 storage) storage
evict_example = evict_lem memory_store left progress 3 storage (omega arith)

get-insert_example : (Ipfs.get memory_store 7 (Ipfs.insert memory_store block node).0).1 ≡ ok block
unfolding Ipfs.insert Calls.insert Calls.get Calls.run_rw Batch.insert Batch.get Assoc.insert
    Assoc.get
get-insert_example =
    get-insert memory_store memory_store-IsBlockStore block node (some (3 ∷ 4 ∷ [])) refl refl

fetch_example :
    ((bytes : List ℕ) (r : Option (List ℕ))
      → stored memory_store memory_store-IsBlockStore storage 7 ≡ some bytes
      → (Calls.get memory_store 7 storage).1 ≡ ok r
      → (Ipfs.fetch memory_store fetching 7 (2 ∷ []) node).1
        ≡ ok (record { cid = 7; bytes = bytes }))
    × ((bytes : List ℕ) (q : GetQuery)
        → (Calls.get memory_store 7 storage).1 ≡ ok none
        → ◌≢◌ {A = List PeerId} (2 ∷ []) []
        → sent ≡ sent
        → fetching.query ≡ received q
        → fetching.outcome ≡ received (Behaviour.Result.ok tt)
        → (Calls.get memory_store 7 (fetching.meanwhile (Calls.get memory_store 7 storage).0)).1
          ≡ ok (some bytes)
        → (Ipfs.fetch memory_store fetching 7 (2 ∷ []) node).1
          ≡ ok (record { cid = 7; bytes = bytes }))
    × ((b : Block)
        → (Ipfs.fetch memory_store fetching 7 (2 ∷ []) node).1 ≡ ok b
        → (b.cid ≡ 7)
          × ((stored memory_store memory_store-IsBlockStore storage 7 ≡ some b.bytes)
              ⊎ ((stored memory_store memory_store-IsBlockStore storage 7 ≡ none)
                  × (◌≢◌ {A = List PeerId} (2 ∷ []) [])
                  × (stored memory_store memory_store-IsBlockStore
                        (fetching.meanwhile (Calls.get memory_store 7 storage).0)
                        7
                      ≡ some b.bytes))))
fetch_example = fetch_lem memory_store memory_store-IsBlockStore fetching 7 (2 ∷ []) node

sync_example :
    (let q = Ipfs.sync memory_store not_found sent 9 5 [] node in
      Branches memory_store not_found sent 9 5 dropped []
        (listed memory_store not_found sent 9 5 dropped node)
        node.network
        (q.0.network, q.1))
    × ((e : Error)
        → (Calls.missing_blocks memory_store 5 storage).1 ≡ failed e
        → listed memory_store not_found sent 9 5 dropped node ≡ [])
sync_example = sync_lem memory_store not_found sent 9 5 dropped [] node

connections_example :
    is_connected 2 book ≡ (2 == book.local_peer_id || lists_peer 2 (connections book))
unfolding Assoc.contains
connections_example = connections-is_connected 2 book (refl, tt)
