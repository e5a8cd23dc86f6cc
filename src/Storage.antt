-- ===== src/Storage.antt =====
-- src/db.rs: `StorageConfig`, the store that it opens, and the garbage collector. The block store is
-- the library ipfs-sqlite-block-store: the record `BlockStore` of the calls that the program makes of
-- it. Its laws stand with the proofs that need them.
pub mod Batch
pub mod Calls
pub mod Atomic
pub mod Evicting
pub mod Contents
use ipfs_embed.Common.{
  ℕ, ◌+◌, ◌-◌, ◌*◌, ◌^◌, String, Bool, Option, none, some, List, [], ◌∷◌, string_eq, unwrap_or,
}
use ipfs_embed.Common.Assoc.{Assoc, get, insert}
use ipfs_embed.Multiaddr.{PeerId}
use ipfs_embed.PeerInfo.{Time}
use ipfs_embed.Behaviour.{Cid, Done, NetworkError}

-- `Block<S>`
pub record Block : Type 0 where
  pub cid : Cid
  pub bytes : List ℕ

-- The errors of the store, the facade, the network and its channels, and of a line of the program.
pub data Error : Type 0 where
  store : String → Error
  block_not_found : Cid → Error
  network : NetworkError → Error
  not_sent : String → Error
  canceled detached invalid_line : Error

pub data Answer {ℓ} (A : Type ℓ) : Type ℓ where
  ok : A → Answer A
  failed : Error → Answer A

abbrev pub Alias : Type 0
Alias = List ℕ

pub record StorageConfig : Type 0 where
  pub path : Option String
  pub access_db_path : Option String
  pub cache_size_blocks : ℕ
  pub cache_size_bytes : ℕ
  pub gc_interval : Time
  pub gc_min_blocks : ℕ
  pub gc_target_duration : Time

-- `StorageConfig::new`, where `usize` has 64 bits; durations are nanoseconds.
unfoldable pub new : (path access_db_path : Option String) → ℕ → Time → StorageConfig
new path access_db_path cache_size gc_interval = record {
  path = path;
  access_db_path = access_db_path;
  cache_size_blocks = cache_size;
  cache_size_bytes = 2 ^ 64 - 1;
  gc_interval = gc_interval;
  gc_min_blocks = 2 ^ 64 - 1;
  gc_target_duration = (2 ^ 64 - 1) * 1_000_000_000 + (1_000_000_000 - 1);
}

-- The library: its database, a transaction on it, and its temporary pins.
pub record BlockStore : Type 1 where
  pub State : Type 0
  pub Transaction : Type 0
  pub TempPin : Type 0
  pub transaction : State → Transaction
  pub commit : State → Transaction → State × Answer Done
  -- A transaction that is dropped.
  pub rollback : State → Transaction → State
  pub temp_pin : Transaction → Transaction × TempPin
  pub extend_temp_pin : Cid → Transaction × TempPin → (Transaction × TempPin) × Answer Done
  pub get_block_cids : Transaction → Transaction × Answer (List Cid)
  pub has_block : Cid → Transaction → Transaction × Answer Bool
  pub get_block : Cid → Transaction → Transaction × Answer (Option (List ℕ))
  pub put_block : Block → Transaction → Transaction × Answer Done
  pub resolve : Alias → Transaction → Transaction × Answer (Option Cid)
  pub alias : Alias → Option Cid → Transaction → Transaction × Answer Done
  pub aliases : Transaction → Transaction × Answer (List (Alias × Cid))
  pub reverse_alias : Cid → Transaction → Transaction × Answer (Option (List Alias))
  pub get_missing_blocks : Cid → Transaction → Transaction × Answer (List Cid)
  -- By the least number of blocks and the longest time; whether nothing is left to collect.
  pub incremental_gc : ℕ → Time → State → State × Answer Bool
  pub flush : State → State × Answer Done

-- `StorageService` with the settings of its garbage collector, and the counter `QUERIES_TOTAL`.
pub record Storage (S : BlockStore) : Type 0 where
  pub store : S.State
  pub gc_min_blocks : ℕ
  pub gc_target_duration : Time
  pub queries : Assoc String ℕ

-- `QUERIES_TOTAL.with_label_values(&[op]).inc()`
abbrev pub count : {S : BlockStore} → String → Storage S → Storage S
count op s = record s { queries = insert op (unwrap_or (get op s.queries) 0 + 1) s.queries }

-- The service over an opened store.
abbrev pub opened : (S : BlockStore) → StorageConfig → S.State → Storage S
opened S config s = record {
  store = s;
  gc_min_blocks = config.gc_min_blocks;
  gc_target_duration = config.gc_target_duration;
  queries = [];
}
