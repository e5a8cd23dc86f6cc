-- ===== src/Ipfs/Config.antt =====
-- `Config` of src/lib.rs and `NetworkConfig::new` of src/net/config.rs, as far as the models read them.
use ipfs_embed.Common.{String, true, false, some, none}
use ipfs_embed.Behaviour.{NetworkConfig}
use ipfs_embed.Storage
use ipfs_embed.Storage.{StorageConfig}

-- The node's name and key, and the settings of the protocols, are libraries'.
unfoldable pub new_network : NetworkConfig
new_network = record {
  enable_loopback = true;
  port_reuse = true;
  keep_alive = false;
  protocols = record {
    mdns = true;
    kad = true;
    ping = false;
    identify = true;
    gossipsub = true;
    broadcast = true;
    bitswap = true;
  };
}

pub record Config : Type 0 where
  pub storage : StorageConfig
  pub network : NetworkConfig

-- `Config::new`, with `Path::join`; durations are nanoseconds.
unfoldable pub new : (String → String → String) → String → Config
unfolding Storage.new new_network
new join path = record {
  storage = Storage.new (some (join path "blocks")) none 0 10_000_000_000;
  network = new_network;
}
