-- ===== src/Cli/Arguments.antt =====
-- `Config` of cli/src/lib.rs, the arguments it is turned into, and the keys of numbered nodes.
use ipfs_embed.Common.{
  ℕ, zero, suc, ◌+◌, ◌*◌, ◌/◌, ◌%◌, ◌^◌, ◌<◌, ◌≡◌, refl, Bool, true, false, Option, none, some,
  List, [], ◌∷◌, ◌++◌, arith, length, take, if◌then◌else◌, ap,
}
use ipfs_embed.Multiaddr.{Multiaddr, ip4, tcp}
use ipfs_embed.Cli.Words.{Text, codes}
use ipfs_embed.Cli.{Formats}

pub record Config : Type 0 where
  pub path : Option Text
  pub node_name : Option Text
  pub keypair : ℕ
  pub enable_mdns : Bool
  pub listen_on : List Multiaddr
  pub bootstrap : List Multiaddr
  pub external : List Multiaddr
  pub disable_port_reuse : Bool

-- `/ip4/0.0.0.0/tcp/30000`
unfoldable pub new : ℕ → Config
new keypair = record {
  path = none;
  node_name = none;
  keypair = keypair;
  enable_mdns = false;
  listen_on = (ip4 0 ∷ tcp 30000 ∷ []) ∷ [];
  bootstrap = [];
  external = [];
  disable_port_reuse = false;
}

abbrev pub option : Text → Option Text → List Text
option name none = []
option name (some v) = name ∷ v ∷ []

abbrev pub flag : Text → Bool → List Text
flag name true = name ∷ []
flag name false = []

abbrev pub repeated : Text → (Multiaddr → Text) → List Multiaddr → List Text
repeated name show_addr [] = []
repeated name show_addr (addr ∷ addrs) = name ∷ show_addr addr ∷ repeated name show_addr addrs

-- `From<Config> for Command`: the arguments of the child process, by the decimal text of a number.
-- `none` is the panic where the program's binary is missing.
unfoldable pub arguments : Formats → (ℕ → Text) → Bool → Config → Option (List Text)
arguments f decimal exists config =
    if exists
    then some (
        option (codes "--path") config.path
        ++ (option (codes "--node-name") config.node_name
            ++ (codes "--keypair"
                ∷ decimal config.keypair
                ∷ (repeated (codes "--listen-on") f.show_addr config.listen_on
                    ++ (repeated (codes "--bootstrap") f.show_addr config.bootstrap
                        ++ (repeated (codes "--external") f.show_addr config.external
                            ++ (flag (codes "--enable-mdns") config.enable_mdns
                                ++ flag (codes "--disable-port-reuse")
                                    config.disable_port_reuse)))))))
    else none

-- `u64::to_be_bytes`, of the `n` low bytes.
unfoldable pub to_be_bytes : ℕ → ℕ → List ℕ
to_be_bytes zero i = []
to_be_bytes (suc n) i = to_be_bytes n (i / 256) ++ i % 256 ∷ []

abbrev pub zeros : ℕ → List ℕ
zeros zero = []
zeros (suc n) = 0 ∷ zeros n

-- The secret of `keypair`; the key and the peer id are ed25519's and libp2p's functions of it.
unfoldable pub secret : ℕ → List ℕ
unfolding to_be_bytes
secret i = to_be_bytes 8 i ++ zeros 24

-- The number that big-endian bytes stand for.
abbrev value_from : ℕ → List ℕ → ℕ
value_from acc [] = acc
value_from acc (b ∷ bs) = value_from (acc * 256 + b) bs

-- Nodes of different numbers have different secrets, of 32 bytes.
pub secret_injective :
    (i j : ℕ)
    → i < 2 ^ 64
    → j < 2 ^ 64
    → (length (secret i) ≡ 32) × (length (secret j) ≡ 32) × (secret i ≡ secret j → i ≡ j)
unfolding secret
secret_injective i j hi hj =
    (refl, refl, λ e. (let same = ap (λ l. value_from 0 (take 8 l)) e in omega arith))
