-- ===== src/Cli.antt =====
-- The line protocol of cli/src/lib.rs: `Command` and `Event`, how they are printed and read back.
-- Printing and reading a peer id, an address, a `Cid` and JSON, and checking a block's hash, are
-- libraries': the functions of `Formats`, with the laws `IsFormats` where a theorem names them.
pub mod Words
pub mod Hex
pub mod Command
pub mod Event
pub mod Arguments
pub mod Lines
pub mod CommandLines
pub mod EventLines
pub mod Panics
pub mod Program
pub mod Session
pub mod Setup
use ipfs_embed.Common.{
  ℕ, String, ◌≡◌, Bool, true, Option, none, some, List, ◌&&◌, ◌<◌, [], ◌∷◌, All, map, ◌≢◌,
}
use ipfs_embed.Common.Assoc.{Assoc}
use ipfs_embed.Multiaddr.{PeerId, Multiaddr}
use ipfs_embed.PeerInfo
use ipfs_embed.PeerInfo.{PeerInfo, AddressSource, ConnectionFailure}
use ipfs_embed.Behaviour.{Cid}
use ipfs_embed.Storage.{Block}
use ipfs_embed.Cli.Words.{Text, codes, IsWord}
use ipfs_embed.Cli.Hex.{read_hex, IsByte}

-- What `from_str` does: a value, an error, which `?` returns, or a panic.
pub data Parsed {ℓ} (A : Type ℓ) : Type ℓ where
  ok : A → Parsed A
  failed panicked : Parsed A

infixl 5 ◌>>=◌
abbrev pub ◌>>=◌ {ℓ κ} : {A : Type ℓ} {B : Type κ} → Parsed A → (A → Parsed B) → Parsed B
ok a >>= f = f a
failed >>= f = failed
panicked >>= f = panicked

-- `r?`
abbrev pub try {ℓ} : {A : Type ℓ} → Option A → Parsed A
try none = failed
try (some a) = ok a

-- `parts.next().unwrap()`, and the parts that are left.
abbrev pub part : List Text → Parsed (Text × List Text)
part [] = panicked
part (w ∷ parts) = ok (w, parts)

-- `parts.next().unwrap().parse()?`
abbrev pub parse_part {ℓ} : {A : Type ℓ} → (Text → Option A) → List Text → Parsed (A × List Text)
parse_part read [] = panicked
parse_part read (w ∷ parts) = try (read w) >>= λ a. ok (a, parts)

-- The arms of `from_str` that read one part, or two.
abbrev pub parse_one {ℓ κ} :
    {A : Type ℓ} {B : Type κ} → (Text → Option A) → (A → B) → List Text → Parsed B
parse_one read f parts = parse_part read parts >>= λ a. ok (f a.0)

abbrev pub parse_two {ℓ κ} :
    {A : Type ℓ} {B : Type ℓ} {C : Type κ}
    → (Text → Option A)
    → (Text → Option B)
    → (A → B → C)
    → List Text
    → Parsed C
parse_two read_a read_b f parts = do
  a ← parse_part read_a parts
  b ← parse_part read_b a.1
  ok (f a.0 b.0)

pub record PeerInfoIo : Type 0 where
  pub protocol_version : Option String
  pub agent_version : Option String
  pub protocols : List String
  pub listeners : List Multiaddr
  pub addresses : Assoc Multiaddr String
  pub connections : List Multiaddr
  pub failures : List String

-- The derived `Debug` of `AddressSource`.
abbrev pub debug_source : AddressSource → String
debug_source AddressSource.incoming = "Incoming"
debug_source AddressSource.listen = "Listen"
debug_source AddressSource.kad = "Kad"
debug_source AddressSource.mdns = "Mdns"
debug_source AddressSource.candidate = "Candidate"
debug_source AddressSource.user = "User"
debug_source AddressSource.dial = "Dial"

-- `From<PeerInfo>`. The derived `Debug` of a `ConnectionFailure` prints its time, which is chrono's.
unfoldable pub info_io : (ConnectionFailure → String) → PeerInfo → PeerInfoIo
info_io debug_failure info = record {
  protocol_version = info.protocol_version;
  agent_version = info.agent_version;
  protocols = info.protocols;
  listeners = info.listeners;
  addresses = map (λ e. (e.0, debug_source e.1.0)) info.addresses;
  connections = map (λ e. e.0) info.connections;
  failures = map debug_failure info.failures;
}

pub record Formats : Type 0 where
  pub show_peer : PeerId → Text
  pub read_peer : Text → Option PeerId
  pub show_addr : Multiaddr → Text
  pub read_addr : Text → Option Multiaddr
  pub show_cid : Cid → Text
  pub read_cid : Text → Option Cid
  pub show_info : PeerInfoIo → Text
  pub read_info : Text → Option PeerInfoIo
  -- `Block::new`, which checks the hash.
  pub new_block : Cid → List ℕ → Option Block

-- Peer ids and `Cid`s are printed as one word, and read back.
pub record IsFormats (f : Formats) : Type 0 where
  pub peer_back : (p : PeerId) → f.read_peer (f.show_peer p) ≡ some p
  pub peer_word : (p : PeerId) → IsWord (f.show_peer p)
  pub cid_back : (c : Cid) → f.read_cid (f.show_cid c) ≡ some c
  pub cid_word : (c : Cid) → IsWord (f.show_cid c)

-- An address that is printed as one word and reads back: not the empty one, which prints nothing.
abbrev pub IsAddress : Formats → Multiaddr → Type 0
IsAddress f addr = IsWord (f.show_addr addr) × (f.read_addr (f.show_addr addr) ≡ some addr)

-- The arm of `>insert` and `<block`: the data on the line, and `Block::new`.
abbrev pub parse_block : Formats → List Text → Parsed Block
parse_block f parts = do
  cid ← parse_part f.read_cid parts
  str_data ← part cid.1
  bytes ← try (read_hex str_data.0)
  try (f.new_block cid.0 bytes)

-- A block that prints as two words and passes `Block::new` again.
abbrev pub IsPrinted : Formats → Block → Type 0
IsPrinted f block =
    All IsByte block.bytes × (block.bytes ≢ []) × (f.new_block block.cid block.bytes ≡ some block)
