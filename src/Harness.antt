-- ===== src/Harness.antt =====
-- harness/src/lib.rs: the roles of the simulated nodes, and the trees of blocks that they exchange.
-- Random payloads and the encoding of a block are libraries': arguments of the definitions.
pub mod Tree
pub mod Roles
use ipfs_embed.Common.{
  ℕ, zero, suc, ◌+◌, ◌-◌, ◌*◌, ◌≤◌, Bool, true, false, Option, none, some, List, [], ◌∷◌, ◌++◌,
  length, leb, if◌then◌else◌, ◌>>=◌, is_empty, take, drop, map,
}
use ipfs_embed.Multiaddr.{PeerId, PeerCodec, Multiaddr, p2p}
use ipfs_embed.Behaviour.{Cid}
use ipfs_embed.Storage.{Block}

-- The options that the definitions below read.
pub record HarnessOpts : Type 0 where
  pub n_nodes : ℕ
  pub n_providers : ℕ
  pub n_consumers : ℕ

pub data Role : Type 0 where
  provider consumer idle : Role

-- The range of a role, its start and its end.
unfoldable pub range_of : HarnessOpts → Role → ℕ × ℕ
range_of opts provider = (0, opts.n_providers)
range_of opts consumer = (opts.n_providers, opts.n_providers + opts.n_consumers)
range_of opts idle = (opts.n_providers + opts.n_consumers, opts.n_nodes)

-- `slice[start..end]`: `none` is the panic of a range that is out of bounds or the wrong way round.
abbrev pub slice {ℓ} : {A : Type ℓ} → ℕ × ℕ → List A → Option (List A)
slice (start, end) xs =
    if leb start end
    then (if leb end (length xs) then some (take (end - start) (drop start xs)) else none)
    else none

-- A simulated machine: its id, and the address of its network card with the port 30000.
pub record Machine : Type 0 where
  pub id : ℕ
  pub peer_id : PeerId
  pub multiaddr : Multiaddr

abbrev pub node : PeerCodec → Machine → ℕ × (PeerId × Multiaddr)
node codec m = (m.id, (m.peer_id, m.multiaddr ++ p2p (codec.hash_of m.peer_id) ∷ []))

unfoldable pub nodes : PeerCodec → ℕ × ℕ → List Machine → Option (List (ℕ × (PeerId × Multiaddr)))
nodes codec range machines = do ms ← slice range machines; some (map (node codec) ms)

unfoldable pub role :
    PeerCodec → HarnessOpts → Role → List Machine → Option (List (ℕ × (PeerId × Multiaddr)))
unfolding nodes range_of
role codec opts r machines = nodes codec (range_of opts r) machines

-- What is encoded in a block.
pub record Node : Type 0 where
  pub links : List Cid
  pub depth : ℕ
  pub payload : List ℕ

-- `random draw n`: the `n` bytes of the given draw. `Block::encode` can fail.
module _ (random : ℕ → ℕ → List ℕ) (encode : Node → Option Block) where
  abbrev pub payload_size : List Cid → ℕ
  payload_size links = if is_empty links then 1024 * 16 else 512

  unfoldable pub create_block : ℕ → List Cid → ℕ → Option Block
  create_block draw links depth =
      encode (record { links = links; depth = depth; payload = random draw (payload_size links) })

  -- The end of `build_tree_0`: each block so far took one draw.
  abbrev pub finish : ℕ → List Cid → List Block → Option (List Block × Cid)
  finish depth links blocks = do
    block ← create_block (length blocks) links depth
    some (blocks ++ block ∷ [], block.cid)

  -- The loop over the children.
  unfoldable pub children :
      (List Block → Option (List Block × Cid)) → ℕ → List Block → Option (List Block × List Cid)
  children build zero blocks = some (blocks, [])
  children build (suc n) blocks = do
    one ← build blocks
    rest ← children build n one.0
    some (rest.0, one.1 ∷ rest.1)

  unfoldable pub build_tree_0 : ℕ → ℕ → List Block → Option (List Block × Cid)
  unfolding create_block children
  build_tree_0 width zero blocks = finish zero [] blocks
  build_tree_0 width (suc depth) blocks = do
    r ← children (build_tree_0 width depth) width blocks
    finish (suc depth) r.1 r.0

  -- `build_tree`, the root and the blocks.
  unfoldable pub build_tree : ℕ → ℕ → Option (Cid × List Block)
  unfolding build_tree_0
  build_tree width depth = do r ← build_tree_0 width depth []; some (r.1, r.0)

-- `deadline`: the timeout of a future that may take until `d` seconds after its start, where `elapsed`
-- have passed, in nanoseconds. It is never below a tenth of a second.
unfoldable pub deadline : ℕ → ℕ → ℕ
deadline elapsed d =
    if leb (d * 1_000_000_000) (elapsed + 100_000_000)
    then 100_000_000
    else d * 1_000_000_000 - elapsed
