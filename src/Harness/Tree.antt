-- ===== src/Harness/Tree.antt =====
-- The trees of harness/src/lib.rs: their size, and that the children come before their parents.
use ipfs_embed.Common.{
  ℕ, zero, suc, ◌+◌, ◌*◌, ◌≡◌, refl, true, Option, some, List, [], ◌∷◌, ◌++◌, length, length-append,
  arith, nat_eq, All, map, Bool-cases, ◌==◌, inl, inr,
}
use ipfs_embed.Common.Assoc
use ipfs_embed.Behaviour.{Cid}
use ipfs_embed.Storage.{Block}
use ipfs_embed.Harness.{
  Node, create_block, finish, children, build_tree_0, payload_size, build_tree,
}

-- The blocks of a tree.
unfoldable pub tree_size : ℕ → ℕ → ℕ
tree_size width zero = 1
tree_size width (suc depth) = width * tree_size width depth + 1

abbrev pub cids : List Block → List Cid
cids blocks = map (λ b. b.cid) blocks

-- The block of this `Cid` is among these.
abbrev pub Holds : List Block → Cid → Type 0
Holds blocks cid = Assoc.contains cid (cids blocks) ≡ true

module _ (links_of : Block → List Cid) where
  -- Blocks in an order in which each one links only to blocks before it.
  pub data InOrder : List Block → Type 0 where
    start : InOrder []
    next :
        {blocks after : List Block} (b : Block)
        → InOrder blocks
        → All (Holds blocks) (links_of b)
        → after ≡ blocks ++ b ∷ []
        → InOrder after

Holds-append : (xs ys : List Block) (c : Cid) → Holds xs c → Holds (xs ++ ys) c
unfolding Assoc.contains
Holds-append [] ys c h = ground arith
Holds-append (x ∷ xs) ys c h = elim (Bool-cases (x.cid == c)) [
  | inl e ↦ rw e refl
  | inr e ↦ rw e (Holds-append xs ys c (ground arith))
]

Holds-last : (xs : List Block) (b : Block) → Holds (xs ++ b ∷ []) b.cid
unfolding Assoc.contains
Holds-last [] b = ground arith
Holds-last (x ∷ xs) b = elim (Bool-cases (x.cid == b.cid)) [
  | inl e ↦ rw e refl
  | inr e ↦ rw e (Holds-last xs b)
]

child_count :
    (size n before one after : ℕ)
    → one ≡ size + before
    → after ≡ n * size + one
    → after ≡ suc n * size + before
child_count size n before one after h k = grind arith

module _ (random : ℕ → ℕ → List ℕ) (encode : Node → Option Block) (links_of : Block → List Cid)
    (encodes : (n : Node) → (b : Block) × (encode n ≡ some b) × (links_of b ≡ n.links)) where
  -- A build that adds `n` blocks to these, the last its root.
  abbrev Built : ℕ → List Block → Option (List Block × Cid) → Type 0
  Built n blocks o =
      (r : List Block × Cid) × (o ≡ some r)
      × (length r.0 ≡ n + length blocks)
      × Holds r.0 r.1
      × ((c : Cid) → Holds blocks c → Holds r.0 c)
      × InOrder links_of r.0

  -- The same for several children.
  abbrev Grown : ℕ → List Block → Option (List Block × List Cid) → Type 0
  Grown n blocks o =
      (r : List Block × List Cid) × (o ≡ some r)
      × (length r.0 ≡ n + length blocks)
      × All (Holds r.0) r.1
      × ((c : Cid) → Holds blocks c → Holds r.0 c)
      × InOrder links_of r.0

  finish-Built :
      (depth : ℕ) (links : List Cid) (blocks : List Block)
      → InOrder links_of blocks
      → All (Holds blocks) links
      → Built 1 blocks (finish random encode depth links blocks)
  unfolding create_block
  finish-Built depth links blocks ord h =
      let e = encodes (record {
        links = links;
        depth = depth;
        payload = random (length blocks) (payload_size random encode links);
      }) in
      (
        (blocks ++ e.0 ∷ [], e.0.cid),
        rw e.1 refl,
        omega (arith, length-append blocks (e.0 ∷ [])),
        Holds-last blocks e.0,
        Holds-append blocks (e.0 ∷ []),
        InOrder.next e.0 ord (rw e.2 h) refl,
      )

  children-Grown :
      (build : List Block → Option (List Block × Cid)) (size : ℕ)
      → ((blocks : List Block) → InOrder links_of blocks → Built size blocks (build blocks))
      → (n : ℕ) (blocks : List Block) → InOrder links_of blocks
      → Grown (n * size) blocks (children random encode build n blocks)
  unfolding children
  children-Grown build size h zero blocks ord = ((blocks, []), refl, omega arith, tt, λ c p. p, ord)
  children-Grown build size h (suc n) blocks ord =
      let one = h blocks ord in
      let rest = children-Grown build size h n one.0.0 one.5 in
      (
        (rest.0.0, one.0.1 ∷ rest.0.1),
        rw (one.1, rest.1) refl,
        child_count size n (length blocks) (length one.0.0) (length rest.0.0) one.2 rest.2,
        (rest.4 one.0.1 one.3, rest.3),
        λ c p. rest.4 c (one.4 c p),
        rest.5,
      )

  build_tree_0-Built :
      (width depth : ℕ) (blocks : List Block)
      → InOrder links_of blocks
      → Built (tree_size width depth) blocks (build_tree_0 random encode width depth blocks)
  unfolding build_tree_0 tree_size
  build_tree_0-Built width zero blocks ord = finish-Built zero [] blocks ord tt
  build_tree_0-Built width (suc depth) blocks ord =
      let r =
        children-Grown (build_tree_0 random encode width depth) (tree_size width depth)
          (build_tree_0-Built width depth) width blocks ord in
      let root = finish-Built (suc depth) r.0.1 r.0.0 r.5 r.3 in
      (root.0, rw r.1 root.1, omega (arith, r.2, root.2), root.3, λ c p. root.4 c (r.4 c p), root.5)

  -- Where every node can be encoded, a tree is built: of one block at depth 0, else of one more than
  -- `width` trees of the depth below. Each block links only to blocks before it, and the root is one
  -- of the blocks.
  pub build_tree_lem :
      (width depth : ℕ)
      → (root : Cid) × (blocks : List Block) × (build_tree random encode width depth
          ≡ some (root, blocks))
        × (length blocks ≡ tree_size width depth)
        × Holds blocks root
        × InOrder links_of blocks
  unfolding build_tree
  build_tree_lem width depth =
      let t = build_tree_0-Built width depth [] InOrder.start in
      (t.0.1, t.0.0, rw t.1 refl, omega (arith, t.2), t.3, t.5)
