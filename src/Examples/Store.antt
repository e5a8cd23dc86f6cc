-- ===== src/Examples/Store.antt =====
-- A block store in memory, whose collector drops as many blocks in a round as it must.
use ipfs_embed.Common.{
  ℕ, zero, suc, ◌+◌, ◌≤◌, ◌≡◌, refl, ltb, drop, Bool, true, false, none, List, [], ◌∷◌, arith,
  length, nat_eq, if◌then◌else◌,
}
use ipfs_embed.Common.Assoc.{Assoc, get, insert, contains_key, get-insert}
use ipfs_embed.Common.Distinct.{keys}
use ipfs_embed.Behaviour.{Cid}
use ipfs_embed.Behaviour.{NetworkError, bitswap_failed}
use ipfs_embed.Storage.{Storage, Block}
use ipfs_embed.Ipfs.{Ipfs}
use ipfs_embed.Storage.{BlockStore, Answer, ok}
use ipfs_embed.Storage.Contents.{IsBlockStore}

abbrev pub Blocks : Type 0
Blocks = Assoc Cid (List ℕ)

-- A round collects `n` blocks and stops, or all if there are no more than that.
abbrev pub collect : ℕ → Blocks → Blocks × Answer Bool
collect n bs = if ltb n (length bs) then (drop n bs, ok false) else ([], ok true)

abbrev pub memory_store : BlockStore
memory_store = record {
  State = Blocks;
  Transaction = Blocks;
  TempPin = List Cid;
  transaction = λ s. s;
  commit = λ s txn. (txn, ok tt);
  rollback = λ s txn. s;
  temp_pin = λ txn. (txn, []);
  extend_temp_pin = λ c p. ((p.0, c ∷ p.1), ok tt);
  get_block_cids = λ txn. (txn, ok (keys txn));
  has_block = λ c txn. (txn, ok (contains_key c txn));
  get_block = λ c txn. (txn, ok (get c txn));
  put_block = λ b txn. (insert b.cid b.bytes txn, ok tt);
  resolve = λ name txn. (txn, ok none);
  alias = λ name c txn. (txn, ok tt);
  aliases = λ txn. (txn, ok []);
  reverse_alias = λ c txn. (txn, ok none);
  get_missing_blocks = λ c txn. (txn, ok (if contains_key c txn then [] else c ∷ []));
  incremental_gc = λ n d s. collect n s;
  flush = λ s. (s, ok tt);
}

pub answer_inj {ℓ} : {A : Type ℓ} (a b : A) → ok a ≡ ok b → b ≡ a
answer_inj a b h = cc

abbrev pub memory_store-IsBlockStore : IsBlockStore memory_store
memory_store-IsBlockStore = record {
  view = λ s k. get k s;
  held = λ txn k. get k txn;
  held-transaction = λ s k. refl;
  view-commit = λ s txn k h. refl;
  get_block_lem = λ c txn r h. answer_inj (get c txn) r h;
  put_block_lem = λ b txn k h. get-insert b.cid k b.bytes txn;
}

length-drop : (n : ℕ) (bs : Blocks) → n ≤ length bs → length (drop n bs) + n ≡ length bs
length-drop zero bs h = omega arith
length-drop (suc n) [] h = absurd (omega arith)
length-drop (suc n) (b ∷ bs) h = omega (arith, length-drop n bs (omega arith))

abbrev pub left : memory_store.State → ℕ
left s = length s

pub progress :
    (n d : ℕ) (s t : memory_store.State)
    → memory_store.incremental_gc n d s ≡ (t, ok false)
    → left t + n ≤ left s
progress n d s t h = ground (arith, length-drop n s)

abbrev pub storage : Storage memory_store
storage = record {
  store = (5, 5 ∷ []) ∷ (6, 6 ∷ []) ∷ [];
  gc_min_blocks = 1;
  gc_target_duration = 10;
  queries = [];
}

-- Its `Cid` is the sum of its bytes.
abbrev pub block : Block
block = record { cid = 7; bytes = 3 ∷ 4 ∷ [] }

abbrev pub node : Ipfs memory_store
node = record {
  storage = storage;
  network = record { peer_id = 1; node_name = "node"; commands = []; events = [] };
}

abbrev pub not_found : Cid → NetworkError
not_found cid = bitswap_failed "not found"
