-- ===== src/Examples/Formats.antt =====
-- A printing of peer ids, addresses and `Cid`s: numbers in strokes, an address as a letter and
-- strokes for each protocol. A block fits the sum of its bytes.
use ipfs_embed.Common.{
  ℕ, zero, suc, ◌+◌, ◌≡◌, refl, true, Option, none, some, List, [], ◌∷◌, ◌++◌, length, eqb,
  if◌then◌else◌, ap, ◌==◌,
}
use ipfs_embed.Multiaddr.{Protocol, ip4, ip6, tcp, p2p, other, Multiaddr}
use ipfs_embed.Cli.Words.{Text, codes, IsWord, no_space, is_whitespace, text_eq}
use ipfs_embed.Cli.{Formats, IsFormats, PeerInfoIo}

abbrev pub strokes : ℕ → Text
strokes zero = []
strokes (suc n) = b'1' ∷ strokes n

abbrev pub show_number : ℕ → Text
show_number n = b'1' ∷ strokes n

abbrev pub read_number : Text → Option ℕ
read_number [] = none
read_number (c ∷ s) = some (length s)

abbrev pub show_protocols : Multiaddr → Text
show_protocols [] = []
show_protocols (ip4 n ∷ rest) = b'A' ∷ (strokes n ++ show_protocols rest)
show_protocols (ip6 n ∷ rest) = b'B' ∷ (strokes n ++ show_protocols rest)
show_protocols (tcp n ∷ rest) = b'C' ∷ (strokes n ++ show_protocols rest)
show_protocols (p2p n ∷ rest) = b'D' ∷ (strokes n ++ show_protocols rest)
show_protocols (other n ∷ rest) = b'E' ∷ (strokes n ++ show_protocols rest)

abbrev pub protocol_of : ℕ → ℕ → Protocol
protocol_of c n =
    if eqb c b'A'
    then ip4 n
    else if eqb c b'B'
    then ip6 n
    else if eqb c b'C'
    then tcp n
    else if eqb c b'D'
    then p2p n
    else other n

-- The strokes that stand first, and the protocols after them.
abbrev pub read_step : ℕ → ℕ × Multiaddr → ℕ × Multiaddr
read_step c (n, addr) = if eqb c b'1' then (suc n, addr) else (0, protocol_of c n ∷ addr)

abbrev pub read_protocols : Text → ℕ × Multiaddr
read_protocols [] = (0, [])
read_protocols (c ∷ s) = read_step c (read_protocols s)

abbrev pub sum : List ℕ → ℕ
sum [] = 0
sum (b ∷ bs) = b + sum bs

abbrev pub no_info : PeerInfoIo
no_info = record {
  protocol_version = none;
  agent_version = none;
  protocols = [];
  listeners = [];
  addresses = [];
  connections = [];
  failures = [];
}

abbrev pub formats : Formats
formats = record {
  show_peer = show_number;
  read_peer = read_number;
  show_addr = show_protocols;
  read_addr = λ s. some (read_protocols s).1;
  show_cid = show_number;
  read_cid = read_number;
  show_info = λ i. codes "{}";
  read_info = λ s. if s == codes "{}" then some no_info else none;
  new_block =
      λ c bytes. if eqb c (sum bytes) then some (record { cid = c; bytes = bytes }) else none;
}

length-strokes : (n : ℕ) → length (strokes n) ≡ n
length-strokes zero = refl
length-strokes (suc n) = ap suc (length-strokes n)

no_space-number : (n : ℕ) → no_space (strokes n) ≡ true
unfolding is_whitespace
no_space-number zero = refl
no_space-number (suc n) = no_space-number n

show_number-IsWord : (n : ℕ) → IsWord (show_number n)
unfolding is_whitespace
show_number-IsWord n = (refl, no_space-number n)

pub formats-IsFormats : IsFormats formats
unfolding is_whitespace
formats-IsFormats = record {
  peer_back = λ p. ap some (length-strokes p);
  peer_word = show_number-IsWord;
  cid_back = λ p. ap some (length-strokes p);
  cid_word = show_number-IsWord;
}
