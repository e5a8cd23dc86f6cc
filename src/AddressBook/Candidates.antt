-- ===== src/AddressBook/Candidates.antt =====
-- The addresses that `set_info` of src/net/peers.rs derives and validates.
use ipfs_embed.Common.{
  ℕ, ◌≡◌, Bool, true, not, ◌||◌, List, [], ◌∷◌, map, All, nat_eq, Option-cases, inl, inr, filterb,
  is_some,
}
use ipfs_embed.Common.Assoc.{insert_key, All-insert_key, All-filterb, All-map}
use ipfs_embed.Multiaddr.{
  PeerId, PeerCodec, Multiaddr, multiaddr_eq, ip4, ip6, tcp, ends_with_peer, normalize_addr, IpAddr,
  ip_port, replace_port, is_loopback,
}
use ipfs_embed.Multiaddr.Laws.{normalize-ends_with_peer}
use ipfs_embed.PeerInfo.{PeerInfo, is_to_translate, addresses_to_translate}
use ipfs_embed.AddressBook.Identify.{
  with_port, extend_set, same_ip, translations_from, translations_at, translations, translate_all,
  candidates,
}
use ipfs_embed.AddressBook.Keys.{Named, InfoIsValid}

abbrev pub HasPeer : Multiaddr → Type 0
HasPeer a = ends_with_peer a ≡ true

-- A new port keeps the peer id: `unwrap` finds a port where `ip_port` reads one.
with_port-HasPeer :
    (a : Multiaddr) (port : ℕ) → HasPeer a → is_some (ip_port a) ≡ true → HasPeer (with_port a port)
unfolding ip_port replace_port
with_port-HasPeer [] port h s = h
with_port-HasPeer (x ∷ []) port h s = h
with_port-HasPeer (x ∷ y ∷ z ∷ r) port h s = h
with_port-HasPeer (ip4 i ∷ tcp t ∷ []) port h s = cc
with_port-HasPeer (ip6 i ∷ tcp t ∷ []) port h s = cc
with_port-HasPeer (x ∷ y ∷ []) port h s = cc

extend_set-HasPeer :
    (set l : List Multiaddr) → All HasPeer set → All HasPeer l → All HasPeer (extend_set set l)
extend_set-HasPeer set [] h k = h
extend_set-HasPeer set (a ∷ l) h k =
    extend_set-HasPeer (insert_key a set) l (All-insert_key HasPeer a set k.0 h) k.1

ported-HasPeer :
    (a : Multiaddr) (ports : List ℕ)
    → HasPeer a
    → is_some (ip_port a) ≡ true
    → All HasPeer (map (with_port a) ports)
ported-HasPeer a [] h s = tt
ported-HasPeer a (p ∷ ps) h s = (with_port-HasPeer a p h s, ported-HasPeer a ps h s)

translations_from-HasPeer :
    (a : Multiaddr) (ports common : List ℕ)
    → HasPeer a
    → is_some (ip_port a) ≡ true
    → All HasPeer (translations_from a ports common)
translations_from-HasPeer a [] [] h s = (h, tt)
translations_from-HasPeer a [] (p ∷ common) h s = ported-HasPeer a (p ∷ common) h s
translations_from-HasPeer a (p ∷ ports) common h s = ported-HasPeer a (p ∷ ports) h s

translations-HasPeer :
    (ports : List (IpAddr × ℕ)) (common : List ℕ) (a : Multiaddr)
    → HasPeer a
    → All HasPeer (translations ports common a)
unfolding translations
translations-HasPeer ports common a h = elim (Option-cases (ip_port a)) [
  | inl e ↦ rw (e, translations_at) tt
  | inr ((ip, p), e) ↦
      rw (e, translations_at) (translations_from-HasPeer a (same_ip ip ports) common h (rw e))
]

translate_all-HasPeer :
    (ports : List (IpAddr × ℕ)) (common : List ℕ) (set l : List Multiaddr)
    → All HasPeer set
    → All HasPeer l
    → All HasPeer (translate_all ports common set l)
translate_all-HasPeer ports common set [] h k = h
translate_all-HasPeer ports common set (a ∷ l) h k =
    translate_all-HasPeer ports common (extend_set set (translations ports common a)) l
      (extend_set-HasPeer set (translations ports common a) h
        (translations-HasPeer ports common a k.0))
      k.1

to_translate-HasPeer :
    (info : PeerInfo) → InfoIsValid info → All HasPeer (addresses_to_translate info)
unfolding addresses_to_translate
to_translate-HasPeer info v =
    All-map Named HasPeer (λ e. e.0) (λ e h. h) _
      (All-filterb Named (λ e. is_to_translate e.1.0) info.addresses v.addresses_named)

normalized-HasPeer :
    (c : PeerCodec) (peer : PeerId) (l : List Multiaddr)
    → All HasPeer (map (λ a. normalize_addr c a peer) l)
normalized-HasPeer c peer [] = tt
normalized-HasPeer c peer (a ∷ l) = (normalize-ends_with_peer c a peer, normalized-HasPeer c peer l)

-- From a valid record, every address that `set_info` derives ends with a peer id.
pub candidates-HasPeer :
    (c : PeerCodec) (peer : PeerId) (loopback : Bool) (info : PeerInfo)
    → InfoIsValid info
    → All HasPeer (candidates c peer loopback info)
unfolding candidates
candidates-HasPeer c peer loopback info v =
    extend_set-HasPeer _ _
      (translate_all-HasPeer _ _ [] (addresses_to_translate info) tt (to_translate-HasPeer info v))
      (normalized-HasPeer c peer (filterb (λ a. loopback || not (is_loopback a)) info.listeners))
