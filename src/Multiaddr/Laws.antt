-- ===== src/Multiaddr/Laws.antt =====
-- What the address helpers of src/net/peers.rs guarantee.
use ipfs_embed.Common.{
  ℕ, ◌≡◌, refl, ◌≢◌, inl, inr, true, false, some, ◌∷◌, Bool-cases, last?-append, drop_last-append,
}
use ipfs_embed.Multiaddr.{
  PeerId, PeerCodec, Protocol, ip4, p2p, Multiaddr, ends_with_peer, normalize_addr, without_peer_id,
  is_loopback, peer_id, ConnectedPoint, dialer, listener, normalize_connected_point,
  get_remote_address,
}

module _ (c : PeerCodec) where
  pub normalize-ends_with_peer :
      (a : Multiaddr) (p : PeerId) → ends_with_peer (normalize_addr c a p) ≡ true
  unfolding normalize_addr
  normalize-ends_with_peer a p = elim (Bool-cases (ends_with_peer a)) [
    | inl t ↦ rw t t
    | inr f ↦ rw f (rw (last?-append a (p2p (c.hash_of p))))
  ]

  pub normalize-normalized :
      (a : Multiaddr) (p : PeerId) → ends_with_peer a ≡ true → normalize_addr c a p ≡ a
  unfolding normalize_addr
  normalize-normalized a p h = rw h

  -- Only the first normalization decides the peer: a second one, for any peer, changes nothing.
  pub normalize_idem :
      (a : Multiaddr) (p q : PeerId)
      → normalize_addr c (normalize_addr c a p) q ≡ normalize_addr c a p
  normalize_idem a p q = normalize-normalized _ q (normalize-ends_with_peer a p)

  -- Taking the peer id off undoes normalization, and an address that named no peer names it after.
  pub normalize_roundtrip :
      (a : Multiaddr) (p : PeerId)
      → (without_peer_id (normalize_addr c a p) ≡ without_peer_id a)
        × (ends_with_peer a ≡ false → peer_id c (normalize_addr c a p) ≡ some p)
  unfolding normalize_addr without_peer_id peer_id
  normalize_roundtrip a p = elim (Bool-cases (ends_with_peer a)) [
    | inl t ↦ (rw (t, t), λ f. absurd (both t f))
    | inr f ↦ rw f (
        rw (last?-append a (p2p (c.hash_of p)), drop_last-append a (p2p (c.hash_of p)))
          (refl, λ _. c.peer_of-hash_of p))
  ]
    where
      both : ends_with_peer a ≡ true → ends_with_peer a ≡ false → ⊥
      both t f = cc

  pub remote-normalize_connected_point :
      (cp : ConnectedPoint) (local remote : PeerId)
      → get_remote_address (normalize_connected_point c cp local remote)
        ≡ normalize_addr c (get_remote_address cp) remote
  unfolding normalize_connected_point
  remote-normalize_connected_point (dialer a) local remote = refl
  remote-normalize_connected_point (listener l s) local remote = refl

-- Whatever does not begin with an IPv4 component counts as loopback.
pub is_loopback-not_ip4 :
    (p : Protocol) (rest : Multiaddr) → ((ip : ℕ) → p ≢ ip4 ip) → is_loopback (p ∷ rest) ≡ true
unfolding is_loopback
is_loopback-not_ip4 (ip4 ip) rest h = absurd (h ip refl)
is_loopback-not_ip4 _ rest h = refl
