-- ===== src/AddressBook/Pruning.antt =====
-- `AddressBook::prune_peers` of src/net/peers.rs: which peers go.
use ipfs_embed.Common.{
  ℕ, ◌-◌, ◌<◌, ◌≡◌, refl, ◌∙◌, Bool, true, not, Option, none, some, List, [], ◌∷◌, map, any, arith,
  if◌then◌else◌, nat_eq, ◌⊎◌, ◌↔◌, ◌≢◌, head?,
}
use ipfs_embed.Common.Assoc.{get, remove, get-remove, contains}
use ipfs_embed.Common.Distinct.{Distinct, keys, contains-keys-filterb}
use mathlib.Core.Bool.{false≢true}
use ipfs_embed.Multiaddr.{PeerId, Multiaddr}
use ipfs_embed.PeerInfo.{
  PeerInfo, Time, AddressSource, ConnectionFailure, is_confirmed, is_to_probe,
}
use ipfs_embed.Events.{Env, Event}
use ipfs_embed.AddressBook.{
  AddressBook, stale_peers, notify, is_kept, recently_failed, keeps_address, remove_peers,
  prune_peers,
}
use ipfs_embed.AddressBook.Notify.{notify_all}

module _ (env : Env) where
  get-remove_peers :
      (q : PeerId) (ps : List PeerId) (b : AddressBook)
      → get q (remove_peers env ps b).peers ≡ (if contains q ps then none else get q b.peers)
  unfolding remove_peers contains
  get-remove_peers q [] b = refl
  get-remove_peers q (p ∷ ps) b =
      get-remove_peers q ps (notify env (Event.new_info p) (record b { peers = remove p b.peers }))
      ∙ unfold notify in ground (arith, get-remove p q b.peers)

  sent-remove_peers :
      (ps : List PeerId) (b c : AddressBook)
      → b.sent ≡ c.sent
      → b.event_stream ≡ c.event_stream
      → ((remove_peers env ps b).sent ≡ (notify_all env (map Event.new_info ps) c).sent)
        × ((remove_peers env ps b).event_stream
            ≡ (notify_all env (map Event.new_info ps) c).event_stream)
  unfolding remove_peers notify_all notify
  sent-remove_peers [] b c h k = (h, k)
  sent-remove_peers (p ∷ ps) b c h k =
      sent-remove_peers ps (notify env (Event.new_info p) (record b { peers = remove p b.peers }))
        (notify env (Event.new_info p) c) (rw (h, k)) (rw k)

  abbrev pub kept_peer : ℕ → Option PeerInfo → Option PeerInfo
  kept_peer min_age none = none
  kept_peer min_age (some info) = if is_kept env.now min_age info then some info else none

  -- In a book with one record for each peer, pruning keeps the records of exactly the peers that
  -- `is_kept` names, changes none of those, and announces each peer that goes by one `NewInfo`.
  pub prune_peers_lem :
      (min_age : ℕ) (q : PeerId) (b : AddressBook)
      → Distinct (keys b.peers)
      → (get q (prune_peers env min_age b).peers ≡ kept_peer min_age (get q b.peers))
        × ((prune_peers env min_age b).sent
            ≡ (notify_all env (map Event.new_info (stale_peers env.now min_age b)) b).sent)
  unfolding prune_peers
  prune_peers_lem min_age q b h = (
    get-remove_peers q (stale_peers env.now min_age b) b
        ∙ rw (contains-keys-filterb (λ e. not (is_kept env.now min_age e.1)) q b.peers h)
            (ground arith),
    (sent-remove_peers (stale_peers env.now min_age b) b b refl refl).0,
  )

-- Some entry of the list satisfies `P`.
abbrev pub Some {ℓ} : {A : Type ℓ} → (A → Type 0) → List A → Type 0
Some P [] = ⊥
Some P (x ∷ xs) = P x ⊎ Some P xs

Some-iff {ℓ} :
    {A : Type ℓ} (P : A → Type 0) (p : A → Bool)
    → ((x : A) → (p x ≡ true) ↔ P x)
    → (xs : List A) → (any p xs ≡ true) ↔ Some P xs
Some-iff P p h [] = ((λ e. false≢true e), λ s. absurd s)
Some-iff P p h (x ∷ xs) = ground (arith, h x, Some-iff P p h xs)

abbrev pub AddressKeeps : Time → ℕ → Multiaddr × (AddressSource × Time) → Type 0
AddressKeeps now min_age e =
    (is_confirmed e.1.0 ≡ true)
    ⊎ (is_to_probe e.1.0 ≡ true) × ((now - e.1.1 < min_age) ⊎ (now - e.1.1 < 10_000_000_000))

abbrev pub RecentlyFailed : Time → ℕ → Option ConnectionFailure → Type 0
RecentlyFailed now min_age none = ⊥
RecentlyFailed now min_age (some f) = now - f.time < min_age

RecentlyFailed-iff :
    (now min_age : ℕ) (o : Option ConnectionFailure)
    → (recently_failed now min_age o ≡ true) ↔ RecentlyFailed now min_age o
RecentlyFailed-iff now min_age none = (λ e. false≢true e, λ s. absurd s)
RecentlyFailed-iff now min_age (some f) = ground arith

AddressKeeps-iff :
    (now min_age : ℕ) (e : Multiaddr × (AddressSource × Time))
    → (keeps_address now min_age e.1.0 e.1.1 ≡ true) ↔ AddressKeeps now min_age e
AddressKeeps-iff now min_age e = ground arith

is_kept_iff :
    (now min_age : ℕ) (info : PeerInfo)
    → (is_kept now min_age info ≡ true) ↔ (
        (info.connections ≢ [])
        ⊎ (RecentlyFailed now min_age (head? info.failures)
            ⊎ Some (AddressKeeps now min_age) info.addresses))
unfolding is_kept
is_kept_iff now min_age info =
    let failed = RecentlyFailed-iff now min_age (head? info.failures) in
    let addressed = Some-iff _ _ (AddressKeeps-iff now min_age) info.addresses in
    ground (arith, failed, addressed)

-- A connection, a most recent failure younger than `min_age`, or an address that keeps the peer.
abbrev pub Stays : Env → ℕ → PeerInfo → Type 0
Stays env min_age info =
    (info.connections ≢ [])
    ⊎ (RecentlyFailed env.now min_age (head? info.failures)
        ⊎ Some (AddressKeeps env.now min_age) info.addresses)

-- In a book with one record for each peer, a known peer is still there after pruning, with its record
-- as it was, exactly if there is a connection to it, or its most recent failure is younger than
-- `min_age`, or some address of it is confirmed, or is one to probe that was last seen less than
-- `min_age` or less than ten seconds ago. Otherwise the book
-- has no record of it any more.
pub prune_peers-Stays :
    (env : Env) (min_age : ℕ) (q : PeerId) (b : AddressBook) (info : PeerInfo)
    → Distinct (keys b.peers)
    → get q b.peers ≡ some info
    → ((get q (prune_peers env min_age b).peers ≡ some info) ↔ Stays env min_age info)
      × ((get q (prune_peers env min_age b).peers ≡ none) ↔ ¬ (Stays env min_age info))
prune_peers-Stays env min_age q b info h k =
    ground (arith, (prune_peers_lem env min_age q b h).0, is_kept_iff env.now min_age info)
