-- ===== src/Service/Untouched.antt =====
-- The flag of the bootstrap and the topics, in the inputs of `poll_swarm` of src/net/mod.rs that do
-- not concern them.
use ipfs_embed.Common.{
  ℕ, ◌≡◌, ◌∙◌, refl, String, string_eq, ◌==◌, Bool, true, false, not, ◌&&◌, Option, none, some,
  List, [], ◌∷◌, ◌++◌, if◌then◌else◌,
}
use ipfs_embed.Multiaddr.{PeerId, Multiaddr}
use ipfs_embed.PeerInfo.{AddressSource}
use ipfs_embed.Events.{Env}
use ipfs_embed.AddressBook
use ipfs_embed.Behaviour
use ipfs_embed.Behaviour.{
  QueryId, QueryChannel, Channel, Reply, Result, Protocols, NetworkBackend, NetworkError, dial,
  add_address, add_discovered, ask, Request, inject_mdns_event, inject_ping_event, inject_id_event,
  MdnsEvent, PingResult, IdentifyEvent, with_peers,
}
use ipfs_embed.Behaviour.Queries.{
  Outcome, done, failed, BitswapEvent, inject_bitswap_event, completed, send_to, progress, complete,
}
use ipfs_embed.Behaviour.Starting.{start_or}
use ipfs_embed.Service.{add_initial}

-- The two protocols that carry topics.
pub data Wire : Type 0 where
  gossipsub broadcast : Wire

abbrev pub is_on : Wire → Protocols → Bool
is_on gossipsub p = p.gossipsub
is_on broadcast p = p.broadcast

abbrev is_gossipsub : Wire → Bool
is_gossipsub gossipsub = true
is_gossipsub broadcast = false

-- Whether the protocol is subscribed to the topic after a request, and after all of them.
abbrev pub update : Wire → String → Bool → Request → Bool
update w topic b (Request.gossipsub_subscribe t) = if is_gossipsub w && t == topic then true else b
update w topic b (Request.gossipsub_unsubscribe t) =
    if is_gossipsub w && t == topic then false else b
update w topic b (Request.broadcast_subscribe t) =
    if not (is_gossipsub w) && t == topic then true else b
update w topic b (Request.broadcast_unsubscribe t) =
    if not (is_gossipsub w) && t == topic then false else b
update w topic b _ = b

abbrev pub active : Wire → String → Bool → List Request → Bool
active w topic b [] = b
active w topic b (r ∷ rs) = active w topic (update w topic b r) rs

pub active-append :
    (w : Wire) (topic : String) (b : Bool) (rs : List Request) (r : Request)
    → active w topic b (rs ++ r ∷ []) ≡ update w topic (active w topic b rs) r
active-append w topic b [] r = refl
active-append w topic b (x ∷ rs) r = active-append w topic (update w topic b x) rs r

abbrev pub Holds : (NetworkBackend → Type 0) → Option NetworkBackend → Type 0
Holds P none = Unit
Holds P (some t) = P t

module _ (w : Wire) (topic : String) where
  abbrev pub listens : NetworkBackend → Bool
  listens s = active w topic false s.requests

  abbrev pub Same : NetworkBackend → NetworkBackend → Type 0
  Same s t =
      (t.bootstrap_complete ≡ s.bootstrap_complete)
      × ((t.subscriptions ≡ s.subscriptions)
          × ((t.protocols ≡ s.protocols) × (listens t ≡ listens s)))

  pub Same-refl : (s : NetworkBackend) → Same s s
  Same-refl s = (refl, (refl, (refl, refl)))

  pub Same-trans : (s t u : NetworkBackend) → Same s t → Same t u → Same s u
  Same-trans s t u p q = (q.0 ∙ p.0, (q.1.0 ∙ p.1.0, (q.1.1.0 ∙ p.1.1.0, q.1.1.1 ∙ p.1.1.1)))

  pub ask-Same :
      (r : Request) (s : NetworkBackend)
      → update w topic (listens s) r ≡ listens s
      → Same s (ask r s)
  ask-Same r s e = (refl, (refl, (refl, active-append w topic false s.requests r ∙ e)))

  -- A request that is no subscription.
  abbrev pub IsQuiet : Request → Type 0
  IsQuiet r = (b : Bool) → update w topic b r ≡ b

  pub if_ask-Same :
      (on : Bool) (r : Request) (s : NetworkBackend)
      → IsQuiet r
      → Same s (if on then ask r s else s)
  if_ask-Same true r s q = ask-Same r s (q (listens s))
  if_ask-Same false r s q = Same-refl s

  pub start_or-Same :
      (q : QueryChannel) (tx : Channel) (error : String → NetworkError) (o : Outcome ℕ)
      (s : NetworkBackend)
      → Same s (start_or q tx error o s)
  start_or-Same q tx error (done id) s = Same-refl s
  start_or-Same q tx error (failed m) s = Same-refl s

  pub completed-Same :
      (o : Option QueryChannel) (r : Result Behaviour.Done) (s : NetworkBackend)
      → Same s (completed o r s)
  completed-Same none r s = Same-refl s
  completed-Same (some (QueryChannel.get ch)) r s = Same-refl s
  completed-Same (some (QueryChannel.sync ch)) r s = Same-refl s
  completed-Same (some (QueryChannel.bootstrap ch)) r s = Same-refl s
  completed-Same (some (QueryChannel.get_closest_peers ch)) r s = Same-refl s
  completed-Same (some (QueryChannel.get_providers ch)) r s = Same-refl s
  completed-Same (some (QueryChannel.start_providing ch)) r s = Same-refl s
  completed-Same (some (QueryChannel.get_record ch)) r s = Same-refl s
  completed-Same (some (QueryChannel.put_record ch)) r s = Same-refl s

  pub send_to-Same : (o : Option Channel) (r : Reply) (s : NetworkBackend) → Same s (send_to o r s)
  send_to-Same none r s = Same-refl s
  send_to-Same (some tx) r s = Same-refl s

  pub bitswap-Same : (e : BitswapEvent) (s : NetworkBackend) → Same s (inject_bitswap_event e s)
  unfolding inject_bitswap_event
  bitswap-Same (progress id missing) s = send_to-Same _ _ s
  bitswap-Same (complete id r) s = completed-Same _ _ _

  pub with_peers-Same :
      (o : Option AddressBook.AddressBook) (s : NetworkBackend) → Holds (Same s) (with_peers o s)
  with_peers-Same none s = tt
  with_peers-Same (some b) s = Same-refl s

  module _ (env : Env) where
    pub add_address-Same :
        (peer : PeerId) (addr : Multiaddr) (source : AddressSource) (s : NetworkBackend)
        → Same s (add_address env peer addr source s)
    unfolding add_address
    add_address-Same peer addr source s =
        if_ask-Same s.protocols.kad (Request.kad_add_address peer addr) s (λ b. refl)

    pub discovered-Same :
        (l : List (PeerId × Multiaddr)) (s : NetworkBackend) → Same s (add_discovered env l s)
    unfolding add_discovered
    discovered-Same [] s = Same-refl s
    discovered-Same ((peer, addr) ∷ l) s =
        let t = add_address env peer addr AddressSource.mdns s in
        Same-trans s t (add_discovered env l t) (add_address-Same peer addr AddressSource.mdns s)
          (discovered-Same l t)

    pub initial-Same :
        (l : List (PeerId × Multiaddr)) (s : NetworkBackend) → Same s (add_initial env l s)
    unfolding add_initial dial
    initial-Same [] s = Same-refl s
    initial-Same ((peer, addr) ∷ l) s =
        let t = dial peer (add_address env peer addr AddressSource.user s) in
        Same-trans s t (add_initial env l t) (add_address-Same peer addr AddressSource.user s)
          (initial-Same l t)
