-- ===== src/Service/Matched.antt =====
-- How an event on a topic changes the topics of src/net/behaviour.rs, and what gossipsub and
-- broadcast are subscribed to.
use ipfs_embed.Common.{
  ◌≡◌, ◌∙◌, refl, sym, String, string_eq, ◌==◌, Bool, true, false, Option, none, some, List, ◌++◌,
  map, ap, arith, if◌then◌else◌, is_empty, All, filterb, Bool-cases, Option-cases, inl, inr,
  is_some,
}
use ipfs_embed.Common.Assoc.{get, contains_key, get-insert, get-remove, All-insert, All-remove}
use ipfs_embed.Events.{Env}
use ipfs_embed.Behaviour.{Channel, GossipEvent, NetworkBackend, Request}
use ipfs_embed.Behaviour.Topics.{unsubscribe, send_topic, notify_subscribers, ask_if}
use ipfs_embed.Service.Untouched.{Wire, is_on, update, active-append, listens}

-- A protocol that is on is subscribed to the topic exactly when someone listens to it.
abbrev pub IsMatched : Wire → String → NetworkBackend → Type 0
IsMatched w topic s =
    is_on w s.protocols ≡ true → listens w topic s ≡ contains_key topic s.subscriptions

abbrev pub Heard : String × List Channel → Type 0
Heard e = is_empty e.1 ≡ false

-- Every topic in the table has a subscriber.
abbrev pub AllHeard : NetworkBackend → Type 0
AllHeard s = All Heard s.subscriptions

pub listens-ask_if :
    (w : Wire) (topic : String) (on : Bool) (r : Request) (s : NetworkBackend)
    → listens w topic (ask_if on r s)
      ≡ (if on then update w topic (listens w topic s) r else listens w topic s)
listens-ask_if w topic true r s = active-append w topic false s.requests r
listens-ask_if w topic false r s = refl

pub unsubscribe-listens :
    (w : Wire) (topic t : String) (s : NetworkBackend)
    → is_on w s.protocols ≡ true
    → listens w topic (unsubscribe t s) ≡ (if t == topic then false else listens w topic s)
unfolding unsubscribe
unsubscribe-listens Wire.gossipsub topic t s on =
    let first =
      listens-ask_if Wire.gossipsub topic s.protocols.gossipsub (Request.gossipsub_unsubscribe t)
        s in
    let asked = ask_if s.protocols.gossipsub (Request.gossipsub_unsubscribe t) s in
    let second =
      listens-ask_if Wire.gossipsub topic s.protocols.broadcast (Request.broadcast_unsubscribe t)
        asked in
    ground (arith, first, second)
unsubscribe-listens Wire.broadcast topic t s on =
    let first =
      listens-ask_if Wire.broadcast topic s.protocols.gossipsub (Request.gossipsub_unsubscribe t)
        s in
    let asked = ask_if s.protocols.gossipsub (Request.gossipsub_unsubscribe t) s in
    let second =
      listens-ask_if Wire.broadcast topic s.protocols.broadcast (Request.broadcast_unsubscribe t)
        asked in
    ground (arith, first, second)

pub protocols-ask_if :
    (on : Bool) (r : Request) (s : NetworkBackend) → (ask_if on r s).protocols ≡ s.protocols
protocols-ask_if true r s = refl
protocols-ask_if false r s = refl

pub subscriptions-ask_if :
    (on : Bool) (r : Request) (s : NetworkBackend) → (ask_if on r s).subscriptions ≡ s.subscriptions
subscriptions-ask_if true r s = refl
subscriptions-ask_if false r s = refl

pub protocols-unsubscribe :
    (t : String) (s : NetworkBackend) → (unsubscribe t s).protocols ≡ s.protocols
unfolding unsubscribe
protocols-unsubscribe t s =
    protocols-ask_if s.protocols.broadcast _ _ ∙ protocols-ask_if s.protocols.gossipsub _ s

pub subscriptions-unsubscribe :
    (t : String) (s : NetworkBackend) → (unsubscribe t s).subscriptions ≡ s.subscriptions
unfolding unsubscribe
subscriptions-unsubscribe t s =
    subscriptions-ask_if s.protocols.broadcast _ _ ∙ subscriptions-ask_if s.protocols.gossipsub _ s

pub gone :
    (b : Bool) (o : Option (List Channel)) (q : Bool)
    → b ≡ is_some o
    → (if q then false else b) ≡ is_some (if q then none else o)
gone b o true e = refl
gone b o false e = e

module _ (w : Wire) (topic : String) (env : Env) (t : String) (e : GossipEvent) where
  pub send-IsMatched :
      (txs : List Channel) (s : NetworkBackend)
      → get t s.subscriptions ≡ some txs
      → IsMatched w topic s
      → IsMatched w topic (send_topic env t e txs s)
  unfolding send_topic
  send-IsMatched txs s g m =
      let live = filterb env.alive txs in
      let told = record s { gossip = s.gossip ++ map (λ tx. (tx, e)) live } in
      let known = string_eq.beq_iff t topic in
      elim (Bool-cases (is_empty live)) [
        | inl k ↦ rw k (λ on.
            let on' = rw (protocols-unsubscribe t told) at on in
            rw (subscriptions-unsubscribe t told) (
              unsubscribe-listens w topic t told on'
              ∙ gone (listens w topic s) (get topic s.subscriptions) (t == topic) (m on')
              ∙ ap is_some (sym (get-remove t topic s.subscriptions))))
        | inr k ↦ rw k (λ on. ground (arith, m on, get-insert t topic live s.subscriptions, known))
      ]

  pub notify-IsMatched :
      (s : NetworkBackend) → IsMatched w topic s → IsMatched w topic (notify_subscribers env t e s)
  unfolding notify_subscribers
  notify-IsMatched s m = elim (Option-cases (get t s.subscriptions)) [
    | inl g ↦ rw (g, notify_subscribers) m
    | inr (txs, g) ↦ rw (g, notify_subscribers) (send-IsMatched txs s g m)
  ]

module _ (env : Env) (t : String) (e : GossipEvent) where
  pub send-AllHeard :
      (txs : List Channel) (s : NetworkBackend) → AllHeard s → AllHeard (send_topic env t e txs s)
  unfolding send_topic unsubscribe
  send-AllHeard txs s h =
      let live = filterb env.alive txs in
      let gone = All-remove Heard t s.subscriptions h in
      elim (Bool-cases (is_empty live)) [
        | inl k ↦ rw k (
            rw
              (subscriptions-unsubscribe t
                (record s { gossip = s.gossip ++ map (λ tx. (tx, e)) live }))
              gone)
        | inr k ↦ rw k (All-insert Heard t live s.subscriptions h k)
      ]

  pub notify-AllHeard : (s : NetworkBackend) → AllHeard s → AllHeard (notify_subscribers env t e s)
  unfolding notify_subscribers
  notify-AllHeard s h = elim (Option-cases (get t s.subscriptions)) [
    | inl g ↦ rw (g, notify_subscribers) h
    | inr (txs, g) ↦ rw (g, notify_subscribers) (send-AllHeard txs s h)
  ]
