-- ===== src/Service/Joined.antt =====
-- How a subscription changes the topics of src/net/behaviour.rs, and what gossipsub and broadcast
-- are subscribed to.
use mathlib.Core.Path.{subst}
use ipfs_embed.Common.{
  ◌&&◌, ◌≡◌, ◌∙◌, refl, sym, String, string_eq, ◌==◌, Bool, true, false, not, Option, none, some,
  List, [], ◌∷◌, ◌++◌, ap, arith, if◌then◌else◌, is_empty, Bool-cases, Option-cases, inl, inr,
  is_some,
}
use ipfs_embed.Common.Assoc.{get, insert, get-insert, All-insert}
use ipfs_embed.Behaviour.{Channel, NetworkBackend, Request}
use ipfs_embed.Behaviour.Topics.{subscribe, subscribe_first, ask_if, set_topic}
use ipfs_embed.Service.Untouched.{Wire, is_on, listens}
use ipfs_embed.Service.Matched.{
  IsMatched, Heard, AllHeard, listens-ask_if, protocols-ask_if, subscriptions-ask_if,
}

set_topic-IsMatched :
    (w : Wire) (topic t : String) (txs new : List Channel) (s : NetworkBackend)
    → get t s.subscriptions ≡ some txs
    → IsMatched w topic s
    → IsMatched w topic (set_topic t new s)
set_topic-IsMatched w topic t txs new s g m on =
    ground (arith, m on, g, get-insert t topic new s.subscriptions, string_eq.beq_iff t topic)

abbrev pub wired : String → NetworkBackend → NetworkBackend
wired t s =
    ask_if s.protocols.broadcast (Request.broadcast_subscribe t)
      (ask_if s.protocols.gossipsub (Request.gossipsub_subscribe t) s)

pub subscribe_first_lem :
    (t : String) (tx : Channel) (s : NetworkBackend)
    → (subscribe_first t none tx s).0 ≡ wired t (set_topic t (tx ∷ []) s)
unfolding subscribe_first
subscribe_first_lem t tx s = elim (Bool-cases s.protocols.gossipsub) [
  | inl k ↦ rw (k, if◌then◌else◌) refl
  | inr k ↦ rw (k, if◌then◌else◌) refl
]

pub protocols-wired : (t : String) (s : NetworkBackend) → (wired t s).protocols ≡ s.protocols
protocols-wired t s =
    protocols-ask_if s.protocols.broadcast _ _ ∙ protocols-ask_if s.protocols.gossipsub _ s

subscriptions-wired :
    (t : String) (s : NetworkBackend) → (wired t s).subscriptions ≡ s.subscriptions
subscriptions-wired t s =
    subscriptions-ask_if s.protocols.broadcast _ _ ∙ subscriptions-ask_if s.protocols.gossipsub _ s

listens-wired :
    (w : Wire) (topic t : String) (s : NetworkBackend)
    → is_on w s.protocols ≡ true
    → listens w topic (wired t s) ≡ (if t == topic then true else listens w topic s)
listens-wired Wire.gossipsub topic t s on =
    let asked = ask_if s.protocols.gossipsub (Request.gossipsub_subscribe t) s in
    let first =
      listens-ask_if Wire.gossipsub topic s.protocols.gossipsub (Request.gossipsub_subscribe t) s in
    let second =
      listens-ask_if Wire.gossipsub topic s.protocols.broadcast (Request.broadcast_subscribe t)
        asked in
    ground (arith, first, second)
listens-wired Wire.broadcast topic t s on =
    let asked = ask_if s.protocols.gossipsub (Request.gossipsub_subscribe t) s in
    let first =
      listens-ask_if Wire.broadcast topic s.protocols.gossipsub (Request.gossipsub_subscribe t) s in
    let second =
      listens-ask_if Wire.broadcast topic s.protocols.broadcast (Request.broadcast_subscribe t)
        asked in
    ground (arith, first, second)

found :
    (b : Bool) (o : Option (List Channel)) (q : Bool) (txs : List Channel)
    → b ≡ is_some o
    → (if q then true else b) ≡ is_some (if q then some txs else o)
found b o true txs e = refl
found b o false txs e = e

wired-IsMatched :
    (w : Wire) (topic t : String) (txs : List Channel) (s : NetworkBackend)
    → IsMatched w topic s
    → IsMatched w topic (wired t (set_topic t txs s))
wired-IsMatched w topic t txs s m on =
    let known = set_topic t txs s in
    let on' = rw (protocols-wired t known) at on in
    rw (subscriptions-wired t known) (
      listens-wired w topic t known on'
      ∙ found (listens w topic s) (get topic s.subscriptions) (t == topic) txs (m on')
      ∙ ap is_some (sym (get-insert t topic txs s.subscriptions)))

pub subscribe-IsMatched :
    (w : Wire) (topic t : String) (tx : Channel) (s : NetworkBackend)
    → IsMatched w topic s
    → IsMatched w topic (subscribe t none tx s).0
unfolding subscribe
subscribe-IsMatched w topic t tx s m =
    elim (Bool-cases (not s.protocols.gossipsub && not s.protocols.broadcast)) [
      | inl k ↦ rw (k, if◌then◌else◌) m
      | inr k ↦ elim (Option-cases (get t s.subscriptions)) [
        | inl g ↦
            rw (k, if◌then◌else◌, g)
              (subst (IsMatched w topic) (sym (subscribe_first_lem t tx s))
                (wired-IsMatched w topic t (tx ∷ []) s m))
        | inr (txs, g) ↦
            rw (k, if◌then◌else◌, g) (set_topic-IsMatched w topic t txs (txs ++ tx ∷ []) s g m)
      ]
    ]

-- Also where gossipsub refuses, the topic is in the table.
subscriptions-subscribe_first :
    (t : String) (refused : Option String) (tx : Channel) (s : NetworkBackend)
    → (subscribe_first t refused tx s).0.subscriptions ≡ insert t (tx ∷ []) s.subscriptions
unfolding subscribe_first
subscriptions-subscribe_first t refused tx s = ground arith

append-is_empty : (txs : List Channel) (tx : Channel) → is_empty (txs ++ tx ∷ []) ≡ false
append-is_empty [] tx = refl
append-is_empty (x ∷ txs) tx = refl

pub subscribe-AllHeard :
    (t : String) (refused : Option String) (tx : Channel) (s : NetworkBackend)
    → AllHeard s
    → AllHeard (subscribe t refused tx s).0
unfolding subscribe
subscribe-AllHeard t refused tx s h =
    elim (Bool-cases (not s.protocols.gossipsub && not s.protocols.broadcast)) [
      | inl k ↦ rw (k, if◌then◌else◌) h
      | inr k ↦ elim (Option-cases (get t s.subscriptions)) [
        | inl g ↦
            rw (k, if◌then◌else◌, g)
              (rw (subscriptions-subscribe_first t refused tx s)
                (All-insert Heard t (tx ∷ []) s.subscriptions h refl))
        | inr (txs, g) ↦
            rw (k, if◌then◌else◌, g)
              (All-insert Heard t (txs ++ tx ∷ []) s.subscriptions h (append-is_empty txs tx))
      ]
    ]
