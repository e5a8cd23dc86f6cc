-- ===== src/Behaviour/Refused.antt =====
-- A subscription that gossipsub refuses, in `subscribe` of src/net/behaviour.rs.
use ipfs_embed.Common.{
  ◌≡◌, refl, ap, String, string_eq, true, Option, none, some, List, [], ◌∷◌, ◌++◌, if◌then◌else◌,
}
use ipfs_embed.Common.Assoc.{get, get-insert_self}
use ipfs_embed.Behaviour.{Channel, ok, err, NetworkError, NetworkBackend, Request}
use ipfs_embed.Behaviour.Topics.{subscribe, subscribe_first, set_topic}

refused_lem :
    (topic e : String) (tx : Channel) (s : NetworkBackend)
    → s.protocols.gossipsub ≡ true
    → get topic s.subscriptions ≡ none
    → (subscribe topic (some e) tx s) ≡ (
      record (set_topic topic (tx ∷ []) s) {
        requests = s.requests ++ Request.gossipsub_subscribe topic ∷ [];
      },
      err (NetworkError.gossipsub_subscribe e),
    )
unfolding subscribe subscribe_first
refused_lem topic e tx s on fresh = simp (on, fresh, if◌then◌else◌)

again_lem :
    (topic : String) (refused : Option String) (rx : Channel) (txs : List Channel)
    (s : NetworkBackend)
    → s.protocols.gossipsub ≡ true
    → get topic s.subscriptions ≡ some txs
    → subscribe topic refused rx s ≡ (set_topic topic (txs ++ rx ∷ []) s, ok rx)
unfolding subscribe
again_lem topic refused rx txs s on known = simp (on, known, if◌then◌else◌)

-- Where gossipsub is on and refuses the first subscription to a topic, the caller is told so; but a
-- second subscription to the topic then succeeds, although nothing is asked of gossipsub or
-- broadcast again.
pub subscribe-refused :
    (topic e : String) (refused : Option String) (tx rx : Channel) (s : NetworkBackend)
    → s.protocols.gossipsub ≡ true
    → get topic s.subscriptions ≡ none
    → let first = subscribe topic (some e) tx s in
      let second = subscribe topic refused rx first.0 in
      (first.1 ≡ err (NetworkError.gossipsub_subscribe e))
      × ((second.1 ≡ ok rx)
          × (second.0.requests ≡ s.requests ++ Request.gossipsub_subscribe topic ∷ []))
subscribe-refused topic e refused tx rx s on fresh =
    let first = record (set_topic topic (tx ∷ []) s) {
      requests = s.requests ++ Request.gossipsub_subscribe topic ∷ [];
    } in
    let second =
      again_lem topic refused rx (tx ∷ []) first on
        (get-insert_self topic (tx ∷ []) s.subscriptions) in
    rw (refused_lem topic e tx s on fresh)
      (refl, (ap (λ r. r.1) second, ap (λ r. r.0.requests) second))
