-- ===== src/Service/Runs.antt =====
-- What a run of `poll_swarm` of src/net/mod.rs comes to: the flag of the bootstrap, the topics that
-- are listened to, and the subscriptions of gossipsub and broadcast.
use mathlib.Core.Path.{subst}
use ipfs_embed.Common.{
  ◌≡◌, ◌∙◌, refl, String, string_eq, Bool, true, ◌||◌, ◌&&◌, Option, none, some, List, [], ◌∷◌,
  arith, any, ◌>>=◌,
}
use ipfs_embed.Common.Assoc.{get, contains_key}
use ipfs_embed.Behaviour.{NetworkBackend}
use ipfs_embed.Service.{Input, event, command, handle, poll_swarm}
use ipfs_embed.Service.Untouched.{Wire, is_on, listens, Holds, Same-refl}
use ipfs_embed.Service.Matched.{IsMatched, AllHeard}
use ipfs_embed.Service.Kept.{Kept, ends_bootstrap, is_accepted, Same-Kept, event-Kept}
use ipfs_embed.Service.Commands.{command-Kept}

abbrev pub all_accepted : List Input → Bool
all_accepted [] = true
all_accepted (i ∷ is) = is_accepted i && all_accepted is

and_left : (a b : Bool) → (a && b) ≡ true → a ≡ true
and_left a b e = ground arith

and_right : (a b : Bool) → (a && b) ≡ true → b ≡ true
and_right a b e = ground arith

module _ (w : Wire) (topic : String) where
  handle-Kept :
      (i : Input) (s : NetworkBackend)
      → Holds (Kept w topic (ends_bootstrap i) (is_accepted i) s) (handle i s)
  unfolding handle
  handle-Kept (event env e) s = event-Kept w topic env e s
  handle-Kept (command env k a) s = command-Kept w topic env k a s

  Kept-trans :
      (e f a b : Bool) (s t u : NetworkBackend)
      → Kept w topic e a s t
      → Kept w topic f b t u
      → Kept w topic (e || f) (a && b) s u
  Kept-trans e f a b s t u k l = record {
    flag = ground (arith, k.flag, l.flag);
    wires = l.wires ∙ k.wires;
    heard = λ h. l.heard (k.heard h);
    matched = λ c m. l.matched (and_right a b c) (k.matched (and_left a b c) m);
  }

  poll_swarm-Kept :
      (is : List Input) (s : NetworkBackend)
      → Holds (Kept w topic (any ends_bootstrap is) (all_accepted is) s) (poll_swarm is s)
  unfolding poll_swarm
  poll_swarm-Kept [] s = Same-Kept w topic true s s (Same-refl w topic s)
  poll_swarm-Kept (i ∷ is) s = go (handle i s) (handle-Kept i s) (λ t. poll_swarm-Kept is t)
    where
      later :
          (t : NetworkBackend) (o : Option NetworkBackend)
          → Kept w topic (ends_bootstrap i) (is_accepted i) s t
          → Holds (Kept w topic (any ends_bootstrap is) (all_accepted is) t) o
          → Holds (Kept w topic (any ends_bootstrap (i ∷ is)) (all_accepted (i ∷ is)) s) o
      later t none k l = tt
      later t (some u) k l = Kept-trans _ _ _ _ s t u k l

      go :
          (o : Option NetworkBackend)
          → Holds (Kept w topic (ends_bootstrap i) (is_accepted i) s) o
          → ((t : NetworkBackend)
              → Holds (Kept w topic (any ends_bootstrap is) (all_accepted is) t) (poll_swarm is t))
          → Holds
              (Kept w topic (any ends_bootstrap (i ∷ is)) (all_accepted (i ∷ is)) s)
              (o >>= poll_swarm is)
      go none k l = tt
      go (some t) k l = later t (poll_swarm is t) k (l t)

  run-Kept :
      (is : List Input) (s t : NetworkBackend)
      → poll_swarm is s ≡ some t
      → Kept w topic (any ends_bootstrap is) (all_accepted is) s t
  run-Kept is s t e =
      subst (Holds (Kept w topic (any ends_bootstrap is) (all_accepted is) s)) e
        (poll_swarm-Kept is s)

-- After any run of the loop, the node counts as bootstrapped exactly if it did before or the run has
-- a Kademlia event that ends a bootstrap with no peer remaining.
pub bootstrap_complete-poll_swarm :
    (is : List Input) (s t : NetworkBackend)
    → poll_swarm is s ≡ some t
    → t.bootstrap_complete ≡ (any ends_bootstrap is || s.bootstrap_complete)
bootstrap_complete-poll_swarm is s t e = (run-Kept Wire.gossipsub "" is s t e).flag

-- If every topic in the table has a subscriber before a run of the loop, then also after it.
pub poll_swarm-AllHeard :
    (is : List Input) (s t : NetworkBackend) → poll_swarm is s ≡ some t → AllHeard s → AllHeard t
poll_swarm-AllHeard is s t e = (run-Kept Wire.gossipsub "" is s t e).heard

pub poll_swarm-IsMatched :
    (w : Wire) (topic : String) (is : List Input) (s t : NetworkBackend)
    → poll_swarm is s ≡ some t
    → s.requests ≡ []
    → s.subscriptions ≡ []
    → all_accepted is ≡ true
    → is_on w t.protocols ≡ true
    → listens w topic t ≡ contains_key topic t.subscriptions
unfolding get
poll_swarm-IsMatched w topic is s t e r m a on = (run-Kept w topic is s t e).matched a fresh on
  where
    fresh : IsMatched w topic s
    fresh on = rw (r, m) refl
