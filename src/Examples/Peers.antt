-- ===== src/Examples/Peers.antt =====
-- Runs of the operations of src/net/peer_info.rs and of the address helpers on concrete inputs.
use ipfs_embed.Common.{◌≡◌, ◌≤◌, true, false, none, some, List, [], ◌∷◌, arith, nat_eq, ℕ_discrete}
use ipfs_embed.Common.Assoc.{get}
use ipfs_embed.Multiaddr.{multiaddr_eq, Multiaddr-discrete, Protocol-discrete}
use ipfs_embed.PeerInfo.{ConnectionFailure, failure_at, ConnectionFailureKind, AddressSource}
use ipfs_embed.PeerInfo.Failures.{push_reports, recent_failures_lem}
use ipfs_embed.PeerInfo.Addresses.{Happening, seen, failed, happened, probes_bounded, count}
use ipfs_embed.PeerInfo.Rtt.{Rtt, new, observe, duration_limit}
use ipfs_embed.PeerInfo.Rtt.Average.{observe_bounds, IsBanded}
use ipfs_embed.Examples.{addr, addr_2, known}

abbrev failure : ConnectionFailure
failure = failure_at ConnectionFailureKind.dial_error 50 addr "e" "d"

recent_failures_example :
    (push_reports ((addr_2, failure, true) ∷ (addr_2, failure, false) ∷ []) known).failures
    ≡ failure ∷ failure ∷ []
recent_failures_example =
    recent_failures_lem ((addr_2, failure, true) ∷ (addr_2, failure, false) ∷ []) known
      (omega arith)

-- The probe fails, so that the address is probed again.
abbrev happenings : List Happening
happenings =
    seen 50 addr_2 AddressSource.kad
    ∷ failed addr_2 failure true
    ∷ seen 60 addr_2 AddressSource.mdns
    ∷ []

probes_bounded_example : count addr_2 (happened happenings known).1 ≤ 7
unfolding get Multiaddr-discrete Protocol-discrete ℕ_discrete
probes_bounded_example = probes_bounded happenings addr_2 known

observe_bounds_example :
    (r : Rtt) × (observe (none ∷ some 2000 ∷ []) (new 1000) ≡ some r) × IsBanded 1000 2000 r
unfolding duration_limit
observe_bounds_example =
    observe_bounds 1000 2000 1000 (none ∷ some 2000 ∷ []) (omega arith)
      ((omega arith, omega arith), (tt, ((omega arith, omega arith), tt)))
