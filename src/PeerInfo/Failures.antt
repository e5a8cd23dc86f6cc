-- ===== src/PeerInfo/Failures.antt =====
-- `push_failure` of src/net/peer_info.rs: the ten most recent failures, and failed probes.
use ipfs_embed.Common.{
  ◌≤◌, ◌≡◌, ap, sym, ◌∙◌, Bool, none, List, [], ◌∷◌, arith, ◌&&◌, ltb, if◌then◌else◌, length, take,
  drop_last-take, take_all, length-take-le, take-take-suc, Bool-cases, inl, inr, ◌==◌,
}
use ipfs_embed.Common.Assoc.{get, get-remove}
use ipfs_embed.Multiaddr.{Multiaddr, multiaddr_eq}
use ipfs_embed.PeerInfo.{PeerInfo, ConnectionFailure, probed, push_failure}

-- From at most ten failures, the new one in front and the oldest dropped where there were ten.
pub failures-push_failure :
    (a : Multiaddr) (f : ConnectionFailure) (p : Bool) (info : PeerInfo)
    → length info.failures ≤ 10
    → (push_failure a f p info).failures ≡ take 10 (f ∷ info.failures)
unfolding push_failure
failures-push_failure a f p info h = elim (Bool-cases (ltb 9 (length info.failures))) [
  | inl full ↦ rw full (ap (◌∷◌ f) (drop_last-take 9 info.failures (ground arith)))
  | inr room ↦ rw room (ap (◌∷◌ f) (sym (take_all 9 info.failures (ground arith))))
]

-- A report as `push_failure` takes it.
abbrev pub Report : Type 0
Report = Multiaddr × ConnectionFailure × Bool

abbrev pub push_report : Report → PeerInfo → PeerInfo
push_report r info = push_failure r.0 r.1 r.2 info

pub push_reports : List Report → PeerInfo → PeerInfo
push_reports [] info = info
push_reports (r ∷ rs) info = push_reports rs (push_report r info)

-- The failures of the reports in front of `old`, newest first.
abbrev pub newest_first : List Report → List ConnectionFailure → List ConnectionFailure
newest_first [] old = old
newest_first (r ∷ rs) old = newest_first rs (r.1 ∷ old)

newest_first_congr :
    (rs : List Report) (xs ys : List ConnectionFailure)
    → take 10 xs ≡ take 10 ys
    → take 10 (newest_first rs xs) ≡ take 10 (newest_first rs ys)
newest_first_congr [] xs ys h = h
newest_first_congr (r ∷ rs) xs ys h =
    newest_first_congr rs (r.1 ∷ xs) (r.1 ∷ ys)
      (ap (◌∷◌ r.1) (sym (take-take-suc 9 xs) ∙ ap (take 9) h ∙ take-take-suc 9 ys))

-- From a record with at most ten failures, after any reports, `recent_failures` gives the ten most recent failures, newest first.
pub recent_failures_lem :
    (rs : List Report) (info : PeerInfo)
    → length info.failures ≤ 10
    → (push_reports rs info).failures ≡ take 10 (newest_first rs info.failures)
unfolding push_reports
recent_failures_lem [] info h = sym (take_all 10 info.failures h)
recent_failures_lem (r ∷ rs) info h =
    let e = failures-push_failure r.0 r.1 r.2 info h in
    recent_failures_lem rs (push_report r info) (rw e (length-take-le 10 (r.1 ∷ info.failures)))
    ∙ (rw e (
        newest_first_congr rs _ (r.1 ∷ info.failures)
          (take_all 10 _ (length-take-le 10 (r.1 ∷ info.failures)))))

-- A failed probe removes its own address if that was still to be probed, and nothing else; a
-- failure that is no probe result removes nothing.
pub addresses-push_failure :
    (a b : Multiaddr) (f : ConnectionFailure) (p : Bool) (info : PeerInfo)
    → get b (push_failure a f p info).addresses
      ≡ (if p && (a == b && probed (get b info.addresses)) then none else get b info.addresses)
unfolding push_failure
addresses-push_failure a b f p info =
    ground (arith, multiaddr_eq.beq_iff a b, get-remove a b info.addresses)
