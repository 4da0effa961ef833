-- ===== src/Proxy/Recording.antt =====
-- lib/proxy/mod.rs: when the flow table records the flow that a packet may start.
use softnet.Prelude.{
  ◌≡◌, ◌≢◌, refl, ◌⊎◌, ◌↔◌, inl, inr, true, Option, none, some, Bool-cases, subst,
}
use softnet.Wire.{Ipv4Packet}
use softnet.Flows.{Clock, FlowMatch, PendingFlow}
use softnet.Ipnet.{Ipnet, PrefixTrie}
use softnet.Rule.{Direction}
use softnet.Rules.{is_stateful}
use softnet.Proxy.{
  Outside, Proxy, admit_with_tracking, admit_with_tracking_if_trackable,
  admit_with_tracking_if_stateful, admit_tracked,
}

module _ (outside : Outside) (clock : Clock) (ipnet : Ipnet) (trie : PrefixTrie ipnet) where
  -- The table stores the packet's pending flow.
  abbrev pub Stored : Proxy outside clock ipnet trie → FlowMatch → Type 0
  Stored q m =
      (pending : PendingFlow) × (m ≡ FlowMatch.candidate pending)
      × ((admit_with_tracking outside clock ipnet trie q pending).1 ≡ true)

  -- It does, or the packet has no flow.
  abbrev pub Recorded : Proxy outside clock ipnet trie → FlowMatch → Type 0
  Recorded q m = (m ≡ FlowMatch.untracked) ⊎ Stored q m

  abbrev pub match_of : Option PendingFlow → FlowMatch
  match_of none = FlowMatch.untracked
  match_of (some pending) = FlowMatch.candidate pending

  pub trackable-Recorded_iff :
      (q : Proxy outside clock ipnet trie) (pending : Option PendingFlow)
      → ((admit_with_tracking_if_trackable outside clock ipnet trie q pending).1 ≡ true)
        ↔ Recorded q (match_of pending)
  unfolding admit_with_tracking_if_trackable
  trackable-Recorded_iff q none = (λ _. inl refl, λ _. refl)
  trackable-Recorded_iff q (some pending) = (
    λ h. inr (pending, refl, h),
    λ r. elim r [
      | inl e ↦ cc
      | inr (other, e, h) ↦
          subst (λ y. (admit_with_tracking outside clock ipnet trie q y).1 ≡ true) (cc e) h
    ],
  )

  pub tracked-Stored_iff :
      (q : Proxy outside clock ipnet trie) (pending : Option PendingFlow)
      → ((admit_tracked outside clock ipnet trie q pending).1 ≡ true) ↔ Stored q (match_of pending)
  unfolding admit_tracked
  tracked-Stored_iff q none = (λ h. cc, λ (other, e, h). cc)
  tracked-Stored_iff q (some pending) = (
    λ h. (pending, refl, h),
    λ (other, e, h).
        subst (λ y. (admit_with_tracking outside clock ipnet trie q y).1 ≡ true) (cc e) h,
  )

  pub stateful-Recorded_iff :
      (q : Proxy outside clock ipnet trie) (pending : Option PendingFlow) (x : Ipv4Packet)
      (d : Direction)
      → ((admit_with_tracking_if_stateful outside clock ipnet trie q pending x d).1 ≡ true)
        ↔ (is_stateful ipnet trie q.rules x d ≡ true → Recorded q (match_of pending))
  unfolding admit_with_tracking_if_stateful
  stateful-Recorded_iff q pending x d = elim (Bool-cases (is_stateful ipnet trie q.rules x d)) [
    | inl e ↦
        rw (e, admit_with_tracking_if_stateful)
          (let r = trackable-Recorded_iff q pending in (λ h _. r.0 h, λ k. r.1 (k refl)))
    | inr e ↦ rw (e, admit_with_tracking_if_stateful) (λ _ k. cc, λ _. refl)
  ]

  pub match_of-ne-allowed : (o : Option PendingFlow) → match_of o ≢ FlowMatch.allowed
  match_of-ne-allowed none h = cc
  match_of-ne-allowed (some pending) h = cc

  pub match_of-ne-denied : (o : Option PendingFlow) → match_of o ≢ FlowMatch.denied
  match_of-ne-denied none h = cc
  match_of-ne-denied (some pending) h = cc
