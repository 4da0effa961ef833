-- ===== src/Proxy/Inbound.antt =====
-- lib/proxy/host.rs: which IPv4 packets of the host are delivered to the VM.
use softnet.Prelude.{
  ℕ, ◌≡◌, ◌≢◌, refl, ap, sym, ◌∙◌, ◌⊎◌, ◌↔◌, inl, inr, true, false, Option, none, some, arith, ◌==◌,
  if◌then◌else◌, Option-cases, Bool-cases, subst,
}
use softnet.Wire.{Ipv4Packet}
use softnet.Flows.{Clock, FlowDirection, FlowTable, FlowMatch, PendingFlow}
use softnet.Flows.Inspect.{Permitted}
use softnet.Ipnet.{Ipnet, PrefixTrie}
use softnet.Rule.{Direction}
use softnet.Rules.{Rules, PolicyDecision, policy_decision, is_stateful}
use softnet.Proxy.{
  Outside, Proxy, inspect_flows, inbound_policy, inbound_match, inbound_flow,
  allowed_from_host_ipv4, is_dhcp_reply,
}
use softnet.Proxy.Admission.{Kept-inspect}
use softnet.Proxy.Recording.{
  Stored, Recorded, match_of, tracked-Stored_iff, stateful-Recorded_iff, match_of-ne-allowed,
  match_of-ne-denied,
}
use softnet.Proxy.Outbound.{TableIsValid, inspected-Permitted}

module _ (outside : Outside) (clock : Clock) (ipnet : Ipnet) (trie : PrefixTrie ipnet) where
  -- Why a packet from the host is delivered under a stateful policy, given the table's verdict.
  pub data Incoming (rules : Rules ipnet trie) (q : Proxy outside clock ipnet trie) (x : Ipv4Packet)
      (m : FlowMatch) : Type 0 where
    returns : m ≡ FlowMatch.allowed → Incoming rules q x m
    stateful :
        policy_decision ipnet trie rules x Direction.inbound ≡ some PolicyDecision.allow_stateful
        → Stored outside clock ipnet trie q m
        → Incoming rules q x m
    unmatched :
        policy_decision ipnet trie rules x Direction.inbound ≡ none
        → m ≢ FlowMatch.denied
        → (is_stateful ipnet trie rules x Direction.outbound ≡ true
            → Recorded outside clock ipnet trie q m)
        → Incoming rules q x m

  decided_iff :
      (q : Proxy outside clock ipnet trie) (x : Ipv4Packet) (pending : Option PendingFlow)
      (decision : Option PolicyDecision)
      → policy_decision ipnet trie q.rules x Direction.inbound ≡ decision
      → ((inbound_policy outside clock ipnet trie q x pending decision).1 ≡ true)
        ↔ Incoming q.rules q x (match_of outside clock ipnet trie pending)
  unfolding inbound_policy
  decided_iff q x pending none e =
      let r = stateful-Recorded_iff outside clock ipnet trie q pending x Direction.outbound in
      (
        λ h. unmatched e (match_of-ne-denied outside clock ipnet trie pending) (r.0 h),
        λ o. r.1 (elim o [
          | returns a ↦ absurd (match_of-ne-allowed outside clock ipnet trie pending a)
          | stateful a _ ↦ absurd (cc (a, e))
          | unmatched _ _ k ↦ k
        ]),
      )
  decided_iff q x pending (some PolicyDecision.block) e = (
    λ h. cc,
    λ o. elim o [
      | returns a ↦ absurd (match_of-ne-allowed outside clock ipnet trie pending a)
      | stateful a _ ↦ absurd (cc (a, e))
      | unmatched a _ _ ↦ absurd (cc (a, e))
    ],
  )
  decided_iff q x pending (some PolicyDecision.allow_stateless) e = (
    λ h. cc,
    λ o. elim o [
      | returns a ↦ absurd (match_of-ne-allowed outside clock ipnet trie pending a)
      | stateful a _ ↦ absurd (cc (a, e))
      | unmatched a _ _ ↦ absurd (cc (a, e))
    ],
  )
  decided_iff q x pending (some PolicyDecision.allow_stateful) e =
      let r = tracked-Stored_iff outside clock ipnet trie q pending in
      (
        λ h. stateful e (r.0 h),
        λ o. r.1 (elim o [
          | returns a ↦ absurd (match_of-ne-allowed outside clock ipnet trie pending a)
          | stateful _ k ↦ k
          | unmatched a _ _ ↦ absurd (cc (a, e))
        ]),
      )

  inbound_match_iff :
      (q : Proxy outside clock ipnet trie) (x : Ipv4Packet) (m : FlowMatch)
      → ((inbound_match outside clock ipnet trie q x m).1 ≡ true) ↔ Incoming q.rules q x m
  unfolding inbound_match
  inbound_match_iff q x FlowMatch.allowed = (λ _. returns refl, λ _. refl)
  inbound_match_iff q x FlowMatch.denied = (
    λ h. cc,
    λ r. elim r [ returns e ↦ cc | stateful e (_, k, _) ↦ cc | unmatched e n k ↦ absurd (n refl) ],
  )
  inbound_match_iff q x (FlowMatch.candidate pending) = decided_iff q x (some pending) _ refl
  inbound_match_iff q x FlowMatch.untracked = decided_iff q x none _ refl

  -- The state and the verdict after the flow table, which is asked of packets to the VM only.
  abbrev pub arriving :
      Proxy outside clock ipnet trie → Ipv4Packet → ℕ → Proxy outside clock ipnet trie × FlowMatch
  arriving p x now =
      if p.host.vm_ip == x.dst_addr
      then inspect_flows outside clock ipnet trie p x FlowDirection.from_host now
      else (p, FlowMatch.untracked)

  arriving-rules :
      (p : Proxy outside clock ipnet trie) (x : Ipv4Packet) (now : ℕ)
      → (arriving p x now).0.rules ≡ p.rules
  arriving-rules p x now = elim (Bool-cases (p.host.vm_ip == x.dst_addr)) [
    | inl e ↦ rw e ((Kept-inspect outside clock ipnet trie p x FlowDirection.from_host now).rules)
    | inr e ↦ rw e refl
  ]

  pub inbound_flow-arriving :
      (p : Proxy outside clock ipnet trie) (x : Ipv4Packet) (now : ℕ)
      → inbound_flow outside clock ipnet trie p x now
        ≡ inbound_match outside clock ipnet trie (arriving p x now).0 x (arriving p x now).1
  unfolding inbound_flow
  inbound_flow-arriving p x now = elim (Bool-cases (p.host.vm_ip == x.dst_addr)) [
    | inl e ↦ rw (e, inbound_flow) refl
    | inr e ↦ rw (e, inbound_flow) refl
  ]

  inbound_flow_iff :
      (p : Proxy outside clock ipnet trie) (x : Ipv4Packet) (now : ℕ)
      → ((inbound_flow outside clock ipnet trie p x now).1 ≡ true)
        ↔ Incoming p.rules (arriving p x now).0 x (arriving p x now).1
  inbound_flow_iff p x now =
      let r = inbound_match_iff (arriving p x now).0 x (arriving p x now).1 in
      let same =
        ap (λ w. Incoming w (arriving p x now).0 x (arriving p x now).1) (arriving-rules p x now) in
      (
        λ h. subst (λ T. T) same (r.0 (sym (ap (λ w. w.1) (inbound_flow-arriving p x now)) ∙ h)),
        λ o. ap (λ w. w.1) (inbound_flow-arriving p x now) ∙ r.1 (subst (λ T. T) (sym same) o),
      )

  pub tracked_delivery :
      (p : Proxy outside clock ipnet trie) (x : Ipv4Packet) (now : ℕ) (t : FlowTable)
      → p.flows ≡ some t
      → is_dhcp_reply x ≡ false
      → allowed_from_host_ipv4 outside clock ipnet trie p x now
        ≡ inbound_flow outside clock ipnet trie p x now
  unfolding allowed_from_host_ipv4
  tracked_delivery p x now t n e = simp (e, n, allowed_from_host_ipv4)

  -- An IPv4 packet of the host is delivered exactly when it is no DHCP reply and either no rule is
  -- stateful, so that there is no flow table, or it is return traffic, is allowed by a stateful rule
  -- and recorded, or matches no rule and is recorded where its reply would need that.
  pub delivered_iff :
      (p : Proxy outside clock ipnet trie) (x : Ipv4Packet) (now : ℕ)
      → ((allowed_from_host_ipv4 outside clock ipnet trie p x now).1 ≡ true) ↔ (
          (is_dhcp_reply x ≡ false)
          × ((p.flows ≡ none) ⊎ Incoming p.rules (arriving p x now).0 x (arriving p x now).1))
  unfolding allowed_from_host_ipv4
  delivered_iff p x now = elim (Bool-cases (is_dhcp_reply x)) [
    | inl e ↦ simp (e, allowed_from_host_ipv4) (λ h. cc, λ k. absurd (cc k.0))
    | inr e ↦ elim (Option-cases p.flows) [
      | inl n ↦
          let passes : allowed_from_host_ipv4 outside clock ipnet trie p x now ≡ (p, true) =
            simp (e, n, allowed_from_host_ipv4) in
          (λ _. (e, inl n), λ _. ap (λ w. w.1) passes)
      | inr (t, n) ↦
          let same = ap (λ w. w.1) (tracked_delivery p x now t n e) in
          let r = inbound_flow_iff p x now in
          (
            λ h. (e, inr (r.0 (sym same ∙ h))),
            λ k. same ∙ elim k.1 [ inl y ↦ absurd (cc (y, n)) | inr o ↦ r.1 o ],
          )
    ]
  ]

  -- Under a stateful policy, a packet of the host that an inbound rule blocks is delivered only as
  -- the return traffic of a flow in the table, which the VM has initiated and which has not
  -- expired. The table is valid.
  pub blocked-Permitted :
      (p : Proxy outside clock ipnet trie) (x : Ipv4Packet) (now : ℕ) (t : FlowTable)
      → p.flows ≡ some t
      → TableIsValid outside clock ipnet trie p.flows
      → policy_decision ipnet trie p.rules x Direction.inbound ≡ some PolicyDecision.block
      → (allowed_from_host_ipv4 outside clock ipnet trie p x now).1 ≡ true
      → (p.host.vm_ip ≡ x.dst_addr) × Permitted t x FlowDirection.from_host now
  blocked-Permitted p x now t n v blocks h = elim ((delivered_iff p x now).0 h).1 [
    | inl e ↦ absurd (cc (e, n))
    | inr (returns e) ↦ elim (Bool-cases (p.host.vm_ip == x.dst_addr)) [
      | inl y ↦
          let (u, m, permitted) =
            inspected-Permitted outside clock ipnet trie p x FlowDirection.from_host now v
              (rw y at e) in
          (
            ground arith,
            subst (λ w. Permitted w x FlowDirection.from_host now) (cc (n, m)) permitted,
          )
      | inr y ↦ absurd (cc (rw y at e))
    ]
    | inr (stateful e _) ↦ absurd (cc (e, blocks))
    | inr (unmatched e _ _) ↦ absurd (cc (e, blocks))
  ]
