-- ===== src/Proxy/Outbound.antt =====
-- lib/proxy/vm.rs: which IPv4 packets of the VM are forwarded.
use softnet.Prelude.{
  ℕ, ◌≡◌, ◌≢◌, refl, ap, sym, ◌∙◌, ◌⊎◌, ◌↔◌, inl, inr, true, false, Option, none, some, arith, ◌==◌,
  Option-cases, Bool-cases, subst,
}
use softnet.Wire.{Ipv4Packet}
use softnet.Flows.{Clock, FlowDirection, FlowTable, FlowMatch, PendingFlow, inspect}
use softnet.Flows.Table.{IsValid}
use softnet.Flows.Inspect.{Permitted, allowed-Permitted}
use softnet.Ipnet.{Ipnet, PrefixTrie}
use softnet.Rule.{Direction}
use softnet.Rules.{Rules, PolicyDecision, policy_decision, is_stateful}
use softnet.Dhcp.{Received}
use softnet.Proxy.{
  Outside, Proxy, consume_dhcp, consume_answer, consume_dns, inspect_flows, outbound_fallback,
  outbound_policy, outbound_match, outbound_flow, allowed_from_vm_ipv4, dns_query, is_dhcp_request,
}
use softnet.Proxy.Admission.{Kept-inspect}
use softnet.Proxy.Recording.{
  Stored, Recorded, match_of, trackable-Recorded_iff, tracked-Stored_iff, stateful-Recorded_iff,
  match_of-ne-allowed, match_of-ne-denied,
}

module _ (outside : Outside) (clock : Clock) (ipnet : Ipnet) (trie : PrefixTrie ipnet) where
  -- Why a packet from the VM is forwarded, given the flow table's verdict on it.
  pub data Outgoing (rules : Rules ipnet trie) (gateway_ip : ℕ) (q : Proxy outside clock ipnet trie)
      (x : Ipv4Packet) (m : FlowMatch) : Type 0 where
    returns : m ≡ FlowMatch.allowed → Outgoing rules gateway_ip q x m
    stateless :
        policy_decision ipnet trie rules x Direction.outbound ≡ some PolicyDecision.allow_stateless
        → m ≢ FlowMatch.denied
        → (is_stateful ipnet trie rules x Direction.inbound ≡ true
            → Recorded outside clock ipnet trie q m)
        → Outgoing rules gateway_ip q x m
    stateful :
        policy_decision ipnet trie rules x Direction.outbound ≡ some PolicyDecision.allow_stateful
        → Stored outside clock ipnet trie q m
        → Outgoing rules gateway_ip q x m
    fallback :
        policy_decision ipnet trie rules x Direction.outbound ≡ none
        → (outside.is_global x.dst_addr ≡ true) ⊎ (x.dst_addr ≡ gateway_ip)
        → Recorded outside clock ipnet trie q m
        → Outgoing rules gateway_ip q x m

  fallback_iff :
      (q : Proxy outside clock ipnet trie) (x : Ipv4Packet) (pending : Option PendingFlow)
      → ((outbound_fallback outside clock ipnet trie q x pending).1 ≡ true) ↔ (
          ((outside.is_global x.dst_addr ≡ true) ⊎ (x.dst_addr ≡ q.host.gateway_ip))
          × Recorded outside clock ipnet trie q (match_of outside clock ipnet trie pending))
  unfolding outbound_fallback
  fallback_iff q x pending =
      let r = trackable-Recorded_iff outside clock ipnet trie q pending in
      elim (Bool-cases (outside.is_global x.dst_addr)) [
        | inl e ↦ rw (e, outbound_fallback) (λ h. (inl refl, r.0 h), λ k. r.1 k.1)
        | inr e ↦ elim (Bool-cases (x.dst_addr == q.host.gateway_ip)) [
          | inl n ↦ rw (e, n, outbound_fallback) (λ h. (inr (ground arith), r.0 h), λ k. r.1 k.1)
          | inr n ↦
              rw (e, n, outbound_fallback)
                (λ h. cc, λ k. elim k.0 [ inl y ↦ cc | inr y ↦ absurd (ground arith) ])
        ]
      ]

  decided_iff :
      (q : Proxy outside clock ipnet trie) (x : Ipv4Packet) (pending : Option PendingFlow)
      (decision : Option PolicyDecision)
      → policy_decision ipnet trie q.rules x Direction.outbound ≡ decision
      → ((outbound_policy outside clock ipnet trie q x pending decision).1 ≡ true)
        ↔ Outgoing q.rules q.host.gateway_ip q x (match_of outside clock ipnet trie pending)
  unfolding outbound_policy
  decided_iff q x pending none e =
      let r = fallback_iff q x pending in
      (
        λ h. let k = r.0 h in fallback e k.0 k.1,
        λ o. r.1 (elim o [
          | returns a ↦ absurd (match_of-ne-allowed outside clock ipnet trie pending a)
          | stateless a _ _ ↦ absurd (cc (a, e))
          | stateful a _ ↦ absurd (cc (a, e))
          | fallback _ g k ↦ (g, k)
        ]),
      )
  decided_iff q x pending (some PolicyDecision.block) e = (
    λ h. cc,
    λ o. elim o [
      | returns a ↦ absurd (match_of-ne-allowed outside clock ipnet trie pending a)
      | stateless a _ _ ↦ absurd (cc (a, e))
      | stateful a _ ↦ absurd (cc (a, e))
      | fallback a g k ↦ absurd (cc (a, e))
    ],
  )
  decided_iff q x pending (some PolicyDecision.allow_stateless) e =
      let r = stateful-Recorded_iff outside clock ipnet trie q pending x Direction.inbound in
      (
        λ h. stateless e (match_of-ne-denied outside clock ipnet trie pending) (r.0 h),
        λ o. r.1 (elim o [
          | returns a ↦ absurd (match_of-ne-allowed outside clock ipnet trie pending a)
          | stateless _ _ k ↦ k
          | stateful a _ ↦ absurd (cc (a, e))
          | fallback a g k ↦ absurd (cc (a, e))
        ]),
      )
  decided_iff q x pending (some PolicyDecision.allow_stateful) e =
      let r = tracked-Stored_iff outside clock ipnet trie q pending in
      (
        λ h. stateful e (r.0 h),
        λ o. r.1 (elim o [
          | returns a ↦ absurd (match_of-ne-allowed outside clock ipnet trie pending a)
          | stateless a _ _ ↦ absurd (cc (a, e))
          | stateful _ k ↦ k
          | fallback a g k ↦ absurd (cc (a, e))
        ]),
      )

  outbound_match_iff :
      (q : Proxy outside clock ipnet trie) (x : Ipv4Packet) (m : FlowMatch)
      → ((outbound_match outside clock ipnet trie q x m).1 ≡ true)
        ↔ Outgoing q.rules q.host.gateway_ip q x m
  unfolding outbound_match
  outbound_match_iff q x FlowMatch.allowed = (λ _. returns refl, λ _. refl)
  outbound_match_iff q x FlowMatch.denied = (
    λ h. cc,
    λ r. elim r [
      | returns e ↦ cc
      | stateless e n k ↦ absurd (n refl)
      | stateful e (_, k, _) ↦ cc
      | fallback e g (inl k) ↦ cc
      | fallback e g (inr (_, k, _)) ↦ cc
    ],
  )
  outbound_match_iff q x (FlowMatch.candidate pending) = decided_iff q x (some pending) _ refl
  outbound_match_iff q x FlowMatch.untracked = decided_iff q x none _ refl

  -- What the flow table says of a packet from the VM, and the state that leaves.
  abbrev pub seen : Proxy outside clock ipnet trie → Ipv4Packet → ℕ → Proxy outside clock ipnet trie
  seen p x now = (inspect_flows outside clock ipnet trie p x FlowDirection.from_vm now).0

  abbrev pub verdict : Proxy outside clock ipnet trie → Ipv4Packet → ℕ → FlowMatch
  verdict p x now = (inspect_flows outside clock ipnet trie p x FlowDirection.from_vm now).1

  pub outbound_flow_iff :
      (p : Proxy outside clock ipnet trie) (x : Ipv4Packet) (now : ℕ)
      → ((outbound_flow outside clock ipnet trie p x now).1 ≡ true)
        ↔ Outgoing p.rules p.host.gateway_ip (seen p x now) x (verdict p x now)
  unfolding outbound_flow
  outbound_flow_iff p x now =
      let k = Kept-inspect outside clock ipnet trie p x FlowDirection.from_vm now in
      let r = outbound_match_iff (seen p x now) x (verdict p x now) in
      let same : Outgoing (seen p x now).rules (seen p x now).host.gateway_ip (seen p x now) x
            (verdict p x now)
          ≡ Outgoing p.rules p.host.gateway_ip (seen p x now) x (verdict p x now) =
        ap (λ w. Outgoing w (seen p x now).host.gateway_ip (seen p x now) x (verdict p x now))
          k.rules
        ∙ ap (λ w. Outgoing p.rules w.gateway_ip (seen p x now) x (verdict p x now)) k.host in
      (λ h. subst (λ T. T) same (r.0 h), λ o. r.1 (subst (λ T. T) (sym same) o))

  -- A packet that is not consumed leaves the state as it was.
  answer_unconsumed :
      (p : Proxy outside clock ipnet trie) (r : Received)
      → (consume_answer outside clock ipnet trie p r).1 ≡ false
      → consume_answer outside clock ipnet trie p r ≡ (p, false)
  answer_unconsumed p (Received.packet reply) h = cc
  answer_unconsumed p Received.no_reply h = refl
  answer_unconsumed p Received.failed h = cc

  dns_unconsumed :
      (p : Proxy outside clock ipnet trie) (m : ℕ) (x : Ipv4Packet)
      → (consume_dns outside clock ipnet trie p m x).1 ≡ false
      → consume_dns outside clock ipnet trie p m x ≡ (p, false)
  unfolding consume_dns
  dns_unconsumed p m x = elim (Option-cases p.dns_server) [
    | inl e ↦ simp (e, consume_dns) (λ h. refl)
    | inr (server, e) ↦ elim (Option-cases (dns_query p.host.gateway_ip x)) [
      | inl n ↦ simp (e, n, consume_dns) (λ h. refl)
      | inr (udp, n) ↦ simp (e, n, consume_dns) (answer_unconsumed p _)
    ]
  ]

  dhcp_unconsumed :
      (p : Proxy outside clock ipnet trie) (x : Ipv4Packet)
      → is_dhcp_request x ≡ false
      → consume_dhcp outside clock ipnet trie p x ≡ (p, false)
  unfolding consume_dhcp
  dhcp_unconsumed p x e = simp (e, consume_dhcp)

  pub unconsumed_flow :
      (p : Proxy outside clock ipnet trie) (m : ℕ) (x : Ipv4Packet) (now : ℕ)
      → is_dhcp_request x ≡ false
      → (p.host.vm_ip == x.src_addr) ≡ true
      → (consume_dns outside clock ipnet trie p m x).1 ≡ false
      → allowed_from_vm_ipv4 outside clock ipnet trie p m x now
        ≡ outbound_flow outside clock ipnet trie p x now
  unfolding allowed_from_vm_ipv4
  unconsumed_flow p m x now e s d =
      rw (allowed_from_vm_ipv4, dhcp_unconsumed p x e, s, dns_unconsumed p m x d) refl

  -- An IPv4 packet of the VM is forwarded exactly when it is no DHCP request, comes from the
  -- reserved address, is not answered by the local DNS server, and is return traffic, or is allowed
  -- by a rule or by a fallback and recorded in the flow table as far as that demands.
  pub forwarded_iff :
      (p : Proxy outside clock ipnet trie) (m : ℕ) (x : Ipv4Packet) (now : ℕ)
      → ((allowed_from_vm_ipv4 outside clock ipnet trie p m x now).1 ≡ true) ↔ (
          (is_dhcp_request x ≡ false)
          × (p.host.vm_ip ≡ x.src_addr)
          × ((consume_dns outside clock ipnet trie p m x).1 ≡ false)
          × Outgoing p.rules p.host.gateway_ip (seen p x now) x (verdict p x now))
  unfolding allowed_from_vm_ipv4
  forwarded_iff p m x now = elim (Bool-cases (is_dhcp_request x)) [
    | inl e ↦ simp (e, allowed_from_vm_ipv4) (λ h. cc, λ k. absurd (cc k.0))
    | inr e ↦ elim (Bool-cases (p.host.vm_ip == x.src_addr)) [
      | inr s ↦ simp (e, s, allowed_from_vm_ipv4) (λ h. cc, λ k. absurd (ground arith))
      | inl s ↦ elim (Bool-cases (consume_dns outside clock ipnet trie p m x).1) [
        | inl d ↦ simp (e, s, d, allowed_from_vm_ipv4) (λ h. cc, λ k. absurd (cc k.2))
        | inr d ↦
            let r = outbound_flow_iff p x now in
            let same = unconsumed_flow p m x now e s d in
            (
              λ h. (e, ground arith, d, r.0 (sym (ap (λ w. w.1) same) ∙ h)),
              λ k. ap (λ w. w.1) same ∙ r.1 k.3,
            )
      ]
    ]
  ]

  abbrev pub TableIsValid : Option FlowTable → Type 0
  TableIsValid none = Unit
  TableIsValid (some t) = IsValid t

  pub inspected-Permitted :
      (p : Proxy outside clock ipnet trie) (x : Ipv4Packet) (d : FlowDirection) (now : ℕ)
      → TableIsValid p.flows
      → (inspect_flows outside clock ipnet trie p x d now).1 ≡ FlowMatch.allowed
      → (t : FlowTable) × (p.flows ≡ some t) × Permitted t x d now
  unfolding inspect_flows
  inspected-Permitted p x d now v h = elim (Option-cases p.flows) [
    | inl e ↦ absurd (ground (arith, h, e))
    | inr (t, e) ↦
        let k : (inspect clock t x d now).1 ≡ FlowMatch.allowed = rw (e, inspect_flows) at h in
        (t, e, (allowed-Permitted clock t x d now (subst TableIsValid e v) k).2)
  ]

  -- A packet of the VM that policy blocks, or that no rule matches and whose destination is neither
  -- global nor the gateway, is forwarded only as the return traffic of a flow in the table, which
  -- the other side has initiated and which has not expired. The table is valid.
  pub refused-Permitted :
      (p : Proxy outside clock ipnet trie) (m : ℕ) (x : Ipv4Packet) (now : ℕ)
      → TableIsValid p.flows
      → (policy_decision ipnet trie p.rules x Direction.outbound ≡ some PolicyDecision.block)
        ⊎ ((policy_decision ipnet trie p.rules x Direction.outbound ≡ none)
            × (outside.is_global x.dst_addr ≡ false)
            × (x.dst_addr ≢ p.host.gateway_ip))
      → (allowed_from_vm_ipv4 outside clock ipnet trie p m x now).1 ≡ true
      → (t : FlowTable) × (p.flows ≡ some t) × Permitted t x FlowDirection.from_vm now
  refused-Permitted p m x now v refused h = elim ((forwarded_iff p m x now).0 h).3 [
    | returns e ↦ inspected-Permitted p x FlowDirection.from_vm now v e
    | stateless e _ _ ↦ absurd (elim refused [ inl b ↦ cc | inr n ↦ cc ])
    | stateful e _ ↦ absurd (elim refused [ inl b ↦ cc | inr n ↦ cc ])
    | fallback e g _ ↦
        absurd
          (elim refused [ inl b ↦ cc | inr n ↦ elim g [ inl y ↦ cc (y, n.1) | inr y ↦ n.2 y ] ])
  ]
