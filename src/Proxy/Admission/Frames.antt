-- ===== src/Proxy/Admission/Frames.antt =====
-- lib/proxy/{mod,vm,host}.rs: what each step on a frame leaves of the proxy's state.
use softnet.Prelude.{ℕ, inl, inr, true, false, Option, none, some, ◌==◌, Option-cases, Bool-cases}
use softnet.Wire.{Ipv4Packet, Payload, EthernetFrame}
use softnet.Flows.{Clock, FlowDirection, FlowMatch, PendingFlow}
use softnet.Ipnet.{Ipnet, PrefixTrie}
use softnet.Rule.{Direction}
use softnet.Rules.{PolicyDecision}
use softnet.Proxy.{
  Outside, Proxy, consume_dhcp, consume_dns, inspect_flows, outbound_fallback, outbound_policy,
  outbound_match, outbound_flow, allowed_from_vm_ipv4, allowed_payload, allowed_from_vm,
  inbound_policy, inbound_match, inbound_flow, allowed_from_host_ipv4, allowed_from_host,
  is_dhcp_reply,
}
use softnet.Proxy.Admission.{
  Kept, Kept-refl, Kept-trans, Kept-trackable, Kept-tracked, Kept-stateful, Kept-inspect,
  Kept-consume_dhcp, Kept-consume_dns,
}

module _ (outside : Outside) (clock : Clock) (ipnet : Ipnet) (trie : PrefixTrie ipnet) where
  abbrev P : Type 0
  P = Proxy outside clock ipnet trie

  Kept-fallback :
      (p : P) (x : Ipv4Packet) (pending : Option PendingFlow)
      → Kept outside clock ipnet trie p (outbound_fallback outside clock ipnet trie p x pending).0
  unfolding outbound_fallback
  Kept-fallback p x pending = elim (Bool-cases (outside.is_global x.dst_addr)) [
    | inl e ↦ rw (e, outbound_fallback) (Kept-trackable outside clock ipnet trie p pending)
    | inr e ↦ elim (Bool-cases (x.dst_addr == p.host.gateway_ip)) [
      | inl n ↦ rw (e, n, outbound_fallback) (Kept-trackable outside clock ipnet trie p pending)
      | inr n ↦ rw (e, n, outbound_fallback) (Kept-refl outside clock ipnet trie p)
    ]
  ]

  Kept-outbound_policy :
      (p : P) (x : Ipv4Packet) (pending : Option PendingFlow) (decision : Option PolicyDecision)
      → Kept outside clock ipnet trie p
          (outbound_policy outside clock ipnet trie p x pending decision).0
  unfolding outbound_policy
  Kept-outbound_policy p x pending (some PolicyDecision.block) =
      Kept-refl outside clock ipnet trie p
  Kept-outbound_policy p x pending (some PolicyDecision.allow_stateless) =
      Kept-stateful outside clock ipnet trie p pending x Direction.inbound
  Kept-outbound_policy p x pending (some PolicyDecision.allow_stateful) =
      Kept-tracked outside clock ipnet trie p pending
  Kept-outbound_policy p x pending none = Kept-fallback p x pending

  Kept-outbound_match :
      (p : P) (x : Ipv4Packet) (m : FlowMatch)
      → Kept outside clock ipnet trie p (outbound_match outside clock ipnet trie p x m).0
  unfolding outbound_match
  Kept-outbound_match p x FlowMatch.allowed = Kept-refl outside clock ipnet trie p
  Kept-outbound_match p x FlowMatch.denied = Kept-refl outside clock ipnet trie p
  Kept-outbound_match p x (FlowMatch.candidate pending) = Kept-outbound_policy p x (some pending) _
  Kept-outbound_match p x FlowMatch.untracked = Kept-outbound_policy p x none _

  pub Kept-outbound_flow :
      (p : P) (x : Ipv4Packet) (now : ℕ)
      → Kept outside clock ipnet trie p (outbound_flow outside clock ipnet trie p x now).0
  unfolding outbound_flow
  Kept-outbound_flow p x now =
      Kept-trans outside clock ipnet trie p _ _
        (Kept-inspect outside clock ipnet trie p x FlowDirection.from_vm now)
        (Kept-outbound_match
          (inspect_flows outside clock ipnet trie p x FlowDirection.from_vm now).0 x _)

  pub Kept-from_vm_ipv4 :
      (p : P) (m : ℕ) (x : Ipv4Packet) (now : ℕ)
      → Kept outside clock ipnet trie p (allowed_from_vm_ipv4 outside clock ipnet trie p m x now).0
  unfolding allowed_from_vm_ipv4
  Kept-from_vm_ipv4 p m x now =
      let d = consume_dhcp outside clock ipnet trie p x in
      let n = consume_dns outside clock ipnet trie d.0 m x in
      let k = Kept-consume_dhcp outside clock ipnet trie p x in
      let j =
        Kept-trans outside clock ipnet trie p _ _ k
          (Kept-consume_dns outside clock ipnet trie d.0 m x) in
      elim (Bool-cases d.1) [
        | inl e ↦ rw (e, allowed_from_vm_ipv4) k
        | inr e ↦ elim (Bool-cases (d.0.host.vm_ip == x.src_addr)) [
          | inr s ↦ rw (e, s, allowed_from_vm_ipv4) k
          | inl s ↦ elim (Bool-cases n.1) [
            | inl a ↦ rw (e, s, a, allowed_from_vm_ipv4) j
            | inr a ↦
                rw (e, s, a, allowed_from_vm_ipv4)
                  (Kept-trans outside clock ipnet trie p _ _ j (Kept-outbound_flow n.0 x now))
          ]
        ]
      ]

  Kept-payload :
      (p : P) (m : ℕ) (x : Payload) (now : ℕ)
      → Kept outside clock ipnet trie p (allowed_payload outside clock ipnet trie p m x now).0
  Kept-payload p m (Payload.arp a) now = Kept-refl outside clock ipnet trie p
  Kept-payload p m (Payload.ipv4 true x) now = elim (Bool-cases (x.header_len == 20)) [
    | inl e ↦ rw e (Kept-from_vm_ipv4 p m x now)
    | inr e ↦ rw e (Kept-refl outside clock ipnet trie p)
  ]
  Kept-payload p m (Payload.ipv4 false x) now = Kept-refl outside clock ipnet trie p
  Kept-payload p m Payload.other now = Kept-refl outside clock ipnet trie p

  pub Kept-from_vm :
      (p : P) (x : EthernetFrame) (now : ℕ)
      → Kept outside clock ipnet trie p (allowed_from_vm outside clock ipnet trie p x now).0
  unfolding allowed_from_vm
  Kept-from_vm p x now = elim (Bool-cases (x.src_addr == p.vm_mac_address)) [
    | inl e ↦ rw (e, allowed_from_vm) (Kept-payload p x.dst_addr x.payload now)
    | inr e ↦ rw (e, allowed_from_vm) (Kept-refl outside clock ipnet trie p)
  ]

  Kept-inbound_policy :
      (p : P) (x : Ipv4Packet) (pending : Option PendingFlow) (decision : Option PolicyDecision)
      → Kept outside clock ipnet trie p
          (inbound_policy outside clock ipnet trie p x pending decision).0
  unfolding inbound_policy
  Kept-inbound_policy p x pending (some PolicyDecision.block) = Kept-refl outside clock ipnet trie p
  Kept-inbound_policy p x pending (some PolicyDecision.allow_stateless) =
      Kept-refl outside clock ipnet trie p
  Kept-inbound_policy p x pending (some PolicyDecision.allow_stateful) =
      Kept-tracked outside clock ipnet trie p pending
  Kept-inbound_policy p x pending none =
      Kept-stateful outside clock ipnet trie p pending x Direction.outbound

  Kept-inbound_match :
      (p : P) (x : Ipv4Packet) (m : FlowMatch)
      → Kept outside clock ipnet trie p (inbound_match outside clock ipnet trie p x m).0
  unfolding inbound_match
  Kept-inbound_match p x FlowMatch.allowed = Kept-refl outside clock ipnet trie p
  Kept-inbound_match p x FlowMatch.denied = Kept-refl outside clock ipnet trie p
  Kept-inbound_match p x (FlowMatch.candidate pending) = Kept-inbound_policy p x (some pending) _
  Kept-inbound_match p x FlowMatch.untracked = Kept-inbound_policy p x none _

  Kept-inbound_flow :
      (p : P) (x : Ipv4Packet) (now : ℕ)
      → Kept outside clock ipnet trie p (inbound_flow outside clock ipnet trie p x now).0
  unfolding inbound_flow
  Kept-inbound_flow p x now = elim (Bool-cases (p.host.vm_ip == x.dst_addr)) [
    | inl e ↦
        rw (e, inbound_flow)
          (Kept-trans outside clock ipnet trie p _ _
            (Kept-inspect outside clock ipnet trie p x FlowDirection.from_host now)
            (Kept-inbound_match
              (inspect_flows outside clock ipnet trie p x FlowDirection.from_host now).0 x _))
    | inr e ↦ rw (e, inbound_flow) (Kept-inbound_match p x FlowMatch.untracked)
  ]

  Kept-from_host_ipv4 :
      (p : P) (x : Ipv4Packet) (now : ℕ)
      → Kept outside clock ipnet trie p (allowed_from_host_ipv4 outside clock ipnet trie p x now).0
  unfolding allowed_from_host_ipv4
  Kept-from_host_ipv4 p x now = elim (Bool-cases (is_dhcp_reply x)) [
    | inl e ↦ simp (e, allowed_from_host_ipv4) (Kept-refl outside clock ipnet trie p)
    | inr e ↦ elim (Option-cases p.flows) [
      | inl n ↦ simp (e, n, allowed_from_host_ipv4) (Kept-refl outside clock ipnet trie p)
      | inr (t, n) ↦ simp (e, n, allowed_from_host_ipv4) (Kept-inbound_flow p x now)
    ]
  ]

  pub Kept-from_host :
      (p : P) (x : Payload) (now : ℕ)
      → Kept outside clock ipnet trie p (allowed_from_host outside clock ipnet trie p x now).0
  unfolding allowed_from_host
  Kept-from_host p (Payload.arp a) now = Kept-refl outside clock ipnet trie p
  Kept-from_host p (Payload.ipv4 true x) now = Kept-from_host_ipv4 p x now
  Kept-from_host p (Payload.ipv4 false x) now = Kept-refl outside clock ipnet trie p
  Kept-from_host p Payload.other now = Kept-refl outside clock ipnet trie p
