-- ===== src/Proxy/Admission.antt =====
-- lib/proxy/{mod,vm,host}.rs: what the steps that admit and answer a packet leave of the proxy's state.
pub mod Frames
use softnet.Prelude.{
  ℕ, ◌≡◌, refl, sym, ◌∙◌, inl, inr, Bool, true, Option, none, some, List, ◌∷◌, ◌==◌, Option-cases,
  Bool-cases, subst,
}
use softnet.Wire.{Ipv4Packet}
use softnet.Flows.{Clock, FlowDirection, FlowTable, PendingFlow, commit, inspect}
use softnet.Flows.Table.{IsValid, commit-IsValid, inspect-IsValid}
use softnet.Ipnet.{Ipnet, PrefixTrie}
use softnet.Rule.{Direction}
use softnet.Rules.{is_stateful}
use softnet.Dhcp.{Received}
use softnet.Proxy.{
  Packet, SendResult, Outside, Proxy, admit_with_tracking, admit_with_tracking_if_trackable,
  admit_with_tracking_if_stateful, admit_tracked, write_to_vm, send_received, consume_dhcp,
  consume_answer, consume_dns, inspect_flows, dns_query, is_dhcp_request,
}

-- A table where there was one, and a valid one where that was valid.
abbrev pub TableKept : Option FlowTable → Option FlowTable → Type 0
TableKept none none = Unit
TableKept none (some _) = ⊥
TableKept (some _) none = ⊥
TableKept (some t) (some u) = IsValid t → IsValid u

TableKept-refl : (t : Option FlowTable) → TableKept t t
TableKept-refl none = tt
TableKept-refl (some t) = λ v. v

TableKept-trans : (t u w : Option FlowTable) → TableKept t u → TableKept u w → TableKept t w
TableKept-trans none none none h k = tt
TableKept-trans none none (some w) h k = k
TableKept-trans none (some u) w h k = absurd h
TableKept-trans (some t) none w h k = absurd h
TableKept-trans (some t) (some u) none h k = k
TableKept-trans (some t) (some u) (some w) h k = λ v. k (h v)

module _ (outside : Outside) (clock : Clock) (ipnet : Ipnet) (trie : PrefixTrie ipnet) where
  abbrev P : Type 0
  P = Proxy outside clock ipnet trie

  -- All but the flow table, the writes to the VM and the report on its buffer is as it was.
  pub record Kept (p q : P) : Type 0 where
    pub host : q.host ≡ p.host
    pub vm_mac_address : q.vm_mac_address ≡ p.vm_mac_address
    pub peer_ips : q.peer_ips ≡ p.peer_ips
    pub dhcp_server : q.dhcp_server ≡ p.dhcp_server
    pub dns_server : q.dns_server ≡ p.dns_server
    pub rules : q.rules ≡ p.rules
    pub allow : q.allow ≡ p.allow
    pub block : q.block ≡ p.block
    pub flows : TableKept p.flows q.flows

  pub Kept-refl : (p : P) → Kept p p
  Kept-refl p = record {
    host = refl;
    vm_mac_address = refl;
    peer_ips = refl;
    dhcp_server = refl;
    dns_server = refl;
    rules = refl;
    allow = refl;
    block = refl;
    flows = TableKept-refl p.flows;
  }

  pub Kept-trans : (p q r : P) → Kept p q → Kept q r → Kept p r
  Kept-trans p q r h k = record {
    host = k.host ∙ h.host;
    vm_mac_address = k.vm_mac_address ∙ h.vm_mac_address;
    peer_ips = k.peer_ips ∙ h.peer_ips;
    dhcp_server = k.dhcp_server ∙ h.dhcp_server;
    dns_server = k.dns_server ∙ h.dns_server;
    rules = k.rules ∙ h.rules;
    allow = k.allow ∙ h.allow;
    block = k.block ∙ h.block;
    flows = TableKept-trans p.flows q.flows r.flows h.flows k.flows;
  }

  -- A step that replaces the table, the writes to the VM and the report only.
  Kept-parts :
      (p : P) (v : List Packet) (t : Option FlowTable) (b : Bool)
      → TableKept p.flows t
      → Kept p (record p { vm = v; flows = t; enobufs_encountered = b })
  Kept-parts p v t b h = record {
    host = refl;
    vm_mac_address = refl;
    peer_ips = refl;
    dhcp_server = refl;
    dns_server = refl;
    rules = refl;
    allow = refl;
    block = refl;
    flows = h;
  }

  Kept-flows :
      (p : P) (t u : FlowTable)
      → p.flows ≡ some t
      → (IsValid t → IsValid u)
      → Kept p (record p { flows = some u })
  Kept-flows p t u e h =
      Kept-parts p p.vm (some u) p.enobufs_encountered (subst (λ x. TableKept x (some u)) (sym e) h)

  Kept-admit :
      (p : P) (pending : PendingFlow)
      → Kept p (admit_with_tracking outside clock ipnet trie p pending).0
  unfolding admit_with_tracking
  Kept-admit p pending = elim (Option-cases p.flows) [
    | inl e ↦ simp (e, admit_with_tracking) (Kept-refl p)
    | inr (t, e) ↦
        simp (e, admit_with_tracking)
          (Kept-flows p t (commit t pending).0 e (commit-IsValid t pending))
  ]

  pub Kept-trackable :
      (p : P) (pending : Option PendingFlow)
      → Kept p (admit_with_tracking_if_trackable outside clock ipnet trie p pending).0
  unfolding admit_with_tracking_if_trackable
  Kept-trackable p none = Kept-refl p
  Kept-trackable p (some pending) = Kept-admit p pending

  pub Kept-tracked :
      (p : P) (pending : Option PendingFlow)
      → Kept p (admit_tracked outside clock ipnet trie p pending).0
  unfolding admit_tracked
  Kept-tracked p none = Kept-refl p
  Kept-tracked p (some pending) = Kept-admit p pending

  pub Kept-stateful :
      (p : P) (pending : Option PendingFlow) (x : Ipv4Packet) (d : Direction)
      → Kept p (admit_with_tracking_if_stateful outside clock ipnet trie p pending x d).0
  unfolding admit_with_tracking_if_stateful
  Kept-stateful p pending x d = elim (Bool-cases (is_stateful ipnet trie p.rules x d)) [
    | inl e ↦ rw (e, admit_with_tracking_if_stateful) (Kept-trackable p pending)
    | inr e ↦ rw (e, admit_with_tracking_if_stateful) (Kept-refl p)
  ]

  pub Kept-inspect :
      (p : P) (x : Ipv4Packet) (d : FlowDirection) (now : ℕ)
      → Kept p (inspect_flows outside clock ipnet trie p x d now).0
  unfolding inspect_flows
  Kept-inspect p x d now = elim (Option-cases p.flows) [
    | inl e ↦ simp (e, inspect_flows) (Kept-refl p)
    | inr (t, e) ↦
        simp (e, inspect_flows)
          (Kept-flows p t (inspect clock t x d now).0 e (inspect-IsValid clock t x d now))
  ]

  -- Writing to the VM changes the writes and the report only.
  pub Kept-write : (p : P) (x : Packet) → Kept p (write_to_vm outside clock ipnet trie p x).0
  unfolding write_to_vm
  Kept-write p x = by (outside.vm_write p.vm x) refl
    where
      by :
          (r : SendResult)
          → outside.vm_write p.vm x ≡ r
          → Kept p (write_to_vm outside clock ipnet trie p x).0
      by SendResult.sent e =
          rw (e, write_to_vm)
            (Kept-parts p (x ∷ p.vm) p.flows p.enobufs_encountered (TableKept-refl p.flows))
      by (SendResult.failed none) e = rw (e, write_to_vm) (Kept-refl p)
      by (SendResult.failed (some errno)) e = elim (Bool-cases (errno == outside.enobufs)) [
        | inl h ↦ rw (e, h, write_to_vm) (Kept-parts p p.vm p.flows true (TableKept-refl p.flows))
        | inr h ↦ rw (e, h, write_to_vm) (Kept-refl p)
      ]

  Kept-received : (p : P) (r : Received) → Kept p (send_received outside clock ipnet trie p r)
  Kept-received p (Received.packet reply) = Kept-write p (Packet.bytes reply)
  Kept-received p Received.no_reply = Kept-refl p
  Kept-received p Received.failed = Kept-refl p

  pub Kept-consume_dhcp :
      (p : P) (x : Ipv4Packet) → Kept p (consume_dhcp outside clock ipnet trie p x).0
  unfolding consume_dhcp
  Kept-consume_dhcp p x = elim (Bool-cases (is_dhcp_request x)) [
    | inl e ↦ rw (e, consume_dhcp) (Kept-received p _)
    | inr e ↦ rw (e, consume_dhcp) (Kept-refl p)
  ]

  Kept-answer : (p : P) (r : Received) → Kept p (consume_answer outside clock ipnet trie p r).0
  Kept-answer p (Received.packet reply) = Kept-write p (Packet.bytes reply)
  Kept-answer p Received.no_reply = Kept-refl p
  Kept-answer p Received.failed = Kept-refl p

  pub Kept-consume_dns :
      (p : P) (m : ℕ) (x : Ipv4Packet) → Kept p (consume_dns outside clock ipnet trie p m x).0
  unfolding consume_dns
  Kept-consume_dns p m x = elim (Option-cases p.dns_server) [
    | inl e ↦ simp (e, consume_dns) (Kept-refl p)
    | inr (server, e) ↦ elim (Option-cases (dns_query p.host.gateway_ip x)) [
      | inl n ↦ simp (e, n, consume_dns) (Kept-refl p)
      | inr (udp, n) ↦ simp (e, n, consume_dns) (Kept-answer p _)
    ]
  ]
