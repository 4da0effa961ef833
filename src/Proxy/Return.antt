-- ===== src/Proxy/Return.antt =====
-- lib/proxy/{vm,host}.rs together: the reply to a packet that was forwarded and recorded.
use softnet.Prelude.{ℕ, ◌≡◌, ◌<◌, refl, ap, sym, ◌∙◌, true, false, some, arith, ◌==◌, subst}
use softnet.Wire.{Ipv4Packet}
use softnet.Flows.{
  Clock, FlowDirection, FlowTable, FlowMatch, PendingFlow, commit, inspect, opposite,
}
use softnet.Flows.Table.{IsValid}
use softnet.Flows.Replies.{IsReply, reply-allowed}
use softnet.Ipnet.{Ipnet, PrefixTrie}
use softnet.Rule.{Direction}
use softnet.Rules.{PolicyDecision, policy_decision}
use softnet.Proxy.{
  Outside, Proxy, admit_with_tracking, admit_tracked, inspect_flows, outbound_policy,
  outbound_match, outbound_flow, inbound_match, allowed_from_vm_ipv4, allowed_from_host_ipv4,
  is_dhcp_reply,
}
use softnet.Proxy.Outbound.{forwarded_iff, unconsumed_flow}
use softnet.Proxy.Inbound.{tracked_delivery, inbound_flow-arriving, arriving}

module _ (outside : Outside) (clock : Clock) (ipnet : Ipnet) (trie : PrefixTrie ipnet) where
  inspected :
      (p : Proxy outside clock ipnet trie) (x : Ipv4Packet) (d : FlowDirection) (now : ℕ)
      (t : FlowTable)
      → p.flows ≡ some t
      → inspect_flows outside clock ipnet trie p x d now
        ≡ (record p { flows = some (inspect clock t x d now).0 }, (inspect clock t x d now).1)
  unfolding inspect_flows
  inspected p x d now t e = simp (e, inspect_flows)

  admitted :
      (p : Proxy outside clock ipnet trie) (t : FlowTable) (pending : PendingFlow)
      → p.flows ≡ some t
      → admit_with_tracking outside clock ipnet trie p pending
        ≡ (record p { flows = some (commit t pending).0 }, (commit t pending).1)
  unfolding admit_with_tracking
  admitted p t pending e = simp (e, admit_with_tracking)

  candidate_admitted :
      (q : Proxy outside clock ipnet trie) (x : Ipv4Packet) (pending : PendingFlow)
      → policy_decision ipnet trie q.rules x Direction.outbound ≡ some PolicyDecision.allow_stateful
      → outbound_match outside clock ipnet trie q x (FlowMatch.candidate pending)
        ≡ admit_with_tracking outside clock ipnet trie q pending
  unfolding outbound_match outbound_policy admit_tracked
  candidate_admitted q x pending e = rw (e, outbound_match, outbound_policy, admit_tracked) refl

  -- A packet that a stateful rule allows leaves a table with its flow.
  flow_recorded :
      (p : Proxy outside clock ipnet trie) (x : Ipv4Packet) (now : ℕ) (t : FlowTable)
      (pending : PendingFlow)
      → p.flows ≡ some t
      → (inspect clock t x FlowDirection.from_vm now).1 ≡ FlowMatch.candidate pending
      → policy_decision ipnet trie p.rules x Direction.outbound ≡ some PolicyDecision.allow_stateful
      → outbound_flow outside clock ipnet trie p x now ≡ (
        record p {
          flows = some (commit (inspect clock t x FlowDirection.from_vm now).0 pending).0;
        },
        (commit (inspect clock t x FlowDirection.from_vm now).0 pending).1,
      )
  unfolding outbound_flow
  flow_recorded p x now t pending e c d =
      let found = (inspect clock t x FlowDirection.from_vm now).0 in
      rw (outbound_flow, inspected p x FlowDirection.from_vm now t e, c)
        (candidate_admitted (record p { flows = some found }) x pending d
          ∙ admitted (record p { flows = some found }) found pending refl)

  delivered :
      (p : Proxy outside clock ipnet trie) (y : Ipv4Packet) (later : ℕ) (t : FlowTable)
      → p.flows ≡ some t
      → is_dhcp_reply y ≡ false
      → p.host.vm_ip ≡ y.dst_addr
      → (inspect clock t y FlowDirection.from_host later).1 ≡ FlowMatch.allowed
      → (allowed_from_host_ipv4 outside clock ipnet trie p y later).1 ≡ true
  unfolding inbound_match
  delivered p y later t e r to a =
      let here : (p.host.vm_ip == y.dst_addr) ≡ true = ground arith in
      let m : (arriving outside clock ipnet trie p y later).1 ≡ FlowMatch.allowed =
        rw here (ap (λ w. w.1) (inspected p y FlowDirection.from_host later t e) ∙ a) in
      ap (λ w. w.1) (tracked_delivery outside clock ipnet trie p y later t e r)
      ∙ ap (λ w. w.1) (inbound_flow-arriving outside clock ipnet trie p y later)
      ∙ rw (m, inbound_match) refl

  -- When a stateful rule has an IPv4 packet of the VM forwarded, its reply is delivered from then
  -- on until the flow expires, whatever the inbound rules say. The table is valid, the packet a
  -- candidate for a flow, and the reply no DHCP reply.
  pub reply-delivered :
      (p : Proxy outside clock ipnet trie) (m : ℕ) (x y : Ipv4Packet) (now later : ℕ)
      (t : FlowTable) (pending : PendingFlow)
      → p.flows ≡ some t
      → IsValid t
      → (inspect clock t x FlowDirection.from_vm now).1 ≡ FlowMatch.candidate pending
      → policy_decision ipnet trie p.rules x Direction.outbound ≡ some PolicyDecision.allow_stateful
      → (allowed_from_vm_ipv4 outside clock ipnet trie p m x now).1 ≡ true
      → IsReply x y
      → is_dhcp_reply y ≡ false
      → later < pending.flow.expires_at
      → (allowed_from_host_ipv4 outside clock ipnet trie
          (allowed_from_vm_ipv4 outside clock ipnet trie p m x now).0
          y
          later).1
        ≡ true
  unfolding opposite
  reply-delivered p m x y now later t pending e v c d h r n early =
      let k = (forwarded_iff outside clock ipnet trie p m x now).0 h in
      let flow =
        unconsumed_flow outside clock ipnet trie p m x now k.0 (ground (arith, k.1)) k.2
        ∙ flow_recorded p x now t pending e c d in
      let stored = sym (ap (λ w. w.1) flow) ∙ h in
      subst (λ w. (allowed_from_host_ipv4 outside clock ipnet trie w y later).1 ≡ true)
        (sym (ap (λ w. w.0) flow))
        (delivered
          (record p {
            flows = some (commit (inspect clock t x FlowDirection.from_vm now).0 pending).0;
          })
          y later _ refl n (k.1 ∙ sym r.destination)
          (reply-allowed clock t x y FlowDirection.from_vm now later pending v c stored r early))
