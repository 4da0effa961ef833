-- ===== src/Witnesses/Filtering.antt =====
-- lib/proxy/mod.rs: the theorems at proxies that are open, closed and waiting for a response.
use softnet.Prelude.{
  ℕ, ◌≡◌, ◌≢◌, ◌≤◌, ◌<◌, refl, ◌⊎◌, ◌↔◌, inl, inr, Bool, true, false, Option, none, some, List, [],
  ◌∷◌, arith, In, ite, length, if◌then◌else◌,
}
use softnet.Prelude.HashMap.{get}
use softnet.Wire.{Payload, EthernetFrame}
use softnet.Flows.{
  FlowKey, Flow, FlowKey-discrete, FlowDirection, FlowTable, FlowMatch, PendingFlow, commit,
  inspect, new_table, max_flows,
}
use softnet.Flows.Table.{IsValid}
use softnet.Flows.Inspect.{Permitted}
use softnet.Rule.{Direction, Target, Rule, default_filter}
use softnet.Rules.{
  Action, Rules, PolicyDecision, policy_decision, select, new_rules, packet_ports, destination_of,
}
use softnet.Proxy.Replace
use softnet.Rules.{pending_rules, no_rules}
use softnet.Flows.{opposite}
use softnet.Policy.{normalize_rules}
use softnet.Proxy.{
  Host, Network, Proxy, new_proxy, is_dhcp_request, is_dhcp_reply, consume_dns,
  allowed_from_vm_ipv4, allowed_from_host_ipv4, process_frame_from_vm, policy_set, policy_get,
  inspect_flows,
}
use softnet.Proxy.Outbound.{TableIsValid, Outgoing, seen, verdict, forwarded_iff, refused-Permitted}
use softnet.Proxy.Inbound.{Incoming, arriving, delivered_iff, blocked-Permitted}
use softnet.Proxy.Return.{reply-delivered}
use softnet.Proxy.Spoofing.{PayloadGenuine, process_frame_from_vm-Genuine}
use softnet.Proxy.Replace.{
  IsConsistent, run, new_proxy-run-IsConsistent, inbound-never-stateless, policy_set-policy_get,
  policy_set-ne-allowed,
}
use softnet.Example.{Net, ipnet, trie, clock, outside, default_message}
use softnet.Witnesses.{
  request, response, pending, table, table-IsValid, response-IsReply, request_candidate, allows,
  blocks, asked, asked-IsValid,
}

abbrev host : Host
host = record { vm_ip = 10; gateway_ip = 1; max_packet_size = 1514; written = [] }

abbrev network : Network
network = record { netmask = 0; gateway_ip = 1; vm_ips = 10 ∷ 11 ∷ [] }

unfoldable proxy : Proxy outside clock ipnet trie
unfolding new_proxy
proxy = new_proxy outside clock ipnet trie 7 host network allows blocks none 0

proxy-IsConsistent : IsConsistent outside clock ipnet trie proxy
unfolding proxy run
proxy-IsConsistent =
    new_proxy-run-IsConsistent outside clock ipnet trie 7 host network allows blocks none 0 []

proxy_table : proxy.flows ≡ some table
unfolding proxy new_table
proxy_table = refl

request_decision :
    policy_decision ipnet trie proxy.rules request Direction.outbound
    ≡ some PolicyDecision.allow_stateful
unfolding proxy policy_decision softnet.Example.cover softnet.Prelude.HashMap.insert
    softnet.Rules.filter_action get softnet.Rules.filter_matches
request_decision = refl

response_decision :
    policy_decision ipnet trie proxy.rules response Direction.inbound ≡ some PolicyDecision.block
unfolding proxy policy_decision softnet.Example.cover softnet.Prelude.HashMap.insert
    softnet.Rules.filter_action get softnet.Rules.filter_matches
response_decision = refl

request_allowed : (allowed_from_vm_ipv4 outside clock ipnet trie proxy 99 request 5).1 ≡ true
unfolding proxy allowed_from_vm_ipv4 softnet.Flows.inspect_protocol
    softnet.Flows.match_existing_flow get new_table softnet.Prelude.HashMap.retain
    softnet.Example.cover softnet.Prelude.HashMap.insert softnet.Rules.filter_action
    softnet.Rules.filter_matches
request_allowed = refl

response_no_dhcp : is_dhcp_reply response ≡ false
unfolding is_dhcp_reply
response_no_dhcp = refl

reply-delivered_example :
    (allowed_from_host_ipv4 outside clock ipnet trie
      (allowed_from_vm_ipv4 outside clock ipnet trie proxy 99 request 5).0
      response
      6).1
    ≡ true
reply-delivered_example =
    reply-delivered outside clock ipnet trie proxy 99 request response 5 6 table pending proxy_table
      table-IsValid request_candidate request_decision request_allowed response-IsReply
      response_no_dhcp (omega arith)

-- A policy that blocks everything outbound; the VM's packet to 200 is refused, and its response to a
-- flow that the host has started is let through.
abbrev closed_blocks : List (Rule Net)
closed_blocks = Rule.stateful Direction.outbound (Target.prefix Net.all) default_filter ∷ []

abbrev started : FlowTable
started = record {
  flows =
      (
        FlowKey.udp 200 80 10 1000,
        record { initiating_direction = FlowDirection.from_host; expires_at = 35 },
      )
      ∷ [];
  next_sweep = 1;
}

started-IsValid : IsValid started
unfolding get
started-IsValid = record { distinct = (refl, tt); bounded = omega arith }

unfoldable closed : Proxy outside clock ipnet trie
unfolding new_proxy
closed = record (new_proxy outside clock ipnet trie 7 host network [] closed_blocks none 0) {
  flows = some started;
}

closed_valid : TableIsValid outside clock ipnet trie closed.flows
unfolding closed
closed_valid = started-IsValid

closed_decision :
    policy_decision ipnet trie closed.rules request Direction.outbound ≡ some PolicyDecision.block
unfolding closed policy_decision softnet.Example.cover softnet.Prelude.HashMap.insert
    softnet.Rules.filter_action get softnet.Rules.filter_matches
closed_decision = refl

closed_allowed : (allowed_from_vm_ipv4 outside clock ipnet trie closed 99 request 5).1 ≡ true
unfolding closed allowed_from_vm_ipv4 softnet.Flows.inspect_protocol
    softnet.Flows.match_existing_flow get softnet.Prelude.HashMap.retain FlowKey-discrete
    softnet.Prelude.ℕ_discrete
closed_allowed = refl

refused-Permitted_example :
    (t : FlowTable) × (closed.flows ≡ some t) × Permitted t request FlowDirection.from_vm 5
refused-Permitted_example =
    refused-Permitted outside clock ipnet trie closed 99 request 5 closed_valid
      (inl closed_decision) closed_allowed

forwarded_iff_example :
    ((allowed_from_vm_ipv4 outside clock ipnet trie proxy 99 request 5).1 ≡ true) ↔ (
      (is_dhcp_request request ≡ false)
      × (proxy.host.vm_ip ≡ request.src_addr)
      × ((consume_dns outside clock ipnet trie proxy 99 request).1 ≡ false)
      × Outgoing outside clock ipnet trie proxy.rules proxy.host.gateway_ip
          (seen outside clock ipnet trie proxy request 5)
          request
          (verdict outside clock ipnet trie proxy request 5))
forwarded_iff_example = forwarded_iff outside clock ipnet trie proxy 99 request 5

delivered_iff_example :
    ((allowed_from_host_ipv4 outside clock ipnet trie proxy response 5).1 ≡ true) ↔ (
      (is_dhcp_reply response ≡ false)
      × ((proxy.flows ≡ none)
          ⊎ Incoming outside clock ipnet trie proxy.rules
              (arriving outside clock ipnet trie proxy response 5).0
              response
              (arriving outside clock ipnet trie proxy response 5).1))
delivered_iff_example = delivered_iff outside clock ipnet trie proxy response 5

unfoldable waiting : Proxy outside clock ipnet trie
unfolding proxy
waiting = record proxy { flows = some asked }

waiting_table : waiting.flows ≡ some asked
unfolding waiting
waiting_table = refl

waiting_valid : TableIsValid outside clock ipnet trie waiting.flows
unfolding waiting
waiting_valid = asked-IsValid

waiting_decision :
    policy_decision ipnet trie waiting.rules response Direction.inbound ≡ some PolicyDecision.block
unfolding waiting policy_decision softnet.Example.cover softnet.Prelude.HashMap.insert
    softnet.Rules.filter_action get softnet.Rules.filter_matches
waiting_decision = refl

waiting_allowed : (allowed_from_host_ipv4 outside clock ipnet trie waiting response 6).1 ≡ true
unfolding waiting allowed_from_host_ipv4 softnet.Flows.inspect_protocol
    softnet.Flows.match_existing_flow get softnet.Prelude.HashMap.retain FlowKey-discrete
    softnet.Prelude.ℕ_discrete
waiting_allowed = refl

blocked-Permitted_example :
    (waiting.host.vm_ip ≡ response.dst_addr) × Permitted asked response FlowDirection.from_host 6
blocked-Permitted_example =
    blocked-Permitted outside clock ipnet trie waiting response 6 asked waiting_table waiting_valid
      waiting_decision waiting_allowed

abbrev ether : EthernetFrame
ether = record { src_addr = 7; dst_addr = 99; payload = Payload.ipv4 true request }

process_frame_from_vm-Genuine_example :
    ((process_frame_from_vm outside clock ipnet trie proxy ether 5).0.host.written
      ≡ proxy.host.written)
    ⊎ (((process_frame_from_vm outside clock ipnet trie proxy ether 5).0.host.written
          ≡ ether ∷ proxy.host.written)
        × (ether.src_addr ≡ proxy.vm_mac_address)
        × PayloadGenuine outside clock ipnet trie proxy 5 ether.payload)
process_frame_from_vm-Genuine_example =
    process_frame_from_vm-Genuine outside clock ipnet trie proxy ether 5

new_proxy-run-IsConsistent_example : IsConsistent outside clock ipnet trie (
    run outside clock ipnet trie
      (new_proxy outside clock ipnet trie 7 host network allows blocks none 0)
      (Replace.Event.from_vm ether 5 ∷ Replace.Event.replaces [] blocks 6 ∷ []))
new_proxy-run-IsConsistent_example =
    new_proxy-run-IsConsistent outside clock ipnet trie 7 host network allows blocks none 0
      (Replace.Event.from_vm ether 5 ∷ Replace.Event.replaces [] blocks 6 ∷ [])

inbound-never-stateless_example :
    policy_decision ipnet trie proxy.rules response Direction.inbound
    ≢ some PolicyDecision.allow_stateless
inbound-never-stateless_example =
    inbound-never-stateless outside clock ipnet trie proxy response proxy-IsConsistent

policy_set-policy_get_example :
    policy_set outside clock ipnet trie proxy
      (policy_get outside clock ipnet trie proxy).allow
      (policy_get outside clock ipnet trie proxy).block
      9
    ≡ proxy
policy_set-policy_get_example =
    policy_set-policy_get outside clock ipnet trie proxy 9 proxy-IsConsistent

blocks_changed : normalize_rules ipnet closed_blocks ≢ waiting.block
unfolding waiting normalize_rules
blocks_changed h = cc

policy_set-ne-allowed_example :
    (inspect_flows outside clock ipnet trie
      (policy_set outside clock ipnet trie waiting allows closed_blocks 6)
      response
      FlowDirection.from_host
      7).1
    ≢ FlowMatch.allowed
policy_set-ne-allowed_example =
    policy_set-ne-allowed outside clock ipnet trie waiting allows closed_blocks 6 7 response
      FlowDirection.from_host (inr blocks_changed)
