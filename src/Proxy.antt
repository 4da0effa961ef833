-- ===== src/Proxy.antt =====
-- lib/proxy/{mod,vm,host}.rs: the packet filter between one VM and the host. What it writes to the
-- two sides is part of its state; `Option<()>` is a Bool, and `Result<()>` is one too.
pub mod Admission
pub mod Spoofing
pub mod Recording
pub mod Outbound
pub mod Inbound
pub mod Return
pub mod Replace
pub mod Loop
use softnet.Prelude.{
  ℕ, Bool, true, false, not, ◌&&◌, ◌||◌, Option, none, some, List, [], ◌∷◌, ltb, leb, ◌==◌,
  if◌then◌else◌,
}
use softnet.Wire.{IpProtocol, UdpPacket, Ipv4Packet, ArpOperation, ArpRepr, Payload, EthernetFrame}
use softnet.Flows.{
  Clock, FlowDirection, FlowTable, FlowMatch, PendingFlow, commit, inspect, new_table,
}
use softnet.Ipnet.{Ipnet, PrefixTrie}
use softnet.Rule.{Direction, Rule, Rule-discrete}
use softnet.Rules.{
  Rules, PolicyDecision, policy_decision, is_stateful, rule_count, has_stateful, new_rules,
}
use softnet.Policy.{normalize_rules}
use softnet.Dhcp.{
  DhcpServer, Message, Datagram, Received, receive_vm, client_port, server_port, is_unspecified,
}

-- What is written to the VM: a frame of the host, or a reply of a local server.
pub data Packet : Type 0 where
  frame : EthernetFrame → Packet
  bytes : List ℕ → Packet

-- What a `send` on the VM's socket returns: its `raw_os_error` if it failed.
pub data SendResult : Type 0 where
  sent : SendResult
  failed : Option ℕ → SendResult

-- The kernel, and the crates dhcproto, hickory and ip_network, at their boundary. `vm_write` and
-- `host_write` are told what has been written before.
pub record Outside : Type 1 where
  pub enobufs : ℕ
  pub vm_write : List Packet → Packet → SendResult
  pub host_write : List EthernetFrame → EthernetFrame → Bool
  pub from_bytes : List ℕ → Option Message
  pub encode_packet : Datagram → Option (List ℕ)
  pub default_message : Message
  pub DnsServer : Type 0
  pub domain : DnsServer → List ℕ
  -- `DnsServer::respond`: the VM's and the gateway's hardware address, the packet, the size limit
  pub respond : DnsServer → ℕ → ℕ → Ipv4Packet → UdpPacket → ℕ → Received
  pub is_global : ℕ → Bool

-- `Host`, with the frames written to it, the latest first.
pub record Host : Type 0 where
  pub vm_ip : ℕ
  pub gateway_ip : ℕ
  pub max_packet_size : ℕ
  pub written : List EthernetFrame

-- `Network`, and the netmask of its subnet.
pub record Network : Type 0 where
  pub netmask : ℕ
  pub gateway_ip : ℕ
  pub vm_ips : List ℕ

abbrev pub ipv4_header_len_without_options : ℕ
ipv4_header_len_without_options = 20

abbrev pub dns_port : ℕ
dns_port = 53

abbrev pub is_udp : IpProtocol → Bool
is_udp IpProtocol.udp = true
is_udp _ = false

abbrev pub is_arp_operation : ArpOperation → Bool
is_arp_operation ArpOperation.request = true
is_arp_operation ArpOperation.reply = true
is_arp_operation ArpOperation.unknown = false

abbrev pub arp_repr_allowed : ℕ → ℕ → Option ArpRepr → Bool
arp_repr_allowed vm_mac_address address none = false
arp_repr_allowed vm_mac_address address (some ArpRepr.other) = false
arp_repr_allowed vm_mac_address address
      (some (ArpRepr.ethernet_ipv4 operation source_hardware_addr source_protocol_addr)) =
    if not (is_arp_operation operation)
    then false
    else (if not (source_hardware_addr == vm_mac_address)
        then false
        else source_protocol_addr == address || is_unspecified source_protocol_addr)

-- `vm_arp_allowed`, behind `ArpPacket::new_checked`.
unfoldable pub vm_arp_allowed : Option (Option ArpRepr) → ℕ → ℕ → Bool
vm_arp_allowed none vm_mac_address address = false
vm_arp_allowed (some repr) vm_mac_address address = arp_repr_allowed vm_mac_address address repr

-- The peers of a VM: the other VMs' reservations.
unfoldable pub peers_of : ℕ → List ℕ → List ℕ
peers_of vm_ip [] = []
peers_of vm_ip (peer_ip ∷ peer_ips) =
    let rest = peers_of vm_ip peer_ips in if not (peer_ip == vm_ip) then peer_ip ∷ rest else rest

-- The guards of `consume_dhcp`.
unfoldable pub is_dhcp_request : Ipv4Packet → Bool
is_dhcp_request p =
    if not (is_udp p.next_header) || not (p.frag_offset == 0) || ltb p.payload_len 4
    then false
    else p.udp_unchecked.dst_port == server_port

-- The guard of `allowed_from_host_ipv4` on external DHCP replies.
unfoldable pub is_dhcp_reply : Ipv4Packet → Bool
is_dhcp_reply p =
    if is_udp p.next_header && p.frag_offset == 0 && leb 4 p.payload_len
    then p.udp_unchecked.src_port == server_port && p.udp_unchecked.dst_port == client_port
    else false

abbrev pub is_dns_datagram : Ipv4Packet → UdpPacket → Bool
is_dns_datagram p udp =
    not (not udp.checksum_valid || not (udp.dst_port == dns_port) || not (udp.len == p.payload_len))

-- The guards of `consume_dns`, and the datagram that passes them.
unfoldable pub dns_query : ℕ → Ipv4Packet → Option UdpPacket
dns_query gateway_ip p =
    if not (p.dst_addr == gateway_ip)
      || not p.checksum_valid
      || not (is_udp p.next_header)
      || p.more_frags
      || not (p.frag_offset == 0)
    then none
    else elim p.udp [ none ↦ none | some udp ↦ if is_dns_datagram p udp then some udp else none ]

module _ (outside : Outside) (clock : Clock) (ipnet : Ipnet) (trie : PrefixTrie ipnet) where
  open ipnet use {Ipv4Net, Ipv4Net-discrete}

  pub record Policy : Type 0 where
    pub allow : List (Rule Ipv4Net)
    pub block : List (Rule Ipv4Net)
    pub rule_count : ℕ

  -- `Proxy`; `vm` is what has been written to the VM's socket, the latest first.
  pub record Proxy : Type 0 where
    pub vm : List Packet
    pub host : Host
    pub vm_mac_address : ℕ
    pub peer_ips : List ℕ
    pub dhcp_server : DhcpServer
    pub dns_server : Option outside.DnsServer
    pub rules : Rules ipnet trie
    pub allow : List (Rule Ipv4Net)
    pub block : List (Rule Ipv4Net)
    pub flows : Option FlowTable
    pub enobufs_encountered : Bool

  -- `then(FlowTable::new)`
  abbrev pub table_if : Bool → ℕ → Option FlowTable
  table_if b now = if b then some (new_table clock now) else none

  abbrev pub domains_of : Option outside.DnsServer → List (List ℕ)
  domains_of none = []
  domains_of (some server) = outside.domain server ∷ []

  -- `Proxy::new`, with the interface that `Host::new` has opened.
  unfoldable pub new_proxy :
      ℕ
      → Host
      → Network
      → List (Rule Ipv4Net)
      → List (Rule Ipv4Net)
      → Option outside.DnsServer
      → ℕ
      → Proxy
  unfolding normalize_rules new_rules has_stateful peers_of
  new_proxy vm_mac_address host network allows blocks dns_server now =
      let allow' = normalize_rules ipnet allows in
      let block' = normalize_rules ipnet blocks in
      let peer_ips = peers_of host.vm_ip network.vm_ips in
      let rules = new_rules ipnet trie host.gateway_ip peer_ips allow' block' in
      record {
        vm = [];
        host = host;
        vm_mac_address = vm_mac_address;
        peer_ips = peer_ips;
        dhcp_server = record {
          vm_mac = vm_mac_address;
          vm_ip = host.vm_ip;
          subnet_mask = network.netmask;
          gateway_ip = host.gateway_ip;
          search_domains = domains_of dns_server;
        };
        dns_server = dns_server;
        rules = rules;
        allow = allow';
        block = block';
        flows = table_if (has_stateful ipnet trie rules) now;
        enobufs_encountered = false;
      }

  -- `admit_with_tracking`
  unfoldable pub admit_with_tracking : Proxy → PendingFlow → Proxy × Bool
  unfolding commit
  admit_with_tracking proxy pending = elim proxy.flows [
    | none ↦ (proxy, false)
    | some flows ↦
        let (flows', stored) = commit flows pending in
        (record proxy { flows = some flows' }, stored)
  ]

  unfoldable pub admit_with_tracking_if_trackable : Proxy → Option PendingFlow → Proxy × Bool
  unfolding admit_with_tracking
  admit_with_tracking_if_trackable proxy none = (proxy, true)
  admit_with_tracking_if_trackable proxy (some pending) = admit_with_tracking proxy pending

  unfoldable pub admit_with_tracking_if_stateful :
      Proxy → Option PendingFlow → Ipv4Packet → Direction → Proxy × Bool
  unfolding admit_with_tracking_if_trackable is_stateful
  admit_with_tracking_if_stateful proxy pending p return_direction =
      if is_stateful ipnet trie proxy.rules p return_direction
      then admit_with_tracking_if_trackable proxy pending
      else (proxy, true)

  -- `admit_with_tracking(pending?)`
  unfoldable pub admit_tracked : Proxy → Option PendingFlow → Proxy × Bool
  unfolding admit_with_tracking
  admit_tracked proxy none = (proxy, false)
  admit_tracked proxy (some pending) = admit_with_tracking proxy pending

  unfoldable pub policy_get : Proxy → Policy
  unfolding rule_count
  policy_get proxy = record {
    allow = proxy.allow;
    block = proxy.block;
    rule_count = rule_count ipnet trie proxy.rules;
  }

  abbrev pub rules_eq : List (Rule Ipv4Net) → List (Rule Ipv4Net) → Bool
  rules_eq [] [] = true
  rules_eq [] (y ∷ ys) = false
  rules_eq (x ∷ xs) [] = false
  rules_eq (x ∷ xs) (y ∷ ys) = elim (Rule-discrete Ipv4Net-discrete x y) [
    | yes _ ↦ rules_eq xs ys
    | no _ ↦ false
  ]

  -- The state that `policy_set` leaves, which returns `policy_get` of it.
  unfoldable pub policy_set : Proxy → List (Rule Ipv4Net) → List (Rule Ipv4Net) → ℕ → Proxy
  unfolding normalize_rules new_rules has_stateful
  policy_set proxy allows blocks now =
      let allow' = normalize_rules ipnet allows in
      let block' = normalize_rules ipnet blocks in
      if not (rules_eq proxy.allow allow') || not (rules_eq proxy.block block')
      then (let rules = new_rules ipnet trie proxy.host.gateway_ip proxy.peer_ips allow' block' in
          record proxy {
            rules = rules;
            allow = allow';
            block = block';
            flows = table_if (has_stateful ipnet trie rules) now;
          })
      else proxy

  -- `write_to_vm`: a full socket buffer is reported once and is no error.
  unfoldable pub write_to_vm : Proxy → Packet → Proxy × Bool
  write_to_vm proxy p = elim (outside.vm_write proxy.vm p) [
    | SendResult.sent ↦ (record proxy { vm = p ∷ proxy.vm }, true)
    | SendResult.failed none ↦ (proxy, false)
    | SendResult.failed (some errno) ↦
        if errno == outside.enobufs
        then (record proxy { enobufs_encountered = true }, true)
        else (proxy, false)
  ]

  -- The reply of a local server, whose failures are only reported.
  abbrev pub send_received : Proxy → Received → Proxy
  send_received proxy (Received.packet reply) = (write_to_vm proxy (Packet.bytes reply)).0
  send_received proxy Received.no_reply = proxy
  send_received proxy Received.failed = proxy

  unfoldable pub consume_dhcp : Proxy → Ipv4Packet → Proxy × Bool
  unfolding is_dhcp_request receive_vm write_to_vm
  consume_dhcp proxy p =
      let proxy' = send_received proxy (
        receive_vm proxy.dhcp_server outside.default_message outside.from_bytes
          outside.encode_packet p p.udp_unchecked) in
      if is_dhcp_request p then (proxy', true) else (proxy, false)

  abbrev pub consume_answer : Proxy → Received → Proxy × Bool
  consume_answer proxy (Received.packet reply) = (send_received proxy (Received.packet reply), true)
  consume_answer proxy Received.no_reply = (proxy, false)
  consume_answer proxy Received.failed = (proxy, true)

  unfoldable pub consume_dns : Proxy → ℕ → Ipv4Packet → Proxy × Bool
  unfolding dns_query write_to_vm
  consume_dns proxy destination_mac p = elim proxy.dns_server [
    | none ↦ (proxy, false)
    | some dns_server ↦ elim (dns_query proxy.host.gateway_ip p) [
      | none ↦ (proxy, false)
      | some udp ↦ consume_answer proxy (
          outside.respond dns_server proxy.vm_mac_address destination_mac p udp
            proxy.host.max_packet_size)
    ]
  ]

  -- `self.flows.as_mut().map(|flows| flows.inspect(..)).unwrap_or(Untracked)`
  unfoldable pub inspect_flows : Proxy → Ipv4Packet → FlowDirection → ℕ → Proxy × FlowMatch
  unfolding inspect
  inspect_flows proxy p direction now = elim proxy.flows [
    | none ↦ (proxy, FlowMatch.untracked)
    | some flows ↦
        let (flows', matched) = inspect clock flows p direction now in
        (record proxy { flows = some flows' }, matched)
  ]

  -- The built-in fallbacks of `allowed_from_vm_ipv4`.
  unfoldable pub outbound_fallback : Proxy → Ipv4Packet → Option PendingFlow → Proxy × Bool
  unfolding admit_with_tracking_if_trackable
  outbound_fallback proxy p pending =
      let admitted = admit_with_tracking_if_trackable proxy pending in
      if outside.is_global p.dst_addr
      then admitted
      else (if p.dst_addr == proxy.host.gateway_ip then admitted else (proxy, false))

  -- The outbound policy on a packet that is pending or untracked.
  unfoldable pub outbound_policy :
      Proxy → Ipv4Packet → Option PendingFlow → Option PolicyDecision → Proxy × Bool
  unfolding admit_tracked admit_with_tracking_if_stateful outbound_fallback
  outbound_policy proxy p pending (some PolicyDecision.block) = (proxy, false)
  outbound_policy proxy p pending (some PolicyDecision.allow_stateless) =
      admit_with_tracking_if_stateful proxy pending p Direction.inbound
  outbound_policy proxy p pending (some PolicyDecision.allow_stateful) = admit_tracked proxy pending
  outbound_policy proxy p pending none = outbound_fallback proxy p pending

  -- The verdict of the flow table on a packet from the VM.
  unfoldable pub outbound_match : Proxy → Ipv4Packet → FlowMatch → Proxy × Bool
  unfolding outbound_policy policy_decision
  outbound_match proxy p FlowMatch.allowed = (proxy, true)
  outbound_match proxy p FlowMatch.denied = (proxy, false)
  outbound_match proxy p (FlowMatch.candidate pending) =
      outbound_policy proxy p (some pending)
        (policy_decision ipnet trie proxy.rules p Direction.outbound)
  outbound_match proxy p FlowMatch.untracked =
      outbound_policy proxy p none (policy_decision ipnet trie proxy.rules p Direction.outbound)

  -- What follows `consume_dns` in `allowed_from_vm_ipv4`.
  unfoldable pub outbound_flow : Proxy → Ipv4Packet → ℕ → Proxy × Bool
  unfolding inspect_flows outbound_match
  outbound_flow proxy p now =
      let (proxy', matched) = inspect_flows proxy p FlowDirection.from_vm now in
      outbound_match proxy' p matched

  unfoldable pub allowed_from_vm_ipv4 : Proxy → ℕ → Ipv4Packet → ℕ → Proxy × Bool
  unfolding consume_dhcp consume_dns outbound_flow
  allowed_from_vm_ipv4 proxy destination_mac p now =
      let (proxy1, is_dhcp) = consume_dhcp proxy p in
      if is_dhcp
      then (proxy1, false)
      else (if proxy1.host.vm_ip == p.src_addr
          then (let (proxy2, is_dns) = consume_dns proxy1 destination_mac p in
              if is_dns then (proxy2, false) else outbound_flow proxy2 p now)
          else (proxy1, false))

  abbrev pub allowed_payload : Proxy → ℕ → Payload → ℕ → Proxy × Bool
  allowed_payload proxy destination_mac (Payload.arp arp_pkt) now =
      (proxy, vm_arp_allowed arp_pkt proxy.vm_mac_address proxy.host.vm_ip)
  allowed_payload proxy destination_mac (Payload.ipv4 repr_valid p) now =
      if not repr_valid
      then (proxy, false)
      else (if not (p.header_len == ipv4_header_len_without_options)
          then (proxy, false)
          else allowed_from_vm_ipv4 proxy destination_mac p now)
  allowed_payload proxy destination_mac Payload.other now = (proxy, false)

  unfoldable pub allowed_from_vm : Proxy → EthernetFrame → ℕ → Proxy × Bool
  unfolding vm_arp_allowed allowed_from_vm_ipv4
  allowed_from_vm proxy ether now =
      if not (ether.src_addr == proxy.vm_mac_address)
      then (proxy, false)
      else allowed_payload proxy ether.dst_addr ether.payload now

  abbrev pub write_to_host : Proxy → EthernetFrame → Proxy × Bool
  write_to_host proxy ether =
      if outside.host_write proxy.host.written ether
      then (
        record proxy { host = record proxy.host { written = ether ∷ proxy.host.written } },
        true,
      )
      else (proxy, false)

  unfoldable pub process_frame_from_vm : Proxy → EthernetFrame → ℕ → Proxy × Bool
  unfolding allowed_from_vm
  process_frame_from_vm proxy ether now =
      let (proxy', allowed) = allowed_from_vm proxy ether now in
      if not allowed then (proxy', true) else write_to_host proxy' ether

  -- The inbound policy on a packet that is pending or untracked.
  unfoldable pub inbound_policy :
      Proxy → Ipv4Packet → Option PendingFlow → Option PolicyDecision → Proxy × Bool
  unfolding admit_tracked admit_with_tracking_if_stateful
  inbound_policy proxy p pending (some PolicyDecision.block) = (proxy, false)
  inbound_policy proxy p pending (some PolicyDecision.allow_stateless) = (proxy, false)
  inbound_policy proxy p pending (some PolicyDecision.allow_stateful) = admit_tracked proxy pending
  inbound_policy proxy p pending none =
      admit_with_tracking_if_stateful proxy pending p Direction.outbound

  unfoldable pub inbound_match : Proxy → Ipv4Packet → FlowMatch → Proxy × Bool
  unfolding inbound_policy policy_decision
  inbound_match proxy p FlowMatch.allowed = (proxy, true)
  inbound_match proxy p FlowMatch.denied = (proxy, false)
  inbound_match proxy p (FlowMatch.candidate pending) =
      inbound_policy proxy p (some pending)
        (policy_decision ipnet trie proxy.rules p Direction.inbound)
  inbound_match proxy p FlowMatch.untracked =
      inbound_policy proxy p none (policy_decision ipnet trie proxy.rules p Direction.inbound)

  -- What follows the check for legacy policies in `allowed_from_host_ipv4`.
  unfoldable pub inbound_flow : Proxy → Ipv4Packet → ℕ → Proxy × Bool
  unfolding inspect_flows inbound_match
  inbound_flow proxy p now =
      if proxy.host.vm_ip == p.dst_addr
      then (let (proxy', matched) = inspect_flows proxy p FlowDirection.from_host now in
          inbound_match proxy' p matched)
      else inbound_match proxy p FlowMatch.untracked

  unfoldable pub allowed_from_host_ipv4 : Proxy → Ipv4Packet → ℕ → Proxy × Bool
  unfolding is_dhcp_reply inbound_flow
  allowed_from_host_ipv4 proxy p now =
      if is_dhcp_reply p
      then (proxy, false)
      else elim proxy.flows [ none ↦ (proxy, true) | some _ ↦ inbound_flow proxy p now ]

  unfoldable pub allowed_from_host : Proxy → Payload → ℕ → Proxy × Bool
  unfolding allowed_from_host_ipv4
  allowed_from_host proxy (Payload.arp _) now = (proxy, true)
  allowed_from_host proxy (Payload.ipv4 repr_valid p) now =
      if not repr_valid then (proxy, false) else allowed_from_host_ipv4 proxy p now
  allowed_from_host proxy Payload.other now = (proxy, false)

  unfoldable pub process_frame_from_host : Proxy → EthernetFrame → ℕ → Proxy × Bool
  unfolding allowed_from_host write_to_vm
  process_frame_from_host proxy ether now =
      let (proxy', allowed) = allowed_from_host proxy ether.payload now in
      if not allowed then (proxy', true) else write_to_vm proxy' (Packet.frame ether)
