-- ===== src/Flows/Inspect.antt =====
-- lib/proxy/flows/mod.rs, tcp.rs, udp.rs, icmp.rs: what each verdict of `inspect` means.
use softnet.Prelude.{
  ℕ, ◌≡◌, refl, ◌≢◌, inl, inr, Bool, true, false, some, arith, if◌then◌else◌, Option-cases, sym,
  ◌∙◌,
}
use softnet.Prelude.HashMap.{get}
use softnet.Wire.{IpProtocol, TcpPacket, UdpPacket, IcmpPacket, IcmpMessage, Ipv4Packet}
use softnet.Flows.{
  Clock, Flow, FlowKey, FlowKey-discrete, FlowDirection, FlowTable, FlowMatch, tcp_timeout,
  udp_timeout, echo_timeout, unwrap_or, new_candidate, opposite, tcp_key, udp_key, icmp_echo_key,
  match_existing_flow, inspect_tcp, inspect_udp, inspect_echo, inspect_message, inspect_icmp,
  inspect_protocol, sweep_if_due, inspect,
}
use softnet.Flows.Table.{IsValid, live, live-sweep}

-- The host's and the VM's end of a packet.
abbrev pub host_addr : Ipv4Packet → FlowDirection → ℕ
host_addr p FlowDirection.from_host = p.src_addr
host_addr p FlowDirection.from_vm = p.dst_addr

abbrev pub vm_addr : Ipv4Packet → FlowDirection → ℕ
vm_addr p FlowDirection.from_host = p.dst_addr
vm_addr p FlowDirection.from_vm = p.src_addr

abbrev pub host_port : FlowDirection → ℕ → ℕ → ℕ
host_port FlowDirection.from_host src dst = src
host_port FlowDirection.from_vm src dst = dst

abbrev pub vm_port : FlowDirection → ℕ → ℕ → ℕ
vm_port FlowDirection.from_host src dst = dst
vm_port FlowDirection.from_vm src dst = src

-- The side that sent the echo request of an exchange, by the message that travels.
abbrev pub Initiates : IcmpMessage → FlowDirection → FlowDirection → Type 0
Initiates IcmpMessage.echo_request d i = i ≡ d
Initiates IcmpMessage.echo_reply d i = i ≡ opposite d
Initiates IcmpMessage.other d i = ⊥

-- The key is the exact tuple of a packet that travels in the direction.
abbrev pub Names : Ipv4Packet → FlowDirection → FlowKey → Type 0
Names p d (FlowKey.tcp ha hp va vp) =
    (s : TcpPacket) × (p.next_header ≡ IpProtocol.tcp)
    × (p.tcp ≡ some s)
    × (host_addr p d ≡ ha)
    × (host_port d s.src_port s.dst_port ≡ hp)
    × (vm_addr p d ≡ va)
    × (vm_port d s.src_port s.dst_port ≡ vp)
Names p d (FlowKey.udp ha hp va vp) =
    (s : UdpPacket) × (p.next_header ≡ IpProtocol.udp)
    × (p.udp ≡ some s)
    × (host_addr p d ≡ ha)
    × (host_port d s.src_port s.dst_port ≡ hp)
    × (vm_addr p d ≡ va)
    × (vm_port d s.src_port s.dst_port ≡ vp)
Names p d (FlowKey.icmp_echo ha va ident i) =
    (s : IcmpPacket) × (p.next_header ≡ IpProtocol.icmp)
    × (p.icmp ≡ some s)
    × (s.checksum_valid ≡ true)
    × (s.msg_code ≡ 0)
    × (s.echo_ident ≡ ident)
    × (host_addr p d ≡ ha)
    × (vm_addr p d ≡ va)
    × Initiates s.msg_type d i

-- The packet is the return traffic of an admitted flow that has not expired.
pub record Permitted (t : FlowTable) (p : Ipv4Packet) (d : FlowDirection) (now : ℕ) : Type 0 where
  pub key : FlowKey
  pub flow : Flow
  pub names : Names p d key
  pub stored : live t key now ≡ some flow
  pub reverse : flow.initiating_direction ≡ opposite d

pub tcp_key-Names :
    (p : Ipv4Packet) (d : FlowDirection) (s : TcpPacket)
    → p.next_header ≡ IpProtocol.tcp
    → p.tcp ≡ some s
    → Names p d (tcp_key d (p.src_addr, s.src_port) (p.dst_addr, s.dst_port))
unfolding tcp_key
tcp_key-Names p FlowDirection.from_host s e n = (s, e, n, refl, refl, refl, refl)
tcp_key-Names p FlowDirection.from_vm s e n = (s, e, n, refl, refl, refl, refl)

pub udp_key-Names :
    (p : Ipv4Packet) (d : FlowDirection) (s : UdpPacket)
    → p.next_header ≡ IpProtocol.udp
    → p.udp ≡ some s
    → Names p d (udp_key d (p.src_addr, s.src_port) (p.dst_addr, s.dst_port))
unfolding udp_key
udp_key-Names p FlowDirection.from_host s e n = (s, e, n, refl, refl, refl, refl)
udp_key-Names p FlowDirection.from_vm s e n = (s, e, n, refl, refl, refl, refl)

pub icmp_echo_key-Names :
    (p : Ipv4Packet) (d i : FlowDirection) (s : IcmpPacket)
    → p.next_header ≡ IpProtocol.icmp
    → p.icmp ≡ some s
    → s.checksum_valid ≡ true
    → s.msg_code ≡ 0
    → Initiates s.msg_type d i
    → Names p d (icmp_echo_key p.src_addr p.dst_addr d i s.echo_ident)
unfolding icmp_echo_key
icmp_echo_key-Names p FlowDirection.from_host i s e n c z w = (s, e, n, c, z, refl, refl, refl, w)
icmp_echo_key-Names p FlowDirection.from_vm i s e n c z w = (s, e, n, c, z, refl, refl, refl, w)

module _ (clock : Clock) where
  match_existing_allowed :
      (t : FlowTable) (k : FlowKey) (d : FlowDirection) (now timeout : ℕ)
      → match_existing_flow clock t k d now timeout ≡ some FlowMatch.allowed
      → (f : Flow) × (live t k now ≡ some f) × (f.initiating_direction ≡ opposite d)
  unfolding match_existing_flow live opposite
  match_existing_allowed t k d now timeout h =
      elim (Option-cases (get FlowKey-discrete k t.flows)) [
        | inl e ↦ absurd (ground arith)
        | inr (f, e) ↦ (f, ground arith, ground arith)
      ]

  -- A verdict of `unwrap_or` on the lookup, where the fallback is no permission.
  Permitted-match :
      (t : FlowTable) (p : Ipv4Packet) (k : FlowKey) (d : FlowDirection) (now timeout : ℕ)
      (other : FlowMatch)
      → Names p d k
      → other ≢ FlowMatch.allowed
      → unwrap_or (match_existing_flow clock t k d now timeout) other ≡ FlowMatch.allowed
      → Permitted t p d now
  Permitted-match t p k d now timeout other names no_other h =
      let (f, stored, reverse) = match_existing_allowed t k d now timeout (ground arith) in
      record { key = k; flow = f; names = names; stored = stored; reverse = reverse }

  tcp_allowed :
      (t : FlowTable) (p : Ipv4Packet) (d : FlowDirection) (now : ℕ)
      → p.next_header ≡ IpProtocol.tcp
      → inspect_tcp clock t p d now ≡ FlowMatch.allowed
      → Permitted t p d now
  unfolding inspect_tcp
  tcp_allowed t p d now e h = elim (Option-cases p.tcp) [
    | inl n ↦ absurd (ground arith)
    | inr (s, n) ↦
        let k = tcp_key d (p.src_addr, s.src_port) (p.dst_addr, s.dst_port) in
        Permitted-match t p k d now (tcp_timeout clock) FlowMatch.untracked
          (tcp_key-Names p d s e n) (λ c. cc) (ground arith)
  ]

  udp_allowed :
      (t : FlowTable) (p : Ipv4Packet) (d : FlowDirection) (now : ℕ)
      → p.next_header ≡ IpProtocol.udp
      → inspect_udp clock t p d now ≡ FlowMatch.allowed
      → Permitted t p d now
  unfolding inspect_udp
  udp_allowed t p d now e h = elim (Option-cases p.udp) [
    | inl n ↦ absurd (ground arith)
    | inr (s, n) ↦
        let k = udp_key d (p.src_addr, s.src_port) (p.dst_addr, s.dst_port) in
        Permitted-match t p k d now (udp_timeout clock)
          (new_candidate clock k d now (udp_timeout clock)) (udp_key-Names p d s e n) (λ c. cc)
          (ground arith)
  ]

  echo_allowed :
      (t : FlowTable) (p : Ipv4Packet) (d : FlowDirection) (s : IcmpPacket) (r : Bool) (now : ℕ)
      → p.next_header ≡ IpProtocol.icmp
      → p.icmp ≡ some s
      → s.checksum_valid ≡ true
      → s.msg_code ≡ 0
      → Initiates s.msg_type d (if r then d else opposite d)
      → inspect_echo clock t p d s.echo_ident r now ≡ FlowMatch.allowed
      → Permitted t p d now
  unfolding inspect_echo
  echo_allowed t p d s r now e n c z w h =
      Permitted-match t p _ d now (echo_timeout clock) _
        (icmp_echo_key-Names p d (if r then d else opposite d) s e n c z w) (ground arith) h

  message_allowed :
      (t : FlowTable) (p : Ipv4Packet) (d : FlowDirection) (m : IcmpMessage) (s : IcmpPacket)
      (now : ℕ)
      → s.msg_type ≡ m
      → p.next_header ≡ IpProtocol.icmp
      → p.icmp ≡ some s
      → s.checksum_valid ≡ true
      → inspect_message clock t p d m s now ≡ FlowMatch.allowed
      → Permitted t p d now
  unfolding inspect_message
  message_allowed t p d IcmpMessage.echo_request s now m e n c h =
      echo_allowed t p d s true now e n c (ground arith) (rw m refl) (ground arith)
  message_allowed t p d IcmpMessage.echo_reply s now m e n c h =
      echo_allowed t p d s false now e n c (ground arith) (rw m refl) (ground arith)
  message_allowed t p d IcmpMessage.other s now m e n c h = cc

  icmp_allowed :
      (t : FlowTable) (p : Ipv4Packet) (d : FlowDirection) (now : ℕ)
      → p.next_header ≡ IpProtocol.icmp
      → inspect_icmp clock t p d now ≡ FlowMatch.allowed
      → Permitted t p d now
  unfolding inspect_icmp
  icmp_allowed t p d now e h = elim (Option-cases p.icmp) [
    | inl n ↦ absurd (ground arith)
    | inr (s, n) ↦ message_allowed t p d s.msg_type s now refl e n (ground arith) (ground arith)
  ]

  protocol_allowed :
      (t : FlowTable) (p : Ipv4Packet) (d : FlowDirection) (x : IpProtocol) (now : ℕ)
      → p.next_header ≡ x
      → inspect_protocol clock t p d x now ≡ FlowMatch.allowed
      → Permitted t p d now
  unfolding inspect_protocol
  protocol_allowed t p d IpProtocol.icmp now e h = icmp_allowed t p d now e h
  protocol_allowed t p d IpProtocol.tcp now e h = tcp_allowed t p d now e h
  protocol_allowed t p d IpProtocol.udp now e h = udp_allowed t p d now e h
  protocol_allowed t p d IpProtocol.other now e h = cc

  Permitted-swept :
      (t : FlowTable) (p : Ipv4Packet) (d : FlowDirection) (now : ℕ)
      → IsValid t
      → Permitted (sweep_if_due clock t now) p d now
      → Permitted t p d now
  Permitted-swept t p d now v r = record {
    key = r.key;
    flow = r.flow;
    names = r.names;
    stored = sym (live-sweep clock t r.key now v) ∙ r.stored;
    reverse = r.reverse;
  }

  -- A packet is allowed only as the return traffic of an admitted flow: it is no fragment, the
  -- table holds an unexpired flow under its exact tuple, and that flow was initiated from the other
  -- side. The table is free of duplicates and within its limit.
  pub allowed-Permitted :
      (t : FlowTable) (p : Ipv4Packet) (d : FlowDirection) (now : ℕ)
      → IsValid t
      → (inspect clock t p d now).1 ≡ FlowMatch.allowed
      → (p.more_frags ≡ false) × (p.frag_offset ≡ 0) × Permitted t p d now
  unfolding inspect
  allowed-Permitted t p d now v h =
      let verdict : inspect_protocol clock (sweep_if_due clock t now) p d p.next_header now
          ≡ FlowMatch.allowed =
        ground arith in
      (
        ground arith,
        ground arith,
        Permitted-swept t p d now v
            (protocol_allowed (sweep_if_due clock t now) p d p.next_header now refl verdict),
      )
