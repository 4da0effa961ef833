-- ===== src/Flows/Replies.antt =====
-- lib/proxy/flows/mod.rs, tcp.rs, udp.rs, icmp.rs: an admitted flow opens the way for its replies.
use softnet.Prelude.{ℕ, ◌≡◌, ◌<◌, refl, ◌∙◌, true, false, some, arith, ◌==◌, if_pos}
use softnet.Prelude.HashMap.{get}
use softnet.Wire.{IpProtocol, TcpPacket, UdpPacket, IcmpPacket, IcmpMessage, Ipv4Packet}
use softnet.Flows.{
  Clock, Flow, FlowKey, FlowKey-discrete, FlowDirection, FlowTable, PendingFlow, FlowMatch,
  opposite, is_initial_syn, tcp_key, udp_key, icmp_echo_key, commit, match_existing_flow,
  inspect_tcp, inspect_udp, inspect_icmp, inspect_protocol, sweep_if_due, inspect, echo_timeout,
  tcp_timeout, udp_timeout,
}
use softnet.Flows.Table.{IsValid, live, live-sweep, commit-IsValid, get-commit, inspect-IsValid}
use softnet.Flows.Inspect.{Names}
use softnet.Flows.Proposals.{candidate-Proposed}

-- The transport part of an answer, after the protocol of the request.
abbrev pub Answers : IpProtocol → Ipv4Packet → Ipv4Packet → Type 0
Answers IpProtocol.tcp p q =
    (s s' : TcpPacket) × (p.tcp ≡ some s)
    × (q.tcp ≡ some s')
    × (s'.src_port ≡ s.dst_port)
    × (s'.dst_port ≡ s.src_port)
    × ((s.src_port == 0) ≡ false)
    × ((s.dst_port == 0) ≡ false)
    × (is_initial_syn s' ≡ false)
Answers IpProtocol.udp p q =
    (s s' : UdpPacket) × (p.udp ≡ some s)
    × (q.udp ≡ some s')
    × (s'.src_port ≡ s.dst_port)
    × (s'.dst_port ≡ s.src_port)
    × ((s.src_port == 0) ≡ false)
    × ((s.dst_port == 0) ≡ false)
Answers IpProtocol.icmp p q =
    (s s' : IcmpPacket) × (p.icmp ≡ some s)
    × (q.icmp ≡ some s')
    × (s.msg_type ≡ IcmpMessage.echo_request)
    × (s'.msg_type ≡ IcmpMessage.echo_reply)
    × (s'.msg_code ≡ 0)
    × (s'.checksum_valid ≡ true)
    × (s'.echo_ident ≡ s.echo_ident)
Answers IpProtocol.other p q = ⊥

-- `q` answers `p`: the same protocol, the tuple reversed, no fragment.
pub record IsReply (p q : Ipv4Packet) : Type 0 where
  pub protocol : q.next_header ≡ p.next_header
  pub source : q.src_addr ≡ p.dst_addr
  pub destination : q.dst_addr ≡ p.src_addr
  pub last_fragment : q.more_frags ≡ false
  pub first_fragment : q.frag_offset ≡ 0
  pub answers : Answers p.next_header p q

tcp_key-reverse :
    (p q : Ipv4Packet) (s s' : TcpPacket) (k : FlowKey) (d : FlowDirection)
    → q.src_addr ≡ p.dst_addr
    → q.dst_addr ≡ p.src_addr
    → p.next_header ≡ IpProtocol.tcp
    → p.tcp ≡ some s
    → s'.src_port ≡ s.dst_port
    → s'.dst_port ≡ s.src_port
    → Names p d k
    → tcp_key (opposite d) (q.src_addr, s'.src_port) (q.dst_addr, s'.dst_port) ≡ k
unfolding tcp_key opposite
tcp_key-reverse p q s s' (FlowKey.tcp ha hp va vp) FlowDirection.from_host a b e n e1 e2 m =
    ground arith
tcp_key-reverse p q s s' (FlowKey.tcp ha hp va vp) FlowDirection.from_vm a b e n e1 e2 m =
    ground arith
tcp_key-reverse p q s s' (FlowKey.udp ha hp va vp) FlowDirection.from_host a b e n e1 e2 m =
    ground arith
tcp_key-reverse p q s s' (FlowKey.udp ha hp va vp) FlowDirection.from_vm a b e n e1 e2 m =
    ground arith
tcp_key-reverse p q s s' (FlowKey.icmp_echo ha va i w) FlowDirection.from_host a b e n e1 e2 m =
    ground arith
tcp_key-reverse p q s s' (FlowKey.icmp_echo ha va i w) FlowDirection.from_vm a b e n e1 e2 m =
    ground arith

udp_key-reverse :
    (p q : Ipv4Packet) (s s' : UdpPacket) (k : FlowKey) (d : FlowDirection)
    → q.src_addr ≡ p.dst_addr
    → q.dst_addr ≡ p.src_addr
    → p.next_header ≡ IpProtocol.udp
    → p.udp ≡ some s
    → s'.src_port ≡ s.dst_port
    → s'.dst_port ≡ s.src_port
    → Names p d k
    → udp_key (opposite d) (q.src_addr, s'.src_port) (q.dst_addr, s'.dst_port) ≡ k
unfolding udp_key opposite
udp_key-reverse p q s s' (FlowKey.tcp ha hp va vp) FlowDirection.from_host a b e n e1 e2 m =
    ground arith
udp_key-reverse p q s s' (FlowKey.tcp ha hp va vp) FlowDirection.from_vm a b e n e1 e2 m =
    ground arith
udp_key-reverse p q s s' (FlowKey.udp ha hp va vp) FlowDirection.from_host a b e n e1 e2 m =
    ground arith
udp_key-reverse p q s s' (FlowKey.udp ha hp va vp) FlowDirection.from_vm a b e n e1 e2 m =
    ground arith
udp_key-reverse p q s s' (FlowKey.icmp_echo ha va i w) FlowDirection.from_host a b e n e1 e2 m =
    ground arith
udp_key-reverse p q s s' (FlowKey.icmp_echo ha va i w) FlowDirection.from_vm a b e n e1 e2 m =
    ground arith

icmp_echo_key-reverse :
    (p q : Ipv4Packet) (s s' : IcmpPacket) (k : FlowKey) (d : FlowDirection)
    → q.src_addr ≡ p.dst_addr
    → q.dst_addr ≡ p.src_addr
    → p.next_header ≡ IpProtocol.icmp
    → p.icmp ≡ some s
    → s.msg_type ≡ IcmpMessage.echo_request
    → s'.echo_ident ≡ s.echo_ident
    → Names p d k
    → icmp_echo_key q.src_addr q.dst_addr (opposite d) (opposite (opposite d)) s'.echo_ident ≡ k
unfolding icmp_echo_key opposite
icmp_echo_key-reverse p q s s' (FlowKey.tcp ha hp va vp) FlowDirection.from_host a b e n r e1 m =
    ground arith
icmp_echo_key-reverse p q s s' (FlowKey.tcp ha hp va vp) FlowDirection.from_vm a b e n r e1 m =
    ground arith
icmp_echo_key-reverse p q s s' (FlowKey.udp ha hp va vp) FlowDirection.from_host a b e n r e1 m =
    ground arith
icmp_echo_key-reverse p q s s' (FlowKey.udp ha hp va vp) FlowDirection.from_vm a b e n r e1 m =
    ground arith
icmp_echo_key-reverse p q s s' (FlowKey.icmp_echo ha va i w) FlowDirection.from_host a b e n r e1
      m =
    ground arith
icmp_echo_key-reverse p q s s' (FlowKey.icmp_echo ha va i w) FlowDirection.from_vm a b e n r e1 m =
    ground arith

module _ (clock : Clock) where
  match_existing_reverse :
      (t : FlowTable) (k : FlowKey) (d : FlowDirection) (now timeout : ℕ) (f : Flow)
      → live t k now ≡ some f
      → f.initiating_direction ≡ d
      → match_existing_flow clock t k (opposite d) now timeout ≡ some FlowMatch.allowed
  unfolding match_existing_flow live opposite
  match_existing_reverse t k FlowDirection.from_host now timeout f h e = ground arith
  match_existing_reverse t k FlowDirection.from_vm now timeout f h e = ground arith

  module _ (t : FlowTable) (p q : Ipv4Packet) (k : FlowKey) (d : FlowDirection) (now : ℕ) (f : Flow)
      (stored : live t k now ≡ some f) (init : f.initiating_direction ≡ d) (names : Names p d k)
      (source : q.src_addr ≡ p.dst_addr) (destination : q.dst_addr ≡ p.src_addr) where
    tcp_reply :
        p.next_header ≡ IpProtocol.tcp
        → Answers IpProtocol.tcp p q
        → inspect_tcp clock t q (opposite d) now ≡ FlowMatch.allowed
    unfolding inspect_tcp
    tcp_reply e (s, s', hp, hq, e1, e2, z1, z2, ns) =
        let same = tcp_key-reverse p q s s' k d source destination e hp e1 e2 names in
        let found = match_existing_reverse t k d now (tcp_timeout clock) f stored init in
        rw (hq, inspect_tcp, e1, e2, z1, z2, ns) (rw (← e1) (rw (← e2) (rw same (rw found))))

    udp_reply :
        p.next_header ≡ IpProtocol.udp
        → Answers IpProtocol.udp p q
        → inspect_udp clock t q (opposite d) now ≡ FlowMatch.allowed
    unfolding inspect_udp
    udp_reply e (s, s', hp, hq, e1, e2, z1, z2) =
        let same = udp_key-reverse p q s s' k d source destination e hp e1 e2 names in
        let found = match_existing_reverse t k d now (udp_timeout clock) f stored init in
        ground (arith, same, found)

    icmp_reply :
        p.next_header ≡ IpProtocol.icmp
        → Answers IpProtocol.icmp p q
        → inspect_icmp clock t q (opposite d) now ≡ FlowMatch.allowed
    unfolding inspect_icmp
    icmp_reply e (s, s', hp, hq, m, m', z, c, i) =
        let same = icmp_echo_key-reverse p q s s' k d source destination e hp m i names in
        let found = match_existing_reverse t k d now (echo_timeout clock) f stored init in
        ground (arith, same, found)

    protocol_reply :
        (x : IpProtocol)
        → p.next_header ≡ x
        → Answers x p q
        → inspect_protocol clock t q (opposite d) x now ≡ FlowMatch.allowed
    unfolding inspect_protocol
    protocol_reply IpProtocol.icmp e a = icmp_reply e a
    protocol_reply IpProtocol.tcp e a = tcp_reply e a
    protocol_reply IpProtocol.udp e a = udp_reply e a
    protocol_reply IpProtocol.other e a = absurd a

  -- The unexpired entry of a committed flow.
  live-commit :
      (t : FlowTable) (pending : PendingFlow) (later : ℕ)
      → (commit t pending).1 ≡ true
      → later < pending.flow.expires_at
      → live (commit t pending).0 pending.key later ≡ some pending.flow
  unfolding live
  live-commit t pending later done early =
      let stored : get FlowKey-discrete pending.key (commit t pending).0.flows ≡ some pending.flow =
        get-commit t pending pending.key
        ∙ rw (done, if_pos (FlowKey-discrete pending.key pending.key) refl (some pending.flow) _) in
      rw stored (ground arith)

  -- Once a candidate is committed, every answer to its packet is allowed until the entry expires:
  -- the reversed tuple, in the other direction, unfragmented, and for TCP no bare SYN between
  -- nonzero ports, for ICMP the echo reply with the same identifier. The table is free of
  -- duplicates and within its limit, and the commit was accepted.
  pub reply-allowed :
      (t : FlowTable) (p q : Ipv4Packet) (d : FlowDirection) (now later : ℕ) (pending : PendingFlow)
      → IsValid t
      → (inspect clock t p d now).1 ≡ FlowMatch.candidate pending
      → (commit (inspect clock t p d now).0 pending).1 ≡ true
      → IsReply p q
      → later < pending.flow.expires_at
      → (inspect clock (commit (inspect clock t p d now).0 pending).0 q (opposite d) later).1
        ≡ FlowMatch.allowed
  unfolding inspect
  reply-allowed t p q d now later pending v h done r early =
      let seen = inspect clock t p d now in
      let table : FlowTable = (commit seen.0 pending).0 in
      let valid = commit-IsValid seen.0 pending (inspect-IsValid clock t p d now v) in
      let c = (candidate-Proposed clock t p d now pending v h).2 in
      let stored =
        live-sweep clock table pending.key later valid
        ∙ live-commit seen.0 pending later done early in
      let swept = sweep_if_due clock table later in
      let verdict =
        protocol_reply swept p q pending.key d later pending.flow stored c.direction c.names
          r.source r.destination p.next_header refl r.answers in
      simp (r.protocol, r.last_fragment, r.first_fragment) verdict
