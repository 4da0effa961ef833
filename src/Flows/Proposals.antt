-- ===== src/Flows/Proposals.antt =====
-- lib/proxy/flows/mod.rs, tcp.rs, udp.rs, icmp.rs: what a candidate for the flow table is.
use softnet.Prelude.{
  ℕ, ◌≡◌, refl, sym, ◌⊎◌, inl, inr, true, false, some, arith, Option-cases, Bool-cases, subst,
}
use softnet.Prelude.HashMap.{get}
use softnet.Wire.{IpProtocol, TcpPacket, IcmpPacket, IcmpMessage, Ipv4Packet}
use softnet.Flows.{
  Clock, Flow, FlowKey, FlowKey-discrete, FlowDirection, FlowTable, PendingFlow, FlowMatch,
  syn_timeout, tcp_timeout, udp_timeout, echo_timeout, unwrap_or, new_candidate, opposite,
  is_initial_syn, tcp_key, udp_key, match_existing_flow, inspect_tcp, inspect_udp, inspect_echo,
  inspect_message, inspect_icmp, inspect_protocol, sweep_if_due, inspect,
}
use softnet.Flows.Table.{IsValid, live, live-sweep}
use softnet.Flows.Inspect.{Names, tcp_key-Names, udp_key-Names, icmp_echo_key-Names}

-- The packet may start a flow: a bare SYN, any datagram, or an echo request.
abbrev pub Starts : Ipv4Packet → IpProtocol → Type 0
Starts p IpProtocol.tcp = (s : TcpPacket) × (p.tcp ≡ some s) × (is_initial_syn s ≡ true)
Starts p IpProtocol.udp = Unit
Starts p IpProtocol.icmp =
    (s : IcmpPacket) × (p.icmp ≡ some s) × (s.msg_type ≡ IcmpMessage.echo_request)
Starts p IpProtocol.other = ⊥

-- The lifetimes that the table grants.
abbrev pub Timeout : Clock → ℕ → Type 0
Timeout clock x = (x ≡ clock.from_secs 30) ⊎ ((x ≡ clock.from_secs 60) ⊎ (x ≡ clock.from_secs 300))

-- An entry under the exact tuple of the packet, in the direction of the packet, for a packet that
-- may start a flow or continues an unexpired flow of that direction.
pub record Proposed (clock : Clock) (t : FlowTable) (p : Ipv4Packet) (d : FlowDirection) (now : ℕ)
    (q : PendingFlow) : Type 0 where
  pub names : Names p d q.key
  pub direction : q.flow.initiating_direction ≡ d
  pub timeout : ℕ
  pub granted : Timeout clock timeout
  pub expiry : q.flow.expires_at ≡ clock.add now timeout
  pub justified :
      Starts p p.next_header
      ⊎ ((f : Flow) × (live t q.key now ≡ some f) × (f.initiating_direction ≡ d))

module _ (clock : Clock) where
  match_existing_candidate :
      (t : FlowTable) (k : FlowKey) (d : FlowDirection) (now timeout : ℕ) (q : PendingFlow)
      → match_existing_flow clock t k d now timeout ≡ some (FlowMatch.candidate q)
      → (f : Flow) × (live t k now ≡ some f)
        × (f.initiating_direction ≡ d)
        × (q.key ≡ k)
        × (q.flow.initiating_direction ≡ d)
        × (q.flow.expires_at ≡ clock.add now timeout)
  unfolding match_existing_flow live
  match_existing_candidate t k d now timeout q h =
      elim (Option-cases (get FlowKey-discrete k t.flows)) [
        | inl e ↦ absurd (ground arith)
        | inr (f, e) ↦ (f, ground arith, ground arith, ground arith, ground arith, ground arith)
      ]

  -- A verdict of `unwrap_or` on the lookup: the fallback starts the flow, or is no candidate.
  Proposed-match :
      (t : FlowTable) (p : Ipv4Packet) (k : FlowKey) (d : FlowDirection) (now timeout : ℕ)
      (other : FlowMatch) (q : PendingFlow)
      → Names p d k
      → Timeout clock timeout
      → (other ≡ FlowMatch.candidate q → Proposed clock t p d now q)
      → unwrap_or (match_existing_flow clock t k d now timeout) other ≡ FlowMatch.candidate q
      → Proposed clock t p d now q
  Proposed-match t p k d now timeout other q names granted start h =
      elim (Option-cases (match_existing_flow clock t k d now timeout)) [
        | inl e ↦ start (ground arith)
        | inr (m, e) ↦
            let (f, stored, init, same, dir, exp) =
              match_existing_candidate t k d now timeout q (ground arith) in
            record {
              names = subst (Names p d) (sym same) names;
              direction = dir;
              timeout = timeout;
              granted = granted;
              expiry = exp;
              justified = inr (f, rw same stored, init);
            }
      ]

  new_candidate-Proposed :
      (t : FlowTable) (p : Ipv4Packet) (k : FlowKey) (d : FlowDirection) (now timeout : ℕ)
      (q : PendingFlow)
      → Names p d k
      → Timeout clock timeout
      → Starts p p.next_header
      → new_candidate clock k d now timeout ≡ FlowMatch.candidate q
      → Proposed clock t p d now q
  unfolding new_candidate
  new_candidate-Proposed t p k d now timeout q names granted starts h =
      let same : q.key ≡ k = ground arith in
      record {
        names = subst (Names p d) (sym same) names;
        direction = ground arith;
        timeout = timeout;
        granted = granted;
        expiry = ground arith;
        justified = inl starts;
      }

  module _ (t : FlowTable) (p : Ipv4Packet) (d : FlowDirection) (now : ℕ) (q : PendingFlow) where
    tcp_candidate :
        p.next_header ≡ IpProtocol.tcp
        → inspect_tcp clock t p d now ≡ FlowMatch.candidate q
        → Proposed clock t p d now q
    unfolding inspect_tcp
    tcp_candidate e h = elim (Option-cases p.tcp) [
      | inl n ↦ absurd (ground arith)
      | inr (s, n) ↦
          let k = tcp_key d (p.src_addr, s.src_port) (p.dst_addr, s.dst_port) in
          elim (Bool-cases (is_initial_syn s)) [
            | inl y ↦
                new_candidate-Proposed t p k d now (syn_timeout clock) q (tcp_key-Names p d s e n)
                  (inr (inl refl)) (rw e (s, n, y)) (ground arith)
            | inr y ↦
                Proposed-match t p k d now (tcp_timeout clock) FlowMatch.untracked q
                  (tcp_key-Names p d s e n) (inr (inr refl)) (λ c. cc) (ground arith)
          ]
    ]

    udp_candidate :
        p.next_header ≡ IpProtocol.udp
        → inspect_udp clock t p d now ≡ FlowMatch.candidate q
        → Proposed clock t p d now q
    unfolding inspect_udp
    udp_candidate e h = elim (Option-cases p.udp) [
      | inl n ↦ absurd (ground arith)
      | inr (s, n) ↦
          let k = udp_key d (p.src_addr, s.src_port) (p.dst_addr, s.dst_port) in
          Proposed-match t p k d now (udp_timeout clock)
            (new_candidate clock k d now (udp_timeout clock)) q (udp_key-Names p d s e n) (inl refl)
            (new_candidate-Proposed t p k d now (udp_timeout clock) q (udp_key-Names p d s e n)
              (inl refl) (rw e tt))
            (ground arith)
    ]

    request_candidate :
        (s : IcmpPacket)
        → p.next_header ≡ IpProtocol.icmp
        → p.icmp ≡ some s
        → s.checksum_valid ≡ true
        → s.msg_code ≡ 0
        → s.msg_type ≡ IcmpMessage.echo_request
        → inspect_echo clock t p d s.echo_ident true now ≡ FlowMatch.candidate q
        → Proposed clock t p d now q
    unfolding inspect_echo
    request_candidate s e n c z m h =
        let names = icmp_echo_key-Names p d d s e n c z (rw m refl) in
        Proposed-match t p _ d now (echo_timeout clock) _ q names (inl refl)
          (new_candidate-Proposed t p _ d now (echo_timeout clock) q names (inl refl)
            (rw e (s, n, m)))
          h

    reply_candidate :
        (s : IcmpPacket)
        → p.next_header ≡ IpProtocol.icmp
        → p.icmp ≡ some s
        → s.checksum_valid ≡ true
        → s.msg_code ≡ 0
        → s.msg_type ≡ IcmpMessage.echo_reply
        → inspect_echo clock t p d s.echo_ident false now ≡ FlowMatch.candidate q
        → Proposed clock t p d now q
    unfolding inspect_echo
    reply_candidate s e n c z m h =
        Proposed-match t p _ d now (echo_timeout clock) _ q
          (icmp_echo_key-Names p d (opposite d) s e n c z (rw m refl)) (inl refl) (λ c. cc) h

    message_candidate :
        (m : IcmpMessage) (s : IcmpPacket)
        → s.msg_type ≡ m
        → p.next_header ≡ IpProtocol.icmp
        → p.icmp ≡ some s
        → s.checksum_valid ≡ true
        → inspect_message clock t p d m s now ≡ FlowMatch.candidate q
        → Proposed clock t p d now q
    unfolding inspect_message
    message_candidate IcmpMessage.echo_request s m e n c h =
        request_candidate s e n c (ground arith) m (ground arith)
    message_candidate IcmpMessage.echo_reply s m e n c h =
        reply_candidate s e n c (ground arith) m (ground arith)
    message_candidate IcmpMessage.other s m e n c h = cc

    icmp_candidate :
        p.next_header ≡ IpProtocol.icmp
        → inspect_icmp clock t p d now ≡ FlowMatch.candidate q
        → Proposed clock t p d now q
    unfolding inspect_icmp
    icmp_candidate e h = elim (Option-cases p.icmp) [
      | inl n ↦ absurd (ground arith)
      | inr (s, n) ↦ message_candidate s.msg_type s refl e n (ground arith) (ground arith)
    ]

    protocol_candidate :
        (x : IpProtocol)
        → p.next_header ≡ x
        → inspect_protocol clock t p d x now ≡ FlowMatch.candidate q
        → Proposed clock t p d now q
    unfolding inspect_protocol
    protocol_candidate IpProtocol.icmp e h = icmp_candidate e h
    protocol_candidate IpProtocol.tcp e h = tcp_candidate e h
    protocol_candidate IpProtocol.udp e h = udp_candidate e h
    protocol_candidate IpProtocol.other e h = cc

  -- A candidate is an entry under the exact tuple of an unfragmented packet, in the direction of
  -- the packet, which lives 30, 60 or 300 seconds from now. The packet is a bare SYN, a datagram
  -- or an echo request, or else an unexpired flow of the same direction is stored under that
  -- tuple. The table is free of duplicates and within its limit.
  pub candidate-Proposed :
      (t : FlowTable) (p : Ipv4Packet) (d : FlowDirection) (now : ℕ) (q : PendingFlow)
      → IsValid t
      → (inspect clock t p d now).1 ≡ FlowMatch.candidate q
      → (p.more_frags ≡ false) × (p.frag_offset ≡ 0) × Proposed clock t p d now q
  unfolding inspect
  candidate-Proposed t p d now q v h =
      let swept = sweep_if_due clock t now in
      let verdict : inspect_protocol clock swept p d p.next_header now ≡ FlowMatch.candidate q =
        ground arith in
      let r = protocol_candidate swept p d now q p.next_header refl verdict in
      (
        ground arith,
        ground arith,
        record {
          names = r.names;
          direction = r.direction;
          timeout = r.timeout;
          granted = r.granted;
          expiry = r.expiry;
          justified = rw (live-sweep clock t q.key now v) at r.justified;
        },
      )
