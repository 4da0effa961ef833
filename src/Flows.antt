-- ===== src/Flows.antt =====
-- lib/proxy/flows/{mod,tcp,udp,icmp}.rs: the flow table, a bounded cache of exact-tuple
-- permissions for return traffic. `Instant::recent()` is the argument `now`.
pub mod Table
pub mod Sweep
pub mod Inspect
pub mod Proposals
pub mod Replies
pub mod Expiry
use softnet.Prelude.{
  ℕ, Bool, true, false, not, ◌&&◌, ◌||◌, Option, none, some, List, [], ltb, leb, ◌==◌,
  if◌then◌else◌, length, ℕ_discrete,
}
use softnet.Prelude.HashMap.{get, insert, retain, contains_key}
use softnet.Wire.{IpProtocol, TcpPacket, IcmpPacket, IcmpMessage, Ipv4Packet}

-- The coarsetime crate: instants and durations are numbers of ticks, `from_secs` is
-- `Duration::from_secs` and `add` is `Instant + Duration`.
pub record Clock : Type 0 where
  pub from_secs : ℕ → ℕ
  pub add : ℕ → ℕ → ℕ

abbrev pub max_flows : ℕ
max_flows = 32768

-- A packet direction across the host–VM boundary.
pub data FlowDirection : Type 0 where
  from_host from_vm : FlowDirection

-- The canonical identity used to index a flow-table entry.
pub data FlowKey : Type 0 where
  icmp_echo : (host_addr vm_addr ident : ℕ) (initiating_direction : FlowDirection) → FlowKey
  tcp : (host_addr host_port vm_addr vm_port : ℕ) → FlowKey
  udp : (host_addr host_port vm_addr vm_port : ℕ) → FlowKey

unfoldable pub FlowDirection-discrete : Discrete FlowDirection
FlowDirection-discrete = hlevel

unfoldable pub FlowKey-discrete : Discrete FlowKey
FlowKey-discrete = hlevel ℕ_discrete

-- Metadata stored for an admitted flow.
pub record Flow : Type 0 where
  pub initiating_direction : FlowDirection
  pub expires_at : ℕ

pub record FlowTable : Type 0 where
  pub flows : List (FlowKey × Flow)
  pub next_sweep : ℕ

-- A proposed flow-table entry awaiting policy authorization.
pub record PendingFlow : Type 0 where
  pub key : FlowKey
  pub flow : Flow

-- The result of classifying a packet against the flow table.
pub data FlowMatch : Type 0 where
  allowed : FlowMatch
  candidate : PendingFlow → FlowMatch
  denied : FlowMatch
  untracked : FlowMatch

unfoldable pub direction_eq : FlowDirection → FlowDirection → Bool
direction_eq FlowDirection.from_host FlowDirection.from_host = true
direction_eq FlowDirection.from_vm FlowDirection.from_vm = true
direction_eq _ _ = false

unfoldable pub opposite : FlowDirection → FlowDirection
opposite FlowDirection.from_host = FlowDirection.from_vm
opposite FlowDirection.from_vm = FlowDirection.from_host

unfoldable pub host_vm_pair {ℓ} : {T : Type ℓ} → FlowDirection → T → T → T × T
host_vm_pair FlowDirection.from_host src dst = (src, dst)
host_vm_pair FlowDirection.from_vm src dst = (dst, src)

unfoldable pub tcp_key : FlowDirection → ℕ × ℕ → ℕ × ℕ → FlowKey
unfolding host_vm_pair
tcp_key direction src dst =
    let ((host_addr, host_port), (vm_addr, vm_port)) = host_vm_pair direction src dst in
    FlowKey.tcp host_addr host_port vm_addr vm_port

unfoldable pub udp_key : FlowDirection → ℕ × ℕ → ℕ × ℕ → FlowKey
unfolding host_vm_pair
udp_key direction src dst =
    let ((host_addr, host_port), (vm_addr, vm_port)) = host_vm_pair direction src dst in
    FlowKey.udp host_addr host_port vm_addr vm_port

unfoldable pub icmp_echo_key : ℕ → ℕ → FlowDirection → FlowDirection → ℕ → FlowKey
unfolding host_vm_pair
icmp_echo_key src_addr dst_addr direction initiating_direction ident =
    let (host_addr, vm_addr) = host_vm_pair direction src_addr dst_addr in
    FlowKey.icmp_echo host_addr vm_addr ident initiating_direction

-- The table can store the pending flow unless it is full and the key is new.
unfoldable pub commit : FlowTable → PendingFlow → FlowTable × Bool
unfolding contains_key
commit t pending =
    if not (contains_key FlowKey-discrete pending.key t.flows) && leb max_flows (length t.flows)
    then (t, false)
    else (record t { flows = insert FlowKey-discrete pending.key pending.flow t.flows }, true)

abbrev pub unwrap_or : Option FlowMatch → FlowMatch → FlowMatch
unwrap_or none other = other
unwrap_or (some matched) other = matched

unfoldable pub is_initial_syn : TcpPacket → Bool
is_initial_syn p = p.syn && not p.ack && not p.fin && not p.rst

module _ (clock : Clock) where
  abbrev pub sweep_interval : ℕ
  sweep_interval = clock.from_secs 1

  abbrev pub syn_timeout : ℕ
  syn_timeout = clock.from_secs 60

  abbrev pub tcp_timeout : ℕ
  tcp_timeout = clock.from_secs 300

  abbrev pub udp_timeout : ℕ
  udp_timeout = clock.from_secs 30

  abbrev pub echo_timeout : ℕ
  echo_timeout = clock.from_secs 30

  -- `FlowTable::new`
  unfoldable pub new_table : ℕ → FlowTable
  new_table now = record { flows = []; next_sweep = clock.add now sweep_interval }

  -- `FlowMatch::candidate`
  unfoldable pub new_candidate : FlowKey → FlowDirection → ℕ → ℕ → FlowMatch
  new_candidate key initiating_direction now timeout = FlowMatch.candidate (record {
    key = key;
    flow = record {
      initiating_direction = initiating_direction;
      expires_at = clock.add now timeout;
    };
  })

  unfoldable pub sweep_if_due : FlowTable → ℕ → FlowTable
  sweep_if_due t now = if ltb now t.next_sweep then t else record {
    flows = retain (λ _ flow. ltb now flow.expires_at) t.flows;
    next_sweep = clock.add now sweep_interval;
  }

  unfoldable pub match_existing_flow :
      FlowTable → FlowKey → FlowDirection → ℕ → ℕ → Option FlowMatch
  unfolding new_candidate direction_eq
  match_existing_flow t key direction now timeout = elim (get FlowKey-discrete key t.flows) [
    | none ↦ none
    | some existing ↦
        if leb existing.expires_at now
        then none
        else (if direction_eq direction existing.initiating_direction
            then some (new_candidate key existing.initiating_direction now timeout)
            else some FlowMatch.allowed)
  ]

  unfoldable pub inspect_tcp : FlowTable → Ipv4Packet → FlowDirection → ℕ → FlowMatch
  unfolding tcp_key new_candidate is_initial_syn
  inspect_tcp t ipv4_pkt direction now = elim ipv4_pkt.tcp [
    | none ↦ FlowMatch.denied
    | some p ↦
        if p.src_port == 0 || p.dst_port == 0
        then FlowMatch.denied
        else (let key =
              tcp_key direction (ipv4_pkt.src_addr, p.src_port) (ipv4_pkt.dst_addr, p.dst_port) in
            if is_initial_syn p
            then new_candidate key direction now syn_timeout
            else unwrap_or (match_existing_flow t key direction now tcp_timeout)
                FlowMatch.untracked)
  ]

  unfoldable pub inspect_udp : FlowTable → Ipv4Packet → FlowDirection → ℕ → FlowMatch
  unfolding udp_key new_candidate
  inspect_udp t ipv4_pkt direction now = elim ipv4_pkt.udp [
    | none ↦ FlowMatch.denied
    | some p ↦
        if p.dst_port == 0
        then FlowMatch.denied
        else (if p.src_port == 0
            then FlowMatch.denied
            else (let key =
                  udp_key direction (ipv4_pkt.src_addr, p.src_port)
                    (ipv4_pkt.dst_addr, p.dst_port) in
                unwrap_or (match_existing_flow t key direction now udp_timeout)
                  (new_candidate key direction now udp_timeout)))
  ]

  unfoldable pub inspect_echo : FlowTable → Ipv4Packet → FlowDirection → ℕ → Bool → ℕ → FlowMatch
  unfolding icmp_echo_key new_candidate opposite
  inspect_echo t ipv4_pkt direction ident is_request now =
      let initiating_direction = if is_request then direction else opposite direction in
      let key =
        icmp_echo_key ipv4_pkt.src_addr ipv4_pkt.dst_addr direction initiating_direction ident in
      unwrap_or (match_existing_flow t key direction now echo_timeout) (
        if is_request
        then new_candidate key initiating_direction now echo_timeout
        else FlowMatch.untracked)

  -- The message type and code of `inspect_icmp`.
  unfoldable pub inspect_message :
      FlowTable → Ipv4Packet → FlowDirection → IcmpMessage → IcmpPacket → ℕ → FlowMatch
  unfolding inspect_echo
  inspect_message t ipv4_pkt direction IcmpMessage.echo_request p now =
      if p.msg_code == 0
      then inspect_echo t ipv4_pkt direction p.echo_ident true now
      else FlowMatch.untracked
  inspect_message t ipv4_pkt direction IcmpMessage.echo_reply p now =
      if p.msg_code == 0
      then inspect_echo t ipv4_pkt direction p.echo_ident false now
      else FlowMatch.untracked
  inspect_message t ipv4_pkt direction IcmpMessage.other p now = FlowMatch.untracked

  unfoldable pub inspect_icmp : FlowTable → Ipv4Packet → FlowDirection → ℕ → FlowMatch
  unfolding inspect_message
  inspect_icmp t ipv4_pkt direction now = elim ipv4_pkt.icmp [
    | none ↦ FlowMatch.denied
    | some p ↦
        if not p.checksum_valid
        then FlowMatch.denied
        else inspect_message t ipv4_pkt direction p.msg_type p now
  ]

  -- The protocol of `inspect_at`, on the swept table.
  unfoldable pub inspect_protocol :
      FlowTable → Ipv4Packet → FlowDirection → IpProtocol → ℕ → FlowMatch
  unfolding inspect_icmp inspect_tcp inspect_udp
  inspect_protocol t ipv4_pkt direction IpProtocol.icmp now = inspect_icmp t ipv4_pkt direction now
  inspect_protocol t ipv4_pkt direction IpProtocol.tcp now = inspect_tcp t ipv4_pkt direction now
  inspect_protocol t ipv4_pkt direction IpProtocol.udp now = inspect_udp t ipv4_pkt direction now
  inspect_protocol t ipv4_pkt direction IpProtocol.other now = FlowMatch.untracked

  -- `inspect` and `inspect_at`: the table after the sweep, and the verdict.
  unfoldable pub inspect : FlowTable → Ipv4Packet → FlowDirection → ℕ → FlowTable × FlowMatch
  unfolding sweep_if_due
  inspect t ipv4_pkt direction now =
      let swept = sweep_if_due t now in
      if ipv4_pkt.more_frags || not (ipv4_pkt.frag_offset == 0)
      then (swept, FlowMatch.untracked)
      else (swept, inspect_protocol swept ipv4_pkt direction ipv4_pkt.next_header now)
