-- ===== src/Witnesses.antt =====
-- Runs of the theorems on a VM with the address 10 behind the gateway 1, and one peer, 11.
pub mod Syntax
pub mod Framing
pub mod Subnets
pub mod Managing
pub mod Looping
pub mod Serving
pub mod Requesting
pub mod Deciding
pub mod Tracking
pub mod Filtering
use softnet.Prelude.{ℕ, ◌≡◌, refl, true, false, none, some, List, [], ◌∷◌, arith}
use softnet.Prelude.HashMap.{get}
use softnet.Wire.{IpProtocol, UdpPacket, Ipv4Packet}
use softnet.Flows.{FlowKey, FlowDirection, FlowTable, FlowMatch, PendingFlow, inspect}
use softnet.Flows.Table.{IsValid}
use softnet.Flows.Replies.{IsReply}
use softnet.Rule.{Direction, Protocol, Target, Rule, default_filter}
use softnet.Example.{Net, clock}

abbrev pub segment : ℕ → ℕ → UdpPacket
segment src dst = record {
  src_port = src;
  dst_port = dst;
  len = 8;
  checksum_valid = true;
  repr_valid = true;
  payload = [];
}

abbrev pub datagram : ℕ → ℕ → ℕ → ℕ → Ipv4Packet
datagram src_addr dst_addr src dst = record {
  src_addr = src_addr;
  dst_addr = dst_addr;
  header_len = 20;
  next_header = IpProtocol.udp;
  more_frags = false;
  frag_offset = 0;
  payload_len = 8;
  checksum_valid = true;
  tcp = none;
  udp = some (segment src dst);
  udp_unchecked = segment src dst;
  icmp = none;
}

-- The VM asks port 80 of 200, and 200 answers.
abbrev pub request : Ipv4Packet
request = datagram 10 200 1000 80

abbrev pub response : Ipv4Packet
response = datagram 200 10 80 1000

abbrev pub pending : PendingFlow
pending = record {
  key = FlowKey.udp 200 80 10 1000;
  flow = record { initiating_direction = FlowDirection.from_vm; expires_at = 35 };
}

-- `out proto udp 200`, and `in 0.0.0.0/0` blocked.
abbrev pub allows : List (Rule Net)
allows =
    Rule.stateful Direction.outbound (Target.prefix (Net.one 200))
      (record { protocol = some Protocol.udp; destination_port_range = none })
    ∷ []

abbrev pub blocks : List (Rule Net)
blocks = Rule.stateful Direction.inbound (Target.prefix Net.all) default_filter ∷ []

abbrev pub table : FlowTable
table = record { flows = []; next_sweep = 1 }

pub table-IsValid : IsValid table
table-IsValid = record { distinct = tt; bounded = omega arith }

pub response-IsReply : IsReply request response
response-IsReply = record {
  protocol = refl;
  source = refl;
  destination = refl;
  last_fragment = refl;
  first_fragment = refl;
  answers = (segment 1000 80, segment 80 1000, refl, refl, refl, refl, refl, refl);
}

pub request_candidate :
    (inspect clock table request FlowDirection.from_vm 5).1 ≡ FlowMatch.candidate pending
unfolding inspect softnet.Flows.inspect_protocol softnet.Flows.match_existing_flow get
    softnet.Prelude.HashMap.retain
request_candidate = refl

-- The table after the VM's request.
abbrev pub asked : FlowTable
asked = record { flows = (pending.key, pending.flow) ∷ []; next_sweep = 1 }

pub asked-IsValid : IsValid asked
unfolding get
asked-IsValid = record { distinct = (refl, tt); bounded = omega arith }
