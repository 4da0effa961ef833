-- ===== src/Wire.antt =====
-- What the packet filter reads of a frame. Frames are decoded by the smoltcp crate, which is not
-- part of the repository: a packet enters as the values that smoltcp's accessors return on it,
-- and nothing is assumed of how they follow from the bytes. An IPv4 address is its 32-bit number.
use softnet.Prelude.{ℕ, Bool, Option, List}

-- `smoltcp::wire::IpProtocol`; `other` is every protocol that the program does not name.
pub data IpProtocol : Type 0 where
  icmp tcp udp other : IpProtocol

-- `TcpPacket`: the ports and the flags that are read.
pub record TcpPacket : Type 0 where
  pub src_port : ℕ
  pub dst_port : ℕ
  pub syn : Bool
  pub ack : Bool
  pub fin : Bool
  pub rst : Bool

-- `UdpPacket`: the ports, `len()`, `verify_checksum`, and whether `UdpRepr::parse` accepts it.
pub record UdpPacket : Type 0 where
  pub src_port : ℕ
  pub dst_port : ℕ
  pub len : ℕ
  pub checksum_valid : Bool
  pub repr_valid : Bool
  pub payload : List ℕ

-- `Icmpv4Message`
pub data IcmpMessage : Type 0 where
  echo_request echo_reply other : IcmpMessage

-- `Icmpv4Packet`
pub record IcmpPacket : Type 0 where
  pub checksum_valid : Bool
  pub msg_type : IcmpMessage
  pub msg_code : ℕ
  pub echo_ident : ℕ

-- `Ipv4Packet`. `tcp`, `udp` and `icmp` are what `new_checked` on the payload returns, and
-- `udp_unchecked` is `UdpPacket::new_unchecked`, which is read behind a length guard only.
pub record Ipv4Packet : Type 0 where
  pub src_addr : ℕ
  pub dst_addr : ℕ
  pub header_len : ℕ
  pub next_header : IpProtocol
  pub more_frags : Bool
  pub frag_offset : ℕ
  pub payload_len : ℕ
  pub checksum_valid : Bool
  pub tcp : Option TcpPacket
  pub udp : Option UdpPacket
  pub udp_unchecked : UdpPacket
  pub icmp : Option IcmpPacket

-- `ArpOperation`
pub data ArpOperation : Type 0 where
  request reply unknown : ArpOperation

-- `ArpRepr`: the only form that smoltcp parses today, and any later one.
pub data ArpRepr : Type 0 where
  ethernet_ipv4 :
      (operation : ArpOperation) (source_hardware_addr source_protocol_addr : ℕ) → ArpRepr
  other : ArpRepr

-- The ethernet payload by its `ethertype()`. ARP carries what `ArpPacket::new_checked` and
-- `ArpRepr::parse` give; IPv4 carries whether `Ipv4Repr::parse` accepts the packet.
pub data Payload : Type 0 where
  arp : Option (Option ArpRepr) → Payload
  ipv4 : (repr_valid : Bool) → Ipv4Packet → Payload
  other : Payload

-- `EthernetFrame`; hardware addresses are their 48-bit numbers.
pub record EthernetFrame : Type 0 where
  pub src_addr : ℕ
  pub dst_addr : ℕ
  pub payload : Payload
