-- ===== src/Dhcp.antt =====
-- lib/dhcp_server/mod.rs: the DHCP server of one VM. The dhcproto crate, which decodes and encodes
-- messages, is not part of the repository: a message is its header fields and its options by code.
pub mod Answers
pub mod Replies
pub mod Delivery
use softnet.Prelude.{
  ℕ, Bool, true, false, not, ◌&&◌, ◌||◌, Option, none, some, List, [], ◌∷◌, ◌==◌, if◌then◌else◌,
}
use softnet.Prelude.HashMap.{get, insert}
use softnet.Wire.{UdpPacket, Ipv4Packet}

pub data MessageType : Type 0 where
  discover offer request ack nak other : MessageType

pub data OptionCode : Type 0 where
  subnet_mask router domain_name_server requested_ip_address address_lease_time message_type
        server_identifier client_identifier domain_search other :
      OptionCode

pub data DhcpOption : Type 0 where
  subnet_mask : ℕ → DhcpOption
  router : List ℕ → DhcpOption
  domain_name_server : List ℕ → DhcpOption
  requested_ip_address : ℕ → DhcpOption
  address_lease_time : ℕ → DhcpOption
  message_type : MessageType → DhcpOption
  server_identifier : ℕ → DhcpOption
  client_identifier : List ℕ → DhcpOption
  domain_search : List (List ℕ) → DhcpOption
  other : DhcpOption

unfoldable pub OptionCode-discrete : Discrete OptionCode
OptionCode-discrete = hlevel

pub data Opcode : Type 0 where
  boot_request boot_reply other : Opcode

pub data HType : Type 0 where
  eth other : HType

-- The broadcast bit, and the other fifteen.
pub record Flags : Type 0 where
  pub broadcast : Bool
  pub reserved : ℕ

pub record Message : Type 0 where
  pub opcode : Opcode
  pub htype : HType
  pub hlen : ℕ
  pub xid : ℕ
  pub flags : Flags
  pub ciaddr : ℕ
  pub yiaddr : ℕ
  pub giaddr : ℕ
  pub chaddr : ℕ
  pub opts : List (OptionCode × DhcpOption)

pub record DhcpServer : Type 0 where
  pub vm_mac : ℕ
  pub vm_ip : ℕ
  pub subnet_mask : ℕ
  pub gateway_ip : ℕ
  pub search_domains : List (List ℕ)

-- A reply on its way: the message, and where it is sent.
pub record Datagram : Type 0 where
  pub message : Message
  pub source_mac : ℕ
  pub destination_mac : ℕ
  pub source_ip : ℕ
  pub destination_ip : ℕ
  pub source_port : ℕ
  pub destination_port : ℕ

-- `Result<Option<Vec<u8>>>`
pub data Received : Type 0 where
  packet : List ℕ → Received
  no_reply : Received
  failed : Received

abbrev pub client_port : ℕ
client_port = 68

abbrev pub server_port : ℕ
server_port = 67

abbrev pub broadcast_ip : ℕ
broadcast_ip = 0xffffffff

abbrev pub broadcast_mac : ℕ
broadcast_mac = 0xffffffffffff

abbrev pub dhcp_server_mac : ℕ
dhcp_server_mac = 0x020000000001

abbrev pub is_unspecified : ℕ → Bool
is_unspecified address = address == 0

abbrev pub put :
    DhcpOption → OptionCode → List (OptionCode × DhcpOption) → List (OptionCode × DhcpOption)
put value code opts = insert OptionCode-discrete code value opts

-- `opts().msg_type()`
abbrev pub type_of : Option DhcpOption → Option MessageType
type_of (some (DhcpOption.message_type t)) = some t
type_of _ = none

unfoldable pub msg_type : Message → Option MessageType
msg_type m = type_of (get OptionCode-discrete OptionCode.message_type m.opts)

abbrev pub server_identifier_of : Option DhcpOption → Option ℕ
server_identifier_of (some (DhcpOption.server_identifier address)) = some address
server_identifier_of _ = none

abbrev pub requested_ip_of : Option DhcpOption → Option ℕ
requested_ip_of (some (DhcpOption.requested_ip_address address)) = some address
requested_ip_of _ = none

unfoldable pub is_nak : MessageType → Bool
is_nak MessageType.nak = true
is_nak _ = false

abbrev pub is_nak_type : Option MessageType → Bool
is_nak_type none = false
is_nak_type (some MessageType.nak) = true
is_nak_type (some _) = false

unfoldable pub is_request : Option MessageType → Bool
is_request (some MessageType.request) = true
is_request _ = false

abbrev pub is_boot_request : Opcode → Bool
is_boot_request Opcode.boot_request = true
is_boot_request Opcode.boot_reply = false
is_boot_request Opcode.other = false

abbrev pub is_eth : HType → Bool
is_eth HType.eth = true
is_eth HType.other = false

-- `if let Some(identifier) = req.opts().get(OptionCode::ClientIdentifier)`
abbrev pub echo_identifier :
    Option DhcpOption → List (OptionCode × DhcpOption) → List (OptionCode × DhcpOption)
echo_identifier none opts = opts
echo_identifier (some identifier) opts = put identifier OptionCode.client_identifier opts

module _ (server : DhcpServer) (default_message : Message) where
  -- `reply`, from `Message::default()`, whose flags are `Flags::default()`
  unfoldable pub build_reply : Message → MessageType → Message
  unfolding is_nak
  build_reply req kind =
      let nak = is_nak kind in
      let opts = put (DhcpOption.message_type kind) OptionCode.message_type default_message.opts in
      let opts' =
        put (DhcpOption.server_identifier server.gateway_ip) OptionCode.server_identifier opts in
      record default_message {
        xid = req.xid;
        chaddr = req.chaddr;
        hlen = req.hlen;
        opcode = Opcode.boot_reply;
        flags = if nak then record default_message.flags { broadcast = true } else req.flags;
        ciaddr = if nak then default_message.ciaddr else req.ciaddr;
        opts =
            echo_identifier (get OptionCode-discrete OptionCode.client_identifier req.opts) opts';
      }

  abbrev pub with_search :
      List (List ℕ) → List (OptionCode × DhcpOption) → List (OptionCode × DhcpOption)
  with_search [] opts = opts
  with_search (d ∷ ds) opts = put (DhcpOption.domain_search (d ∷ ds)) OptionCode.domain_search opts

  unfoldable pub address_reply : Message → MessageType → Message
  unfolding build_reply
  address_reply req kind =
      let r = build_reply req kind in
      let o1 = put (DhcpOption.subnet_mask server.subnet_mask) OptionCode.subnet_mask r.opts in
      let o2 = put (DhcpOption.router (server.gateway_ip ∷ [])) OptionCode.router o1 in
      let o3 =
        put (DhcpOption.domain_name_server (server.gateway_ip ∷ [])) OptionCode.domain_name_server
          o2 in
      let o4 = put (DhcpOption.address_lease_time 0xffffffff) OptionCode.address_lease_time o3 in
      record r { yiaddr = server.vm_ip; opts = with_search server.search_domains o4 }

  -- `(server_id, requested_ip, req.ciaddr().is_unspecified())`
  unfoldable pub wanted_address : Option ℕ → Option ℕ → ℕ → Option ℕ
  wanted_address server_id (some address) ciaddr =
      if is_unspecified ciaddr then some address else none
  wanted_address none none ciaddr = if is_unspecified ciaddr then none else some ciaddr
  wanted_address (some _) none ciaddr = none

  abbrev pub answer_address : Message → Option ℕ → Option Message
  answer_address req none = none
  answer_address req (some address) =
      if not (address == server.vm_ip)
      then some (build_reply req MessageType.nak)
      else some (address_reply req MessageType.ack)

  abbrev pub selects_other : Option ℕ → Bool
  selects_other none = false
  selects_other (some address) = not (address == server.gateway_ip)

  abbrev pub is_none : Option ℕ → Bool
  is_none none = true
  is_none (some _) = false

  -- `match req.opts().msg_type()?`
  unfoldable pub answer : Message → Option ℕ → Option ℕ → Option MessageType → Option Message
  answer req server_id requested_ip (some MessageType.discover) =
      if is_unspecified req.ciaddr && is_none server_id
      then some (address_reply req MessageType.offer)
      else none
  answer req server_id requested_ip (some MessageType.request) =
      answer_address req (wanted_address server_id requested_ip req.ciaddr)
  answer req server_id requested_ip _ = none

  -- `receive`
  unfoldable pub receive : Message → Option Message
  receive req =
      if not (is_boot_request req.opcode)
        || not (is_eth req.htype)
        || not (req.hlen == 6)
        || not (req.chaddr == server.vm_mac)
        || not (is_unspecified req.giaddr)
      then none
      else (let server_id =
            server_identifier_of (get OptionCode-discrete OptionCode.server_identifier req.opts) in
          if selects_other server_id
          then none
          else answer req server_id
              (requested_ip_of (get OptionCode-discrete OptionCode.requested_ip_address req.opts))
              (msg_type req))

  -- A reply from the server's port to the client's, as `encode_packet` is called.
  abbrev pub datagram_to : Message → ℕ → ℕ → Datagram
  datagram_to r destination_mac destination_ip = record {
    message = r;
    source_mac = dhcp_server_mac;
    destination_mac = destination_mac;
    source_ip = server.gateway_ip;
    destination_ip = destination_ip;
    source_port = server_port;
    destination_port = client_port;
  }

  -- Where a reply is sent.
  unfoldable pub address_datagram : Message → Message → Datagram
  address_datagram req r =
      if is_nak_type (msg_type r) || req.flags.broadcast
      then datagram_to r broadcast_mac broadcast_ip
      else (if not (is_unspecified req.ciaddr)
          then datagram_to r server.vm_mac req.ciaddr
          else datagram_to r server.vm_mac r.yiaddr)

  -- The guards of `receive_vm` on the datagram.
  unfoldable pub rejects_datagram : Ipv4Packet → UdpPacket → Bool
  rejects_datagram ip udp =
      not (udp.src_port == client_port)
      || not ip.checksum_valid
      || ip.more_frags
      || not (ip.frag_offset == 0)
      || not udp.repr_valid

  unfoldable pub rejects_destination : Ipv4Packet → Bool
  rejects_destination ip = not (ip.dst_addr == broadcast_ip || ip.dst_addr == server.gateway_ip)

  -- An obsolete source address is let through for requests only.
  unfoldable pub rejects_source : Ipv4Packet → Message → Bool
  unfolding is_request msg_type
  rejects_source ip req =
      not (is_request (msg_type req))
      && not (is_unspecified ip.src_addr)
      && not (server.vm_ip == ip.src_addr)

  abbrev pub send_reply : Message → Option Message → Option Datagram
  send_reply req none = none
  send_reply req (some r) = some (address_datagram req r)

  -- `receive_vm` up to the encoding, on the decoded message.
  unfoldable pub receive_message : Ipv4Packet → UdpPacket → Option Message → Option Datagram
  receive_message ip udp decoded =
      if rejects_datagram ip udp
      then none
      else (if rejects_destination ip then none else elim decoded [
        | none ↦ none
        | some req ↦ if rejects_source ip req then none else send_reply req (receive req)
      ])

  abbrev pub encode_reply : (Datagram → Option (List ℕ)) → Option Datagram → Received
  encode_reply encode_packet none = Received.no_reply
  encode_reply encode_packet (some datagram) = elim (encode_packet datagram) [
    | none ↦ Received.failed
    | some bytes ↦ Received.packet bytes
  ]

  -- `receive_vm`, over dhcproto's decoder and the encoder of a reply datagram.
  unfoldable pub receive_vm :
      (List ℕ → Option Message) → (Datagram → Option (List ℕ)) → Ipv4Packet → UdpPacket → Received
  receive_vm from_bytes encode_packet ip udp =
      encode_reply encode_packet (receive_message ip udp (from_bytes udp.payload))
