-- ===== src/Witnesses/Serving.antt =====
-- lib/dhcp_server/mod.rs: a DISCOVER of the VM and the OFFER that it gets, and the theorems at them.
use softnet.Prelude.{◌≡◌, ◌↔◌, refl, some, [], ◌∷◌}
use softnet.Prelude.HashMap.{get}
use softnet.Wire.{UdpPacket, Ipv4Packet}
use softnet.Dhcp.{DhcpServer, Message, MessageType, OptionCode, DhcpOption, address_reply, receive}
use softnet.Dhcp.Replies
use softnet.Dhcp.Answers.{IsAnswered, receive_iff}
use softnet.Dhcp.Replies.{receive-IsReply}
use softnet.Dhcp.{Datagram, address_datagram, receive_message}
use softnet.Dhcp.Delivery.{IsAccepted, IsAddressed, receive_message-IsAddressed}
use softnet.Example.{default_message}
use softnet.Witnesses.{segment, datagram}

-- A DISCOVER of the VM.
abbrev server : DhcpServer
server = record { vm_mac = 7; vm_ip = 10; subnet_mask = 0; gateway_ip = 1; search_domains = [] }

abbrev discover : Message
discover = record default_message {
  chaddr = 7;
  opts = (OptionCode.message_type, DhcpOption.message_type MessageType.discover) ∷ [];
}

abbrev offer : Message
offer = address_reply server default_message discover MessageType.offer

discover_received : receive server default_message discover ≡ some offer
unfolding receive get softnet.Dhcp.OptionCode-discrete softnet.Dhcp.answer softnet.Dhcp.msg_type
discover_received = refl

receive_iff_example :
    (receive server default_message discover ≡ some offer)
    ↔ IsAnswered server default_message discover offer
receive_iff_example = receive_iff server default_message discover offer

receive-IsReply_example : Replies.IsReply server default_message discover offer
receive-IsReply_example = receive-IsReply server default_message discover offer discover_received

abbrev from_client : UdpPacket
from_client = segment 68 67

abbrev broadcasts : Ipv4Packet
broadcasts = datagram 0 0xffffffff 68 67

abbrev offered : Datagram
offered = address_datagram server default_message discover offer

discover_answered :
    receive_message server default_message broadcasts from_client (some discover) ≡ some offered
unfolding receive_message softnet.Dhcp.rejects_datagram softnet.Dhcp.rejects_destination
    softnet.Dhcp.rejects_source get softnet.Dhcp.OptionCode-discrete receive softnet.Dhcp.answer
discover_answered = refl

receive_message-IsAddressed_example :
    IsAccepted server default_message broadcasts from_client discover
    × (offered.source_ip ≡ server.gateway_ip)
    × (receive server default_message discover ≡ some offered.message)
    × IsAddressed server default_message offered.message offered
receive_message-IsAddressed_example =
    receive_message-IsAddressed server default_message broadcasts from_client discover offered
      discover_answered
