-- ===== src/Dhcp/Delivery.antt =====
-- lib/dhcp_server/mod.rs, `receive_vm`: which datagrams are answered, and where the reply is sent.
use softnet.Prelude.{
  ℕ, ◌≡◌, refl, ap, sym, ◌∙◌, ◌⊎◌, inl, inr, true, false, not, ◌&&◌, Option, none, some, arith,
  ◌==◌, Bool-cases, subst,
}
use softnet.Wire.{UdpPacket, Ipv4Packet}
use softnet.Dhcp.{
  Message, MessageType, DhcpServer, Datagram, msg_type, is_nak_type, address_reply, receive,
  receive_message, address_datagram, rejects_datagram, rejects_destination, rejects_source,
  is_request, send_reply, broadcast_ip, broadcast_mac, client_port,
}
use softnet.Dhcp.Answers.{offers, acknowledges, refuses, Wants, IsAnswered, receive-IsAnswered}
use softnet.Dhcp.Replies.{msg_type-build_reply}

module _ (server : DhcpServer) (default_message : Message) where
  -- A reply is broadcast, or goes to the VM's own addresses.
  abbrev pub IsAddressed : Message → Datagram → Type 0
  IsAddressed r d =
      ((d.destination_mac ≡ broadcast_mac) × (d.destination_ip ≡ broadcast_ip))
      ⊎ ((d.destination_mac ≡ server.vm_mac)
          × (d.destination_ip ≡ server.vm_ip)
          × (is_nak_type (msg_type r) ≡ false))

  -- The client's address, where it has one, is the one it was granted.
  wanted_ciaddr :
      (server_id requested_ip : Option ℕ) (ciaddr address : ℕ)
      → (ciaddr == 0) ≡ false
      → Wants server default_message server_id requested_ip ciaddr address
      → ciaddr ≡ address
  wanted_ciaddr server_id requested_ip ciaddr address n (inl (e, z)) = absurd (ground (arith, n, z))
  wanted_ciaddr server_id requested_ip ciaddr address n (inr (e, s, z, w)) = sym w

  addressed :
      (req r : Message)
      → (is_nak_type (msg_type r) ≡ false → r.yiaddr ≡ server.vm_ip)
      → (is_nak_type (msg_type r) ≡ false → (req.ciaddr == 0) ≡ false → req.ciaddr ≡ server.vm_ip)
      → IsAddressed r (address_datagram server default_message req r)
  unfolding address_datagram
  addressed req r granted own = elim (Bool-cases (is_nak_type (msg_type r))) [
    | inl e ↦ rw (e, address_datagram) (inl (refl, refl))
    | inr e ↦ elim (Bool-cases req.flags.broadcast) [
      | inl b ↦ rw (e, b, address_datagram) (inl (refl, refl))
      | inr b ↦ elim (Bool-cases (req.ciaddr == 0)) [
        | inl z ↦ rw (e, b, z, address_datagram) (inr (refl, granted e, refl))
        | inr z ↦ rw (e, b, z, address_datagram) (inr (refl, own e z, refl))
      ]
    ]
  ]

  answered-IsAddressed :
      (req r : Message)
      → IsAnswered server default_message req r
      → IsAddressed r (address_datagram server default_message req r)
  unfolding address_reply
  answered-IsAddressed req r a = elim a.answered [
    | offers _ z _ e ↦
        addressed req r (λ _. ap (λ w. w.yiaddr) e) (λ _ n. absurd (ground (arith, z, n)))
    | acknowledges _ w e ↦
        addressed req r (λ _. ap (λ w. w.yiaddr) e)
          (λ _ n. wanted_ciaddr _ _ req.ciaddr server.vm_ip n w)
    | refuses _ _ _ _ e ↦
        let nak : is_nak_type (msg_type r) ≡ true =
          ap (λ w. is_nak_type (msg_type w)) e
          ∙ ap is_nak_type (msg_type-build_reply server default_message req MessageType.nak) in
        addressed req r (λ n. absurd (cc (nak, n))) (λ n _. absurd (cc (nak, n)))
  ]

  -- The guards that a request has passed.
  pub record IsAccepted (ip : Ipv4Packet) (udp : UdpPacket) (req : Message) : Type 0 where
    pub from_client : udp.src_port ≡ client_port
    pub whole : (ip.more_frags ≡ false) × (ip.frag_offset ≡ 0)
    pub intact : (ip.checksum_valid ≡ true) × (udp.repr_valid ≡ true)
    pub to_server : (ip.dst_addr ≡ broadcast_ip) ⊎ (ip.dst_addr ≡ server.gateway_ip)
    pub source :
        (msg_type req ≡ some MessageType.request)
        ⊎ ((ip.src_addr ≡ 0) ⊎ (ip.src_addr ≡ server.vm_ip))

  address_datagram-message :
      (req r : Message)
      → ((address_datagram server default_message req r).message ≡ r)
        × ((address_datagram server default_message req r).source_ip ≡ server.gateway_ip)
  unfolding address_datagram
  address_datagram-message req r = ground arith

  sent :
      (req : Message) (o : Option Message) (d : Datagram)
      → send_reply server default_message req o ≡ some d
      → (r : Message) × (o ≡ some r) × (d ≡ address_datagram server default_message req r)
  sent req none d h = cc
  sent req (some r) d h = (r, refl, cc h)

  genuine :
      (kind : Option MessageType) (src_addr : ℕ)
      → (not (is_request kind) && not (src_addr == 0) && not (server.vm_ip == src_addr)) ≡ false
      → (kind ≡ some MessageType.request) ⊎ ((src_addr ≡ 0) ⊎ (src_addr ≡ server.vm_ip))
  unfolding is_request
  genuine (some MessageType.request) a h = inl refl
  genuine kind a h = inr (ground arith)

  accepted :
      (ip : Ipv4Packet) (udp : UdpPacket) (req : Message)
      → rejects_datagram server default_message ip udp ≡ false
      → rejects_destination server default_message ip ≡ false
      → rejects_source server default_message ip req ≡ false
      → IsAccepted ip udp req
  unfolding rejects_datagram rejects_destination rejects_source
  accepted ip udp req h k s = record {
    from_client = ground arith;
    whole = (ground arith, ground arith);
    intact = (ground arith, ground arith);
    to_server = ground arith;
    source = genuine (msg_type req) ip.src_addr s;
  }

  -- A request is answered only if it is a whole, intact datagram of a client to this server, and
  -- the reply carries the answer of `receive` from the gateway to the VM's own addresses, or is
  -- broadcast; a refusal is always broadcast.
  pub receive_message-IsAddressed :
      (ip : Ipv4Packet) (udp : UdpPacket) (req : Message) (d : Datagram)
      → receive_message server default_message ip udp (some req) ≡ some d
      → IsAccepted ip udp req
        × (d.source_ip ≡ server.gateway_ip)
        × (receive server default_message req ≡ some d.message)
        × IsAddressed d.message d
  unfolding receive_message
  receive_message-IsAddressed ip udp req d h =
      elim (Bool-cases (rejects_datagram server default_message ip udp)) [
        | inl e ↦ absurd (cc (rw (e, receive_message) at h))
        | inr e ↦ elim (Bool-cases (rejects_destination server default_message ip)) [
          | inl k ↦ absurd (cc (rw (e, k, receive_message) at h))
          | inr k ↦ elim (Bool-cases (rejects_source server default_message ip req)) [
            | inl s ↦ absurd (cc (rw (e, k, s, receive_message) at h))
            | inr s ↦
                let (r, o, same) =
                  sent req (receive server default_message req) d
                    (rw (e, k, s, receive_message) at h) in
                let m = address_datagram-message req r in
                rw same (
                  accepted ip udp req e k s,
                  m.1,
                  o ∙ ap some (sym m.0),
                  subst (λ w. IsAddressed w (address_datagram server default_message req r))
                      (sym m.0)
                      (answered-IsAddressed req r
                        (receive-IsAnswered server default_message req r o)),
                )
          ]
        ]
      ]
