-- ===== src/Dhcp/Replies.antt =====
-- lib/dhcp_server/mod.rs: what the replies of the DHCP server carry.
use softnet.Prelude.{
  ℕ, ◌≡◌, ◌≢◌, refl, ap, sym, ◌∙◌, ◌⊎◌, inl, inr, true, false, Option, none, some, List, [], ◌∷◌,
  subst,
}
use softnet.Prelude.HashMap.{get, get-insert_self, get-insert_ne}
use softnet.Dhcp.{
  Message, MessageType, OptionCode, OptionCode-discrete, DhcpOption, Opcode, DhcpServer, type_of,
  msg_type, build_reply, address_reply, with_search, receive, echo_identifier, is_nak,
}
use softnet.Dhcp.Answers.{
  Answer, offers, acknowledges, refuses, server_id_of, requested_of, receive-IsAnswered,
}

get_echo :
    (c : OptionCode) (o : Option DhcpOption) (opts : List (OptionCode × DhcpOption))
    → OptionCode.client_identifier ≢ c
    → get OptionCode-discrete c (echo_identifier o opts) ≡ get OptionCode-discrete c opts
get_echo c none opts h = refl
get_echo c (some x) opts h =
    get-insert_ne OptionCode-discrete OptionCode.client_identifier c x opts h

get_echo_self :
    (i : Option DhcpOption) (o : DhcpOption) (opts : List (OptionCode × DhcpOption))
    → i ≡ some o
    → get OptionCode-discrete OptionCode.client_identifier (echo_identifier i opts) ≡ some o
get_echo_self none o opts h = cc
get_echo_self (some x) o opts h =
    get-insert_self OptionCode-discrete OptionCode.client_identifier x opts ∙ h

module _ (server : DhcpServer) (default_message : Message) where
  pub msg_type-build_reply :
      (req : Message) (t : MessageType)
      → msg_type (build_reply server default_message req t) ≡ some t
  unfolding msg_type build_reply
  msg_type-build_reply req t = ap type_of (
      get_echo OptionCode.message_type _ _ (λ e. cc)
      ∙ get-insert_ne OptionCode-discrete OptionCode.server_identifier OptionCode.message_type _ _
          (λ e. cc)
      ∙ get-insert_self OptionCode-discrete OptionCode.message_type _ default_message.opts)

  server_identifier-build_reply :
      (req : Message) (t : MessageType)
      → get OptionCode-discrete OptionCode.server_identifier
          (build_reply server default_message req t).opts
        ≡ some (DhcpOption.server_identifier server.gateway_ip)
  unfolding build_reply
  server_identifier-build_reply req t =
      get_echo OptionCode.server_identifier _ _ (λ e. cc)
      ∙ get-insert_self OptionCode-discrete OptionCode.server_identifier _ _

  get-with_search :
      (c : OptionCode) (ds : List (List ℕ)) (opts : List (OptionCode × DhcpOption))
      → OptionCode.domain_search ≢ c
      → get OptionCode-discrete c (with_search server default_message ds opts)
        ≡ get OptionCode-discrete c opts
  get-with_search c [] opts h = refl
  get-with_search c (d ∷ ds) opts h =
      get-insert_ne OptionCode-discrete OptionCode.domain_search c _ opts h

  -- An address reply has the options of the plain reply, but for the network configuration.
  get-address_reply :
      (c : OptionCode) (req : Message) (t : MessageType)
      → OptionCode.subnet_mask ≢ c
      → OptionCode.router ≢ c
      → OptionCode.domain_name_server ≢ c
      → OptionCode.address_lease_time ≢ c
      → OptionCode.domain_search ≢ c
      → get OptionCode-discrete c (address_reply server default_message req t).opts
        ≡ get OptionCode-discrete c (build_reply server default_message req t).opts
  unfolding address_reply
  get-address_reply c req t h1 h2 h3 h4 h5 =
      get-with_search c server.search_domains _ h5
      ∙ get-insert_ne OptionCode-discrete OptionCode.address_lease_time c _ _ h4
      ∙ get-insert_ne OptionCode-discrete OptionCode.domain_name_server c _ _ h3
      ∙ get-insert_ne OptionCode-discrete OptionCode.router c _ _ h2
      ∙ get-insert_ne OptionCode-discrete OptionCode.subnet_mask c _ _ h1

  -- A refusal: it is broadcast, and carries the addresses of the default message.
  pub record IsRefusal (r : Message) : Type 0 where
    pub kind : msg_type r ≡ some MessageType.nak
    pub broadcast : r.flags.broadcast ≡ true
    pub yiaddr : r.yiaddr ≡ default_message.yiaddr
    pub ciaddr : r.ciaddr ≡ default_message.ciaddr

  abbrev pub HasOption : Message → OptionCode → DhcpOption → Type 0
  HasOption r c o = get OptionCode-discrete c r.opts ≡ some o

  -- An offer or an acknowledgement of the reserved address, with the network's configuration.
  pub record IsGrant (req r : Message) : Type 0 where
    pub kind : (msg_type r ≡ some MessageType.offer) ⊎ (msg_type r ≡ some MessageType.ack)
    pub flags : r.flags ≡ req.flags
    pub yiaddr : r.yiaddr ≡ server.vm_ip
    pub ciaddr : r.ciaddr ≡ req.ciaddr
    pub subnet_mask : HasOption r OptionCode.subnet_mask (DhcpOption.subnet_mask server.subnet_mask)
    pub router : HasOption r OptionCode.router (DhcpOption.router (server.gateway_ip ∷ []))
    pub domain_name_server :
        HasOption r OptionCode.domain_name_server
          (DhcpOption.domain_name_server (server.gateway_ip ∷ []))
    pub address_lease_time :
        HasOption r OptionCode.address_lease_time (DhcpOption.address_lease_time 0xffffffff)

  -- What every reply carries, and that it is one or the other.
  pub record IsReply (req r : Message) : Type 0 where
    pub xid : r.xid ≡ req.xid
    pub chaddr : r.chaddr ≡ server.vm_mac
    pub opcode : r.opcode ≡ Opcode.boot_reply
    pub server_identifier :
        HasOption r OptionCode.server_identifier (DhcpOption.server_identifier server.gateway_ip)
    pub client_identifier :
        (o : DhcpOption)
        → HasOption req OptionCode.client_identifier o
        → HasOption r OptionCode.client_identifier o
    pub outcome : IsRefusal r ⊎ IsGrant req r

  pub msg_type-address_reply :
      (req : Message) (t : MessageType)
      → msg_type (address_reply server default_message req t) ≡ some t
  unfolding msg_type
  msg_type-address_reply req t =
      ap type_of (
        get-address_reply OptionCode.message_type req t (λ e. cc) (λ e. cc) (λ e. cc) (λ e. cc)
          (λ e. cc))
      ∙ msg_type-build_reply req t

  client_identifier-build_reply :
      (req : Message) (t : MessageType) (o : DhcpOption)
      → HasOption req OptionCode.client_identifier o
      → HasOption (build_reply server default_message req t) OptionCode.client_identifier o
  unfolding build_reply
  client_identifier-build_reply req t o h =
      get_echo_self (get OptionCode-discrete OptionCode.client_identifier req.opts) o _ h

  build_reply-IsReply :
      (req : Message)
      → req.chaddr ≡ server.vm_mac
      → IsReply req (build_reply server default_message req MessageType.nak)
  unfolding build_reply
  build_reply-IsReply req h = record {
    xid = refl;
    chaddr = h;
    opcode = refl;
    server_identifier = server_identifier-build_reply req MessageType.nak;
    client_identifier = client_identifier-build_reply req MessageType.nak;
    outcome = inl (record {
      kind = msg_type-build_reply req MessageType.nak;
      broadcast = refl;
      yiaddr = refl;
      ciaddr = refl;
    });
  }

  address_reply-IsGrant :
      (req : Message) (t : MessageType)
      → (t ≡ MessageType.offer) ⊎ (t ≡ MessageType.ack)
      → is_nak t ≡ false
      → IsGrant req (address_reply server default_message req t)
  unfolding address_reply build_reply
  address_reply-IsGrant req t k n = record {
    kind = elim k [
      | inl e ↦ inl (msg_type-address_reply req t ∙ ap some e)
      | inr e ↦ inr (msg_type-address_reply req t ∙ ap some e)
    ];
    flags = rw n refl;
    yiaddr = refl;
    ciaddr = rw n refl;
    subnet_mask =
        get-with_search OptionCode.subnet_mask server.search_domains _ (λ e. cc)
        ∙ get-insert_ne OptionCode-discrete OptionCode.address_lease_time OptionCode.subnet_mask _ _
            (λ e. cc)
        ∙ get-insert_ne OptionCode-discrete OptionCode.domain_name_server OptionCode.subnet_mask _ _
            (λ e. cc)
        ∙ get-insert_ne OptionCode-discrete OptionCode.router OptionCode.subnet_mask _ _ (λ e. cc)
        ∙ get-insert_self OptionCode-discrete OptionCode.subnet_mask _ _;
    router =
        get-with_search OptionCode.router server.search_domains _ (λ e. cc)
        ∙ get-insert_ne OptionCode-discrete OptionCode.address_lease_time OptionCode.router _ _
            (λ e. cc)
        ∙ get-insert_ne OptionCode-discrete OptionCode.domain_name_server OptionCode.router _ _
            (λ e. cc)
        ∙ get-insert_self OptionCode-discrete OptionCode.router _ _;
    domain_name_server =
        get-with_search OptionCode.domain_name_server server.search_domains _ (λ e. cc)
        ∙ get-insert_ne OptionCode-discrete OptionCode.address_lease_time
            OptionCode.domain_name_server _ _ (λ e. cc)
        ∙ get-insert_self OptionCode-discrete OptionCode.domain_name_server _ _;
    address_lease_time =
        get-with_search OptionCode.address_lease_time server.search_domains _ (λ e. cc)
        ∙ get-insert_self OptionCode-discrete OptionCode.address_lease_time _ _;
  }

  address_reply-IsReply :
      (req : Message) (t : MessageType)
      → req.chaddr ≡ server.vm_mac
      → IsGrant req (address_reply server default_message req t)
      → IsReply req (address_reply server default_message req t)
  unfolding address_reply
  address_reply-IsReply req t h g = record {
    xid = refl;
    chaddr = h;
    opcode = refl;
    server_identifier =
        get-address_reply OptionCode.server_identifier req t (λ e. cc) (λ e. cc) (λ e. cc) (λ e. cc)
          (λ e. cc)
        ∙ server_identifier-build_reply req t;
    client_identifier = λ o k.
        get-address_reply OptionCode.client_identifier req t (λ e. cc) (λ e. cc) (λ e. cc) (λ e. cc)
          (λ e. cc)
        ∙ client_identifier-build_reply req t o k;
    outcome = inr g;
  }

  -- Every reply has the request's transaction and client identifier and the VM's hardware address,
  -- and names this server. It is a refusal, which is marked as broadcast and keeps the addresses of
  -- the default message, or it offers or acknowledges the reserved address, with the network's mask,
  -- router, name server and an unlimited lease, and the flags and the client address of the request.
  pub receive-IsReply :
      (req r : Message) → receive server default_message req ≡ some r → IsReply req r
  unfolding is_nak
  receive-IsReply req r h =
      let a = receive-IsAnswered server default_message req r h in by_answer a.chaddr a.answered
    where
      by_answer :
          req.chaddr ≡ server.vm_mac
          → Answer server default_message req r
              (server_id_of server default_message req)
              (requested_of server default_message req)
              (msg_type req)
          → IsReply req r
      by_answer c (offers _ _ _ e) = subst (IsReply req) (sym e) (
          address_reply-IsReply req MessageType.offer c
            (address_reply-IsGrant req MessageType.offer (inl refl) refl))
      by_answer c (acknowledges _ _ e) = subst (IsReply req) (sym e) (
          address_reply-IsReply req MessageType.ack c
            (address_reply-IsGrant req MessageType.ack (inr refl) refl))
      by_answer c (refuses _ _ _ _ e) = subst (IsReply req) (sym e) (build_reply-IsReply req c)
