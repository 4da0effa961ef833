-- ===== src/Dhcp/Answers.antt =====
-- lib/dhcp_server/mod.rs, `receive`: which messages are answered, and how.
use softnet.Prelude.{
  ℕ, ◌≡◌, ◌≢◌, refl, ap, sym, ◌∙◌, ◌⊎◌, some-injective, ◌↔◌, inl, inr, true, false, not, Option,
  none, some, arith, ◌==◌, Bool-cases,
}
use softnet.Prelude.HashMap.{get}
use softnet.Dhcp.{
  Message, MessageType, OptionCode, OptionCode-discrete, Opcode, DhcpServer, msg_type, build_reply,
  address_reply, wanted_address, answer_address, answer, is_none, receive, server_identifier_of,
  requested_ip_of, selects_other, is_boot_request, is_eth, HType,
}

module _ (server : DhcpServer) (default_message : Message) where
  -- The address that a REQUEST is for: the one that it names, if the client has none, and otherwise,
  -- if it names neither an address nor a server, the client's own.
  abbrev pub Wants : Option ℕ → Option ℕ → ℕ → ℕ → Type 0
  Wants server_id requested_ip ciaddr address =
      ((requested_ip ≡ some address) × (ciaddr ≡ 0))
      ⊎ ((requested_ip ≡ none) × (server_id ≡ none) × (ciaddr ≢ 0) × (address ≡ ciaddr))

  wanted_iff :
      (server_id requested_ip : Option ℕ) (ciaddr address : ℕ)
      → (wanted_address server default_message server_id requested_ip ciaddr ≡ some address)
        ↔ Wants server_id requested_ip ciaddr address
  unfolding wanted_address
  wanted_iff server_id (some x) ciaddr address = elim (Bool-cases (ciaddr == 0)) [
    | inl e ↦
        rw (e, wanted_address)
          (λ h. inl (h, ground (arith, e)), λ w. elim w [ inl p ↦ p.0 | inr p ↦ cc p.0 ])
    | inr e ↦
        rw (e, wanted_address)
          (λ h. cc, λ w. elim w [ inl p ↦ absurd (ground (arith, e, p.1)) | inr p ↦ cc p.0 ])
  ]
  wanted_iff none none ciaddr address = elim (Bool-cases (ciaddr == 0)) [
    | inl e ↦
        rw (e, wanted_address)
          (λ h. cc, λ w. elim w [ inl p ↦ cc p.0 | inr p ↦ absurd (ground (arith, e, p.2)) ])
    | inr e ↦
        rw (e, wanted_address)
          (
            λ h. inr (refl, refl, ground (arith, e), sym (some-injective h)),
            λ w. elim w [ inl p ↦ cc p.0 | inr p ↦ ap some (sym p.3) ],
          )
  ]
  wanted_iff (some x) none ciaddr address =
      (λ h. cc, λ w. elim w [ inl p ↦ cc p.0 | inr p ↦ cc p.1 ])

  -- The three ways to be answered: a DISCOVER from a client without an address is offered the
  -- reserved one, a REQUEST for the reserved address is acknowledged, any other REQUEST is refused.
  pub data Answer (req r : Message) (server_id requested_ip : Option ℕ) (kind : Option MessageType)
      : Type 0 where
    offers :
        kind ≡ some MessageType.discover
        → req.ciaddr ≡ 0
        → server_id ≡ none
        → r ≡ address_reply server default_message req MessageType.offer
        → Answer req r server_id requested_ip kind
    acknowledges :
        kind ≡ some MessageType.request
        → Wants server_id requested_ip req.ciaddr server.vm_ip
        → r ≡ address_reply server default_message req MessageType.ack
        → Answer req r server_id requested_ip kind
    refuses :
        (address : ℕ)
        → kind ≡ some MessageType.request
        → Wants server_id requested_ip req.ciaddr address
        → address ≢ server.vm_ip
        → r ≡ build_reply server default_message req MessageType.nak
        → Answer req r server_id requested_ip kind

  answer_address-Answer :
      (req r : Message) (server_id requested_ip wanted : Option ℕ)
      → wanted_address server default_message server_id requested_ip req.ciaddr ≡ wanted
      → answer_address server default_message req wanted ≡ some r
      → Answer req r server_id requested_ip (some MessageType.request)
  answer_address-Answer req r server_id requested_ip none e h = cc
  answer_address-Answer req r server_id requested_ip (some address) e h =
      elim (Bool-cases (address == server.vm_ip)) [
        | inl y ↦
            acknowledges refl ((wanted_iff _ _ _ _).0 (e ∙ ap some (ground arith))) (ground arith)
        | inr n ↦ refuses address refl ((wanted_iff _ _ _ _).0 e) (ground arith) (ground arith)
      ]

  answer-Answer :
      (req r : Message) (server_id requested_ip : Option ℕ) (kind : Option MessageType)
      → answer server default_message req server_id requested_ip kind ≡ some r
      → Answer req r server_id requested_ip kind
  unfolding answer
  answer-Answer req r server_id requested_ip (some MessageType.discover) h =
      offers refl (ground arith) (is_none_none server_id (ground arith)) (ground arith)
    where
      is_none_none : (o : Option ℕ) → is_none server default_message o ≡ true → o ≡ none
      is_none_none none k = refl
      is_none_none (some x) k = cc
  answer-Answer req r server_id requested_ip (some MessageType.request) h =
      answer_address-Answer req r server_id requested_ip _ refl h
  answer-Answer req r server_id requested_ip _ h = cc

  Answer-answer :
      (req r : Message) (server_id requested_ip : Option ℕ) (kind : Option MessageType)
      → Answer req r server_id requested_ip kind
      → answer server default_message req server_id requested_ip kind ≡ some r
  unfolding answer
  Answer-answer req r server_id requested_ip kind (offers k z s e) =
      let none_yet : (req.ciaddr == 0) ≡ true = ground (arith, z) in
      rw (k, none_yet, s, answer) (ap some (sym e))
  Answer-answer req r server_id requested_ip kind (acknowledges k w e) =
      let own : (server.vm_ip == server.vm_ip) ≡ true = ground arith in
      rw (k, (wanted_iff server_id requested_ip req.ciaddr server.vm_ip).1 w, own, answer)
        (ap some (sym e))
  Answer-answer req r server_id requested_ip kind (refuses address k w n e) =
      let other : (address == server.vm_ip) ≡ false = ground (arith, n) in
      rw (k, (wanted_iff server_id requested_ip req.ciaddr address).1 w, other, answer)
        (ap some (sym e))

  abbrev pub server_id_of : Message → Option ℕ
  server_id_of req =
      server_identifier_of (get OptionCode-discrete OptionCode.server_identifier req.opts)

  abbrev pub requested_of : Message → Option ℕ
  requested_of req =
      requested_ip_of (get OptionCode-discrete OptionCode.requested_ip_address req.opts)

  -- What is answered is a direct Ethernet request of the attached VM that selects no other server.
  pub record IsAnswered (req r : Message) : Type 0 where
    pub opcode : req.opcode ≡ Opcode.boot_request
    pub ethernet : (req.htype ≡ HType.eth) × (req.hlen ≡ 6)
    pub chaddr : req.chaddr ≡ server.vm_mac
    pub direct : req.giaddr ≡ 0
    pub selected : (server_id_of req ≡ none) ⊎ (server_id_of req ≡ some server.gateway_ip)
    pub answered : Answer req r (server_id_of req) (requested_of req) (msg_type req)

  boot_request_of : (o : Opcode) → is_boot_request o ≡ true → o ≡ Opcode.boot_request
  boot_request_of Opcode.boot_request h = refl
  boot_request_of Opcode.boot_reply h = cc
  boot_request_of Opcode.other h = cc

  eth_of : (t : HType) → is_eth t ≡ true → t ≡ HType.eth
  eth_of HType.eth h = refl
  eth_of HType.other h = cc

  selected_of :
      (o : Option ℕ)
      → selects_other server default_message o ≡ false
      → (o ≡ none) ⊎ (o ≡ some server.gateway_ip)
  selected_of none h = inl refl
  selected_of (some x) h = inr (ap some (ground arith))

  pub receive-IsAnswered :
      (req r : Message) → receive server default_message req ≡ some r → IsAnswered req r
  unfolding receive
  receive-IsAnswered req r h = record {
    opcode = boot_request_of req.opcode (ground arith);
    ethernet = (eth_of req.htype (ground arith), ground arith);
    chaddr = ground arith;
    direct = ground arith;
    selected = selected_of (server_id_of req) (ground arith);
    answered = answer-Answer req r _ _ _ (ground arith);
  }

  selects_other-false :
      (o : Option ℕ)
      → (o ≡ none) ⊎ (o ≡ some server.gateway_ip)
      → selects_other server default_message o ≡ false
  selects_other-false o (inl e) = ap (selects_other server default_message) e
  selects_other-false o (inr e) =
      let own : (server.gateway_ip == server.gateway_ip) ≡ true = ground arith in
      ap (selects_other server default_message) e ∙ ap not own

  IsAnswered-receive :
      (req r : Message) → IsAnswered req r → receive server default_message req ≡ some r
  unfolding receive
  IsAnswered-receive req r a =
      let boot : is_boot_request req.opcode ≡ true = ap is_boot_request a.opcode in
      let eth : is_eth req.htype ≡ true = ap is_eth a.ethernet.0 in
      let six : (req.hlen == 6) ≡ true = ground (arith, a.ethernet.1) in
      let own : (req.chaddr == server.vm_mac) ≡ true = ground (arith, a.chaddr) in
      let near : (req.giaddr == 0) ≡ true = ground (arith, a.direct) in
      rw (boot, eth, six, own, near, selects_other-false (server_id_of req) a.selected, receive)
        (Answer-answer req r (server_id_of req) (requested_of req) (msg_type req) a.answered)

  -- A message gets a reply exactly when it is a direct Ethernet request of the attached VM, for this
  -- server or for any, and the reply is the offer, the acknowledgement or the refusal that it asks
  -- for; nothing else is answered.
  pub receive_iff :
      (req r : Message) → (receive server default_message req ≡ some r) ↔ IsAnswered req r
  receive_iff req r = (receive-IsAnswered req r, IsAnswered-receive req r)
