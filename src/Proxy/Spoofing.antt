-- ===== src/Proxy/Spoofing.antt =====
-- lib/proxy/vm.rs: which frames of the VM reach the host.
use softnet.Prelude.{
  ℕ, ◌≡◌, refl, ap, sym, ◌∙◌, ◌⊎◌, inl, inr, true, false, ◌||◌, Option, none, some, ◌∷◌, arith,
  ◌==◌, Bool-cases, subst,
}
use softnet.Wire.{Ipv4Packet, ArpOperation, ArpRepr, Payload, EthernetFrame}
use softnet.Flows.{Clock}
use softnet.Ipnet.{Ipnet, PrefixTrie}
use softnet.Proxy.{
  Outside, Proxy, vm_arp_allowed, is_arp_operation, allowed_payload, allowed_from_vm,
  process_frame_from_vm, is_dhcp_request, write_to_host,
}
use softnet.Proxy.Admission.Frames.{Kept-from_vm}
use softnet.Proxy.Outbound.{Outgoing, seen, verdict, forwarded_iff}

-- An ARP request or reply in the sender's own name, or of a sender without an address.
pub data ArpGenuine (mac ip : ℕ) : Option (Option ArpRepr) → Type 0 where
  genuine :
      (operation : ArpOperation) (source_protocol_addr : ℕ)
      → (operation ≡ ArpOperation.request) ⊎ (operation ≡ ArpOperation.reply)
      → (source_protocol_addr ≡ ip) ⊎ (source_protocol_addr ≡ 0)
      → ArpGenuine mac ip (some (some (ArpRepr.ethernet_ipv4 operation mac source_protocol_addr)))

arp_operation_of :
    (o : ArpOperation)
    → is_arp_operation o ≡ true
    → (o ≡ ArpOperation.request) ⊎ (o ≡ ArpOperation.reply)
arp_operation_of ArpOperation.request h = inl refl
arp_operation_of ArpOperation.reply h = inr refl
arp_operation_of ArpOperation.unknown h = cc

vm_arp_allowed-Genuine :
    (a : Option (Option ArpRepr)) (mac ip : ℕ)
    → vm_arp_allowed a mac ip ≡ true
    → ArpGenuine mac ip a
unfolding vm_arp_allowed
vm_arp_allowed-Genuine none mac ip h = cc
vm_arp_allowed-Genuine (some none) mac ip h = cc
vm_arp_allowed-Genuine (some (some ArpRepr.other)) mac ip h = cc
vm_arp_allowed-Genuine (some (some (ArpRepr.ethernet_ipv4 operation hw addr))) mac ip h =
    let same : hw ≡ mac = ground arith in
    subst (λ w. ArpGenuine mac ip (some (some (ArpRepr.ethernet_ipv4 operation w addr)))) (sym same)
      (genuine operation addr (arp_operation_of operation (ground arith)) (sender (ground arith)))
  where
    sender : (addr == ip || addr == 0) ≡ true → (addr ≡ ip) ⊎ (addr ≡ 0)
    sender k = ground arith

module _ (outside : Outside) (clock : Clock) (ipnet : Ipnet) (trie : PrefixTrie ipnet) where
  -- What the VM can get to the host: ARP in its own name, and IPv4 without options from its
  -- reserved address that is no DHCP request and that the policy lets through.
  pub data PayloadGenuine (p : Proxy outside clock ipnet trie) (now : ℕ) : Payload → Type 0 where
    arp :
        (a : Option (Option ArpRepr))
        → ArpGenuine p.vm_mac_address p.host.vm_ip a
        → PayloadGenuine p now (Payload.arp a)
    ipv4 :
        (x : Ipv4Packet)
        → x.header_len ≡ 20
        → x.src_addr ≡ p.host.vm_ip
        → is_dhcp_request x ≡ false
        → Outgoing outside clock ipnet trie p.rules p.host.gateway_ip
            (seen outside clock ipnet trie p x now)
            x
            (verdict outside clock ipnet trie p x now)
        → PayloadGenuine p now (Payload.ipv4 true x)

  payload_genuine :
      (p : Proxy outside clock ipnet trie) (m : ℕ) (x : Payload) (now : ℕ)
      → (allowed_payload outside clock ipnet trie p m x now).1 ≡ true
      → PayloadGenuine p now x
  payload_genuine p m (Payload.arp a) now h = arp a (vm_arp_allowed-Genuine a _ _ h)
  payload_genuine p m (Payload.ipv4 true x) now h = elim (Bool-cases (x.header_len == 20)) [
    | inl e ↦
        let k = (forwarded_iff outside clock ipnet trie p m x now).0 (rw e at h) in
        ipv4 x (ground arith) (sym k.1) k.0 k.3
    | inr e ↦ absurd (cc (rw e at h))
  ]
  payload_genuine p m (Payload.ipv4 false x) now h = cc
  payload_genuine p m Payload.other now h = cc

  allowed-genuine :
      (p : Proxy outside clock ipnet trie) (x : EthernetFrame) (now : ℕ)
      → (allowed_from_vm outside clock ipnet trie p x now).1 ≡ true
      → (x.src_addr ≡ p.vm_mac_address) × PayloadGenuine p now x.payload
  unfolding allowed_from_vm
  allowed-genuine p x now h = elim (Bool-cases (x.src_addr == p.vm_mac_address)) [
    | inl e ↦
        (ground arith, payload_genuine p x.dst_addr x.payload now (rw (e, allowed_from_vm) at h))
    | inr e ↦ absurd (cc (rw (e, allowed_from_vm) at h))
  ]

  write_to_host_cases :
      (p : Proxy outside clock ipnet trie) (x : EthernetFrame)
      → ((write_to_host outside clock ipnet trie p x).0.host.written ≡ p.host.written)
        ⊎ ((write_to_host outside clock ipnet trie p x).0.host.written ≡ x ∷ p.host.written)
  write_to_host_cases p x = elim (Bool-cases (outside.host_write p.host.written x)) [
    | inl e ↦ inr (simp e)
    | inr e ↦ inl (simp e)
  ]

  -- A frame of the VM adds nothing to what reaches the host, or itself, and then it bears the VM's
  -- hardware address and its payload is genuine.
  pub process_frame_from_vm-Genuine :
      (p : Proxy outside clock ipnet trie) (x : EthernetFrame) (now : ℕ)
      → ((process_frame_from_vm outside clock ipnet trie p x now).0.host.written ≡ p.host.written)
        ⊎ (((process_frame_from_vm outside clock ipnet trie p x now).0.host.written
              ≡ x ∷ p.host.written)
            × (x.src_addr ≡ p.vm_mac_address)
            × PayloadGenuine p now x.payload)
  unfolding process_frame_from_vm
  process_frame_from_vm-Genuine p x now =
      let s = allowed_from_vm outside clock ipnet trie p x now in
      let k = ap (λ w. w.written) ((Kept-from_vm outside clock ipnet trie p x now).host) in
      elim (Bool-cases s.1) [
        | inr e ↦ inl (rw (e, process_frame_from_vm) k)
        | inl e ↦ elim (write_to_host_cases s.0 x) [
          | inl y ↦ inl (rw (e, process_frame_from_vm) (y ∙ k))
          | inr y ↦
              let g = allowed-genuine p x now e in
              inr (rw (e, process_frame_from_vm) (y ∙ ap (λ w. x ∷ w) k), g.0, g.1)
        ]
      ]
