-- ===== src/Manager/Started.antt =====
-- lib/manager.rs: the proxies that a successful initialization starts.
use softnet.Prelude.{
  map-some, and_then-some, and_then, ℕ, ◌≡◌, refl, sym, ap, subst, ◌∙◌, Bool, true, false, Option,
  none, some, some-injective, List, [], ◌∷◌, map, if◌then◌else◌, Bool-cases, inl, inr,
}
use softnet.Control.{NetType, ExposedPort}
use softnet.Policy.{normalize_rules}
use softnet.Proxy.{Outside, Proxy, Host, new_proxy}
use softnet.Proxy
use softnet.Proxy.Replace.{IsConsistent, new_proxy-IsConsistent}
use softnet.Network
use softnet.Network.{
  subnet_prefix_len, add_reservations, add_port_forwardings, new_network, new_host, first,
}
use softnet.Manager.{System, VmProxy, Task, Configured, new_proxies, transfer, start_task}

if-some : {A : Type 0} (b : Bool) (x y : A) → (if b then some x else none) ≡ some y → x ≡ y
if-some true x y h = some-injective h
if-some false x y h = absurd (cc)

first-some :
    {A : Type 0} (xs : List A) (x : A) → first xs ≡ some x → (more : List A) × (xs ≡ x ∷ more)
first-some [] x h = absurd (cc)
first-some (y ∷ ys) x h = (ys, ap (λ w. w ∷ ys) (some-injective h))

module _ (system : System) where
  open system use {outside, clock, ipnet, trie, subnets, vmnet, accepts}

  -- The VM's own proxy: its hardware address, its reserved address, the shared gateway and its rules.
  pub record IsStarted (gateway_ip : ℕ) (c : Configured system) (id : ℕ) (p : VmProxy system)
      : Type 0 where
    pub registered : id ≡ c.vm_id
    pub mac : p.vm_mac_address ≡ c.config.vm_mac_address
    pub address : p.host.vm_ip ≡ c.vm_ip
    pub gateway : p.host.gateway_ip ≡ gateway_ip
    pub allow : p.allow ≡ normalize_rules ipnet c.config.allow
    pub block : p.block ≡ normalize_rules ipnet c.config.block
    pub consistent : IsConsistent outside clock ipnet trie p

  -- VMs and their proxies, in step.
  abbrev pub AllStarted : ℕ → List (Configured system) → List (ℕ × VmProxy system) → Type 0
  AllStarted gateway_ip [] [] = Unit
  AllStarted gateway_ip (c ∷ cs) ((id, p) ∷ proxies) =
      IsStarted gateway_ip c id p × AllStarted gateway_ip cs proxies
  AllStarted gateway_ip _ _ = ⊥

  new_host-some :
      (network : Proxy.Network) (vm_ip : ℕ) (host : Host)
      → new_host vmnet network vm_ip ≡ some host
      → (host.vm_ip ≡ vm_ip) × (host.gateway_ip ≡ network.gateway_ip)
  unfolding new_host
  new_host-some network vm_ip host h =
      let k = and_then-some (vmnet.with_network network) _ host h in
      let e = some-injective k.2 in
      (sym (ap (λ (w : Host). w.vm_ip) e), sym (ap (λ (w : Host). w.gateway_ip) e))

  new_proxy-IsStarted :
      (network : Proxy.Network) (dns : Option outside.DnsServer) (now : ℕ) (c : Configured system)
      (host : Host)
      → host.vm_ip ≡ c.vm_ip
      → host.gateway_ip ≡ network.gateway_ip
      → IsStarted network.gateway_ip c c.vm_id (
          new_proxy outside clock ipnet trie c.config.vm_mac_address host network c.config.allow
            c.config.block dns now)
  unfolding new_proxy
  new_proxy-IsStarted network dns now c host e g = record {
    registered = refl;
    mac = refl;
    address = e;
    gateway = g;
    allow = refl;
    block = refl;
    consistent =
        new_proxy-IsConsistent outside clock ipnet trie c.config.vm_mac_address host network
          c.config.allow c.config.block dns now;
  }

  pub new_proxies-AllStarted :
      (network : Proxy.Network) (dns : Option outside.DnsServer) (now : ℕ)
      (cs : List (Configured system)) (tasks : List (ℕ × VmProxy system))
      → new_proxies system network dns now cs ≡ some tasks
      → AllStarted network.gateway_ip cs tasks
  unfolding new_proxies
  new_proxies-AllStarted network dns now [] tasks h =
      subst (AllStarted network.gateway_ip []) (some-injective h) tt
  new_proxies-AllStarted network dns now (c ∷ cs) tasks h =
      let k = and_then-some (new_host vmnet network c.vm_ip) _ tasks h in
      let j = map-some _ (new_proxies system network dns now cs) tasks k.2 in
      let host = new_host-some network c.vm_ip k.0 k.1 in
      subst (AllStarted network.gateway_ip (c ∷ cs)) j.2 (
        new_proxy-IsStarted network dns now c k.0 host.0 host.1,
        new_proxies-AllStarted network dns now cs j.0 j.1,
      )

  -- The tasks when every one has been sent its proxy and started.
  abbrev pub forwarding : List (ℕ × VmProxy system) → List (ℕ × Task system)
  forwarding proxies = map (λ p. (p.0, Task.forwards p.1)) proxies

  pub transfer-forwarding :
      (proxies : List (ℕ × VmProxy system))
      → (transfer system proxies).1 ≡ true
      → map (λ t. (t.0, start_task system t.1)) (transfer system proxies).0 ≡ forwarding proxies
  unfolding transfer
  transfer-forwarding [] h = refl
  transfer-forwarding ((id, p) ∷ proxies) h = elim (Bool-cases (accepts id)) [
    | inl e ↦
        rw (e, transfer)
          (ap (λ w. (id, Task.forwards p) ∷ w)
            (transfer-forwarding proxies (rw (e, transfer) at h)))
    | inr e ↦ absurd (cc (rw (e, transfer) at h))
  ]

  -- A task that does not forward; the proxy that it may have is consistent.
  abbrev pub IsIdle : Task system → Type 0
  IsIdle Task.waiting = Unit
  IsIdle (Task.prepared p) = IsConsistent outside clock ipnet trie p
  IsIdle (Task.forwards p) = ⊥

  -- VMs and their tasks, in step.
  abbrev pub AllIdle : List (Configured system) → List (ℕ × Task system) → Type 0
  AllIdle [] [] = Unit
  AllIdle (c ∷ cs) ((id, t) ∷ tasks) = (id ≡ c.vm_id) × IsIdle t × AllIdle cs tasks
  AllIdle _ _ = ⊥

  waiting-AllIdle :
      (gateway_ip : ℕ) (cs : List (Configured system)) (proxies : List (ℕ × VmProxy system))
      → AllStarted gateway_ip cs proxies
      → AllIdle cs (map (λ p. (p.0, Task.waiting)) proxies)
  waiting-AllIdle g [] [] a = tt
  waiting-AllIdle g [] (p ∷ ps) a = absurd a
  waiting-AllIdle g (c ∷ cs) [] a = absurd a
  waiting-AllIdle g (c ∷ cs) ((id, p) ∷ ps) a =
      let first = a.0 in (first.registered, tt, waiting-AllIdle g cs ps a.1)

  pub transfer-AllIdle :
      (gateway_ip : ℕ) (cs : List (Configured system)) (proxies : List (ℕ × VmProxy system))
      → AllStarted gateway_ip cs proxies
      → AllIdle cs (transfer system proxies).0
  unfolding transfer
  transfer-AllIdle g [] [] a = tt
  transfer-AllIdle g [] (p ∷ ps) a = absurd a
  transfer-AllIdle g (c ∷ cs) [] a = absurd a
  transfer-AllIdle g (c ∷ cs) ((id, p) ∷ ps) a =
      let first = a.0 in
      elim (Bool-cases (accepts id)) [
        | inl e ↦
            rw (e, transfer) (first.registered, first.consistent, transfer-AllIdle g cs ps a.1)
        | inr e ↦ rw (e, transfer) (first.registered, tt, waiting-AllIdle g cs ps a.1)
      ]

  pub register-AllIdle :
      (cs : List (Configured system)) → AllIdle cs (map (λ c. (c.vm_id, Task.waiting)) cs)
  register-AllIdle [] = tt
  register-AllIdle (c ∷ cs) = (refl, tt, register-AllIdle cs)

  configure-gateway :
      (subnet : ipnet.Ipv4Net) (rs : List (ℕ × ℕ)) (fs : List (ℕ × ExposedPort))
      (c : vmnet.NetworkConfiguration) (gateway_ip : ℕ) (network : Proxy.Network)
      → softnet.Network.configure vmnet ipnet subnets subnet rs fs c gateway_ip ≡ some network
      → gateway_ip ≡ network.gateway_ip
  unfolding softnet.Network.configure
  configure-gateway subnet rs fs c gateway_ip network h =
      let last = softnet.Network.create vmnet ipnet subnets subnet rs gateway_ip in
      let forward =
        λ (c : vmnet.NetworkConfiguration). and_then (add_port_forwardings vmnet c fs) last in
      let reserve =
        λ (c : vmnet.NetworkConfiguration). and_then (add_reservations vmnet c rs) forward in
      let k1 =
        and_then-some (vmnet.set_ipv4_subnet c gateway_ip (subnets.netmask subnet)) reserve network
          h in
      let k2 = and_then-some (add_reservations vmnet k1.0 rs) forward network k1.2 in
      let k3 = and_then-some (add_port_forwardings vmnet k2.0 fs) last network k2.2 in
      ap (λ (n : Proxy.Network). n.gateway_ip)
        (if-some (vmnet.create k3.0)
          (record {
            netmask = subnets.netmask subnet;
            gateway_ip = gateway_ip;
            vm_ips = map (λ r. r.1) rs;
          })
          network k3.2)

  -- The gateway has the first usable address of the subnet.
  pub new_network-gateway :
      (net_type : NetType) (subnet : ipnet.Ipv4Net) (rs : List (ℕ × ℕ))
      (fs : List (ℕ × ExposedPort)) (network : Proxy.Network)
      → new_network vmnet ipnet subnets net_type subnet rs fs ≡ some network
      → (more : List ℕ) × (subnets.hosts subnet ≡ network.gateway_ip ∷ more)
  unfolding new_network
  new_network-gateway net_type subnet rs fs network h =
      let stages = softnet.Network.configure vmnet ipnet subnets subnet rs fs in
      let k1 =
        and_then-some (vmnet.new net_type) (λ c. and_then (first (subnets.hosts subnet)) (stages c))
          network h in
      let k2 = and_then-some (first (subnets.hosts subnet)) (stages k1.0) network k1.2 in
      let k3 = first-some (subnets.hosts subnet) k2.0 k2.1 in
      (k3.0, k3.1 ∙ ap (λ w. w ∷ k3.0) (configure-gateway subnet rs fs k1.0 k2.0 network k2.2))
