-- ===== src/Manager/Cases.antt =====
-- lib/manager.rs: the ways that `initialize` can go.
use softnet.Prelude.{
  and_then-some, and_then, ℕ, ◌≤◌, ◌≡◌, refl, sym, ap, subst, ◌∙◌, true, false, ◌||◌, ◌&&◌, Option,
  none, some, List, [], ◌∷◌, map, ltb, ◌==◌, arith, if◌then◌else◌, length, inl, inr, ◌⊎◌,
  Bool-cases, Option-cases,
}
use softnet.Control.{NetType, max_vms}
use softnet.SubnetFinder.{find_available_subnet}
use softnet.Network.{subnet_prefix_len, new_network}
use softnet.Manager.{
  Initialization, macs_allowed, skip_first, System, Config, VmProxy, Manager, Configured, configure,
  dns_records, dns_server_of, port_forwardings, reservations, new_proxies, register, start,
  activate, with_dns_server, with_configured, with_subnet, initialize, transfer, abandon,
}
use softnet.Manager.Started.{AllStarted, new_proxies-AllStarted, new_network-gateway}

module _ (system : System) where
  open system use {ipnet, subnets, vmnet}

  -- The outcome leaves the manager as it was.
  abbrev pub Unchanged : Manager system → Manager system × Initialization → Type 0
  Unchanged m result =
      (result ≡ (m, Initialization.rejected)) ⊎ (result ≡ (m, Initialization.invalid_params))

  -- What the worker yields.
  abbrev pub activation :
      NetType
      → ℕ
      → ipnet.Ipv4Net
      → List (Configured system)
      → Option system.outside.DnsServer
      → Option (List (ℕ × VmProxy system))
  activation net_type now subnet cs dns =
      and_then
        (new_network vmnet ipnet subnets net_type subnet (reservations system cs)
          (port_forwardings system cs))
        (λ network. new_proxies system network dns now cs)

  pub state : {x y : Manager system × Initialization} → x ≡ y → x.0 ≡ y.0
  state e = ap (λ (w : Manager system × Initialization). w.0) e

  pub outcome_of : {x y : Manager system × Initialization} → x ≡ y → x.1 ≡ y.1
  outcome_of e = ap (λ (w : Manager system × Initialization). w.1) e

  -- The outcome is that of the activation of VMs that were prepared in a subnet.
  pub record IsActivated (m : Manager system) (net_type : NetType) (vms : List (Config system))
      (now : ℕ) (result : Manager system × Initialization) : Type 0 where
    pub subnet : ipnet.Ipv4Net
    pub cs : List (Configured system)
    pub dns : Option system.outside.DnsServer
    pub found :
        (a b : ℕ) × (find_available_subnet ipnet subnets subnet_prefix_len ≡ some (a, b, subnet))
    pub configured : configure system 0 vms (skip_first (subnets.hosts subnet)) ≡ some cs
    pub activated : result ≡ activate system m cs (activation net_type now subnet cs dns)

  with_subnet-cases :
      (m : Manager system) (net_type : NetType) (vms : List (Config system)) (now : ℕ)
      (o : Option (ℕ × ℕ × ipnet.Ipv4Net))
      → find_available_subnet ipnet subnets subnet_prefix_len ≡ o
      → Unchanged m (with_subnet system m net_type vms now o)
        ⊎ IsActivated m net_type vms now (with_subnet system m net_type vms now o)
  with_subnet-cases m net_type vms now none f = inl (inl refl)
  with_subnet-cases m net_type vms now (some (a, b, subnet)) f =
      elim (Option-cases (configure system 0 vms (skip_first (subnets.hosts subnet)))) [
        | inl e ↦ inl (inl (ap (with_configured system m net_type subnet now) e))
        | inr (cs, e) ↦ elim (Option-cases (dns_server_of system (dns_records system cs))) [
          | inl d ↦ inl (
              inr (
                ap (with_configured system m net_type subnet now) e
                ∙ ap (with_dns_server system m net_type subnet now cs) d))
          | inr (dns, d) ↦ inr (record {
            subnet = subnet;
            cs = cs;
            dns = dns;
            found = (a, b, f);
            configured = e;
            activated =
                ap (with_configured system m net_type subnet now) e
                ∙ ap (with_dns_server system m net_type subnet now cs) d;
          })
        ]
      ]

  abbrev pub macs : List (Config system) → List ℕ
  macs vms = map (λ v. v.vm_mac_address) vms

  -- What the checks ensure.
  pub record IsChecked (m : Manager system) (vms : List (Config system)) : Type 0 where
    pub first : m.initialized ≡ false
    pub some_vms : 1 ≤ length vms
    pub few_vms : length vms ≤ max_vms
    pub allowed : macs_allowed [] (macs vms) ≡ true

  pub initialize-cases :
      (m : Manager system) (net_type : NetType) (vms : List (Config system)) (now : ℕ)
      → Unchanged m (initialize system m net_type vms now)
        ⊎ (IsChecked m vms × IsActivated m net_type vms now (initialize system m net_type vms now))
  unfolding initialize
  initialize-cases m net_type vms now = elim (Bool-cases m.initialized) [
    | inl e ↦ inl (inl (rw (e, initialize) refl))
    | inr e ↦ elim (Bool-cases (length vms == 0 || ltb max_vms (length vms))) [
      | inl n ↦ inl (inl (rw (e, n, initialize) refl))
      | inr n ↦ elim (Bool-cases (macs_allowed [] (macs vms))) [
        | inr a ↦ inl (inl (rw (e, n, a, initialize) refl))
        | inl a ↦
            let same : initialize system m net_type vms now
                ≡ with_subnet system m net_type vms now
                    (find_available_subnet ipnet subnets subnet_prefix_len) =
              rw (e, n, a, initialize) refl in
            elim (with_subnet-cases m net_type vms now
              (find_available_subnet ipnet subnets subnet_prefix_len) refl) [
                | inl u ↦ inl (subst (Unchanged m) (sym same) u)
                | inr k ↦ inr (
                  record {
                    first = e;
                    some_vms = ground (arith, n);
                    few_vms = ground (arith, n);
                    allowed = a;
                  },
                  subst (IsActivated m net_type vms now) (sym same) k,
                )
              ]
      ]
    ]
  ]

  -- What the worker yields is a proxy for each VM, behind the gateway of the new network.
  pub activation-AllStarted :
      (net_type : NetType) (now : ℕ) (subnet : ipnet.Ipv4Net) (cs : List (Configured system))
      (dns : Option system.outside.DnsServer) (proxies : List (ℕ × VmProxy system))
      → activation net_type now subnet cs dns ≡ some proxies
      → (gateway_ip : ℕ) × ((more : List ℕ) × (subnets.hosts subnet ≡ gateway_ip ∷ more))
        × AllStarted system gateway_ip cs proxies
  activation-AllStarted net_type now subnet cs dns proxies h =
      let n =
        and_then-some
          (new_network vmnet ipnet subnets net_type subnet (reservations system cs)
            (port_forwardings system cs))
          (λ network. new_proxies system network dns now cs) proxies h in
      (
        n.0.gateway_ip,
        new_network-gateway system net_type subnet (reservations system cs)
            (port_forwardings system cs) n.0 n.1,
        new_proxies-AllStarted system n.0 dns now cs proxies n.2,
      )

  -- The activation fails without proxies, or with some of them sent, or has sent all of them.
  pub activate-cases :
      (m : Manager system) (cs : List (Configured system)) (o : Option (List (ℕ × VmProxy system)))
      → (activate system m cs o ≡ (register system m cs, Initialization.activation_failed))
        ⊎ ((proxies : List (ℕ × VmProxy system)) × (o ≡ some proxies)
            × ((activate system m cs o ≡ abandon system m cs (transfer system proxies).0)
                ⊎ (((transfer system proxies).1 ≡ true)
                    × (activate system m cs o ≡ start system m cs (transfer system proxies).0))))
  unfolding activate
  activate-cases m cs none = inl refl
  activate-cases m cs (some proxies) =
      let sent = transfer system proxies in
      inr (
        proxies,
        refl,
        elim (Bool-cases (sent.1 && system.apply)) [
          | inl e ↦ inr (
            ground (arith, e),
            ap (λ b. if b then start system m cs sent.0 else abandon system m cs sent.0) e,
          )
          | inr e ↦
              inl (ap (λ b. if b then start system m cs sent.0 else abandon system m cs sent.0) e)
        ],
      )
