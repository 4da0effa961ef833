-- ===== src/Manager/Outcomes.antt =====
-- lib/manager.rs: the outcomes of `initialize`.
use softnet.Prelude.{
  ℕ, ◌≤◌, ◌≡◌, ◌≢◌, refl, sym, ap, subst, ◌∙◌, true, false, Option, none, some, List, [], ◌∷◌, ◌++◌,
  map, arith, length, In, inl, inr, ◌⊎◌,
}
use softnet.Dhcp.{dhcp_server_mac}
use softnet.Control.{NetType, max_vms}
use softnet.SubnetFinder.{Unique, find_available_subnet}
use softnet.Network.{subnet_prefix_len}
use softnet.Manager.{
  InitializedVm, Initialization, skip_first, System, Config, VmProxy, Manager, Configured,
  initialized_vms, register, start, initialize, Task, transfer, abandon, default_of,
}
use softnet.Manager.Initialize.{macs_allowed-Unique, configure-IsConfigured}
use softnet.Manager.Started.{
  AllStarted, forwarding, transfer-forwarding, AllIdle, transfer-AllIdle, register-AllIdle,
}
use softnet.Manager.Cases.{
  initialize-cases, activate-cases, activation, activation-AllStarted, state, outcome_of, macs,
}

In-left : (x : ℕ) (xs ys : List ℕ) → In x xs → In x (xs ++ ys)
In-left x [] ys i = absurd i
In-left x (y ∷ xs) ys (inl e) = inl e
In-left x (y ∷ xs) ys (inr i) = inr (In-left x xs ys i)

Unique-front : (xs ys : List ℕ) → Unique (xs ++ ys) → Unique xs
Unique-front [] ys u = tt
Unique-front (x ∷ xs) ys u = (λ i. u.0 (In-left x xs ys i), Unique-front xs ys u.1)

-- Addresses that are taken in order behind the first one.
taken :
    (hosts : List ℕ) (gateway_ip : ℕ) (ips : List ℕ)
    → (more : List ℕ) × (hosts ≡ gateway_ip ∷ more)
    → (more : List ℕ) × (skip_first hosts ≡ ips ++ more)
    → (more : List ℕ) × (hosts ≡ (gateway_ip ∷ ips) ++ more)
taken hosts gateway_ip ips (more, e) (rest, f) =
    (rest, e ∙ ap (λ w. gateway_ip ∷ w) (sym (ap skip_first e) ∙ f))

ok-injective : {x y : List InitializedVm} → Initialization.ok x ≡ Initialization.ok y → x ≡ y
ok-injective e = cc

-- The default VM is the one that is alone; of several there is none.
abbrev pub IsDefault : List InitializedVm → Option ℕ → Type 0
IsDefault started default =
    ((vm : InitializedVm) × (started ≡ vm ∷ []) × (default ≡ some vm.vm_id))
    ⊎ ((2 ≤ length started) × (default ≡ none))

module _ (system : System) where
  open system use {ipnet, subnets, vmnet}

  -- What a failed activation leaves: tasks for the VMs, none of which forwards.
  pub record IsAbandoned (m m' : Manager system) (vms : List (Config system)) : Type 0 where
    pub cs : List (Configured system)
    pub tasks : List (ℕ × Task system)
    pub configs : map (λ c. c.config) cs ≡ vms
    pub idle : AllIdle system cs tasks
    pub proxy_tasks : m'.proxy_tasks ≡ tasks ++ m.proxy_tasks
    pub proxy_handles : m'.proxy_handles ≡ map (λ c. c.vm_id) cs ++ m.proxy_handles
    pub initialized : m'.initialized ≡ m.initialized
    pub default_vm_id : m'.default_vm_id ≡ m.default_vm_id

  registered-IsAbandoned :
      (m m' : Manager system) (vms : List (Config system)) (cs : List (Configured system))
      → map (λ c. c.config) cs ≡ vms
      → m' ≡ register system m cs
      → IsAbandoned m m' vms
  unfolding register
  registered-IsAbandoned m m' vms cs e s = record {
    cs = cs;
    tasks = map (λ c. (c.vm_id, Task.waiting)) cs;
    configs = e;
    idle = register-AllIdle system cs;
    proxy_tasks = ap (λ (w : Manager system). w.proxy_tasks) s;
    proxy_handles = ap (λ (w : Manager system). w.proxy_handles) s;
    initialized = ap (λ (w : Manager system). w.initialized) s;
    default_vm_id = ap (λ (w : Manager system). w.default_vm_id) s;
  }

  sent-IsAbandoned :
      (m m' : Manager system) (vms : List (Config system)) (cs : List (Configured system))
      (gateway_ip : ℕ) (proxies : List (ℕ × VmProxy system))
      → map (λ c. c.config) cs ≡ vms
      → AllStarted system gateway_ip cs proxies
      → m' ≡ (abandon system m cs (transfer system proxies).0).0
      → IsAbandoned m m' vms
  unfolding abandon register
  sent-IsAbandoned m m' vms cs gateway_ip proxies e a s = record {
    cs = cs;
    tasks = (transfer system proxies).0;
    configs = e;
    idle = transfer-AllIdle system gateway_ip cs proxies a;
    proxy_tasks = ap (λ (w : Manager system). w.proxy_tasks) s;
    proxy_handles = ap (λ (w : Manager system). w.proxy_handles) s;
    initialized = ap (λ (w : Manager system). w.initialized) s;
    default_vm_id = ap (λ (w : Manager system). w.default_vm_id) s;
  }

  -- An initialization that fails leaves the manager without a further VM that forwards: it changes
  -- nothing, or, when the activation fails, only registers tasks of the VMs. None of these forwards;
  -- one that has its proxy already has a consistent one.
  pub initialize-failed :
      (m m' : Manager system) (net_type : NetType) (vms : List (Config system)) (now : ℕ)
      (outcome : Initialization)
      → initialize system m net_type vms now ≡ (m', outcome)
      → ((started : List InitializedVm) → outcome ≢ Initialization.ok started)
      → ((m' ≡ m) × (outcome ≢ Initialization.activation_failed))
        ⊎ (IsAbandoned m m' vms × (outcome ≡ Initialization.activation_failed))
  unfolding start abandon
  initialize-failed m m' net_type vms now outcome h n =
      elim (initialize-cases system m net_type vms now) [
        | inl (inl u) ↦ inl (state system (sym h ∙ u), λ k. cc (outcome_of system (sym h ∙ u), k))
        | inl (inr u) ↦ inl (state system (sym h ∙ u), λ k. cc (outcome_of system (sym h ∙ u), k))
        | inr (c, a) ↦
            let k =
              configure-IsConfigured system 0 vms (skip_first (subnets.hosts a.subnet)) a.cs
                a.configured in
            elim (activate-cases system m a.cs
              (activation system net_type now a.subnet a.cs a.dns)) [
                | inl f ↦
                    let e = sym h ∙ a.activated ∙ f in
                    inr (
                      registered-IsAbandoned m m' vms a.cs k.configs (state system e),
                      outcome_of system e,
                    )
                | inr (proxies, o, inl f) ↦
                    let e = sym h ∙ a.activated ∙ f in
                    let all =
                      activation-AllStarted system net_type now a.subnet a.cs a.dns proxies o in
                    inr (
                      sent-IsAbandoned m m' vms a.cs all.0 proxies k.configs all.2 (state system e),
                      outcome_of system e,
                    )
                | inr (proxies, o, inr (all, s)) ↦
                    absurd (
                      n (initialized_vms system a.cs) (outcome_of system (sym h ∙ a.activated ∙ s)))
              ]
      ]

  -- What a successful initialization has made of the manager.
  pub record IsInitialized (m m' : Manager system) (vms : List (Config system))
      (started : List InitializedVm) : Type 0 where
    pub first : m.initialized ≡ false
    pub some_vms : 1 ≤ length vms
    pub few_vms : length vms ≤ max_vms
    pub macs_unique : Unique (macs system vms)
    pub unreserved : (mac : ℕ) → In mac (macs system vms) → mac ≢ dhcp_server_mac
    pub gateway_ip : ℕ
    pub cs : List (Configured system)
    pub proxies : List (ℕ × VmProxy system)
    pub configs : map (λ c. c.config) cs ≡ vms
    pub subnet : ipnet.Ipv4Net
    pub found :
        (a b : ℕ) × (find_available_subnet ipnet subnets subnet_prefix_len ≡ some (a, b, subnet))
    pub addresses :
        (more : List ℕ) × (subnets.hosts subnet ≡ (gateway_ip ∷ map (λ c. c.vm_ip) cs) ++ more)
    pub addresses_unique : Unique (gateway_ip ∷ map (λ c. c.vm_ip) cs)
    pub ids_unique : Unique (map (λ c. c.vm_id) cs)
    pub all_started : AllStarted system gateway_ip cs proxies
    pub proxy_tasks : m'.proxy_tasks ≡ forwarding system proxies ++ m.proxy_tasks
    pub proxy_handles : m'.proxy_handles ≡ map (λ c. c.vm_id) cs ++ m.proxy_handles
    pub initialized : m'.initialized ≡ true
    pub default_vm_id : IsDefault started m'.default_vm_id
    pub reported_ids : map (λ v. v.vm_id) started ≡ map (λ c. c.vm_id) cs
    pub reported_macs : map (λ v. v.vm_mac_address) started ≡ macs system vms

  initialized_vms-ids :
      (cs : List (Configured system))
      → map (λ v. v.vm_id) (initialized_vms system cs) ≡ map (λ c. c.vm_id) cs
  initialized_vms-ids [] = refl
  initialized_vms-ids (c ∷ cs) = ap (λ w. c.vm_id ∷ w) (initialized_vms-ids cs)

  initialized_vms-macs :
      (cs : List (Configured system))
      → map (λ v. v.vm_mac_address) (initialized_vms system cs)
        ≡ macs system (map (λ c. c.config) cs)
  initialized_vms-macs [] = refl
  initialized_vms-macs (c ∷ cs) = ap (λ w. c.config.vm_mac_address ∷ w) (initialized_vms-macs cs)

  default_of-IsDefault :
      (vms : List (Config system)) (cs : List (Configured system))
      → map (λ c. c.config) cs ≡ vms
      → 1 ≤ length vms
      → IsDefault (initialized_vms system cs) (default_of (initialized_vms system cs))
  default_of-IsDefault vms [] e h = absurd (omega (arith, subst (λ w. 1 ≤ length w) (sym e) h))
  default_of-IsDefault vms (c ∷ []) e h =
      inl (record { vm_id = c.vm_id; vm_mac_address = c.config.vm_mac_address }, refl, refl)
  default_of-IsDefault vms (c ∷ (d ∷ cs)) e h = inr (omega arith, refl)

  -- A successful initialization is the first; it has one to five VMs with different hardware
  -- addresses, none of them the DHCP server's; the gateway and the VMs have the first addresses of
  -- the subnet that was found, in order and all different. Each VM gets its own identifier, a handle,
  -- and a task that forwards with a proxy with its addresses and its rules; the manager is marked as
  -- initialized, and a VM that is alone is the default one. The VMs are reported in the order of the
  -- request, with their identifiers and hardware addresses.
  pub initialize-IsInitialized :
      (m m' : Manager system) (net_type : NetType) (vms : List (Config system)) (now : ℕ)
      (started : List InitializedVm)
      → initialize system m net_type vms now ≡ (m', Initialization.ok started)
      → IsInitialized m m' vms started
  unfolding start abandon register
  initialize-IsInitialized m m' net_type vms now started h =
      elim (initialize-cases system m net_type vms now) [
        | inl (inl u) ↦ absurd (cc (outcome_of system (sym h ∙ u)))
        | inl (inr u) ↦ absurd (cc (outcome_of system (sym h ∙ u)))
        | inr (c, a) ↦
            elim (activate-cases system m a.cs
              (activation system net_type now a.subnet a.cs a.dns)) [
                | inl f ↦ absurd (cc (outcome_of system (sym h ∙ a.activated ∙ f)))
                | inr (proxies, o, inl f) ↦
                    absurd (cc (outcome_of system (sym h ∙ a.activated ∙ f)))
                | inr (proxies, o, inr (sent, s)) ↦
                    let k =
                      configure-IsConfigured system 0 vms (skip_first (subnets.hosts a.subnet)) a.cs
                        a.configured in
                    let all =
                      activation-AllStarted system net_type now a.subnet a.cs a.dns proxies o in
                    let in_order =
                      taken (subnets.hosts a.subnet) all.0 (map (λ c. c.vm_ip) a.cs) all.1
                        k.addresses in
                    let macs_fine = macs_allowed-Unique [] (macs system vms) c.allowed in
                    let made = state system (sym h ∙ a.activated ∙ s) in
                    let reported = ok-injective (outcome_of system (sym h ∙ a.activated ∙ s)) in
                    record {
                      first = c.first;
                      some_vms = c.some_vms;
                      few_vms = c.few_vms;
                      macs_unique = macs_fine.0;
                      unreserved = λ mac i. (macs_fine.1 mac i).0;
                      gateway_ip = all.0;
                      cs = a.cs;
                      proxies = proxies;
                      configs = k.configs;
                      subnet = a.subnet;
                      found = a.found;
                      addresses = in_order;
                      addresses_unique =
                          Unique-front (all.0 ∷ map (λ c. c.vm_ip) a.cs) in_order.0
                            (subst Unique in_order.1 (subnets.hosts-Unique a.subnet));
                      ids_unique = k.ids_unique;
                      all_started = all.2;
                      proxy_tasks =
                          ap (λ (w : Manager system). w.proxy_tasks) made
                          ∙ ap (λ w. w ++ m.proxy_tasks) (transfer-forwarding system proxies sent);
                      proxy_handles = ap (λ (w : Manager system). w.proxy_handles) made;
                      initialized = ap (λ (w : Manager system). w.initialized) made;
                      default_vm_id =
                          subst (IsDefault started)
                            (sym (ap (λ (w : Manager system). w.default_vm_id) made))
                            (subst (λ w. IsDefault w (default_of (initialized_vms system a.cs)))
                              (sym reported) (default_of-IsDefault vms a.cs k.configs c.some_vms));
                      reported_ids = ap (map (λ v. v.vm_id)) reported ∙ initialized_vms-ids a.cs;
                      reported_macs =
                          ap (map (λ v. v.vm_mac_address)) reported
                          ∙ initialized_vms-macs a.cs
                          ∙ ap (macs system) k.configs;
                    }
              ]
      ]
