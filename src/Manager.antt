-- ===== src/Manager.antt =====
-- lib/manager.rs: initialization, policy calls and the end of tasks. The manager handles one call at
-- a time, so an awaited reply of a VM's task is what the task's proxy computes. Sockets, identifiers,
-- the DNS zone and the drop of privileges are parameters.
pub mod Initialize
pub mod Started
pub mod Cases
pub mod Outcomes
pub mod Calls
pub mod Sound
pub mod Runs
use softnet.Prelude.{
  and_then, ℕ, suc, ◌≡◌, Bool, true, false, not, ◌||◌, ◌&&◌, Option, none, some, List, [], ◌∷◌,
  ◌++◌, map, ltb, ◌==◌, if◌then◌else◌, length, any,
}
use mathlib.Core.Option
use softnet.Flows.{Clock}
use softnet.Ipnet.{Ipnet, PrefixTrie}
use softnet.Dhcp.{dhcp_server_mac}
use softnet.Proxy.{Outside, Proxy, new_proxy}
use softnet.Control.{NetType, VmConfig, ExposedPort, max_vms}
use softnet.SubnetFinder.{Subnets, find_available_subnet}
use softnet.Network.{Vmnet, subnet_prefix_len, new_host, new_network}

pub record InitializedVm : Type 0 where
  pub vm_id : ℕ
  pub vm_mac_address : ℕ

-- `Result<Vec<InitializedVm>, InitializationError>`
pub data Initialization : Type 0 where
  ok : List InitializedVm → Initialization
  invalid_params rejected activation_failed : Initialization

-- The reserved address, or one that an earlier VM has.
unfoldable pub macs_allowed : List ℕ → List ℕ → Bool
macs_allowed seen [] = true
macs_allowed seen (mac ∷ macs) =
    let rest = macs_allowed (mac ∷ seen) macs in
    if mac == dhcp_server_mac then false else (if any (λ s. s == mac) seen then false else rest)

-- `skip(1)`
abbrev pub skip_first {ℓ} : {A : Type ℓ} → List A → List A
skip_first [] = []
skip_first (x ∷ xs) = xs

abbrev pub default_of : List InitializedVm → Option ℕ
default_of (vm ∷ []) = some vm.vm_id
default_of _ = none

abbrev pub or {ℓ} : {A : Type ℓ} → Option A → Option A → Option A
or none other = other
or (some a) other = some a

-- What the manager stands on: the interfaces of the other parts, and what the system and other
-- crates answer: `VM::new` for a descriptor, the identifier of the VM at an index, `DnsServer::new`,
-- whether the task of a VM still accepts its proxy, and the drop of privileges.
pub record System : Type 1 where
  pub outside : Outside
  pub clock : Clock
  pub ipnet : Ipnet
  pub trie : PrefixTrie ipnet
  pub subnets : Subnets ipnet
  pub vmnet : Vmnet
  pub Name : Type 0
  pub new_vm : ℕ → Bool
  pub now_v7 : ℕ → ℕ
  pub new_dns_server : List (Name × ℕ) → Option outside.DnsServer
  pub accepts : ℕ → Bool
  pub apply : Bool
  pub now_v7-injective : (i j : ℕ) → now_v7 i ≡ now_v7 j → i ≡ j

module _ (system : System) where
  open system use {
    outside, clock, ipnet, trie, subnets, vmnet, Name, new_vm, now_v7, new_dns_server, accepts,
    apply,
  }

  abbrev pub Config : Type 0
  Config = VmConfig ipnet.Ipv4Net Name

  abbrev pub VmProxy : Type 0
  VmProxy = Proxy outside clock ipnet trie

  -- The task of a VM: it waits for its proxy, has it but is not started, or runs it.
  pub data Task : Type 0 where
    waiting : Task
    prepared forwards : VmProxy → Task

  -- `Manager`: the VMs with a handle, and the task of each VM.
  pub record Manager : Type 0 where
    pub proxy_handles : List ℕ
    pub proxy_tasks : List (ℕ × Task)
    pub initialized : Bool
    pub default_vm_id : Option ℕ

  abbrev pub new_manager : Manager
  new_manager = record {
    proxy_handles = [];
    proxy_tasks = [];
    initialized = false;
    default_vm_id = none;
  }

  -- A VM with its address and identifier.
  pub record Configured : Type 0 where
    pub config : Config
    pub vm_ip : ℕ
    pub vm_id : ℕ

  -- The loop that prepares the VMs, from an index on; `none` is a rejection.
  unfoldable pub configure : ℕ → List Config → List ℕ → Option (List Configured)
  configure index [] ips = some []
  configure index (config ∷ configs) [] = none
  configure index (config ∷ configs) (vm_ip ∷ ips) =
      let rest = configure (suc index) configs ips in
      if new_vm config.vm_fd
      then Option.map (λ cs. record { config = config; vm_ip = vm_ip; vm_id = now_v7 index } ∷ cs)
          rest
      else none

  abbrev pub with_record : Option Name → ℕ → List (Name × ℕ) → List (Name × ℕ)
  with_record none ip records = records
  with_record (some name) ip records = (name, ip) ∷ records

  unfoldable pub dns_records : List Configured → List (Name × ℕ)
  dns_records [] = []
  dns_records (c ∷ cs) = with_record c.config.name c.vm_ip (dns_records cs)

  -- `(!dns_records.is_empty()).then(..).transpose()`
  abbrev pub dns_server_of : List (Name × ℕ) → Option (Option outside.DnsServer)
  dns_server_of [] = some none
  dns_server_of (r ∷ rs) = Option.map some (new_dns_server (r ∷ rs))

  abbrev pub ports_at : ℕ → List ExposedPort → List (ℕ × ExposedPort)
  ports_at ip ports = map (λ p. (ip, p)) ports

  unfoldable pub port_forwardings : List Configured → List (ℕ × ExposedPort)
  port_forwardings [] = []
  port_forwardings (c ∷ cs) = ports_at c.vm_ip c.config.exposed_ports ++ port_forwardings cs

  abbrev pub reservations : List Configured → List (ℕ × ℕ)
  reservations cs = map (λ c. (c.config.vm_mac_address, c.vm_ip)) cs

  -- A proxy for each VM, or an error if an interface does not start.
  unfoldable pub new_proxies :
      softnet.Proxy.Network
      → Option outside.DnsServer
      → ℕ
      → List Configured
      → Option (List (ℕ × VmProxy))
  new_proxies network dns now [] = some []
  new_proxies network dns now (c ∷ cs) =
      let rest = new_proxies network dns now cs in
      and_then (new_host vmnet network c.vm_ip) (λ host.
        Option.map
          (λ ps.
            (
              c.vm_id,
              new_proxy outside clock ipnet trie c.config.vm_mac_address host network c.config.allow
                  c.config.block dns now,
            )
            ∷ ps)
          rest)

  abbrev pub initialized_vms : List Configured → List InitializedVm
  initialized_vms cs =
      map (λ c. record { vm_id = c.vm_id; vm_mac_address = c.config.vm_mac_address }) cs

  -- The registration of the VM tasks, which wait for their proxies.
  unfoldable pub register : Manager → List Configured → Manager
  register m cs = record m {
    proxy_handles = map (λ c. c.vm_id) cs ++ m.proxy_handles;
    proxy_tasks = map (λ c. (c.vm_id, Task.waiting)) cs ++ m.proxy_tasks;
  }

  -- The proxies are sent to the tasks, up to the first one that has stopped; and whether none has.
  unfoldable pub transfer : List (ℕ × VmProxy) → List (ℕ × Task) × Bool
  transfer [] = ([], true)
  transfer ((id, proxy) ∷ proxies) =
      let rest = transfer proxies in
      if accepts id
      then ((id, Task.prepared proxy) ∷ rest.0, rest.1)
      else (map (λ p. (p.0, Task.waiting)) ((id, proxy) ∷ proxies), false)

  -- `start.send(())`
  abbrev pub start_task : Task → Task
  start_task Task.waiting = Task.waiting
  start_task (Task.prepared proxy) = Task.forwards proxy
  start_task (Task.forwards proxy) = Task.forwards proxy

  -- The end of `initialize` behind the drop of privileges.
  unfoldable pub start : Manager → List Configured → List (ℕ × Task) → Manager × Initialization
  unfolding register
  start m cs tasks = (
    record (register m cs) {
      proxy_tasks = map (λ t. (t.0, start_task t.1)) tasks ++ m.proxy_tasks;
      initialized = true;
      default_vm_id = default_of (initialized_vms cs);
    },
    Initialization.ok (initialized_vms cs),
  )

  -- The failure of the activation once some tasks have their proxies.
  unfoldable pub abandon : Manager → List Configured → List (ℕ × Task) → Manager × Initialization
  unfolding register
  abandon m cs tasks = (
    record (register m cs) { proxy_tasks = tasks ++ m.proxy_tasks },
    Initialization.activation_failed,
  )

  -- From the end of the worker on, with the proxies or its failure.
  unfoldable pub activate :
      Manager → List Configured → Option (List (ℕ × VmProxy)) → Manager × Initialization
  unfolding register transfer start abandon
  activate m cs none = (register m cs, Initialization.activation_failed)
  activate m cs (some proxies) =
      let sent = transfer proxies in
      if sent.1 && apply then start m cs sent.0 else abandon m cs sent.0

  abbrev pub with_dns_server :
      Manager
      → NetType
      → ipnet.Ipv4Net
      → ℕ
      → List Configured
      → Option (Option outside.DnsServer)
      → Manager × Initialization
  with_dns_server m net_type subnet now cs none = (m, Initialization.invalid_params)
  with_dns_server m net_type subnet now cs (some dns) = activate m cs (
      and_then
        (new_network vmnet ipnet subnets net_type subnet (reservations cs) (port_forwardings cs))
        (λ network. new_proxies network dns now cs))

  abbrev pub with_configured :
      Manager → NetType → ipnet.Ipv4Net → ℕ → Option (List Configured) → Manager × Initialization
  with_configured m net_type subnet now none = (m, Initialization.rejected)
  with_configured m net_type subnet now (some cs) =
      with_dns_server m net_type subnet now cs (dns_server_of (dns_records cs))

  abbrev pub with_subnet :
      Manager
      → NetType
      → List Config
      → ℕ
      → Option (ℕ × ℕ × ipnet.Ipv4Net)
      → Manager × Initialization
  with_subnet m net_type vms now none = (m, Initialization.rejected)
  with_subnet m net_type vms now (some (gateway, vm, subnet)) =
      with_configured m net_type subnet now (configure 0 vms (skip_first (subnets.hosts subnet)))

  unfoldable pub initialize : Manager → NetType → List Config → ℕ → Manager × Initialization
  unfolding macs_allowed configure dns_records port_forwardings new_proxies activate
  initialize m net_type vms now =
      if m.initialized
      then (m, Initialization.rejected)
      else if length vms == 0 || ltb max_vms (length vms)
      then (m, Initialization.rejected)
      else if macs_allowed [] (map (λ v. v.vm_mac_address) vms)
      then with_subnet m net_type vms now (find_available_subnet ipnet subnets subnet_prefix_len)
      else (m, Initialization.rejected)
