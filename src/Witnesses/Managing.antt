-- ===== src/Witnesses/Managing.antt =====
-- lib/manager.rs: two VMs on a host whose system refuses nothing.
use softnet.Prelude.{
  ℕ, ◌+◌, ◌≡◌, ◌≢◌, refl, true, none, some, List, [], ◌∷◌, arith, ◌⊎◌, In, inl, ℕ_discrete,
}
use softnet.Prelude.HashMap.{get}
use softnet.Rule.{Rule, Target}
use softnet.Proxy.{Network, new_proxy, policy_get, policy_set}
use softnet.Control.{NetType, Request}
use softnet.Network.{Vmnet}
use softnet.Manager.{
  InitializedVm, Initialization, System, Config, VmProxy, Task, Manager, new_manager, initialize,
}
use softnet.Manager.Outcomes.{
  IsInitialized, IsAbandoned, initialize-failed, initialize-IsInitialized,
}
use softnet.Manager.Calls.{Answer, Event, dispatch, run}
use softnet.Manager.Sound.{IsSound}
use softnet.Manager.Runs.{run-IsSound, initialize-once, set_policy-isolated}
use softnet.Example.{ipnet, trie, clock, outside}
use softnet.Witnesses.Subnets.{subnets}

abbrev vmnet : Vmnet
vmnet = record {
  NetworkConfiguration = Unit;
  new = λ t. some tt;
  set_ipv4_subnet = λ c ip mask. some tt;
  add_dhcp_reservation = λ c mac ip. some tt;
  add_port_forwarding_rule = λ c external ip internal. some tt;
  create = λ c. true;
  with_network = λ n. some 1500;
}

abbrev system : System
system = record {
  outside = outside;
  clock = clock;
  ipnet = ipnet;
  trie = trie;
  subnets = subnets;
  vmnet = vmnet;
  Name = ℕ;
  new_vm = λ fd. true;
  now_v7 = λ i. 100 + i;
  new_dns_server = λ records. none;
  accepts = λ id. true;
  apply = true;
  now_v7-injective = λ i j e. omega (arith, e);
}

abbrev config : ℕ → ℕ → Config system
config fd mac = record {
  vm_fd = fd;
  vm_mac_address = mac;
  name = none;
  allow = Rule.stateless Target.host ∷ [];
  block = [];
  exposed_ports = [];
}

abbrev vms : List (Config system)
vms = config 3 7 ∷ (config 4 8 ∷ [])

abbrev started : List InitializedVm
started =
    record { vm_id = 100; vm_mac_address = 7 } ∷ (record { vm_id = 101; vm_mac_address = 8 } ∷ [])

abbrev first_run : Manager system × Initialization
first_run = initialize system (new_manager system) NetType.nat vms 0

first_run_ok : first_run ≡ (first_run.0, Initialization.ok started)
unfolding initialize softnet.SubnetFinder.find_available_subnet softnet.Network.new_network
    softnet.Network.new_host
first_run_ok = refl

initialize-IsInitialized_example : IsInitialized system (new_manager system) first_run.0 vms started
initialize-IsInitialized_example =
    initialize-IsInitialized system (new_manager system) first_run.0 NetType.nat vms 0 started
      first_run_ok

no_vms :
    initialize system (new_manager system) NetType.nat [] 0
    ≡ (new_manager system, Initialization.rejected)
unfolding initialize
no_vms = refl

initialize-failed_example :
    ((new_manager system ≡ new_manager system)
      × (Initialization.rejected ≢ Initialization.activation_failed))
    ⊎ (IsAbandoned system (new_manager system) (new_manager system) []
        × (Initialization.rejected ≡ Initialization.activation_failed))
initialize-failed_example =
    initialize-failed system (new_manager system) (new_manager system) NetType.nat [] 0
      Initialization.rejected no_vms (λ vms e. cc)

initialize-once_example :
    (let m' =
        run system first_run.0
          (Event.call (Request.get_policy (some 100)) 1 ∷ (Event.finished 100 true ∷ [])) in
      initialize system m' NetType.host vms 9 ≡ (m', Initialization.rejected))
unfolding initialize softnet.SubnetFinder.find_available_subnet softnet.Network.new_network
    softnet.Network.new_host
initialize-once_example =
    initialize-once system (new_manager system) NetType.nat NetType.host vms vms 0 9 started
      (Event.call (Request.get_policy (some 100)) 1 ∷ (Event.finished 100 true ∷ [])) refl

run-IsSound_example : IsSound system (
    run system (new_manager system) (
      Event.call (Request.initialize NetType.nat vms) 0
      ∷ (Event.call (Request.set_policy (some 101) [] []) 1 ∷ [])))
run-IsSound_example = run-IsSound system (
    Event.call (Request.initialize NetType.nat vms) 0
    ∷ (Event.call (Request.set_policy (some 101) [] []) 1 ∷ []))

abbrev network : Network
network = record { netmask = 29; gateway_ip = 57; vm_ips = 58 ∷ 59 ∷ [] }

abbrev proxy : VmProxy system
proxy =
    new_proxy outside clock ipnet trie 7
      (record { vm_ip = 58; gateway_ip = 57; max_packet_size = 1500; written = [] }) network
      (Rule.stateless Target.host ∷ []) [] none 0

running : get ℕ_discrete 100 first_run.0.proxy_tasks ≡ some (Task.forwards proxy)
unfolding initialize get softnet.SubnetFinder.find_available_subnet softnet.Network.new_network
    softnet.Network.new_host ℕ_discrete
running = refl

handled : In 100 first_run.0.proxy_handles
unfolding initialize softnet.SubnetFinder.find_available_subnet softnet.Network.new_network
    softnet.Network.new_host
handled = inl refl

set_policy-isolated_example :
    (let result = dispatch system first_run.0 (Request.set_policy (some 100) [] []) 5 in
      let p' = policy_set outside clock ipnet trie proxy [] [] 5 in
      (result.1 ≡ Answer.policy (policy_get outside clock ipnet trie p'))
      × (get ℕ_discrete 100 result.0.proxy_tasks ≡ some (Task.forwards p'))
      × (get ℕ_discrete 101 result.0.proxy_tasks ≡ get ℕ_discrete 101 first_run.0.proxy_tasks))
set_policy-isolated_example =
    set_policy-isolated system first_run.0 (some 100) 100 101 proxy [] [] 5 (inl refl) handled
      running (λ e. omega (arith, e))
