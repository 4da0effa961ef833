-- ===== src/Network.antt =====
-- lib/network.rs: Network::new, and Host::new of lib/host.rs. vmnet is an interface.
use softnet.Prelude.{and_then, ℕ, Option, none, some, Bool, List, [], ◌∷◌, map, if◌then◌else◌}
use softnet.Ipnet.{Ipnet}
use softnet.Control.{NetType, ExposedPort}
use softnet.Proxy.{Host, Network}
use softnet.SubnetFinder.{Subnets}

abbrev pub subnet_prefix_len : ℕ
subnet_prefix_len = 29

-- The operations of the crate vmnet; `none` and `false` are their errors.
pub record Vmnet : Type 1 where
  pub NetworkConfiguration : Type 0
  pub new : NetType → Option NetworkConfiguration
  pub set_ipv4_subnet : NetworkConfiguration → ℕ → ℕ → Option NetworkConfiguration
  pub add_dhcp_reservation : NetworkConfiguration → ℕ → ℕ → Option NetworkConfiguration
  -- the external port, the VM's address and the internal port
  pub add_port_forwarding_rule : NetworkConfiguration → ℕ → ℕ → ℕ → Option NetworkConfiguration
  pub create : NetworkConfiguration → Bool
  -- an interface on the network, by its largest packet, with its callback set
  pub with_network : Network → Option ℕ

abbrev pub first {ℓ} : {A : Type ℓ} → List A → Option A
first [] = none
first (x ∷ xs) = some x

module _ (vmnet : Vmnet) where
  open vmnet use {NetworkConfiguration, add_dhcp_reservation, add_port_forwarding_rule}

  unfoldable pub add_reservations :
      NetworkConfiguration → List (ℕ × ℕ) → Option NetworkConfiguration
  add_reservations c [] = some c
  add_reservations c ((vm_mac, vm_ip) ∷ reservations) =
      and_then (add_dhcp_reservation c vm_mac vm_ip) (λ c'. add_reservations c' reservations)

  unfoldable pub add_port_forwardings :
      NetworkConfiguration → List (ℕ × ExposedPort) → Option NetworkConfiguration
  add_port_forwardings c [] = some c
  add_port_forwardings c ((vm_ip, port) ∷ forwardings) =
      and_then (add_port_forwarding_rule c port.external_port vm_ip port.internal_port)
        (λ c'. add_port_forwardings c' forwardings)

  -- `Host::new`
  unfoldable pub new_host : Network → ℕ → Option Host
  new_host network vm_ip = and_then (vmnet.with_network network) (λ size. some (record {
    vm_ip = vm_ip;
    gateway_ip = network.gateway_ip;
    max_packet_size = size;
    written = [];
  }))

  module _ (ipnet : Ipnet) (subnets : Subnets ipnet) where
    open subnets use {hosts, netmask}

    -- The last step of `Network::new`.
    abbrev pub create : ipnet.Ipv4Net → List (ℕ × ℕ) → ℕ → NetworkConfiguration → Option Network
    create subnet reservations gateway_ip c =
        if vmnet.create c
        then some (record {
          netmask = netmask subnet;
          gateway_ip = gateway_ip;
          vm_ips = map (λ r. r.1) reservations;
        })
        else none

    -- From the gateway's address on.
    unfoldable pub configure :
        ipnet.Ipv4Net
        → List (ℕ × ℕ)
        → List (ℕ × ExposedPort)
        → NetworkConfiguration
        → ℕ
        → Option Network
    unfolding add_reservations add_port_forwardings
    configure subnet reservations forwardings c gateway_ip =
        and_then (vmnet.set_ipv4_subnet c gateway_ip (netmask subnet)) (λ c.
          and_then (add_reservations c reservations) (λ c.
            and_then (add_port_forwardings c forwardings) (create subnet reservations gateway_ip)))

    -- `Network::new`, which gives the gateway the first usable address.
    unfoldable pub new_network :
        NetType → ipnet.Ipv4Net → List (ℕ × ℕ) → List (ℕ × ExposedPort) → Option Network
    unfolding configure
    new_network net_type subnet reservations forwardings =
        and_then (vmnet.new net_type)
          (λ c. and_then (first (hosts subnet)) (configure subnet reservations forwardings c))
