-- ===== src/Witnesses/Requesting.antt =====
-- lib/control.rs and lib/proxy/rule.rs: an `initialize` request for one VM, and the theorems at it.
use softnet.Prelude.{ℕ, ◌≡◌, ◌≤◌, refl, none, some, List, [], ◌∷◌, arith, length}
use softnet.Rule.{Target, Rule}
use softnet.Control.{
  Outcome, NetType, VmParams, InitializeParams, VmConfig, Request, Parsers, max_vms, parse_net_type,
  parse_initialize,
}
use softnet.Control.Initialize.{AllParsed, parse_initialize-AllParsed}
use softnet.Rule.Text.{parse_range, range_text}
use softnet.Rule.Text.RoundTrip.{parse_range-range_text}
use softnet.Example.{Net, ipnet}

abbrev parsers : Parsers ℕ
parsers = record { parse_mac = λ _. some 7; from_ascii = λ _. none; parse_uuid = λ _. none }

abbrev vm_params : VmParams
vm_params = record {
  vm_mac_address = [];
  name = none;
  allow = (64 ∷ 104 ∷ 111 ∷ 115 ∷ 116 ∷ []) ∷ [];
  block = [];
  expose = (50 ∷ 58 ∷ 51 ∷ []) ∷ [];
}

abbrev fds : List ℕ
fds = 4 ∷ []

abbrev params : InitializeParams
params = record { vm_net_type = none; vms = vm_params ∷ [] }

abbrev config : VmConfig Net ℕ
config = record {
  vm_fd = 4;
  vm_mac_address = 7;
  name = none;
  allow = Rule.stateless Target.host ∷ [];
  block = [];
  exposed_ports = record { external_port = 2; internal_port = 3 } ∷ [];
}

params_accepted :
    parse_initialize ipnet parsers fds params
    ≡ Outcome.ok (Request.initialize NetType.nat (config ∷ []))
unfolding parse_initialize
params_accepted = refl

parse_initialize-AllParsed_example :
    (1 ≤ length params.vms)
    × (length params.vms ≤ max_vms)
    × (length fds ≡ length params.vms)
    × (parse_net_type params.vm_net_type ≡ Outcome.ok NetType.nat)
    × AllParsed ipnet parsers params.vms fds (config ∷ [])
parse_initialize-AllParsed_example =
    parse_initialize-AllParsed ipnet parsers fds params NetType.nat (config ∷ []) params_accepted

parse_range-range_text_example :
    parse_range (range_text (record { start = 80; end = 8080 }))
    ≡ some (record { start = 80; end = 8080 })
parse_range-range_text_example =
    parse_range-range_text (record { start = 80; end = 8080 }) (omega arith) (omega arith)
      (omega arith)
