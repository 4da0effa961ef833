-- ===== src/Control.antt =====
-- lib/control.rs, with the requests of lib/manager.rs and lib/proxy/exposed_port.rs: how a control
-- request becomes a request to the manager. The JSON-RPC envelope is decoded by jsonrpsee and
-- serde, names and addresses by their crates.
pub mod Initialize
use softnet.Prelude.{
  ℕ, ◌+◌, Bool, true, false, not, ◌&&◌, Option, none, some, List, [], ◌∷◌, ltb, leb, ◌==◌,
  if◌then◌else◌, length,
}
use mathlib.Core.List
use softnet.Ipnet.{Ipnet}
use softnet.Rule.{Rule}
use softnet.Rule.Parser.{parse_rule}
use softnet.Rule.Text.{parse_bound}

abbrev pub max_rules : ℕ
max_rules = 4096

abbrev pub max_vms : ℕ
max_vms = 5

pub data ErrorCode : Type 0 where
  invalid_params method_not_found : ErrorCode

pub data Outcome {ℓ} (A : Type ℓ) : Type ℓ where
  ok : A → Outcome A
  error : ErrorCode → Outcome A

pub data NetType : Type 0 where
  nat host : NetType

pub record ExposedPort : Type 0 where
  pub external_port : ℕ
  pub internal_port : ℕ

pub record VmParams : Type 0 where
  pub vm_mac_address : List ℕ
  pub name : Option (List ℕ)
  pub allow : List (List ℕ)
  pub block : List (List ℕ)
  pub expose : List (List ℕ)

pub record InitializeParams : Type 0 where
  pub vm_net_type : Option (List ℕ)
  pub vms : List VmParams

pub record GetParams : Type 0 where
  pub vm_id : Option (List ℕ)

pub record SetParams : Type 0 where
  pub vm_id : Option (List ℕ)
  pub allow : List (List ℕ)
  pub block : List (List ℕ)

-- The method, and what serde makes of its parameters, `none` where it refuses them.
pub data Method : Type 0 where
  initialize : Option InitializeParams → Method
  policy_get : Option GetParams → Method
  policy_set : Option SetParams → Method
  unknown : Method

pub record VmConfig (N Name : Type 0) : Type 0 where
  pub vm_fd : ℕ
  pub vm_mac_address : ℕ
  pub name : Option Name
  pub allow : List (Rule N)
  pub block : List (Rule N)
  pub exposed_ports : List ExposedPort

pub data Request (N Name : Type 0) : Type 0 where
  initialize : NetType → List (VmConfig N Name) → Request N Name
  get_policy : Option ℕ → Request N Name
  set_policy : Option ℕ → List (Rule N) → List (Rule N) → Request N Name

-- The parsers that are not part of the repository's sources.
pub record Parsers (Name : Type 0) : Type 0 where
  pub parse_mac : List ℕ → Option ℕ
  pub from_ascii : List ℕ → Option Name
  pub parse_uuid : List ℕ → Option ℕ

-- `parse::<u16>`, which takes one leading '+'.
unfoldable pub parse_u16 : List ℕ → Option ℕ
unfolding parse_bound
parse_u16 [] = none
parse_u16 (c ∷ cs) = if c == 43 then parse_bound cs else parse_bound (c ∷ cs)

-- `split(':')`, which gives one piece more than there are colons.
unfoldable pub split_from : List ℕ → List ℕ × List (List ℕ)
split_from [] = ([], [])
split_from (c ∷ cs) =
    let rest = split_from cs in if c == 58 then ([], rest.0 ∷ rest.1) else (c ∷ rest.0, rest.1)

abbrev pub port_of : Option ℕ → Option ℕ → Option ExposedPort
port_of (some external) (some internal) =
    some (record { external_port = external; internal_port = internal })
port_of _ _ = none

abbrev pub port_of_pieces : List ℕ × List (List ℕ) → Option ExposedPort
port_of_pieces (external, internal ∷ []) = port_of (parse_u16 external) (parse_u16 internal)
port_of_pieces _ = none

-- `ExposedPort::from_str`
unfoldable pub parse_exposed_port : List ℕ → Option ExposedPort
unfolding parse_u16 split_from
parse_exposed_port s = port_of_pieces (split_from s)

-- `map_err(|_| rpc_error(INVALID_PARAMS_CODE, ..))`
abbrev pub valid {ℓ} : {A : Type ℓ} → Option A → Outcome A
valid none = Outcome.error ErrorCode.invalid_params
valid (some a) = Outcome.ok a

abbrev pub and_then {ℓ} : {A B : Type ℓ} → Outcome A → (A → Outcome B) → Outcome B
and_then (Outcome.ok a) f = f a
and_then (Outcome.error code) f = Outcome.error code

-- `map(..).collect::<Result<_, _>>()`: the first failure is the result.
unfoldable pub collect {ℓ} : {A B : Type ℓ} → (A → Option B) → List A → Outcome (List B)
collect f [] = Outcome.ok []
collect f (x ∷ xs) =
    let rest = collect f xs in
    and_then (valid (f x)) (λ y. and_then rest (λ ys. Outcome.ok (y ∷ ys)))

-- `Option::map(..).transpose()`
unfoldable pub transpose {ℓ} : {A B : Type ℓ} → (A → Option B) → Option A → Outcome (Option B)
transpose f none = Outcome.ok none
transpose f (some a) = and_then (valid (f a)) (λ b. Outcome.ok (some b))

-- "nat" and "host"
abbrev pub nat_text : List ℕ
nat_text = 110 ∷ 97 ∷ 116 ∷ []

abbrev pub host_text : List ℕ
host_text = 104 ∷ 111 ∷ 115 ∷ 116 ∷ []

unfoldable pub text_eq : List ℕ → List ℕ → Bool
text_eq [] [] = true
text_eq [] (b ∷ ys) = false
text_eq (a ∷ xs) [] = false
text_eq (a ∷ xs) (b ∷ ys) = a == b && text_eq xs ys

-- `params.vm_net_type.as_deref().unwrap_or("nat")`
unfoldable pub parse_net_type : Option (List ℕ) → Outcome NetType
unfolding text_eq
parse_net_type none = Outcome.ok NetType.nat
parse_net_type (some s) =
    if text_eq s nat_text
    then Outcome.ok NetType.nat
    else (if text_eq s host_text
        then Outcome.ok NetType.host
        else Outcome.error ErrorCode.invalid_params)

module _ (ipnet : Ipnet) {Name : Type 0} (parsers : Parsers Name) where
  open ipnet use {Ipv4Net}
  open parsers use {parse_mac, from_ascii, parse_uuid}

  unfoldable pub parse_vm_id : Option (List ℕ) → Outcome (Option ℕ)
  unfolding transpose
  parse_vm_id vm_id = transpose parse_uuid vm_id

  unfoldable pub parse_policy :
      List (List ℕ) → List (List ℕ) → Outcome (List (Rule Ipv4Net) × List (Rule Ipv4Net))
  unfolding collect parse_rule
  parse_policy allows blocks =
      if ltb max_rules (length allows + length blocks)
      then Outcome.error ErrorCode.invalid_params
      else and_then (collect (parse_rule ipnet) allows) (λ allows'.
        and_then (collect (parse_rule ipnet) blocks) (λ blocks'. Outcome.ok (allows', blocks')))

  -- The closure of `map` in `parse_initialize`.
  unfoldable pub parse_vm : VmParams → ℕ → Outcome (VmConfig Ipv4Net Name)
  unfolding parse_policy transpose collect parse_exposed_port
  parse_vm params fd = and_then (valid (parse_mac params.vm_mac_address)) (λ mac.
      and_then (transpose from_ascii params.name) (λ name.
        and_then (parse_policy params.allow params.block) (λ policy.
          and_then (collect parse_exposed_port params.expose) (λ ports. Outcome.ok (record {
            vm_fd = fd;
            vm_mac_address = mac;
            name = name;
            allow = policy.0;
            block = policy.1;
            exposed_ports = ports;
          })))))

  -- `zip(fds.drain(..)).map(..).collect()`
  unfoldable pub parse_vms : List VmParams → List ℕ → Outcome (List (VmConfig Ipv4Net Name))
  unfolding parse_vm
  parse_vms [] fds = Outcome.ok []
  parse_vms (params ∷ vms) [] = Outcome.ok []
  parse_vms (params ∷ vms) (fd ∷ fds) =
      let rest = parse_vms vms fds in
      and_then (parse_vm params fd)
        (λ config. and_then rest (λ configs. Outcome.ok (config ∷ configs)))

  unfoldable pub parse_initialize : List ℕ → InitializeParams → Outcome (Request Ipv4Net Name)
  unfolding parse_net_type parse_vms
  parse_initialize fds params =
      if not (leb 1 (length params.vms) && leb (length params.vms) max_vms)
      then Outcome.error ErrorCode.invalid_params
      else (if not (length fds == length params.vms)
          then Outcome.error ErrorCode.invalid_params
          else and_then (parse_net_type params.vm_net_type) (λ net_type.
            and_then (parse_vms params.vms fds)
              (λ vms. Outcome.ok (Request.initialize net_type vms))))

  unfoldable pub parse_method : Method → List ℕ → Outcome (Request Ipv4Net Name)
  unfolding parse_initialize parse_vm_id parse_policy
  parse_method (Method.initialize none) fds = Outcome.error ErrorCode.invalid_params
  parse_method (Method.initialize (some params)) fds = parse_initialize fds params
  parse_method (Method.policy_get none) fds = Outcome.error ErrorCode.invalid_params
  parse_method (Method.policy_get (some params)) fds =
      and_then (parse_vm_id params.vm_id) (λ vm_id. Outcome.ok (Request.get_policy vm_id))
  parse_method (Method.policy_set none) fds = Outcome.error ErrorCode.invalid_params
  parse_method (Method.policy_set (some params)) fds = and_then (parse_vm_id params.vm_id) (λ vm_id.
      and_then (parse_policy params.allow params.block)
        (λ policy. Outcome.ok (Request.set_policy vm_id policy.0 policy.1)))
  parse_method Method.unknown fds = Outcome.error ErrorCode.method_not_found
