-- ===== src/Rule.antt =====
-- lib/proxy/rule.rs: rules, their normal form, and port ranges.
pub mod Text
pub mod Grammar
pub mod Parser
use softnet.Prelude.{
  ℕ, ◌-◌, Bool, ◌&&◌, ◌||◌, Option, none, some, leb, ◌==◌, if◌then◌else◌, ℕ_discrete,
}
use softnet.Ipnet.{Ipnet}

-- `Direction::In` and `Direction::Out`
pub data Direction : Type 0 where
  inbound outbound : Direction

pub data Protocol : Type 0 where
  tcp udp icmp : Protocol

-- An inclusive range of ports.
pub record PortRange : Type 0 where
  pub start : ℕ
  pub end : ℕ

pub record Filter : Type 0 where
  pub protocol : Option Protocol
  pub destination_port_range : Option PortRange

-- `Filter::default()`
abbrev pub default_filter : Filter
default_filter = record { protocol = none; destination_port_range = none }

pub data Target (Ipv4Net : Type 0) : Type 0 where
  prefix : Ipv4Net → Target Ipv4Net
  host : Target Ipv4Net
  peers : Target Ipv4Net

pub data Rule (Ipv4Net : Type 0) : Type 0 where
  stateless : Target Ipv4Net → Rule Ipv4Net
  stateful : Direction → Target Ipv4Net → Filter → Rule Ipv4Net

unfoldable pub Direction-discrete : Discrete Direction
Direction-discrete = hlevel

unfoldable pub Protocol-discrete : Discrete Protocol
Protocol-discrete = hlevel

unfoldable pub PortRange-discrete : Discrete PortRange
PortRange-discrete = hlevel ℕ_discrete

unfoldable pub Filter-discrete : Discrete Filter
Filter-discrete = hlevel ℕ_discrete

unfoldable pub Target-discrete : {N : Type 0} → Discrete N → Discrete (Target N)
Target-discrete dec = hlevel dec

unfoldable pub Rule-discrete : {N : Type 0} → Discrete N → Discrete (Rule N)
Rule-discrete dec = hlevel (dec, ℕ_discrete)

-- `PortRange::new`; `none` is the error of `ensure!`.
unfoldable pub new_range : ℕ → ℕ → Option PortRange
new_range start end =
    if start == 0 || end == 0
    then none
    else (if leb start end then some (record { start = start; end = end }) else none)

unfoldable pub contains_port : PortRange → ℕ → Bool
contains_port r port = leb r.start port && leb port r.end

unfoldable pub width : PortRange → ℕ
width r = r.end - r.start

module _ (ipnet : Ipnet) where
  open ipnet use {Ipv4Net, trunc}

  unfoldable pub normalized_target : Target Ipv4Net → Target Ipv4Net
  normalized_target (Target.prefix p) = Target.prefix (trunc p)
  normalized_target Target.host = Target.host
  normalized_target Target.peers = Target.peers

  unfoldable pub normalized : Rule Ipv4Net → Rule Ipv4Net
  unfolding normalized_target
  normalized (Rule.stateless target) = Rule.stateless (normalized_target target)
  normalized (Rule.stateful direction target filter) =
      Rule.stateful direction (normalized_target target) filter
