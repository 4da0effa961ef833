-- ===== src/Rule/Parser.antt =====
-- lib/proxy/rule.rs: `Rule::parse` and the parsers of its parts.
pub mod Reading
pub mod Fields
pub mod RoundTrip
pub mod Sound
use softnet.Prelude.{
  and_then, ℕ, Bool, true, false, ◌&&◌, Option, none, some, List, [], ◌∷◌, ◌==◌, if◌then◌else◌,
}
use softnet.Ipnet.{Ipnet}
use softnet.Rule.{Direction, Protocol, Filter, Target, Rule, default_filter}
use softnet.Rule.Text.{parse_range}
use softnet.Rule.Grammar.{Field, Body, parse_syntax}

unfoldable pub text_is : List ℕ → List ℕ → Bool
text_is [] [] = true
text_is [] (b ∷ ys) = false
text_is (a ∷ xs) [] = false
text_is (a ∷ xs) (b ∷ ys) = a == b && text_is xs ys

-- `Direction::from_str` and `Protocol::from_str`, which strum derives from the lower-case names.
unfoldable pub parse_direction : List ℕ → Option Direction
unfolding text_is
parse_direction s =
    if text_is s (b'i' ∷ b'n' ∷ [])
    then some Direction.inbound
    else if text_is s (b'o' ∷ b'u' ∷ b't' ∷ [])
    then some Direction.outbound
    else none

unfoldable pub parse_protocol : List ℕ → Option Protocol
unfolding text_is
parse_protocol s =
    if text_is s (b't' ∷ b'c' ∷ b'p' ∷ [])
    then some Protocol.tcp
    else if text_is s (b'u' ∷ b'd' ∷ b'p' ∷ [])
    then some Protocol.udp
    else if text_is s (b'i' ∷ b'c' ∷ b'm' ∷ b'p' ∷ [])
    then some Protocol.icmp
    else none

abbrev pub is_transport : Option Protocol → Bool
is_transport (some Protocol.tcp) = true
is_transport (some Protocol.udp) = true
is_transport _ = false

-- The condition of the `ensure!` in `parse_stateful`.
unfoldable pub ports_allowed : Filter → Bool
ports_allowed filter = elim filter.destination_port_range [
  | none ↦ true
  | some _ ↦ is_transport filter.protocol
]

module _ (ipnet : Ipnet) where
  open ipnet use {Ipv4Net, parse, default}

  -- `Target::from_str`
  unfoldable pub parse_target : List ℕ → Option (Target Ipv4Net)
  unfolding text_is
  parse_target s =
      if text_is s (b'@' ∷ b'h' ∷ b'o' ∷ b's' ∷ b't' ∷ [])
      then some Target.host
      else if text_is s (b'@' ∷ b'p' ∷ b'e' ∷ b'e' ∷ b'r' ∷ b's' ∷ [])
      then some Target.peers
      else and_then (parse s) (λ p. some (Target.prefix p))

  -- The body of the loop of `parse_stateful`.
  unfoldable pub read_field : Target Ipv4Net × Filter → Field → Option (Target Ipv4Net × Filter)
  unfolding parse_protocol parse_target parse_range
  read_field (t, filter) (Field.protocol_name s) =
      and_then (parse_protocol s) (λ p. some (t, record filter { protocol = some p }))
  read_field (t, filter) (Field.target s) = and_then (parse_target s) (λ t'. some (t', filter))
  read_field (t, filter) (Field.destination_port s) =
      and_then (parse_range s) (λ r. some (t, record filter { destination_port_range = some r }))

  unfoldable pub read_fields :
      Target Ipv4Net × Filter → List Field → Option (Target Ipv4Net × Filter)
  unfolding read_field
  read_fields acc [] = some acc
  read_fields acc (field ∷ rest) = elim (read_field acc field) [
    | none ↦ none
    | some acc' ↦ read_fields acc' rest
  ]

  abbrev pub checked : Direction → Target Ipv4Net × Filter → Option (Rule Ipv4Net)
  checked d (t, filter) = if ports_allowed filter then some (Rule.stateful d t filter) else none

  unfoldable pub parse_stateful : List ℕ → List Field → Option (Rule Ipv4Net)
  unfolding parse_direction read_fields ports_allowed
  parse_stateful text fields =
      and_then (parse_direction text)
        (λ d. and_then (read_fields (Target.prefix default, default_filter) fields) (checked d))

  abbrev pub rule_of : Body → Option (Rule Ipv4Net)
  rule_of (Body.target s) = and_then (parse_target s) (λ t. some (Rule.stateless t))
  rule_of (Body.stateful text fields) = parse_stateful text fields

  -- `Rule::parse`; `none` is any of its errors.
  unfoldable pub parse_rule : List ℕ → Option (Rule Ipv4Net)
  unfolding parse_syntax parse_stateful parse_target
  parse_rule input = and_then (parse_syntax input) rule_of
