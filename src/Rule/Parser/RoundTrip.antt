-- ===== src/Rule/Parser/RoundTrip.antt =====
-- lib/proxy/rule.rs: what `Display` writes for a rule, `Rule::parse` reads back.
use softnet.Prelude.{
  and_then, ℕ, ◌≤◌, ◌≡◌, ◌⊎◌, ◌↔◌, inl, inr, refl, ap, sym, ◌∙◌, true, Option, none, some, List, [],
  ◌∷◌, ◌++◌,
}
use mathlib.Core.List.{append-nil}
use softnet.Ipnet.{Ipnet}
use softnet.Rule.{Direction, Protocol, PortRange, Filter, Target, Rule, default_filter}
use softnet.Rule.Text.{
  target_text, protocol_text, direction_text, protocol_part, port_part, rule_text,
}
use softnet.Rule.Text.RoundTrip.{parse_range-range_text}
use softnet.Rule.Grammar.{
  take_direction, take_target, take_fields, take_body, parse_syntax, Field, Body, at_end,
}
use softnet.Rule.Parser.{
  parse_direction, parse_protocol, ports_allowed, read_field, read_fields, parse_stateful, rule_of,
  parse_rule, text_is,
}
use softnet.Rule.Parser.Reading.{protocols_of, ports_of, optional-port}
use softnet.Rule.Parser.Fields.{
  optional-protocol, optional-target, Front-target_text, take_direction-Front,
  take_direction-append, take_target-append, Stops-port_part, parse_target-target_text,
}

-- A range that can stand in a rule.
abbrev pub PortsValid : Option PortRange → Type 0
PortsValid none = Unit
PortsValid (some r) = (1 ≤ r.start) × (r.start ≤ r.end) × (r.end ≤ 65535)

-- Ports are named with TCP or UDP only.
abbrev pub PortsNamed : Filter → Type 0
PortsNamed f =
    (f.destination_port_range ≡ none)
    ⊎ ((f.protocol ≡ some Protocol.tcp) ⊎ (f.protocol ≡ some Protocol.udp))

-- The guard of `parse_stateful` is that condition.
pub ports_allowed-PortsNamed :
    (o : Option Protocol) (r : Option PortRange)
    → (ports_allowed (record { protocol = o; destination_port_range = r }) ≡ true)
      ↔ PortsNamed (record { protocol = o; destination_port_range = r })
unfolding ports_allowed
ports_allowed-PortsNamed o none = (λ _. inl refl, λ _. refl)
ports_allowed-PortsNamed none (some r) =
    (λ h. cc, λ n. elim n [ inl e ↦ cc | inr (inl e) ↦ cc | inr (inr e) ↦ cc ])
ports_allowed-PortsNamed (some Protocol.tcp) (some r) = (λ _. inr (inl refl), λ _. refl)
ports_allowed-PortsNamed (some Protocol.udp) (some r) = (λ _. inr (inr refl), λ _. refl)
ports_allowed-PortsNamed (some Protocol.icmp) (some r) =
    (λ h. cc, λ n. elim n [ inl e ↦ cc | inr (inl e) ↦ cc | inr (inr e) ↦ cc ])

parse_direction-text : (d : Direction) → parse_direction (direction_text d) ≡ some d
unfolding parse_direction direction_text text_is
parse_direction-text Direction.inbound = refl
parse_direction-text Direction.outbound = refl

parse_protocol-text : (p : Protocol) → parse_protocol (protocol_text p) ≡ some p
unfolding parse_protocol protocol_text text_is
parse_protocol-text Protocol.tcp = refl
parse_protocol-text Protocol.udp = refl
parse_protocol-text Protocol.icmp = refl

module _ (ipnet : Ipnet) where
  open ipnet use {Ipv4Net, default}

  -- What a rule needs of its filter: ports only with TCP or UDP, and a range of ports.
  abbrev pub RuleValid : Rule Ipv4Net → Type 0
  RuleValid (Rule.stateless t) = Unit
  RuleValid (Rule.stateful d t f) = PortsNamed f × PortsValid f.destination_port_range

  fields_of : Target Ipv4Net → Filter → List Field
  fields_of t f =
      protocols_of f.protocol
      ++ (Field.target (target_text ipnet t) ∷ ports_of f.destination_port_range)

  take_fields-text :
      (t : Target Ipv4Net) (f : Filter)
      → take_fields (
          b' '
          ∷ (protocol_part f.protocol
              ++ (target_text ipnet t ++ port_part f.destination_port_range)))
        ≡ (fields_of t f, [])
  unfolding take_fields fields_of
  take_fields-text t f =
      let ports = port_part f.destination_port_range in
      rw
        (
          optional-protocol f.protocol (target_text ipnet t ++ ports)
              (Front-target_text ipnet t ports),
          optional-target ipnet t ports (Stops-port_part f.destination_port_range),
          optional-port f.destination_port_range,
        )
        refl

  take_body-stateful :
      (input text rest : List ℕ)
      → take_direction input ≡ some (text, rest)
      → take_body input ≡ some (Body.stateful text (take_fields rest).0, (take_fields rest).1)
  unfolding take_body
  take_body-stateful input text rest h = rw h refl

  take_body-target :
      (input text rest : List ℕ)
      → take_direction input ≡ none
      → take_target input ≡ some (text, rest)
      → take_body input ≡ some (Body.target text, rest)
  unfolding take_body
  take_body-target input text rest h k = rw (h, k) refl

  parse_syntax-stateful :
      (d : Direction) (t : Target Ipv4Net) (f : Filter)
      → parse_syntax (rule_text ipnet (Rule.stateful d t f))
        ≡ some (Body.stateful (direction_text d) (fields_of t f))
  unfolding parse_syntax rule_text
  parse_syntax-stateful d t f =
      let rest =
        b' '
        ∷ (protocol_part f.protocol
            ++ (target_text ipnet t ++ port_part f.destination_port_range)) in
      ap (λ o. and_then o at_end)
        (take_body-stateful (direction_text d ++ rest) (direction_text d) rest
            (take_direction-append d rest)
          ∙ ap (λ p. some (Body.stateful (direction_text d) p.0, p.1)) (take_fields-text t f))

  parse_syntax-stateless :
      (t : Target Ipv4Net)
      → parse_syntax (rule_text ipnet (Rule.stateless t)) ≡ some (Body.target (target_text ipnet t))
  unfolding parse_syntax rule_text
  parse_syntax-stateless t =
      let text = target_text ipnet t in
      ap (λ o. and_then o at_end)
        (ap take_body (sym (append-nil text))
          ∙ take_body-target (text ++ []) text []
              (take_direction-Front (text ++ []) (Front-target_text ipnet t []))
              (take_target-append ipnet t [] tt))

  read_fields-parts :
      (t : Target Ipv4Net) (o : Option Protocol) (r : Option PortRange)
      → PortsValid r
      → read_fields ipnet
          (Target.prefix default, default_filter)
          (protocols_of o ++ (Field.target (target_text ipnet t) ∷ ports_of r))
        ≡ some (t, record { protocol = o; destination_port_range = r })
  unfolding read_fields read_field
  read_fields-parts t none none v = rw (parse_target-target_text ipnet t, read_fields) refl
  read_fields-parts t none (some r) v =
      rw
        (
          parse_target-target_text ipnet t,
          parse_range-range_text r v.0 v.1 v.2,
          read_fields,
          read_field,
        )
        refl
  read_fields-parts t (some p) none v =
      rw (parse_protocol-text p, parse_target-target_text ipnet t, read_fields, read_field) refl
  read_fields-parts t (some p) (some r) v =
      rw
        (
          parse_protocol-text p,
          parse_target-target_text ipnet t,
          parse_range-range_text r v.0 v.1 v.2,
          read_fields,
          read_field,
        )
        refl

  -- A valid rule is read back from what it is written as.
  pub parse_rule-rule_text :
      (r : Rule Ipv4Net) → RuleValid r → parse_rule ipnet (rule_text ipnet r) ≡ some r
  unfolding parse_rule parse_stateful fields_of
  parse_rule-rule_text (Rule.stateless t) v =
      ap (λ o. and_then o (rule_of ipnet)) (parse_syntax-stateless t)
      ∙ ap (λ o. and_then o (λ t. some (Rule.stateless t))) (parse_target-target_text ipnet t)
  parse_rule-rule_text (Rule.stateful d t f) v =
      ap (λ o. and_then o (rule_of ipnet)) (parse_syntax-stateful d t f)
      ∙ rw
          (
            parse_direction-text d,
            read_fields-parts t f.protocol f.destination_port_range v.1,
            (ports_allowed-PortsNamed f.protocol f.destination_port_range).1 v.0,
          )
          refl
