-- ===== src/Rule/Parser/Sound.antt =====
-- lib/proxy/rule.rs: what `Rule::parse` accepts is a valid rule, and a text of it is read the same.
use softnet.Prelude.{
  and_then-some, ℕ, ◌+◌, ◌-◌, ◌*◌, ◌≤◌, ◌≡◌, refl, Option, none, some, List, [], ◌∷◌, arith, subst,
  some-injective, Bool-cases, Option-cases, inl, inr,
}
use softnet.Ipnet.{Ipnet}
use softnet.Rule.{Direction, PortRange, Filter, Target, Rule, new_range, default_filter}
use softnet.Rule.Text.{
  is_port_text, parse_digits, parse_bound, parse_range, range_of, bounds_of, split_once, rule_text,
}
use softnet.Rule.Grammar.{Field, Body, parse_syntax}
use softnet.Rule.Parser.{
  parse_direction, parse_protocol, parse_target, ports_allowed, checked, read_field, read_fields,
  parse_stateful, rule_of, parse_rule,
}
use softnet.Rule.Parser.RoundTrip.{
  PortsValid, RuleValid, ports_allowed-PortsNamed, parse_rule-rule_text,
}

parse_digits-bound : (v n : ℕ) (cs : List ℕ) → v ≤ 65535 → parse_digits v cs ≡ some n → n ≤ 65535
unfolding parse_digits
parse_digits-bound v n [] h e = ground arith
parse_digits-bound v n (c ∷ cs) h e = ground (arith, parse_digits-bound (v * 10 + (c - 48)) n cs)

parse_bound-le : (cs : List ℕ) (n : ℕ) → parse_bound cs ≡ some n → n ≤ 65535
unfolding parse_bound
parse_bound-le [] n e = cc
parse_bound-le (c ∷ cs) n e = parse_digits-bound 0 n (c ∷ cs) (omega arith) e

new_range-PortsValid :
    (a b : ℕ) (r : PortRange) → b ≤ 65535 → new_range a b ≡ some r → PortsValid (some r)
unfolding new_range
new_range-PortsValid a b r h e = (ground arith, ground arith, ground arith)

range_of-PortsValid :
    (a b : Option ℕ) (r : PortRange)
    → ((n : ℕ) → b ≡ some n → n ≤ 65535)
    → range_of a b ≡ some r
    → PortsValid (some r)
range_of-PortsValid none b r h e = absurd (ground (arith, e))
range_of-PortsValid (some a) none r h e = absurd (ground (arith, e))
range_of-PortsValid (some a) (some b) r h e = new_range-PortsValid a b r (h b refl) e

-- A range of ports that is read has bounds above 0, in order, and in a `u16`.
pub parse_range-PortsValid :
    (cs : List ℕ) (r : PortRange) → parse_range cs ≡ some r → PortsValid (some r)
unfolding parse_range
parse_range-PortsValid cs r e = elim (Bool-cases (is_port_text cs)) [
  | inl t ↦
      let bounds = bounds_of cs (split_once cs) in
      range_of-PortsValid (parse_bound bounds.0) (parse_bound bounds.1) r (parse_bound-le bounds.1)
        (rw t at e)
  | inr f ↦ absurd (ground (arith, rw f at e))
]

module _ (ipnet : Ipnet) where
  open ipnet use {Ipv4Net, default}

  abbrev Kept : Target Ipv4Net × Filter → Type 0
  Kept acc = PortsValid acc.1.destination_port_range

  read_field-PortsValid :
      (acc acc' : Target Ipv4Net × Filter) (field : Field)
      → read_field ipnet acc field ≡ some acc'
      → PortsValid acc.1.destination_port_range
      → PortsValid acc'.1.destination_port_range
  unfolding read_field
  read_field-PortsValid acc acc' (Field.protocol_name s) e v =
      let i = and_then-some (parse_protocol s) _ acc' e in subst Kept (some-injective i.2) v
  read_field-PortsValid acc acc' (Field.target s) e v =
      let i = and_then-some (parse_target ipnet s) _ acc' e in subst Kept (some-injective i.2) v
  read_field-PortsValid acc acc' (Field.destination_port s) e v =
      let i = and_then-some (parse_range s) _ acc' e in
      subst Kept (some-injective i.2) (parse_range-PortsValid s i.0 i.1)

  read_fields-PortsValid :
      (acc acc' : Target Ipv4Net × Filter) (fields : List Field)
      → read_fields ipnet acc fields ≡ some acc'
      → PortsValid acc.1.destination_port_range
      → PortsValid acc'.1.destination_port_range
  unfolding read_fields
  read_fields-PortsValid acc acc' [] e v = subst Kept (some-injective e) v
  read_fields-PortsValid acc acc' (field ∷ fields) e v =
      elim (Option-cases (read_field ipnet acc field)) [
        | inl n ↦ absurd (ground (arith, rw (n, read_fields) at e))
        | inr (next, h) ↦
            read_fields-PortsValid next acc' fields (rw (h, read_fields) at e)
              (read_field-PortsValid acc next field h v)
      ]

  checked-RuleValid :
      (d : Direction) (acc : Target Ipv4Net × Filter) (r : Rule Ipv4Net)
      → checked ipnet d acc ≡ some r
      → PortsValid acc.1.destination_port_range
      → RuleValid ipnet r
  checked-RuleValid d (t, f) r e v = elim (Bool-cases (ports_allowed f)) [
    | inl h ↦
        subst (RuleValid ipnet) (some-injective (rw h at e))
          ((ports_allowed-PortsNamed f.protocol f.destination_port_range).0 h, v)
    | inr h ↦ absurd (ground (arith, rw h at e))
  ]

  rule_of-RuleValid : (b : Body) (r : Rule Ipv4Net) → rule_of ipnet b ≡ some r → RuleValid ipnet r
  unfolding parse_stateful
  rule_of-RuleValid (Body.target s) r e =
      let i = and_then-some (parse_target ipnet s) _ r e in
      subst (RuleValid ipnet) (some-injective i.2) tt
  rule_of-RuleValid (Body.stateful s fields) r e =
      let d = and_then-some (parse_direction s) _ r e in
      let acc =
        and_then-some (read_fields ipnet (Target.prefix default, default_filter) fields)
          (checked ipnet d.0) r d.2 in
      checked-RuleValid d.0 acc.0 r acc.2
        (read_fields-PortsValid (Target.prefix default, default_filter) acc.0 fields acc.1 tt)

  -- A rule that is read names ports only with TCP or UDP, and its ports are a range.
  pub parse_rule-RuleValid :
      (s : List ℕ) (r : Rule Ipv4Net) → parse_rule ipnet s ≡ some r → RuleValid ipnet r
  unfolding parse_rule
  parse_rule-RuleValid s r e =
      let b = and_then-some (parse_syntax s) (rule_of ipnet) r e in rule_of-RuleValid b.0 r b.2

  -- A rule that is read from any text is read again from what it is written as.
  pub parse_rule-again :
      (s : List ℕ) (r : Rule Ipv4Net)
      → parse_rule ipnet s ≡ some r
      → parse_rule ipnet (rule_text ipnet r) ≡ some r
  parse_rule-again s r e = parse_rule-rule_text ipnet r (parse_rule-RuleValid s r e)
