-- ===== src/Witnesses/Syntax.antt =====
-- lib/proxy/rule.rs: a rule that is read, and its theorems at it.
use softnet.Prelude.{ℕ, ◌≡◌, refl, some, List, [], ◌∷◌}
use softnet.Rule.{Direction, Protocol, PortRange, Target, Rule}
use softnet.Rule.Text.{rule_text}
use softnet.Rule.Parser.{parse_rule}
use softnet.Rule.Parser.RoundTrip.{RuleValid}
use softnet.Rule.Parser.Sound.{parse_rule-again, parse_rule-RuleValid}
use softnet.Example.{ipnet, Net}

-- "out  proto tcp @peers port 080"
abbrev loose_text : List ℕ
loose_text =
    b'o' ∷ b'u' ∷ b't' ∷ b' ' ∷ b' ' ∷ b'p' ∷ b'r' ∷ b'o' ∷ b't' ∷ b'o' ∷ b' ' ∷ b't' ∷ b'c' ∷ b'p'
    ∷ b' ' ∷ b'@' ∷ b'p' ∷ b'e' ∷ b'e' ∷ b'r' ∷ b's' ∷ b' ' ∷ b'p' ∷ b'o' ∷ b'r' ∷ b't' ∷ b' '
    ∷ b'0' ∷ b'8' ∷ b'0' ∷ []

abbrev loose_rule : Rule Net
loose_rule = Rule.stateful Direction.outbound Target.peers (record {
  protocol = some Protocol.tcp;
  destination_port_range = some (record { start = 80; end = 80 });
})

loose_text_read : parse_rule ipnet loose_text ≡ some loose_rule
unfolding parse_rule softnet.Rule.new_range
loose_text_read = refl

parse_rule-again_example : parse_rule ipnet (rule_text ipnet loose_rule) ≡ some loose_rule
parse_rule-again_example = parse_rule-again ipnet loose_text loose_rule loose_text_read

parse_rule-RuleValid_example : RuleValid ipnet loose_rule
parse_rule-RuleValid_example = parse_rule-RuleValid ipnet loose_text loose_rule loose_text_read
