-- ===== src/Rule/Parser/Fields.antt =====
-- lib/proxy/rule.pest: the direction, the protocol and the target of a rule, which are told apart by
-- their first byte.
use softnet.Prelude.{
  and_then, ℕ, ◌≡◌, ◌≢◌, refl, ap, ◌∙◌, true, false, ◌||◌, Option, none, some, List, [], ◌∷◌, ◌++◌,
  arith, leb, ◌==◌, All,
}
use softnet.Ipnet.{is_network_byte, Ipnet}
use softnet.Rule.{Direction, Protocol, PortRange, Target}
use softnet.Rule.Text.{
  is_digit, target_text, protocol_text, direction_text, protocol_part, port_part,
}
use softnet.Rule.Grammar.{
  literal, skip_spaces, spaces, is_net, take_direction, take_protocol_name, take_target,
  take_protocol, Field, optional,
}
use softnet.Rule.Parser.{parse_target, text_is}
use softnet.Rule.Parser.Reading.{
  Stops, take_some-append, optional-some, optional-none, protocols_of,
}

-- The input begins as the text of a target does.
abbrev pub Front : List ℕ → Type 0
Front [] = ⊥
Front (c ∷ cs) = (c == b'@' || is_net c) ≡ true

skip_spaces-Front : (cs : List ℕ) → Front cs → skip_spaces cs ≡ cs
unfolding skip_spaces is_net is_digit
skip_spaces-Front [] h = absurd h
skip_spaces-Front (c ∷ cs) h = let other : (c == b' ') ≡ false = ground (arith, h) in rw other refl

literal-Front :
    (a : ℕ) (text cs : List ℕ) → leb b'a' a ≡ true → Front cs → literal (a ∷ text) cs ≡ none
unfolding literal is_net is_digit
literal-Front a text [] k h = absurd h
literal-Front a text (c ∷ cs) k h =
    let other : (a == c) ≡ false = ground (arith, h, k) in rw other refl

take_protocol-Front : (cs : List ℕ) → Front cs → take_protocol cs ≡ none
unfolding take_protocol
take_protocol-Front cs h =
    ap (λ o. and_then o (λ rest. and_then (spaces rest) take_protocol_name))
      (literal-Front b'p' (b'r' ∷ b'o' ∷ b't' ∷ b'o' ∷ []) cs refl h)

pub take_direction-Front : (cs : List ℕ) → Front cs → take_direction cs ≡ none
unfolding take_direction
take_direction-Front cs h =
    rw (literal-Front b'i' (b'n' ∷ []) cs refl h, literal-Front b'o' (b'u' ∷ b't' ∷ []) cs refl h)
      refl

take_protocol-append :
    (p : Protocol) (rest : List ℕ)
    → take_protocol (skip_spaces (protocol_part (some p) ++ rest))
      ≡ some (protocol_text p, b' ' ∷ rest)
unfolding take_protocol take_protocol_name literal spaces skip_spaces protocol_text
take_protocol-append Protocol.tcp rest = refl
take_protocol-append Protocol.udp rest = refl
take_protocol-append Protocol.icmp rest = refl

pub optional-protocol :
    (o : Option Protocol) (rest : List ℕ)
    → Front rest
    → optional take_protocol Field.protocol_name (b' ' ∷ (protocol_part o ++ rest))
      ≡ (protocols_of o, b' ' ∷ rest)
optional-protocol none rest h =
    optional-none take_protocol Field.protocol_name rest
      (ap take_protocol (skip_spaces-Front rest h) ∙ take_protocol-Front rest h)
optional-protocol (some p) rest h = named p
  where
    named :
        (p : Protocol)
        → optional take_protocol Field.protocol_name (b' ' ∷ (protocol_part (some p) ++ rest))
          ≡ (Field.protocol_name (protocol_text p) ∷ [], b' ' ∷ rest)
    named p =
        optional-some take_protocol Field.protocol_name (protocol_part (some p) ++ rest)
          (protocol_text p) (b' ' ∷ rest) (take_protocol-append p rest)

pub take_direction-append :
    (d : Direction) (rest : List ℕ)
    → take_direction (direction_text d ++ rest) ≡ some (direction_text d, rest)
unfolding take_direction direction_text literal
take_direction-append Direction.inbound rest = refl
take_direction-append Direction.outbound rest = refl

pub Stops-port_part : (o : Option PortRange) → Stops is_net (port_part o)
unfolding is_net is_digit
Stops-port_part none = tt
Stops-port_part (some r) = refl

module _ (ipnet : Ipnet) where
  open ipnet use {Ipv4Net, to_string, to_string-bytes, to_string-ne-nil, parse, parse-to_string}

  net_byte : (c : ℕ) → is_network_byte c ≡ true → is_net c ≡ true
  unfolding is_net is_digit
  net_byte c h = h

  net_bytes : (cs : List ℕ) → All (λ c. is_network_byte c ≡ true) cs → All (λ c. is_net c ≡ true) cs
  net_bytes [] a = tt
  net_bytes (c ∷ cs) a = (net_byte c a.0, net_bytes cs a.1)

  Front-network :
      (cs rest : List ℕ) → cs ≢ [] → All (λ c. is_network_byte c ≡ true) cs → Front (cs ++ rest)
  Front-network [] rest n a = absurd (n refl)
  Front-network (c ∷ cs) rest n a = ground (arith, net_byte c a.0)

  pub Front-target_text : (t : Target Ipv4Net) (rest : List ℕ) → Front (target_text ipnet t ++ rest)
  unfolding target_text
  Front-target_text (Target.prefix p) rest =
      Front-network (to_string p) rest (to_string-ne-nil p) (to_string-bytes p)
  Front-target_text Target.host rest = refl
  Front-target_text Target.peers rest = refl

  literal-net :
      (text cs rest : List ℕ)
      → cs ≢ []
      → All (λ c. is_network_byte c ≡ true) cs
      → literal (b'@' ∷ text) (cs ++ rest) ≡ none
  unfolding literal
  literal-net text [] rest n a = absurd (n refl)
  literal-net text (c ∷ cs) rest n a =
      let h = a.0 in let other : (b'@' == c) ≡ false = ground (arith, h) in rw other refl

  take_net :
      (cs rest : List ℕ)
      → cs ≢ []
      → All (λ c. is_network_byte c ≡ true) cs
      → Stops is_net rest
      → take_target (cs ++ rest) ≡ some (cs, rest)
  unfolding take_target
  take_net cs rest n a s =
      rw
        (
          literal-net (b'h' ∷ b'o' ∷ b's' ∷ b't' ∷ []) cs rest n a,
          literal-net (b'p' ∷ b'e' ∷ b'e' ∷ b'r' ∷ b's' ∷ []) cs rest n a,
        )
        (take_some-append is_net cs rest n (net_bytes cs a) s)

  pub take_target-append :
      (t : Target Ipv4Net) (rest : List ℕ)
      → Stops is_net rest
      → take_target (target_text ipnet t ++ rest) ≡ some (target_text ipnet t, rest)
  unfolding target_text take_target literal
  take_target-append (Target.prefix p) rest s =
      take_net (to_string p) rest (to_string-ne-nil p) (to_string-bytes p) s
  take_target-append Target.host rest s = refl
  take_target-append Target.peers rest s = refl

  pub optional-target :
      (t : Target Ipv4Net) (rest : List ℕ)
      → Stops is_net rest
      → optional take_target Field.target (b' ' ∷ (target_text ipnet t ++ rest))
        ≡ (Field.target (target_text ipnet t) ∷ [], rest)
  optional-target t rest s =
      optional-some take_target Field.target (target_text ipnet t ++ rest) (target_text ipnet t)
        rest
        (ap take_target (skip_spaces-Front (target_text ipnet t ++ rest) (Front-target_text t rest))
          ∙ take_target-append t rest s)

  text_is-net :
      (text cs : List ℕ) → All (λ c. is_network_byte c ≡ true) cs → text_is cs (b'@' ∷ text) ≡ false
  unfolding text_is
  text_is-net text [] a = refl
  text_is-net text (c ∷ cs) a =
      let h = a.0 in let other : (c == b'@') ≡ false = ground (arith, h) in rw other refl

  pub parse_target-target_text :
      (t : Target Ipv4Net) → parse_target ipnet (target_text ipnet t) ≡ some t
  unfolding target_text parse_target text_is
  parse_target-target_text (Target.prefix p) =
      rw
        (
          text_is-net (b'h' ∷ b'o' ∷ b's' ∷ b't' ∷ []) (to_string p) (to_string-bytes p),
          text_is-net (b'p' ∷ b'e' ∷ b'e' ∷ b'r' ∷ b's' ∷ []) (to_string p) (to_string-bytes p),
          parse-to_string p,
        )
        refl
  parse_target-target_text Target.host = refl
  parse_target-target_text Target.peers = refl
