-- ===== src/Rule/Grammar.antt =====
-- lib/proxy/rule.pest, the grammar of lib/proxy/rule.rs. pest compiles the grammar to a parser of
-- ordered choices: a part takes its text off the front of the input or leaves all of it, a
-- repetition takes as much as it can, and a choice that was taken is not taken back.
use softnet.Prelude.{
  and_then, ℕ, Bool, ◌||◌, Option, none, some, List, [], ◌∷◌, ◌++◌, ◌==◌, if◌then◌else◌,
}
use softnet.Rule.Text.{is_digit}

-- What is left of the input behind a literal.
unfoldable pub literal : List ℕ → List ℕ → Option (List ℕ)
literal [] input = some input
literal (c ∷ cs) [] = none
literal (c ∷ cs) (d ∷ input) = if c == d then literal cs input else none

-- `" "+`
unfoldable pub skip_spaces : List ℕ → List ℕ
skip_spaces [] = []
skip_spaces (c ∷ cs) = if c == b' ' then skip_spaces cs else c ∷ cs

unfoldable pub spaces : List ℕ → Option (List ℕ)
unfolding skip_spaces
spaces [] = none
spaces (c ∷ cs) = if c == b' ' then some (skip_spaces cs) else none

-- The longest front of bytes that satisfy a test, and what is left.
unfoldable pub take_while : (ℕ → Bool) → List ℕ → List ℕ × List ℕ
take_while p [] = ([], [])
take_while p (c ∷ cs) =
    let rest = take_while p cs in if p c then (c ∷ rest.0, rest.1) else ([], c ∷ cs)

abbrev pub non_empty : List ℕ × List ℕ → Option (List ℕ × List ℕ)
non_empty ([], rest) = none
non_empty (c ∷ cs, rest) = some (c ∷ cs, rest)

-- A repetition of one or more.
unfoldable pub take_some : (ℕ → Bool) → List ℕ → Option (List ℕ × List ℕ)
unfolding take_while
take_some p input = non_empty (take_while p input)

infixr 20 ◌or_else◌
abbrev pub ◌or_else◌ {ℓ} : {A : Type ℓ} → Option A → Option A → Option A
none or_else other = other
some a or_else other = some a

-- A literal as a token.
abbrev pub token : List ℕ → List ℕ → Option (List ℕ × List ℕ)
token text input = and_then (literal text input) (λ rest. some (text, rest))

-- `direction = { "in" | "out" }`
unfoldable pub take_direction : List ℕ → Option (List ℕ × List ℕ)
unfolding literal
take_direction input = token (b'i' ∷ b'n' ∷ []) input or_else token (b'o' ∷ b'u' ∷ b't' ∷ []) input

-- `protocol_name = { "tcp" | "udp" | "icmp" }`
unfoldable pub take_protocol_name : List ℕ → Option (List ℕ × List ℕ)
unfolding literal
take_protocol_name input =
    token (b't' ∷ b'c' ∷ b'p' ∷ []) input
    or_else (token (b'u' ∷ b'd' ∷ b'p' ∷ []) input
        or_else token (b'i' ∷ b'c' ∷ b'm' ∷ b'p' ∷ []) input)

unfoldable pub is_net : ℕ → Bool
unfolding is_digit
is_net c = is_digit c || c == b'.' || c == b'/'

-- `target = @{ "@host" | "@peers" | (ASCII_DIGIT | "." | "/")+ }`
unfoldable pub take_target : List ℕ → Option (List ℕ × List ℕ)
unfolding literal take_some is_net
take_target input =
    token (b'@' ∷ b'h' ∷ b'o' ∷ b's' ∷ b't' ∷ []) input
    or_else (token (b'@' ∷ b'p' ∷ b'e' ∷ b'e' ∷ b'r' ∷ b's' ∷ []) input
        or_else take_some is_net input)

-- `(":" ~ ASCII_DIGIT+)?` behind the digits that were read.
unfoldable pub range_end : List ℕ → List ℕ → List ℕ × List ℕ
unfolding take_some is_digit
range_end start [] = (start, [])
range_end start (c ∷ cs) =
    if c == b':'
    then elim (take_some is_digit cs) [
      | none ↦ (start, c ∷ cs)
      | some (end, rest) ↦ (start ++ (c ∷ end), rest)
    ]
    else (start, c ∷ cs)

-- `destination_port = @{ ASCII_DIGIT+ ~ (":" ~ ASCII_DIGIT+)? }`
unfoldable pub take_destination_port : List ℕ → Option (List ℕ × List ℕ)
unfolding take_some range_end is_digit
take_destination_port input =
    and_then (take_some is_digit input) (λ (start, rest). some (range_end start rest))

-- `protocol = _{ "proto" ~ " "+ ~ protocol_name }`
unfoldable pub take_protocol : List ℕ → Option (List ℕ × List ℕ)
unfolding literal spaces take_protocol_name
take_protocol input =
    and_then (literal (b'p' ∷ b'r' ∷ b'o' ∷ b't' ∷ b'o' ∷ []) input)
      (λ rest. and_then (spaces rest) take_protocol_name)

-- `port = _{ "port" ~ " "+ ~ destination_port }`
unfoldable pub take_port : List ℕ → Option (List ℕ × List ℕ)
unfolding literal spaces take_destination_port
take_port input =
    and_then (literal (b'p' ∷ b'o' ∷ b'r' ∷ b't' ∷ []) input)
      (λ rest. and_then (spaces rest) take_destination_port)

-- The inner pairs of `stateful`, behind the direction.
pub data Field : Type 0 where
  protocol_name target destination_port : List ℕ → Field

-- `(" "+ ~ part)?`: the field that it reads, if any, and what is left.
unfoldable pub optional :
    (List ℕ → Option (List ℕ × List ℕ)) → (List ℕ → Field) → List ℕ → List Field × List ℕ
unfolding spaces
optional part field input = elim (and_then (spaces input) part) [
  | none ↦ ([], input)
  | some (text, rest) ↦ (field text ∷ [], rest)
]

pub data Body : Type 0 where
  target : List ℕ → Body
  stateful : List ℕ → List Field → Body

unfoldable pub take_fields : List ℕ → List Field × List ℕ
unfolding optional take_protocol take_target take_port
take_fields input =
    let p = optional take_protocol Field.protocol_name input in
    let t = optional take_target Field.target p.1 in
    let d = optional take_port Field.destination_port t.1 in (p.0 ++ (t.0 ++ d.0), d.1)

-- `stateful | target`
unfoldable pub take_body : List ℕ → Option (Body × List ℕ)
unfolding take_direction take_fields take_target
take_body input =
    and_then (take_direction input)
      (λ (text, rest). some (Body.stateful text (take_fields rest).0, (take_fields rest).1))
    or_else and_then (take_target input) (λ (text, rest). some (Body.target text, rest))

abbrev pub at_end : Body × List ℕ → Option Body
at_end (b, []) = some b
at_end (b, c ∷ cs) = none

-- `RuleParser::parse(SyntaxRule::rule, input)`
unfoldable pub parse_syntax : List ℕ → Option Body
unfolding take_body
parse_syntax input = and_then (take_body input) at_end
