-- ===== src/Rule/Text.antt =====
-- lib/proxy/rule.rs: how rules and port ranges are written, and how port ranges are read. A text is
-- the list of its bytes; 48 is '0' and 58 is ':'.
pub mod RoundTrip
use softnet.Prelude.{
  ℕ, zero, suc, ◌+◌, ◌-◌, ◌*◌, ◌/◌, ◌%◌, Bool, true, ◌&&◌, ◌||◌, Option, none, some, List, [], ◌∷◌,
  ◌++◌, ltb, leb, ◌==◌, if◌then◌else◌,
}
use softnet.Ipnet.{Ipnet}
use softnet.Rule.{Direction, Protocol, PortRange, Target, Rule, new_range}

-- "in" and "out"
unfoldable pub direction_text : Direction → List ℕ
direction_text Direction.inbound = 105 ∷ 110 ∷ []
direction_text Direction.outbound = 111 ∷ 117 ∷ 116 ∷ []

-- "tcp", "udp" and "icmp"
unfoldable pub protocol_text : Protocol → List ℕ
protocol_text Protocol.tcp = 116 ∷ 99 ∷ 112 ∷ []
protocol_text Protocol.udp = 117 ∷ 100 ∷ 112 ∷ []
protocol_text Protocol.icmp = 105 ∷ 99 ∷ 109 ∷ 112 ∷ []

-- The decimal digits of a number below 10 ^ fuel: `Display for u16` at fuel 5.
unfoldable pub decimal : ℕ → ℕ → List ℕ
decimal zero n = []
decimal (suc fuel) n =
    if ltb n 10 then (48 + n) ∷ [] else decimal fuel (n / 10) ++ ((48 + n % 10) ∷ [])

unfoldable pub range_text : PortRange → List ℕ
unfolding decimal
range_text r =
    if r.start == r.end then decimal 5 r.start else decimal 5 r.start ++ (58 ∷ decimal 5 r.end)

unfoldable pub is_digit : ℕ → Bool
is_digit c = leb 48 c && leb c 57

-- The bytes that `PortRange::from_str` lets through.
unfoldable pub is_port_text : List ℕ → Bool
unfolding is_digit
is_port_text [] = true
is_port_text (c ∷ cs) = (is_digit c || c == 58) && is_port_text cs

-- `split_once(':')`, whose remainder is `none` when there is no colon.
unfoldable pub split_once : List ℕ → List ℕ × Option (List ℕ)
split_once [] = ([], none)
split_once (c ∷ cs) =
    let rest = split_once cs in if c == 58 then ([], some cs) else (c ∷ rest.0, rest.1)

-- One more digit of a `u16`, which must not overflow; a colon is no digit.
unfoldable pub parse_digits : ℕ → List ℕ → Option ℕ
unfolding is_digit
parse_digits value [] = some value
parse_digits value (c ∷ cs) =
    let rest = parse_digits (value * 10 + (c - 48)) cs in
    if is_digit c && leb (value * 10 + (c - 48)) 65535 then rest else none

-- `parse::<u16>` on a text without a sign, which is an error on the empty one.
unfoldable pub parse_bound : List ℕ → Option ℕ
unfolding parse_digits
parse_bound [] = none
parse_bound (c ∷ cs) = parse_digits 0 (c ∷ cs)

abbrev pub range_of : Option ℕ → Option ℕ → Option PortRange
range_of (some start) (some end) = new_range start end
range_of _ _ = none

abbrev pub bounds_of : List ℕ → List ℕ × Option (List ℕ) → List ℕ × List ℕ
bounds_of input (start, some end) = (start, end)
bounds_of input (_, none) = (input, input)

-- `PortRange::from_str`; `none` is any of its errors.
unfoldable pub parse_range : List ℕ → Option PortRange
unfolding is_port_text split_once parse_bound
parse_range input =
    if is_port_text input
    then (let bounds = bounds_of input (split_once input) in
        range_of (parse_bound bounds.0) (parse_bound bounds.1))
    else none

abbrev pub protocol_part : Option Protocol → List ℕ
protocol_part none = []
protocol_part (some protocol) =
    112 ∷ 114 ∷ 111 ∷ 116 ∷ 111 ∷ 32 ∷ (protocol_text protocol ++ (32 ∷ []))

abbrev pub port_part : Option PortRange → List ℕ
port_part none = []
port_part (some range) = 32 ∷ 112 ∷ 111 ∷ 114 ∷ 116 ∷ 32 ∷ range_text range

module _ (ipnet : Ipnet) where
  open ipnet use {Ipv4Net, to_string}

  -- "@host" and "@peers", or the prefix as ipnet writes it
  unfoldable pub target_text : Target Ipv4Net → List ℕ
  target_text (Target.prefix p) = to_string p
  target_text Target.host = 64 ∷ 104 ∷ 111 ∷ 115 ∷ 116 ∷ []
  target_text Target.peers = 64 ∷ 112 ∷ 101 ∷ 101 ∷ 114 ∷ 115 ∷ []

  unfoldable pub rule_text : Rule Ipv4Net → List ℕ
  unfolding target_text direction_text protocol_text range_text
  rule_text (Rule.stateless target) = target_text target
  rule_text (Rule.stateful direction target filter) =
      direction_text direction
      ++ (32
          ∷ (protocol_part filter.protocol
              ++ (target_text target ++ port_part filter.destination_port_range)))
