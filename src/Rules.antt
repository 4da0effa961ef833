-- ===== src/Rules.antt =====
-- lib/proxy/rules.rs: a policy compiled into two prefix maps, and the decision on a packet.
pub mod Order
pub mod Compiled
pub mod Entries
pub mod Latest
pub mod Candidates
pub mod Blocks
pub mod Decision
pub mod Outcomes
use softnet.Prelude.{
  ℕ, ◌+◌, Bool, true, false, not, ◌&&◌, ◌||◌, Option, none, some, List, [], ◌∷◌, ◌++◌, map, ltb,
  leb, ◌==◌, if◌then◌else◌, bit, length, any,
}
use softnet.Prelude.HashMap
use softnet.Wire.{IpProtocol, Ipv4Packet}
use softnet.Ipnet.{Ipnet, PrefixTrie}
use softnet.Rule.{
  Direction, Protocol, PortRange, Filter, Filter-discrete, Target, Rule, default_filter,
  contains_port, width,
}

pub data Action : Type 0 where
  block allow : Action

pub data PolicyDecision : Type 0 where
  block allow_stateless allow_stateful : PolicyDecision

pub data Mode : Type 0 where
  legacy stateful : Mode

abbrev pub is_block : Action → Bool
is_block Action.block = true
is_block Action.allow = false

abbrev pub is_stateful_mode : Mode → Bool
is_stateful_mode Mode.legacy = false
is_stateful_mode Mode.stateful = true

abbrev pub is_some {ℓ} : {A : Type ℓ} → Option A → Bool
is_some none = false
is_some (some _) = true

-- Filters for one prefix, ordered from highest to lowest priority.
abbrev pub FilterRules : Type 0
FilterRules = List (Filter × Action)

-- The tuple of `rule_priority`; `width` stands in `Reverse`.
pub record Priority : Type 0 where
  pub has_port : Bool
  pub prefix_len : ℕ
  pub has_protocol : Bool
  pub width : ℕ
  pub blocks : Bool

unfoldable pub port_width : Option PortRange → ℕ
unfolding width
port_width none = 65535
port_width (some range) = width range

unfoldable pub rule_priority : ℕ → Filter → Action → Priority
unfolding port_width
rule_priority prefix_len filter action = record {
  has_port = is_some filter.destination_port_range;
  prefix_len = prefix_len;
  has_protocol = is_some filter.protocol;
  width = port_width filter.destination_port_range;
  blocks = is_block action;
}

-- One component of the lexicographic order on tuples, before the rest.
abbrev pub lex : ℕ → ℕ → Bool → Bool
lex a b rest = if ltb a b then true else (if a == b then rest else false)

-- `a <= b` on the tuples.
unfoldable pub priority_leb : Priority → Priority → Bool
priority_leb a b = lex (bit a.has_port) (bit b.has_port) (
    lex a.prefix_len b.prefix_len (
      lex (bit a.has_protocol) (bit b.has_protocol)
        (lex b.width a.width (leb (bit a.blocks) (bit b.blocks)))))

-- `sort_unstable_by_key` with `Reverse(key)`: the order of equal keys is left open by the source,
-- and is that of the input here.
module _ {ℓ} {A : Type ℓ} (key : A → Priority) where
  unfoldable pub insert_sorted : A → List A → List A
  insert_sorted x [] = x ∷ []
  insert_sorted x (y ∷ ys) =
      if priority_leb (key y) (key x) then x ∷ y ∷ ys else y ∷ insert_sorted x ys

  unfoldable pub sort_by_priority : List A → List A
  unfolding insert_sorted
  sort_by_priority [] = []
  sort_by_priority (x ∷ xs) = insert_sorted x (sort_by_priority xs)

-- The transport protocols that a filter can name.
unfoldable pub filter_protocol : IpProtocol → Option Protocol
filter_protocol IpProtocol.tcp = some Protocol.tcp
filter_protocol IpProtocol.udp = some Protocol.udp
filter_protocol IpProtocol.icmp = some Protocol.icmp
filter_protocol IpProtocol.other = none

unfoldable pub protocol_eq : Protocol → Protocol → Bool
protocol_eq Protocol.tcp Protocol.tcp = true
protocol_eq Protocol.udp Protocol.udp = true
protocol_eq Protocol.icmp Protocol.icmp = true
protocol_eq _ _ = false

-- `filter.protocol.is_some() && filter.protocol != protocol`
unfoldable pub protocol_differs : Option Protocol → Option Protocol → Bool
unfolding protocol_eq
protocol_differs none q = false
protocol_differs (some p) none = true
protocol_differs (some p) (some q) = not (protocol_eq p q)

unfoldable pub is_transport : Option Protocol → Bool
is_transport (some Protocol.tcp) = true
is_transport (some Protocol.udp) = true
is_transport _ = false

-- `match filter.destination_port_range`
unfoldable pub port_matches : Option PortRange → Action → Option Protocol → Option ℕ → Bool
unfolding contains_port is_transport
port_matches none action protocol destination_port = true
port_matches (some range) action protocol (some port) = contains_port range port
port_matches (some range) action protocol none = is_block action && is_transport protocol

-- The closure of `find` in `filter_action`.
unfoldable pub filter_matches : Filter → Action → Option Protocol → Option ℕ → Bool
unfolding protocol_differs port_matches
filter_matches filter action protocol destination_port =
    if protocol_differs filter.protocol protocol
    then false
    else port_matches filter.destination_port_range action protocol destination_port

unfoldable pub find_filter : FilterRules → Option Protocol → Option ℕ → Option (Filter × Action)
find_filter [] protocol destination_port = none
find_filter ((filter, action) ∷ filters) protocol destination_port =
    if filter_matches filter action protocol destination_port
    then some (filter, action)
    else find_filter filters protocol destination_port

unfoldable pub filter_action : FilterRules → IpProtocol → Option ℕ → Option (Filter × Action)
unfolding find_filter filter_protocol
filter_action filters protocol destination_port =
    find_filter filters (filter_protocol protocol) destination_port

unfoldable pub transport_ports : IpProtocol → Ipv4Packet → Option (ℕ × ℕ)
transport_ports IpProtocol.tcp p = elim p.tcp [
  | none ↦ none
  | some s ↦ some (s.src_port, s.dst_port)
]
transport_ports IpProtocol.udp p = elim p.udp [
  | none ↦ none
  | some s ↦ some (s.src_port, s.dst_port)
]
transport_ports _ p = none

unfoldable pub packet_ports : Ipv4Packet → Option (ℕ × ℕ)
unfolding transport_ports
packet_ports p =
    if p.more_frags || not (p.frag_offset == 0) then none else transport_ports p.next_header p

abbrev pub destination_of : Option (ℕ × ℕ) → Option ℕ
destination_of none = none
destination_of (some (_, destination)) = some destination

abbrev pub source_of : Option (ℕ × ℕ) → Option ℕ
source_of none = none
source_of (some (source, _)) = some source

-- The last of the maximal elements, as `max_by_key` returns it.
unfoldable pub max_from : Priority × Action → List (Priority × Action) → Priority × Action
max_from best [] = best
max_from best (x ∷ xs) = max_from (if priority_leb best.0 x.0 then x else best) xs

unfoldable pub max_by_priority : List (Priority × Action) → Option (Priority × Action)
unfolding max_from
max_by_priority [] = none
max_by_priority (x ∷ xs) = some (max_from x xs)

abbrev pub is_stateful_rule : {N : Type 0} → Rule N → Bool
is_stateful_rule (Rule.stateless _) = false
is_stateful_rule (Rule.stateful _ _ _) = true

unfoldable pub mode_of : {N : Type 0} → List (Rule N) → List (Rule N) → Mode
mode_of allows blocks =
    if any is_stateful_rule (allows ++ blocks) then Mode.stateful else Mode.legacy

-- The filters of one prefix, sorted.
unfoldable pub compile_filters : ℕ → List (Filter × Action) → FilterRules
unfolding sort_by_priority
compile_filters prefix_len filters =
    sort_by_priority (λ e. rule_priority prefix_len e.0 e.1) filters

abbrev pub action_of : Option (Priority × Action) → Option Action
action_of none = none
action_of (some (_, action)) = some action

abbrev pub remote_address : Ipv4Packet → Direction → ℕ
remote_address p Direction.inbound = p.src_addr
remote_address p Direction.outbound = p.dst_addr

-- `match (action, self.mode)`
unfoldable pub decide : Option Action → Mode → Option PolicyDecision
decide none mode = none
decide (some Action.block) mode = some PolicyDecision.block
decide (some Action.allow) Mode.legacy = some PolicyDecision.allow_stateless
decide (some Action.allow) Mode.stateful = some PolicyDecision.allow_stateful

abbrev pub reply_address : Ipv4Packet → Direction → ℕ
reply_address p Direction.inbound = p.dst_addr
reply_address p Direction.outbound = p.src_addr

abbrev pub sum_lengths : List FilterRules → ℕ
sum_lengths [] = 0
sum_lengths (filters ∷ rest) = length filters + sum_lengths rest

module _ (ipnet : Ipnet) (trie : PrefixTrie ipnet) where
  open ipnet use {Ipv4Net, prefix_len, of_address}
  open trie use {PrefixMap, update, into_iter, collect, values, cover}

  -- `PendingRules`, with its `HashMap<Filter, Action>`
  abbrev pub PendingRules : Type 0
  PendingRules = PrefixMap (List (Filter × Action))

  pub record Rules : Type 0 where
    pub mode : Mode
    pub inbound : PrefixMap FilterRules
    pub outbound : PrefixMap FilterRules

  -- `entries.entry(prefix).or_default().insert(filter, action)`
  unfoldable pub insert_entry : PendingRules → Ipv4Net → Filter → Action → PendingRules
  insert_entry entries prefix filter action =
      update entries prefix [] (HashMap.insert Filter-discrete filter action)

  unfoldable pub insert_peers : PendingRules → List ℕ → Filter → Action → PendingRules
  unfolding insert_entry
  insert_peers entries [] filter action = entries
  insert_peers entries (address ∷ addresses) filter action =
      insert_peers (insert_entry entries (of_address address) filter action) addresses filter action

  unfoldable pub insert_filter :
      PendingRules → Target Ipv4Net → Filter → Action → ℕ → List ℕ → PendingRules
  unfolding insert_entry insert_peers
  insert_filter entries (Target.prefix prefix) filter action host_address peer_addresses =
      insert_entry entries prefix filter action
  insert_filter entries Target.host filter action host_address peer_addresses =
      insert_entry entries (of_address host_address) filter action
  insert_filter entries Target.peers filter action host_address peer_addresses =
      insert_peers entries peer_addresses filter action

  unfoldable pub compile_rules : PendingRules → PrefixMap FilterRules
  unfolding compile_filters
  compile_rules entries =
      collect (map (λ e. (e.0, compile_filters (prefix_len e.0) e.1)) (into_iter entries))

  -- The two pending maps of `Rules::new`.
  pub record Pending : Type 0 where
    pub inbound : PendingRules
    pub outbound : PendingRules

  module _ (host_address : ℕ) (peer_addresses : List ℕ) (mode : Mode) where
    -- The body of the inner loop of `Rules::new`.
    unfoldable pub insert_rule : Pending → Rule Ipv4Net → Action → Pending
    unfolding insert_filter
    insert_rule pending (Rule.stateless target) action = record {
      inbound =
          if is_stateful_mode mode
          then insert_filter pending.inbound target default_filter action host_address
              peer_addresses
          else pending.inbound;
      outbound =
          insert_filter pending.outbound target default_filter action host_address peer_addresses;
    }
    insert_rule pending (Rule.stateful Direction.inbound target filter) action = record pending {
      inbound = insert_filter pending.inbound target filter action host_address peer_addresses;
    }
    insert_rule pending (Rule.stateful Direction.outbound target filter) action = record pending {
      outbound = insert_filter pending.outbound target filter action host_address peer_addresses;
    }

    unfoldable pub insert_rules : Pending → List (Rule Ipv4Net) → Action → Pending
    unfolding insert_rule
    insert_rules pending [] action = pending
    insert_rules pending (rule ∷ rules) action =
        insert_rules (insert_rule pending rule action) rules action

  abbrev pub no_rules : Pending
  no_rules = record {
    inbound = trie.new (List (Filter × Action));
    outbound = trie.new (List (Filter × Action));
  }

  -- The pending maps at the end of the loop: what allows first, then what blocks.
  unfoldable pub pending_rules : ℕ → List ℕ → List (Rule Ipv4Net) → List (Rule Ipv4Net) → Pending
  unfolding mode_of insert_rules
  pending_rules host_address peer_addresses allows blocks =
      let mode = mode_of allows blocks in
      let allowed = insert_rules host_address peer_addresses mode no_rules allows Action.allow in
      insert_rules host_address peer_addresses mode allowed blocks Action.block

  -- `Rules::new`
  unfoldable pub new_rules : ℕ → List ℕ → List (Rule Ipv4Net) → List (Rule Ipv4Net) → Rules
  unfolding mode_of pending_rules compile_rules
  new_rules host_address peer_addresses allows blocks =
      let pending = pending_rules host_address peer_addresses allows blocks in
      record {
        mode = mode_of allows blocks;
        inbound = compile_rules pending.inbound;
        outbound = compile_rules pending.outbound;
      }

  -- The closure of `filter_map` in `select`: what it adds for one covering prefix.
  abbrev pub add_candidate :
      Ipv4Net → Option (Filter × Action) → List (Priority × Action) → List (Priority × Action)
  add_candidate prefix none rest = rest
  add_candidate prefix (some (filter, action)) rest =
      (rule_priority (prefix_len prefix) filter action, action) ∷ rest

  unfoldable pub candidates :
      List (Ipv4Net × FilterRules) → IpProtocol → Option ℕ → List (Priority × Action)
  candidates [] protocol destination_port = []
  candidates ((prefix, filters) ∷ covering) protocol destination_port =
      add_candidate prefix (filter_action filters protocol destination_port)
        (candidates covering protocol destination_port)

  abbrev pub entries_of : Rules → Direction → PrefixMap FilterRules
  entries_of rules Direction.inbound = rules.inbound
  entries_of rules Direction.outbound = rules.outbound

  unfoldable pub select : Rules → ℕ → Direction → IpProtocol → Option ℕ → Option Action
  unfolding candidates max_by_priority
  select rules address direction protocol destination_port = action_of (
      max_by_priority (
        candidates (cover (entries_of rules direction) (of_address address)) protocol
          destination_port))

  unfoldable pub policy_decision : Rules → Ipv4Packet → Direction → Option PolicyDecision
  unfolding select decide packet_ports
  policy_decision rules p direction =
      decide
        (select rules (remote_address p direction) direction p.next_header
          (destination_of (packet_ports p)))
        rules.mode

  unfoldable pub is_stateful : Rules → Ipv4Packet → Direction → Bool
  unfolding select packet_ports
  is_stateful rules p direction =
      is_stateful_mode rules.mode
      && is_some (
          select rules (reply_address p direction) direction p.next_header
            (source_of (packet_ports p)))

  -- `Rules::len`
  unfoldable pub rule_count : Rules → ℕ
  rule_count rules = sum_lengths (values rules.inbound ++ values rules.outbound)

  unfoldable pub has_stateful : Rules → Bool
  has_stateful rules = is_stateful_mode rules.mode
