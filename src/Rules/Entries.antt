-- ===== src/Rules/Entries.antt =====
-- lib/proxy/rules.rs: the policy as a flat list of entries, the description against which the two
-- pending maps of `Rules::new` are proved.
use softnet.Prelude.{ℕ, ◌≡◌, refl, sym, ap, ◌∙◌, List, [], ◌∷◌, ◌++◌, In}
use softnet.Ipnet.{Ipnet, PrefixTrie}
use softnet.Rule.{Direction, Filter, Target, Rule, default_filter}
use softnet.Rules.{
  Action, Mode, Pending, PendingRules, insert_entry, insert_peers, insert_filter, insert_rule,
  insert_rules, no_rules, pending_rules, mode_of,
}

-- What a rule says of one network.
pub record Entry (N : Type 0) : Type 0 where
  pub prefix : N
  pub filter : Filter
  pub action : Action

-- Nothing that allows stands behind something that blocks.
abbrev pub BlocksLast : {N : Type 0} → List (Entry N) → Type 0
BlocksLast [] = Unit
BlocksLast (e ∷ es) =
    (e.action ≡ Action.block → (x : Entry _) → In x es → x.action ≡ Action.block) × BlocksLast es

module _ (ipnet : Ipnet) (host_address : ℕ) (peer_addresses : List ℕ) where
  open ipnet use {Ipv4Net, of_address}

  abbrev pub peer_entries : List ℕ → Filter → Action → List (Entry Ipv4Net)
  peer_entries [] filter action = []
  peer_entries (address ∷ addresses) filter action =
      record { prefix = of_address address; filter = filter; action = action }
      ∷ peer_entries addresses filter action

  -- `@host` is the gateway and `@peers` is each peer.
  abbrev pub target_entries : Target Ipv4Net → Filter → Action → List (Entry Ipv4Net)
  target_entries (Target.prefix p) filter action =
      record { prefix = p; filter = filter; action = action } ∷ []
  target_entries Target.host filter action =
      record { prefix = of_address host_address; filter = filter; action = action } ∷ []
  target_entries Target.peers filter action = peer_entries peer_addresses filter action

  -- A bare rule is an outbound one, and an inbound one too in stateful mode.
  abbrev pub rule_entries : Mode → Direction → Rule Ipv4Net → Action → List (Entry Ipv4Net)
  rule_entries mode Direction.outbound (Rule.stateless target) action =
      target_entries target default_filter action
  rule_entries Mode.stateful Direction.inbound (Rule.stateless target) action =
      target_entries target default_filter action
  rule_entries Mode.legacy Direction.inbound (Rule.stateless target) action = []
  rule_entries mode Direction.inbound (Rule.stateful Direction.inbound target filter) action =
      target_entries target filter action
  rule_entries mode Direction.outbound (Rule.stateful Direction.outbound target filter) action =
      target_entries target filter action
  rule_entries mode Direction.inbound (Rule.stateful Direction.outbound target filter) action = []
  rule_entries mode Direction.outbound (Rule.stateful Direction.inbound target filter) action = []

  unfoldable pub rules_entries :
      Mode → Direction → List (Rule Ipv4Net) → Action → List (Entry Ipv4Net)
  rules_entries mode direction [] action = []
  rules_entries mode direction (rule ∷ rules) action =
      rule_entries mode direction rule action ++ rules_entries mode direction rules action

  -- The whole policy in one direction.
  abbrev pub policy_entries :
      Direction → List (Rule Ipv4Net) → List (Rule Ipv4Net) → List (Entry Ipv4Net)
  policy_entries direction allows blocks =
      rules_entries (mode_of allows blocks) direction allows Action.allow
      ++ rules_entries (mode_of allows blocks) direction blocks Action.block

module _ (ipnet : Ipnet) (trie : PrefixTrie ipnet) where
  open ipnet use {Ipv4Net}

  unfoldable pub insert_entries :
      PendingRules ipnet trie → List (Entry Ipv4Net) → PendingRules ipnet trie
  insert_entries m [] = m
  insert_entries m (e ∷ es) =
      insert_entries (insert_entry ipnet trie m e.prefix e.filter e.action) es

  insert_entries-append :
      (m : PendingRules ipnet trie) (xs ys : List (Entry Ipv4Net))
      → insert_entries m (xs ++ ys) ≡ insert_entries (insert_entries m xs) ys
  unfolding insert_entries
  insert_entries-append m [] ys = refl
  insert_entries-append m (x ∷ xs) ys =
      insert_entries-append (insert_entry ipnet trie m x.prefix x.filter x.action) xs ys

  module _ (host_address : ℕ) (peer_addresses : List ℕ) where
    insert_peers-entries :
        (m : PendingRules ipnet trie) (addresses : List ℕ) (filter : Filter) (action : Action)
        → insert_peers ipnet trie m addresses filter action
          ≡ insert_entries m
              (peer_entries ipnet host_address peer_addresses addresses filter action)
    unfolding insert_peers insert_entries
    insert_peers-entries m [] filter action = refl
    insert_peers-entries m (a ∷ rest) filter action =
        insert_peers-entries (insert_entry ipnet trie m (ipnet.of_address a) filter action) rest
          filter action

    insert_filter-entries :
        (m : PendingRules ipnet trie) (target : Target Ipv4Net) (filter : Filter) (action : Action)
        → insert_filter ipnet trie m target filter action host_address peer_addresses
          ≡ insert_entries m (target_entries ipnet host_address peer_addresses target filter action)
    unfolding insert_filter insert_entries
    insert_filter-entries m (Target.prefix p) filter action = refl
    insert_filter-entries m Target.host filter action = refl
    insert_filter-entries m Target.peers filter action =
        insert_peers-entries m peer_addresses filter action

    abbrev pub pending_of : Pending ipnet trie → Direction → PendingRules ipnet trie
    pending_of pending Direction.inbound = pending.inbound
    pending_of pending Direction.outbound = pending.outbound

    insert_rule-entries :
        (mode : Mode) (pending : Pending ipnet trie) (rule : Rule Ipv4Net) (action : Action)
        (d : Direction)
        → pending_of (insert_rule ipnet trie host_address peer_addresses mode pending rule action) d
          ≡ insert_entries
              (pending_of pending d)
              (rule_entries ipnet host_address peer_addresses mode d rule action)
    unfolding insert_rule insert_entries
    insert_rule-entries mode pending (Rule.stateless target) action Direction.outbound =
        insert_filter-entries pending.outbound target default_filter action
    insert_rule-entries Mode.stateful pending (Rule.stateless target) action Direction.inbound =
        insert_filter-entries pending.inbound target default_filter action
    insert_rule-entries Mode.legacy pending (Rule.stateless target) action Direction.inbound = refl
    insert_rule-entries mode pending (Rule.stateful Direction.inbound t f) action
          Direction.inbound =
        insert_filter-entries pending.inbound t f action
    insert_rule-entries mode pending (Rule.stateful Direction.outbound t f) action
          Direction.outbound =
        insert_filter-entries pending.outbound t f action
    insert_rule-entries mode pending (Rule.stateful Direction.outbound t f) action
          Direction.inbound =
        refl
    insert_rule-entries mode pending (Rule.stateful Direction.inbound t f) action
          Direction.outbound =
        refl

    insert_rules-entries :
        (mode : Mode) (pending : Pending ipnet trie) (rules : List (Rule Ipv4Net)) (action : Action)
        (d : Direction)
        → pending_of
            (insert_rules ipnet trie host_address peer_addresses mode pending rules action)
            d
          ≡ insert_entries
              (pending_of pending d)
              (rules_entries ipnet host_address peer_addresses mode d rules action)
    unfolding insert_rules rules_entries insert_entries
    insert_rules-entries mode pending [] action d = refl
    insert_rules-entries mode pending (rule ∷ rules) action d =
        insert_rules-entries mode
          (insert_rule ipnet trie host_address peer_addresses mode pending rule action) rules action
          d
        ∙ ap
            (λ m.
              insert_entries m
                (rules_entries ipnet host_address peer_addresses mode d rules action))
            (insert_rule-entries mode pending rule action d)
        ∙ sym (
            insert_entries-append (pending_of pending d)
              (rule_entries ipnet host_address peer_addresses mode d rule action)
              (rules_entries ipnet host_address peer_addresses mode d rules action))

    -- The pending maps of `Rules::new` are the policy's entries, inserted in order into no rules.
    pub pending_rules-entries :
        (allows blocks : List (Rule Ipv4Net)) (d : Direction)
        → pending_of (pending_rules ipnet trie host_address peer_addresses allows blocks) d
          ≡ insert_entries
              (pending_of (no_rules ipnet trie) d)
              (policy_entries ipnet host_address peer_addresses d allows blocks)
    unfolding pending_rules
    pending_rules-entries allows blocks d =
        insert_rules-entries (mode_of allows blocks)
          (insert_rules ipnet trie host_address peer_addresses (mode_of allows blocks)
            (no_rules ipnet trie) allows Action.allow)
          blocks Action.block d
        ∙ ap
            (λ m. insert_entries m (
              rules_entries ipnet host_address peer_addresses (mode_of allows blocks) d blocks
                Action.block))
            (insert_rules-entries (mode_of allows blocks) (no_rules ipnet trie) allows Action.allow
              d)
        ∙ sym (
            insert_entries-append (pending_of (no_rules ipnet trie) d)
              (rules_entries ipnet host_address peer_addresses (mode_of allows blocks) d allows
                Action.allow)
              (rules_entries ipnet host_address peer_addresses (mode_of allows blocks) d blocks
                Action.block))
