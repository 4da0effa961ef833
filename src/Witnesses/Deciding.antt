-- ===== src/Witnesses/Deciding.antt =====
-- lib/proxy/rules.rs and lib/proxy/mod.rs: the theorems at policies of one or two rules.
use softnet.Prelude.{◌≡◌, ◌↔◌, none, some, [], ◌∷◌, In}
use softnet.Wire.{IpProtocol}
use softnet.Rule.{Direction, Target, Rule, normalized}
use softnet.Rules.{Action, select}
use softnet.Rules.Decision.{Decisive, policy, rules, select_iff, select-eq-none_iff}
use softnet.Rules.Entries.{Entry, policy_entries, pending_of, insert_entries, pending_rules-entries}
use softnet.Rules.Candidates.{Applies}
use softnet.Rules.{pending_rules, no_rules}
use softnet.Policy.{normalize_rules}
use softnet.Policy.Normal.{In-normalize_rules, normalize_rules_twice}
use softnet.Example.{Net, ipnet, trie}
use softnet.Witnesses.{allows, blocks}

select_iff_example :
    (select ipnet trie
        (rules ipnet trie 1 (11 ∷ []) allows blocks)
        200
        Direction.outbound
        IpProtocol.udp
        (some 80)
      ≡ some Action.allow)
    ↔ Decisive ipnet trie
        (policy ipnet trie 1 (11 ∷ []) allows blocks Direction.outbound)
        Action.allow
        200
        IpProtocol.udp
        (some 80)
select_iff_example =
    select_iff ipnet trie 1 (11 ∷ []) allows blocks Direction.outbound 200 IpProtocol.udp (some 80)
      Action.allow

select-eq-none_iff_example :
    (select ipnet trie
        (rules ipnet trie 1 (11 ∷ []) allows blocks)
        201
        Direction.outbound
        IpProtocol.udp
        (some 80)
      ≡ none)
    ↔ ((x : Entry Net)
        → In x (policy ipnet trie 1 (11 ∷ []) allows blocks Direction.outbound)
        → ¬ Applies ipnet trie x 201 IpProtocol.udp (some 80))
select-eq-none_iff_example =
    select-eq-none_iff ipnet trie 1 (11 ∷ []) allows blocks Direction.outbound 201 IpProtocol.udp
      (some 80)

pending_rules-entries_example :
    pending_of ipnet trie 1
      (11 ∷ [])
      (pending_rules ipnet trie 1 (11 ∷ []) allows blocks)
      Direction.inbound
    ≡ insert_entries ipnet trie
        (pending_of ipnet trie 1 (11 ∷ []) (no_rules ipnet trie) Direction.inbound)
        (policy_entries ipnet 1 (11 ∷ []) Direction.inbound allows blocks)
pending_rules-entries_example =
    pending_rules-entries ipnet trie 1 (11 ∷ []) allows blocks Direction.inbound

In-normalize_rules_example :
    In
      (Rule.stateless Target.host)
      (normalize_rules ipnet (Rule.stateless Target.peers ∷ Rule.stateless Target.host ∷ []))
    ↔ ((x : Rule Net) × In x (Rule.stateless Target.peers ∷ Rule.stateless Target.host ∷ [])
        × (Rule.stateless Target.host ≡ normalized ipnet x))
In-normalize_rules_example =
    In-normalize_rules ipnet (Rule.stateless Target.host)
      (Rule.stateless Target.peers ∷ Rule.stateless Target.host ∷ [])

normalize_rules_twice_example :
    normalize_rules ipnet
      (normalize_rules ipnet (Rule.stateless Target.peers ∷ Rule.stateless Target.host ∷ []))
    ≡ normalize_rules ipnet (Rule.stateless Target.peers ∷ Rule.stateless Target.host ∷ [])
normalize_rules_twice_example =
    normalize_rules_twice ipnet (Rule.stateless Target.peers ∷ Rule.stateless Target.host ∷ [])
