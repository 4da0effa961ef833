-- ===== src/Rules/Decision.antt =====
-- lib/proxy/rules.rs: what `select` and `policy_decision` decide, against the flat list of entries.
use softnet.Prelude.{
  ℕ, ◌≡◌, refl, sym, ap, ◌∙◌, ◌↔◌, inl, inr, true, Option, none, some, List, In, Option-cases,
  subst,
}
use softnet.Wire.{IpProtocol}
use softnet.Ipnet.{Ipnet, PrefixTrie}
use softnet.Rule.{Rule, Direction}
use softnet.Rules.{
  Action, Rules, rule_priority, priority_leb, compile_rules, max_by_priority, action_of, select,
  entries_of, new_rules, is_block,
}
use softnet.Rules.Order.{blocks_antisym}
use softnet.Rules.Entries.{Entry, policy_entries, pending_rules-entries}
use softnet.Rules.Latest.{built}
use softnet.Rules.Candidates.{Applies, entry_priority, found, dominated, taken}
use softnet.Rules.Blocks.{policy-BlocksLast}

module _ (ipnet : Ipnet) (trie : PrefixTrie ipnet) where
  open ipnet use {Ipv4Net, of_address, prefix_len, contains}

  -- An entry of the list that applies, and none that applies is higher.
  pub record Decisive (es : List (Entry Ipv4Net)) (a : Action) (address : ℕ) (protocol : IpProtocol)
      (port : Option ℕ) : Type 0 where
    pub entry : Entry Ipv4Net
    pub listed : In entry es
    pub applies : Applies ipnet trie entry address protocol port
    pub action : entry.action ≡ a
    pub highest :
        (x : Entry Ipv4Net)
        → In x es
        → Applies ipnet trie x address protocol port
        → priority_leb (entry_priority ipnet trie x) (entry_priority ipnet trie entry) ≡ true

  action_of_priority :
      (x y : Entry Ipv4Net)
      → priority_leb (entry_priority ipnet trie x) (entry_priority ipnet trie y) ≡ true
      → priority_leb (entry_priority ipnet trie y) (entry_priority ipnet trie x) ≡ true
      → x.action ≡ y.action
  unfolding rule_priority
  action_of_priority x y h k = is_block_injective x.action y.action (blocks_antisym _ _ h k)
    where
      is_block_injective : (a b : Action) → is_block a ≡ is_block b → a ≡ b
      is_block_injective Action.allow Action.allow e = refl
      is_block_injective Action.block Action.block e = refl
      is_block_injective Action.allow Action.block e = cc
      is_block_injective Action.block Action.allow e = cc

  Decisive-unique :
      (es : List (Entry Ipv4Net)) (a b : Action) (address : ℕ) (protocol : IpProtocol)
      (port : Option ℕ)
      → Decisive es a address protocol port
      → Decisive es b address protocol port
      → a ≡ b
  Decisive-unique es a b address protocol port r s =
      sym r.action
      ∙ action_of_priority r.entry s.entry (s.highest r.entry r.listed r.applies)
          (r.highest s.entry s.listed s.applies)
      ∙ s.action

  module _ (host_address : ℕ) (peer_addresses : List ℕ) (allows blocks : List (Rule Ipv4Net)) where
    abbrev pub policy : Direction → List (Entry Ipv4Net)
    policy d = policy_entries ipnet host_address peer_addresses d allows blocks

    abbrev pub rules : Rules ipnet trie
    rules = new_rules ipnet trie host_address peer_addresses allows blocks

    entries_of-built :
        (d : Direction)
        → entries_of ipnet trie rules d ≡ compile_rules ipnet trie (built ipnet trie (policy d))
    unfolding new_rules
    entries_of-built Direction.inbound = ap (compile_rules ipnet trie) (
        pending_rules-entries ipnet trie host_address peer_addresses allows blocks
          Direction.inbound)
    entries_of-built Direction.outbound = ap (compile_rules ipnet trie) (
        pending_rules-entries ipnet trie host_address peer_addresses allows blocks
          Direction.outbound)

    select-found :
        (d : Direction) (address : ℕ) (protocol : IpProtocol) (port : Option ℕ)
        → select ipnet trie rules address d protocol port
          ≡ action_of (max_by_priority (found ipnet trie (policy d) address protocol port))
    unfolding select
    select-found d address protocol port = rw (entries_of-built d) refl

    -- The action that is selected is that of an entry of the policy which applies to the packet,
    -- and no entry that applies has a higher priority. So at equal port, prefix length, protocol
    -- and range width, blocking wins.
    pub select-Decisive :
        (d : Direction) (address : ℕ) (protocol : IpProtocol) (port : Option ℕ) (a : Action)
        → select ipnet trie rules address d protocol port ≡ some a
        → Decisive (policy d) a address protocol port
    select-Decisive d address protocol port a h =
        elim (Option-cases (max_by_priority (found ipnet trie (policy d) address protocol port))) [
          | inl e ↦ absurd (cc (select-found d address protocol port, ap action_of e, h))
          | inr (m, e) ↦
              let (x, i, applies, same, level) =
                taken ipnet trie (policy d) address protocol port m e in
              record {
                entry = x;
                listed = i;
                applies = applies;
                action = cc (same, select-found d address protocol port, ap action_of e, h);
                highest = λ y j k.
                    let (n, top, over) =
                      dominated ipnet trie (policy d) address protocol port y
                        (policy-BlocksLast ipnet host_address peer_addresses d allows blocks) j k in
                    subst (λ w. priority_leb (entry_priority ipnet trie y) w ≡ true)
                      (cc (top, e, level)) over;
              }
        ]

    -- Nothing is selected exactly when no entry of the policy applies to the packet.
    pub select-eq-none_iff :
        (d : Direction) (address : ℕ) (protocol : IpProtocol) (port : Option ℕ)
        → (select ipnet trie rules address d protocol port ≡ none)
          ↔ ((x : Entry Ipv4Net) → In x (policy d) → ¬ Applies ipnet trie x address protocol port)
    select-eq-none_iff d address protocol port = (
      λ h x i k.
          let (m, top, _) =
            dominated ipnet trie (policy d) address protocol port x
              (policy-BlocksLast ipnet host_address peer_addresses d allows blocks) i k in
          cc (select-found d address protocol port, ap action_of top, h),
      λ h.
          elim (Option-cases
            (max_by_priority (found ipnet trie (policy d) address protocol port))) [
              | inl e ↦ select-found d address protocol port ∙ ap action_of e
              | inr (m, e) ↦
                  let (x, i, applies, _, _) =
                    taken ipnet trie (policy d) address protocol port m e in
                  absurd (h x i applies)
            ],
    )

    -- An action is selected exactly when it is that of an entry of the policy which applies to the
    -- packet and has the highest priority of all that apply. So at equal port, prefix length,
    -- protocol and range width, blocking wins.
    pub select_iff :
        (d : Direction) (address : ℕ) (protocol : IpProtocol) (port : Option ℕ) (a : Action)
        → (select ipnet trie rules address d protocol port ≡ some a)
          ↔ Decisive (policy d) a address protocol port
    select_iff d address protocol port a = (
      select-Decisive d address protocol port a,
      λ r. elim (Option-cases (select ipnet trie rules address d protocol port)) [
        | inl e ↦
            absurd ((select-eq-none_iff d address protocol port).0 e r.entry r.listed r.applies)
        | inr (b, e) ↦
            e
            ∙ ap some (
                Decisive-unique (policy d) b a address protocol port
                  (select-Decisive d address protocol port b e) r)
      ],
    )
