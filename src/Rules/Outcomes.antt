-- ===== src/Rules/Outcomes.antt =====
-- lib/proxy/rules.rs: the decisions of `policy_decision`, against the flat list of entries.
use softnet.Prelude.{
  ℕ, ◌≡◌, ◌≢◌, refl, ap, ◌↔◌, inl, inr, false, Option, none, some, List, [], ◌∷◌, ◌++◌, any,
  Bool-cases, In, subst,
}
use softnet.Wire.{Ipv4Packet}
use softnet.Ipnet.{Ipnet, PrefixTrie}
use softnet.Rule.{Rule, Direction}
use softnet.Rules.{
  Action, Mode, PolicyDecision, Rules, new_rules, mode_of, policy_decision, decide, destination_of,
  packet_ports, remote_address, is_stateful_rule,
}
use softnet.Rules.Entries.{rules_entries}
use softnet.Rules.Decision.{Decisive, policy, rules, select_iff, select-eq-none_iff}

module _ (ipnet : Ipnet) (trie : PrefixTrie ipnet) (host_address : ℕ) (peer_addresses : List ℕ)
    (allows blocks : List (Rule ipnet.Ipv4Net)) where
  abbrev DecidesFor : Action → Ipv4Packet → Direction → Type 0
  DecidesFor a p d =
      Decisive ipnet trie (policy ipnet trie host_address peer_addresses allows blocks d) a
        (remote_address p d) p.next_header (destination_of (packet_ports p))

  abbrev compiled : Rules ipnet trie
  compiled = rules ipnet trie host_address peer_addresses allows blocks

  -- A packet is blocked exactly when an entry that blocks applies to it and no entry that applies
  -- has a higher priority.
  pub policy_decision-block_iff :
      (p : Ipv4Packet) (d : Direction)
      → (policy_decision ipnet trie compiled p d ≡ some PolicyDecision.block)
        ↔ DecidesFor Action.block p d
  unfolding policy_decision
  policy_decision-block_iff p d =
      let s =
        select_iff ipnet trie host_address peer_addresses allows blocks d (remote_address p d)
          p.next_header (destination_of (packet_ports p)) Action.block in
      (λ h. s.0 (blocked _ _ h), λ r. rw (s.1 r) refl)
    where
      blocked :
          (o : Option Action) (m : Mode)
          → decide o m ≡ some PolicyDecision.block
          → o ≡ some Action.block
      blocked none m h = cc
      blocked (some Action.block) m h = refl
      blocked (some Action.allow) Mode.legacy h = cc
      blocked (some Action.allow) Mode.stateful h = cc

  legacy_inbound :
      (rs : List (Rule ipnet.Ipv4Net)) (a : Action)
      → any is_stateful_rule rs ≡ false
      → rules_entries ipnet host_address peer_addresses Mode.legacy Direction.inbound rs a ≡ []
  unfolding rules_entries
  legacy_inbound [] a h = refl
  legacy_inbound (Rule.stateless t ∷ rs) a h = legacy_inbound rs a h
  legacy_inbound (Rule.stateful d t f ∷ rs) a h = cc

  any-append :
      (xs ys : List (Rule ipnet.Ipv4Net))
      → any is_stateful_rule (xs ++ ys) ≡ false
      → (any is_stateful_rule xs ≡ false) × (any is_stateful_rule ys ≡ false)
  any-append [] ys h = (refl, h)
  any-append (Rule.stateless t ∷ xs) ys h = any-append xs ys h
  any-append (Rule.stateful d t f ∷ xs) ys h = cc

  stateful_decision :
      (o : Option Action) (m : Mode)
      → m ≡ Mode.stateful
      → decide o m ≢ some PolicyDecision.allow_stateless
  unfolding decide
  stateful_decision none m e h = cc
  stateful_decision (some Action.block) m e h = cc
  stateful_decision (some Action.allow) Mode.legacy e h = cc
  stateful_decision (some Action.allow) Mode.stateful e h = cc

  legacy_policy :
      any is_stateful_rule (allows ++ blocks) ≡ false
      → policy ipnet trie host_address peer_addresses allows blocks Direction.inbound ≡ []
  unfolding mode_of
  legacy_policy e =
      let (h, k) = any-append allows blocks e in
      rw e (rw (legacy_inbound allows Action.allow h) (legacy_inbound blocks Action.block k))

  -- No inbound packet is allowed statelessly: in legacy mode there are no inbound entries, and in
  -- stateful mode what is allowed is stateful. So the proxy's fallback for that case is dead.
  pub inbound-ne-allow_stateless :
      (p : Ipv4Packet)
      → policy_decision ipnet trie compiled p Direction.inbound
        ≢ some PolicyDecision.allow_stateless
  unfolding policy_decision new_rules mode_of
  inbound-ne-allow_stateless p h = elim (Bool-cases (any is_stateful_rule (allows ++ blocks))) [
    | inl e ↦ stateful_decision _ (mode_of allows blocks) (rw e refl) h
    | inr e ↦
        let unmatched =
          (select-eq-none_iff ipnet trie host_address peer_addresses allows blocks Direction.inbound
              (remote_address p Direction.inbound) p.next_header
              (destination_of (packet_ports p))).1
            (λ x i. absurd (subst (In x) (legacy_policy e) i)) in
        cc (ap (λ o. decide o (mode_of allows blocks)) unmatched, h)
  ]
