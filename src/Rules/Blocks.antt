-- ===== src/Rules/Blocks.antt =====
-- lib/proxy/rules.rs: in the order of `Rules::new`, what blocks stands behind what allows.
use softnet.Prelude.{ℕ, ◌≡◌, refl, ap, ◌⊎◌, inl, inr, List, [], ◌∷◌, ◌++◌, In}
use softnet.Ipnet.{Ipnet}
use softnet.Rule.{Filter, Rule, Target, Direction}
use softnet.Rules.{Action, Mode, mode_of}
use softnet.Rules.Entries.{
  Entry, BlocksLast, policy_entries, rules_entries, rule_entries, target_entries, peer_entries,
}

module _ (ipnet : Ipnet) where
  open ipnet use {Ipv4Net}

  In-append :
      (x : Entry Ipv4Net) (xs ys : List (Entry Ipv4Net)) → In x (xs ++ ys) → In x xs ⊎ In x ys
  In-append x [] ys i = inr i
  In-append x (y ∷ xs) ys (inl e) = inl (inl e)
  In-append x (y ∷ xs) ys (inr i) = elim (In-append x xs ys i) [
    | inl j ↦ inl (inr j)
    | inr j ↦ inr j
  ]

  AllOf : Action → List (Entry Ipv4Net) → Type 0
  AllOf a es = (x : Entry Ipv4Net) → In x es → x.action ≡ a

  AllOf-append :
      (a : Action) (xs ys : List (Entry Ipv4Net)) → AllOf a xs → AllOf a ys → AllOf a (xs ++ ys)
  unfolding AllOf
  AllOf-append a xs ys h k x i = elim (In-append x xs ys i) [ inl j ↦ h x j | inr j ↦ k x j ]

  BlocksLast-blocks : (es : List (Entry Ipv4Net)) → AllOf Action.block es → BlocksLast es
  unfolding AllOf
  BlocksLast-blocks [] k = tt
  BlocksLast-blocks (e ∷ es) k = (λ _ x i. k x (inr i), BlocksLast-blocks es (λ x i. k x (inr i)))

  BlocksLast-append :
      (xs ys : List (Entry Ipv4Net))
      → AllOf Action.allow xs
      → AllOf Action.block ys
      → BlocksLast (xs ++ ys)
  unfolding AllOf
  BlocksLast-append [] ys h k = BlocksLast-blocks ys k
  BlocksLast-append (e ∷ xs) ys h k =
      (λ b. cc (b, h e (inl refl)), BlocksLast-append xs ys (λ x i. h x (inr i)) k)

  module _ (host_address : ℕ) (peer_addresses : List ℕ) where
    peer_entries-AllOf :
        (addresses : List ℕ) (f : Filter) (a : Action)
        → AllOf a (peer_entries ipnet host_address peer_addresses addresses f a)
    unfolding AllOf
    peer_entries-AllOf [] f a x i = absurd i
    peer_entries-AllOf (y ∷ ys) f a x (inl e) = ap (λ w. w.action) e
    peer_entries-AllOf (y ∷ ys) f a x (inr i) = peer_entries-AllOf ys f a x i

    target_entries-AllOf :
        (t : Target Ipv4Net) (f : Filter) (a : Action)
        → AllOf a (target_entries ipnet host_address peer_addresses t f a)
    unfolding AllOf
    target_entries-AllOf (Target.prefix p) f a x (inl e) = ap (λ w. w.action) e
    target_entries-AllOf (Target.prefix p) f a x (inr i) = absurd i
    target_entries-AllOf Target.host f a x (inl e) = ap (λ w. w.action) e
    target_entries-AllOf Target.host f a x (inr i) = absurd i
    target_entries-AllOf Target.peers f a x i = peer_entries-AllOf peer_addresses f a x i

    rule_entries-AllOf :
        (mode : Mode) (d : Direction) (rule : Rule Ipv4Net) (a : Action)
        → AllOf a (rule_entries ipnet host_address peer_addresses mode d rule a)
    unfolding AllOf
    rule_entries-AllOf mode Direction.outbound (Rule.stateless t) a x i =
        target_entries-AllOf t _ a x i
    rule_entries-AllOf Mode.stateful Direction.inbound (Rule.stateless t) a x i =
        target_entries-AllOf t _ a x i
    rule_entries-AllOf Mode.legacy Direction.inbound (Rule.stateless t) a x i = absurd i
    rule_entries-AllOf mode Direction.inbound (Rule.stateful Direction.inbound t f) a x i =
        target_entries-AllOf t f a x i
    rule_entries-AllOf mode Direction.outbound (Rule.stateful Direction.outbound t f) a x i =
        target_entries-AllOf t f a x i
    rule_entries-AllOf mode Direction.inbound (Rule.stateful Direction.outbound t f) a x i =
        absurd i
    rule_entries-AllOf mode Direction.outbound (Rule.stateful Direction.inbound t f) a x i =
        absurd i

    rules_entries-AllOf :
        (mode : Mode) (d : Direction) (rules : List (Rule Ipv4Net)) (a : Action)
        → AllOf a (rules_entries ipnet host_address peer_addresses mode d rules a)
    unfolding AllOf rules_entries
    rules_entries-AllOf mode d [] a x i = absurd i
    rules_entries-AllOf mode d (rule ∷ rules) a x i =
        AllOf-append a (rule_entries ipnet host_address peer_addresses mode d rule a)
          (rules_entries ipnet host_address peer_addresses mode d rules a)
          (rule_entries-AllOf mode d rule a) (rules_entries-AllOf mode d rules a) x i

    pub policy-BlocksLast :
        (d : Direction) (allows blocks : List (Rule Ipv4Net))
        → BlocksLast (policy_entries ipnet host_address peer_addresses d allows blocks)
    policy-BlocksLast d allows blocks =
        BlocksLast-append
          (rules_entries ipnet host_address peer_addresses (mode_of allows blocks) d allows
            Action.allow)
          (rules_entries ipnet host_address peer_addresses (mode_of allows blocks) d blocks
            Action.block)
          (rules_entries-AllOf (mode_of allows blocks) d allows Action.allow)
          (rules_entries-AllOf (mode_of allows blocks) d blocks Action.block)
