-- ===== src/Proxy/Replace.antt =====
-- lib/proxy/mod.rs: what holds of a proxy from `new` on, and what replacing the policy does.
use softnet.Prelude.{
  ℕ, ◌≡◌, ◌≢◌, refl, sym, ◌∙◌, ◌⊎◌, inl, inr, Bool, true, false, not, ◌||◌, Option, none, some,
  List, [], ◌∷◌, arith, Bool-cases, subst,
}
use softnet.Prelude.HashMap.{get}
use softnet.Wire.{Ipv4Packet, EthernetFrame}
use softnet.Flows.{Clock, FlowDirection, FlowTable, FlowMatch, new_table}
use softnet.Flows.Table.{live}
use softnet.Flows.Inspect.{Permitted}
use softnet.Flows.Expiry.{after, after-IsValid}
use softnet.Ipnet.{Ipnet, PrefixTrie}
use softnet.Rule.{Direction, Rule, Rule-discrete}
use softnet.Rules.{PolicyDecision, policy_decision, new_rules, has_stateful, is_some}
use softnet.Rules.Outcomes.{inbound-ne-allow_stateless}
use softnet.Policy.{normalize_rules}
use softnet.Policy.Normal.{normalize_rules_twice}
use softnet.Proxy.{
  Packet, Outside, Host, Network, Proxy, new_proxy, table_if, policy_get, policy_set, rules_eq,
  allowed_from_vm, allowed_from_host, process_frame_from_vm, process_frame_from_host, inspect_flows,
}
use softnet.Proxy.Admission.{Kept, Kept-trans, Kept-write, TableKept}
use softnet.Proxy.Admission.Frames.{Kept-from_vm, Kept-from_host}
use softnet.Proxy.Outbound.{TableIsValid, inspected-Permitted}

module _ (outside : Outside) (clock : Clock) (ipnet : Ipnet) (trie : PrefixTrie ipnet) where
  abbrev P : Type 0
  P = Proxy outside clock ipnet trie

  -- The compiled rules are those of the lists, which are in normal form; there is a flow table
  -- exactly when a rule is stateful, and it is valid.
  pub record IsConsistent (p : P) : Type 0 where
    pub compiled : p.rules ≡ new_rules ipnet trie p.host.gateway_ip p.peer_ips p.allow p.block
    pub allow_normal : normalize_rules ipnet p.allow ≡ p.allow
    pub block_normal : normalize_rules ipnet p.block ≡ p.block
    pub tracking : is_some p.flows ≡ has_stateful ipnet trie p.rules
    pub valid : TableIsValid outside clock ipnet trie p.flows

  table_if-is_some : (b : Bool) (now : ℕ) → is_some (table_if outside clock ipnet trie b now) ≡ b
  table_if-is_some true now = refl
  table_if-is_some false now = refl

  table_if-IsValid :
      (b : Bool) (now : ℕ)
      → TableIsValid outside clock ipnet trie (table_if outside clock ipnet trie b now)
  unfolding new_table after
  table_if-IsValid true now = after-IsValid clock now []
  table_if-IsValid false now = tt

  -- A new proxy is consistent, whatever it is given.
  pub new_proxy-IsConsistent :
      (vm_mac_address : ℕ) (host : Host) (network : Network)
      (allows blocks : List (Rule ipnet.Ipv4Net)) (dns_server : Option outside.DnsServer) (now : ℕ)
      → IsConsistent (
          new_proxy outside clock ipnet trie vm_mac_address host network allows blocks dns_server
            now)
  unfolding new_proxy
  new_proxy-IsConsistent vm_mac_address host network allows blocks dns_server now = record {
    compiled = refl;
    allow_normal = normalize_rules_twice ipnet allows;
    block_normal = normalize_rules_twice ipnet blocks;
    tracking = table_if-is_some _ now;
    valid = table_if-IsValid _ now;
  }

  TableKept-is_some : (t u : Option FlowTable) → TableKept t u → is_some u ≡ is_some t
  TableKept-is_some none none h = refl
  TableKept-is_some none (some u) h = absurd h
  TableKept-is_some (some t) none h = absurd h
  TableKept-is_some (some t) (some u) h = refl

  TableKept-IsValid :
      (t u : Option FlowTable)
      → TableKept t u
      → TableIsValid outside clock ipnet trie t
      → TableIsValid outside clock ipnet trie u
  TableKept-IsValid none none h v = tt
  TableKept-IsValid none (some u) h v = absurd h
  TableKept-IsValid (some t) none h v = absurd h
  TableKept-IsValid (some t) (some u) h v = h v

  Kept-IsConsistent :
      (p q : P) → Kept outside clock ipnet trie p q → IsConsistent p → IsConsistent q
  Kept-IsConsistent p q k c = record {
    compiled = rw (k.rules, k.host, k.peer_ips, k.allow, k.block) c.compiled;
    allow_normal = rw k.allow c.allow_normal;
    block_normal = rw k.block c.block_normal;
    tracking = TableKept-is_some p.flows q.flows k.flows ∙ rw k.rules c.tracking;
    valid = TableKept-IsValid p.flows q.flows k.flows c.valid;
  }

  rules_eq-eq :
      (xs ys : List (Rule ipnet.Ipv4Net)) → rules_eq outside clock ipnet trie xs ys ≡ true → xs ≡ ys
  rules_eq-eq [] [] h = refl
  rules_eq-eq [] (y ∷ ys) h = cc
  rules_eq-eq (x ∷ xs) [] h = cc
  rules_eq-eq (x ∷ xs) (y ∷ ys) h = elim (Rule-discrete ipnet.Ipv4Net-discrete x y) [
    | yes e ↦ cc (e, rules_eq-eq xs ys (ground (arith, h)))
    | no n ↦ absurd (ground (arith, h, n))
  ]

  rules_eq_self : (xs : List (Rule ipnet.Ipv4Net)) → rules_eq outside clock ipnet trie xs xs ≡ true
  rules_eq_self [] = refl
  rules_eq_self (x ∷ xs) = ground (arith, rules_eq_self xs)

  -- What `policy_set` compares.
  abbrev pub unchanged : P → List (Rule ipnet.Ipv4Net) → List (Rule ipnet.Ipv4Net) → Bool
  unchanged p allows blocks = not (
      not (rules_eq outside clock ipnet trie p.allow (normalize_rules ipnet allows))
      || not (rules_eq outside clock ipnet trie p.block (normalize_rules ipnet blocks)))

  pub policy_set-IsConsistent :
      (p : P) (allows blocks : List (Rule ipnet.Ipv4Net)) (now : ℕ)
      → IsConsistent p
      → IsConsistent (policy_set outside clock ipnet trie p allows blocks now)
  unfolding policy_set
  policy_set-IsConsistent p allows blocks now c =
      elim (Bool-cases (
        not (rules_eq outside clock ipnet trie p.allow (normalize_rules ipnet allows))
        || not (rules_eq outside clock ipnet trie p.block (normalize_rules ipnet blocks)))) [
          | inr e ↦ simp (e, policy_set) c
          | inl e ↦
              simp (e, policy_set)
                (record {
                  compiled = refl;
                  allow_normal = normalize_rules_twice ipnet allows;
                  block_normal = normalize_rules_twice ipnet blocks;
                  tracking = table_if-is_some _ now;
                  valid = table_if-IsValid _ now;
                })
        ]

  -- What a proxy is driven by: frames of the two sides, and policy changes.
  pub data Event : Type 0 where
    from_vm : EthernetFrame → ℕ → Event
    from_host : EthernetFrame → ℕ → Event
    replaces : (allows blocks : List (Rule ipnet.Ipv4Net)) → ℕ → Event

  abbrev pub event_step : P → Event → P
  event_step p (from_vm ether now) = (process_frame_from_vm outside clock ipnet trie p ether now).0
  event_step p (from_host ether now) =
      (process_frame_from_host outside clock ipnet trie p ether now).0
  event_step p (replaces allows blocks now) =
      policy_set outside clock ipnet trie p allows blocks now

  unfoldable pub run : P → List Event → P
  run p [] = p
  run p (e ∷ es) = run (event_step p e) es

  host-IsConsistent :
      (p : P) (written : List EthernetFrame)
      → IsConsistent p
      → IsConsistent (record p { host = record p.host { written = written } })
  host-IsConsistent p written c = record {
    compiled = c.compiled;
    allow_normal = c.allow_normal;
    block_normal = c.block_normal;
    tracking = c.tracking;
    valid = c.valid;
  }

  pub from_vm-IsConsistent :
      (p : P) (x : EthernetFrame) (now : ℕ)
      → IsConsistent p
      → IsConsistent (process_frame_from_vm outside clock ipnet trie p x now).0
  unfolding process_frame_from_vm
  from_vm-IsConsistent p x now c =
      let s = allowed_from_vm outside clock ipnet trie p x now in
      let k = Kept-IsConsistent p s.0 (Kept-from_vm outside clock ipnet trie p x now) c in
      elim (Bool-cases s.1) [
        | inr e ↦ rw (e, process_frame_from_vm) k
        | inl e ↦ elim (Bool-cases (outside.host_write s.0.host.written x)) [
          | inl h ↦
              rw (e, process_frame_from_vm, h) (host-IsConsistent s.0 (x ∷ s.0.host.written) k)
          | inr h ↦ rw (e, process_frame_from_vm, h) k
        ]
      ]

  pub from_host-IsConsistent :
      (p : P) (x : EthernetFrame) (now : ℕ)
      → IsConsistent p
      → IsConsistent (process_frame_from_host outside clock ipnet trie p x now).0
  unfolding process_frame_from_host
  from_host-IsConsistent p x now c =
      let s = allowed_from_host outside clock ipnet trie p x.payload now in
      let k = Kept-from_host outside clock ipnet trie p x.payload now in
      elim (Bool-cases s.1) [
        | inr e ↦ rw (e, process_frame_from_host) (Kept-IsConsistent p s.0 k c)
        | inl e ↦
            rw (e, process_frame_from_host)
              (Kept-IsConsistent p _
                (Kept-trans outside clock ipnet trie p s.0 _ k
                  (Kept-write outside clock ipnet trie s.0 (Packet.frame x)))
                c)
      ]

  run-IsConsistent : (p : P) (es : List Event) → IsConsistent p → IsConsistent (run p es)
  unfolding run
  run-IsConsistent p [] c = c
  run-IsConsistent p (from_vm x now ∷ es) c =
      run-IsConsistent (event_step p (from_vm x now)) es (from_vm-IsConsistent p x now c)
  run-IsConsistent p (from_host x now ∷ es) c =
      run-IsConsistent (event_step p (from_host x now)) es (from_host-IsConsistent p x now c)
  run-IsConsistent p (replaces allows blocks now ∷ es) c =
      run-IsConsistent (event_step p (replaces allows blocks now)) es
        (policy_set-IsConsistent p allows blocks now c)

  -- From its creation on, whatever frames arrive from either side and however the policy is
  -- replaced, a proxy's compiled rules are those of its lists, the lists are in normal form, it has
  -- a flow table exactly when a rule is stateful, and the table is valid.
  pub new_proxy-run-IsConsistent :
      (vm_mac_address : ℕ) (host : Host) (network : Network)
      (allows blocks : List (Rule ipnet.Ipv4Net)) (dns_server : Option outside.DnsServer) (now : ℕ)
      (es : List Event)
      → IsConsistent (
          run
            (new_proxy outside clock ipnet trie vm_mac_address host network allows blocks dns_server
              now)
            es)
  new_proxy-run-IsConsistent vm_mac_address host network allows blocks dns_server now es =
      run-IsConsistent _ es
        (new_proxy-IsConsistent vm_mac_address host network allows blocks dns_server now)

  -- In a consistent proxy, no packet of the host is allowed statelessly: the branch that drops it
  -- for that decision is never taken.
  pub inbound-never-stateless :
      (p : P) (x : Ipv4Packet)
      → IsConsistent p
      → policy_decision ipnet trie p.rules x Direction.inbound ≢ some PolicyDecision.allow_stateless
  inbound-never-stateless p x c h =
      inbound-ne-allow_stateless ipnet trie p.host.gateway_ip p.peer_ips p.allow p.block x
        (rw c.compiled at h)

  -- Setting the policy that `policy_get` returned changes nothing, and so keeps every flow. The
  -- proxy is consistent.
  pub policy_set-policy_get :
      (p : P) (now : ℕ)
      → IsConsistent p
      → policy_set outside clock ipnet trie p
          (policy_get outside clock ipnet trie p).allow
          (policy_get outside clock ipnet trie p).block
          now
        ≡ p
  unfolding policy_set policy_get
  policy_set-policy_get p now c =
      simp
        (c.allow_normal, c.block_normal, rules_eq_self p.allow, rules_eq_self p.block, policy_set)

  fresh-Permitted :
      (b : Bool) (now later : ℕ) (t : FlowTable) (x : Ipv4Packet) (d : FlowDirection)
      → table_if outside clock ipnet trie b now ≡ some t
      → ¬ Permitted t x d later
  unfolding new_table live get
  fresh-Permitted true now later t x d e r =
      let same : t ≡ new_table clock now = cc e in absurd (cc (rw same at r.stored))
  fresh-Permitted false now later t x d e r = absurd (cc e)

  -- After a policy is set whose normal form differs from the one in force, the flow table allows no
  -- packet as the return traffic of a flow that was admitted before.
  pub policy_set-ne-allowed :
      (p : P) (allows blocks : List (Rule ipnet.Ipv4Net)) (now later : ℕ) (x : Ipv4Packet)
      (d : FlowDirection)
      → (normalize_rules ipnet allows ≢ p.allow) ⊎ (normalize_rules ipnet blocks ≢ p.block)
      → (inspect_flows outside clock ipnet trie
          (policy_set outside clock ipnet trie p allows blocks now)
          x
          d
          later).1
        ≢ FlowMatch.allowed
  unfolding policy_set
  policy_set-ne-allowed p allows blocks now later x d changed h =
      elim (Bool-cases (
        not (rules_eq outside clock ipnet trie p.allow (normalize_rules ipnet allows))
        || not (rules_eq outside clock ipnet trie p.block (normalize_rules ipnet blocks)))) [
          | inr e ↦ elim changed [
            | inl n ↦
                n (sym (rules_eq-eq p.allow (normalize_rules ipnet allows) (ground (arith, e))))
            | inr n ↦
                n (sym (rules_eq-eq p.block (normalize_rules ipnet blocks) (ground (arith, e))))
          ]
          | inl e ↦
              let after_change = policy_set outside clock ipnet trie p allows blocks now in
              let rules =
                new_rules ipnet trie p.host.gateway_ip p.peer_ips (normalize_rules ipnet allows)
                  (normalize_rules ipnet blocks) in
              let fresh : after_change.flows
                  ≡ table_if outside clock ipnet trie (has_stateful ipnet trie rules) now =
                simp (e, policy_set) in
              let valid =
                subst (TableIsValid outside clock ipnet trie) (sym fresh)
                  (table_if-IsValid _ now) in
              let (t, n, permitted) =
                inspected-Permitted outside clock ipnet trie after_change x d later valid h in
              fresh-Permitted _ now later t x d (sym fresh ∙ n) permitted
        ]
