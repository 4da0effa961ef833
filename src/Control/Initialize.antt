-- ===== src/Control/Initialize.antt =====
-- lib/control.rs: what a request that passes the checks carries.
use softnet.Prelude.{
  ℕ, ◌+◌, ◌≤◌, ◌≡◌, refl, ap, ◌∙◌, ◌&&◌, Option, none, some, List, [], ◌∷◌, ltb, leb, ◌==◌, length,
  arith, Bool-cases, inl, inr,
}
use softnet.Ipnet.{Ipnet}
use softnet.Rule.{Rule}
use softnet.Rule.Parser.{parse_rule}
use softnet.Control.{
  Outcome, NetType, VmParams, InitializeParams, VmConfig, Request, Parsers, max_rules, max_vms,
  valid, and_then, collect, transpose, parse_exposed_port, parse_policy, parse_vm, parse_vms,
  parse_initialize, parse_net_type,
}

and_then-ok :
    {A B : Type 0} (o : Outcome A) (f : A → Outcome B) (b : B)
    → and_then o f ≡ Outcome.ok b
    → (a : A) × (o ≡ Outcome.ok a) × (f a ≡ Outcome.ok b)
and_then-ok (Outcome.ok a) f b h = (a, refl, h)
and_then-ok (Outcome.error code) f b h = cc

ok-injective : {A : Type 0} {x y : A} → Outcome.ok x ≡ Outcome.ok y → x ≡ y
ok-injective e = cc

valid-ok : {A : Type 0} (o : Option A) (a : A) → valid o ≡ Outcome.ok a → o ≡ some a
valid-ok none a h = cc
valid-ok (some x) a h = cc

module _ (ipnet : Ipnet) {Name : Type 0} (parsers : Parsers Name) where
  open ipnet use {Ipv4Net}
  open parsers use {parse_mac, from_ascii}

  -- The configuration of a VM is its entry, parsed part by part, with its descriptor.
  pub record IsParsed (params : VmParams) (fd : ℕ) (config : VmConfig Ipv4Net Name) : Type 0 where
    pub descriptor : config.vm_fd ≡ fd
    pub mac : parse_mac params.vm_mac_address ≡ some config.vm_mac_address
    pub name : transpose from_ascii params.name ≡ Outcome.ok config.name
    pub bounded : length params.allow + length params.block ≤ max_rules
    pub allow : collect (parse_rule ipnet) params.allow ≡ Outcome.ok config.allow
    pub block : collect (parse_rule ipnet) params.block ≡ Outcome.ok config.block
    pub ports : collect parse_exposed_port params.expose ≡ Outcome.ok config.exposed_ports

  -- Entries, descriptors and configurations in step.
  abbrev pub AllParsed : List VmParams → List ℕ → List (VmConfig Ipv4Net Name) → Type 0
  AllParsed [] [] [] = Unit
  AllParsed (params ∷ vms) (fd ∷ fds) (config ∷ configs) =
      IsParsed params fd config × AllParsed vms fds configs
  AllParsed _ _ _ = ⊥

  policy-ok :
      (allows blocks : List (List ℕ)) (a b : List (Rule Ipv4Net))
      → parse_policy ipnet parsers allows blocks ≡ Outcome.ok (a, b)
      → (length allows + length blocks ≤ max_rules)
        × (collect (parse_rule ipnet) allows ≡ Outcome.ok a)
        × (collect (parse_rule ipnet) blocks ≡ Outcome.ok b)
  unfolding parse_policy
  policy-ok allows blocks a b h =
      elim (Bool-cases (ltb max_rules (length allows + length blocks))) [
        | inl e ↦ absurd (cc (rw (e, parse_policy) at h))
        | inr e ↦
            let k = and_then-ok _ _ _ (rw (e, parse_policy) at h) in
            let j = and_then-ok _ _ _ k.2 in
            (
              ground arith,
              k.1 ∙ ap Outcome.ok (ap (λ w. w.0) (ok-injective j.2)),
              j.1 ∙ ap Outcome.ok (ap (λ w. w.1) (ok-injective j.2)),
            )
      ]

  vm-ok :
      (params : VmParams) (fd : ℕ) (config : VmConfig Ipv4Net Name)
      → parse_vm ipnet parsers params fd ≡ Outcome.ok config
      → IsParsed params fd config
  unfolding parse_vm
  vm-ok params fd config h =
      let k1 = and_then-ok _ _ _ h in
      let k2 = and_then-ok _ _ _ k1.2 in
      let k3 = and_then-ok _ _ _ k2.2 in
      let k4 = and_then-ok _ _ _ k3.2 in
      let same : config ≡ record {
        vm_fd = fd;
        vm_mac_address = k1.0;
        name = k2.0;
        allow = k3.0.0;
        block = k3.0.1;
        exposed_ports = k4.0;
      } =
        cc k4.2 in
      let q = policy-ok params.allow params.block k3.0.0 k3.0.1 k3.1 in
      rw same (record {
        descriptor = refl;
        mac = valid-ok _ _ k1.1;
        name = k2.1;
        bounded = q.0;
        allow = q.1;
        block = q.2;
        ports = k4.1;
      })

  vms-ok :
      (vms : List VmParams) (fds : List ℕ) (configs : List (VmConfig Ipv4Net Name))
      → length fds ≡ length vms
      → parse_vms ipnet parsers vms fds ≡ Outcome.ok configs
      → AllParsed vms fds configs
  unfolding parse_vms
  vms-ok [] [] [] n h = tt
  vms-ok [] [] (c ∷ cs) n h = cc
  vms-ok [] (fd ∷ fds) cs n h = absurd (omega (arith, n))
  vms-ok (v ∷ vs) [] cs n h = absurd (omega (arith, n))
  vms-ok (v ∷ vs) (fd ∷ fds) [] n h =
      let k1 =
        and_then-ok (parse_vm ipnet parsers v fd)
          (λ config. and_then (parse_vms ipnet parsers vs fds) (λ rest. Outcome.ok (config ∷ rest)))
          _ h in
      let k2 =
        and_then-ok (parse_vms ipnet parsers vs fds) (λ rest. Outcome.ok (k1.0 ∷ rest)) _ k1.2 in
      absurd (cc k2.2)
  vms-ok (v ∷ vs) (fd ∷ fds) (c ∷ cs) n h =
      let k1 =
        and_then-ok (parse_vm ipnet parsers v fd)
          (λ config. and_then (parse_vms ipnet parsers vs fds) (λ rest. Outcome.ok (config ∷ rest)))
          _ h in
      let k2 =
        and_then-ok (parse_vms ipnet parsers vs fds) (λ rest. Outcome.ok (k1.0 ∷ rest)) _ k1.2 in
      let same = ok-injective k2.2 in
      (
        vm-ok v fd c (k1.1 ∙ ap Outcome.ok (cc same)),
        vms-ok vs fds cs (omega (arith, n)) (k2.1 ∙ ap Outcome.ok (cc same)),
      )

  -- An accepted initialization has one to five VMs with one descriptor each, and the configurations
  -- are the entries, parsed part by part, in the order of the descriptors, each with at most 4096
  -- rules.
  pub parse_initialize-AllParsed :
      (fds : List ℕ) (params : InitializeParams) (net_type : NetType)
      (configs : List (VmConfig Ipv4Net Name))
      → parse_initialize ipnet parsers fds params ≡ Outcome.ok (Request.initialize net_type configs)
      → (1 ≤ length params.vms)
        × (length params.vms ≤ max_vms)
        × (length fds ≡ length params.vms)
        × (parse_net_type params.vm_net_type ≡ Outcome.ok net_type)
        × AllParsed params.vms fds configs
  unfolding parse_initialize
  parse_initialize-AllParsed fds params net_type configs h =
      elim (Bool-cases (leb 1 (length params.vms) && leb (length params.vms) max_vms)) [
        | inr e ↦ absurd (cc (rw (e, parse_initialize) at h))
        | inl e ↦ elim (Bool-cases (length fds == length params.vms)) [
          | inr n ↦ absurd (cc (rw (e, n, parse_initialize) at h))
          | inl n ↦
              let k1 = and_then-ok _ _ _ (rw (e, n, parse_initialize) at h) in
              let k2 = and_then-ok _ _ _ k1.2 in
              let same = ok-injective k2.2 in
              (
                ground arith,
                ground arith,
                ground arith,
                k1.1 ∙ ap Outcome.ok (cc same),
                vms-ok params.vms fds configs (ground arith) (k2.1 ∙ ap Outcome.ok (cc same)),
              )
        ]
      ]
