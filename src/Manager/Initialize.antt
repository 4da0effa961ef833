-- ===== src/Manager/Initialize.antt =====
-- lib/manager.rs: what an initialization prepares.
use softnet.Prelude.{
  map-some, ℕ, suc, ◌≤◌, ◌≡◌, ◌≢◌, refl, ap, subst, true, false, some, some-injective, List, [],
  ◌∷◌, ◌++◌, map, ◌==◌, arith, any, In, inl, inr, Bool-cases,
}
use softnet.Dhcp.{dhcp_server_mac}
use softnet.SubnetFinder.{Unique}
use softnet.Manager.{macs_allowed, System, Config, Configured, configure}

any-In : (mac : ℕ) (seen : List ℕ) → any (λ s. s == mac) seen ≡ false → In mac seen → ⊥
any-In mac [] h i = i
any-In mac (s ∷ seen) h (inl e) = ground (arith, h, e)
any-In mac (s ∷ seen) h (inr i) = any-In mac seen (ground (arith, h)) i

-- None is reserved, none is listed twice, and none was seen before.
pub macs_allowed-Unique :
    (seen macs : List ℕ)
    → macs_allowed seen macs ≡ true
    → Unique macs × ((mac : ℕ) → In mac macs → (mac ≢ dhcp_server_mac) × (In mac seen → ⊥))
unfolding macs_allowed
macs_allowed-Unique seen [] h = (tt, λ mac i. absurd i)
macs_allowed-Unique seen (m ∷ macs) h = elim (Bool-cases (m == dhcp_server_mac)) [
  | inl e ↦ absurd (cc (rw (e, macs_allowed) at h))
  | inr e ↦ elim (Bool-cases (any (λ s. s == m) seen)) [
    | inl f ↦ absurd (cc (rw (e, f, macs_allowed) at h))
    | inr f ↦
        let r = macs_allowed-Unique (m ∷ seen) macs (rw (e, f, macs_allowed) at h) in
        let unique : Unique (m ∷ macs) = (λ i. (r.1 m i).1 (inl refl), r.0) in
        (
          unique,
          λ mac i. elim i [
            | inl s ↦ (
              λ k. absurd (ground (arith, e, s, k)),
              λ j. any-In m seen f (subst (λ w. In w seen) s j),
            )
            | inr j ↦ ((r.1 mac j).0, λ k. (r.1 mac j).1 (inr k))
          ],
        )
  ]
]

module _ (system : System) where
  open system use {new_vm, now_v7, now_v7-injective, ipnet, subnets, vmnet}

  -- The addresses and the identifiers are handed out in order.
  pub record IsConfigured (index : ℕ) (vms : List (Config system)) (ips : List ℕ)
      (cs : List (Configured system)) : Type 0 where
    pub configs : map (λ c. c.config) cs ≡ vms
    pub addresses : (more : List ℕ) × (ips ≡ map (λ c. c.vm_ip) cs ++ more)
    pub ids : (id : ℕ) → In id (map (λ c. c.vm_id) cs) → (i : ℕ) × (index ≤ i) × (id ≡ now_v7 i)
    pub ids_unique : Unique (map (λ c. c.vm_id) cs)

  IsConfigured-cons :
      (index : ℕ) (v : Config system) (vms : List (Config system)) (ip : ℕ) (ips : List ℕ)
      (cs : List (Configured system))
      → IsConfigured (suc index) vms ips cs
      → IsConfigured index
          (v ∷ vms)
          (ip ∷ ips)
          (record { config = v; vm_ip = ip; vm_id = now_v7 index } ∷ cs)
  IsConfigured-cons index v vms ip ips cs k =
      let later = k.ids in
      record {
        configs = ap (λ w. v ∷ w) k.configs;
        addresses = (k.addresses.0, ap (λ w. ip ∷ w) k.addresses.1);
        ids = λ id i. elim i [
          | inl e ↦ (index, omega arith, e)
          | inr j ↦ let w = later id j in (w.0, omega (arith, w.1), w.2)
        ];
        ids_unique = (
          λ i.
              let w = later (now_v7 index) i in
              let same = now_v7-injective index w.0 w.2 in omega (arith, w.1, same),
          k.ids_unique,
        );
      }

  pub configure-IsConfigured :
      (index : ℕ) (vms : List (Config system)) (ips : List ℕ) (cs : List (Configured system))
      → configure system index vms ips ≡ some cs
      → IsConfigured index vms ips cs
  unfolding configure
  configure-IsConfigured index [] ips cs h =
      subst (IsConfigured index [] ips) (some-injective h) (record {
        configs = refl;
        addresses = (ips, refl);
        ids = λ id i. absurd i;
        ids_unique = tt;
      })
  configure-IsConfigured index (v ∷ vms) [] cs h = absurd (cc)
  configure-IsConfigured index (v ∷ vms) (ip ∷ ips) cs h = elim (Bool-cases (new_vm v.vm_fd)) [
    | inr e ↦ absurd (cc (rw (e, configure) at h))
    | inl e ↦
        let c : Configured system = record { config = v; vm_ip = ip; vm_id = now_v7 index } in
        let k =
          map-some (λ cs. c ∷ cs) (configure system (suc index) vms ips) cs
            (rw (e, configure) at h) in
        subst (IsConfigured index (v ∷ vms) (ip ∷ ips)) k.2 (
          IsConfigured-cons index v vms ip ips k.0
            (configure-IsConfigured (suc index) vms ips k.0 k.1))
  ]
