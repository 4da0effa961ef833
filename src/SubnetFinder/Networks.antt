-- ===== src/SubnetFinder/Networks.antt =====
-- lib/subnet_finder/mod.rs: the private ranges that are read, and the networks of the interfaces.
use softnet.Prelude.{
  and_then-some, and_then, ℕ, ◌≡◌, refl, sym, ap, subst, ◌∙◌, Option, none, some, some-injective,
  List, [], ◌∷◌, In, inl, inr,
}
use softnet.Ipnet.{Ipnet}
use softnet.SubnetFinder.{Subnets, Addr, parse_all, used_subnets, push_addrs}

module _ (ipnet : Ipnet) (subnets : Subnets ipnet) where
  open ipnet use {Ipv4Net, parse}
  open subnets use {with_netmask}

  pub parse_all-In :
      (texts : List (List ℕ)) (ns : List Ipv4Net) (p : Ipv4Net)
      → parse_all ipnet subnets texts ≡ some ns
      → In p ns
      → (text : List ℕ) × In text texts × (parse text ≡ some p)
  unfolding parse_all
  parse_all-In [] ns p h i = absurd (subst (In p) (sym (some-injective h)) i)
  parse_all-In (text ∷ texts) ns p h i =
      let rest = parse_all ipnet subnets texts in
      let k = and_then-some (parse text) (λ m. and_then rest (λ ms. some (m ∷ ms))) ns h in
      let j = and_then-some rest (λ ms. some (k.0 ∷ ms)) ns k.2 in
      elim (subst (In p) (sym (some-injective j.2)) i) [
        | inl e ↦ (text, inl refl, k.1 ∙ ap some (sym e))
        | inr l ↦ let t = parse_all-In texts j.0 p j.1 l in (t.0, inr t.1, t.2)
      ]

  -- The networks of an interface are in front of those of the next.
  push_addrs-rest :
      (addrs : List Addr) (later : Option (List Ipv4Net)) (used : List Ipv4Net)
      → push_addrs ipnet subnets addrs later ≡ some used
      → (ns : List Ipv4Net) × (later ≡ some ns) × ((u : Ipv4Net) → In u ns → In u used)
  unfolding push_addrs
  push_addrs-rest [] later used h = (used, h, λ u i. i)
  push_addrs-rest (Addr.v6 ∷ addrs) later used h = push_addrs-rest addrs later used h
  push_addrs-rest (Addr.v4 ip none ∷ addrs) later used h = absurd (cc)
  push_addrs-rest (Addr.v4 ip (some mask) ∷ addrs) later used h =
      let rest = push_addrs ipnet subnets addrs later in
      let k =
        and_then-some (with_netmask ip mask) (λ n. and_then rest (λ ns. some (n ∷ ns))) used h in
      let j = and_then-some rest (λ ns. some (k.0 ∷ ns)) used k.2 in
      let t = push_addrs-rest addrs later j.0 j.1 in
      (t.0, t.1, λ u i. subst (In u) (some-injective j.2) (inr (t.2 u i)))

  push_addrs-In :
      (addrs : List Addr) (later : Option (List Ipv4Net)) (used : List Ipv4Net) (ip mask : ℕ)
      (u : Ipv4Net)
      → push_addrs ipnet subnets addrs later ≡ some used
      → In (Addr.v4 ip (some mask)) addrs
      → with_netmask ip mask ≡ some u
      → In u used
  unfolding push_addrs
  push_addrs-In [] later used ip mask u h i w = absurd i
  push_addrs-In (Addr.v6 ∷ addrs) later used ip mask u h (inl e) w = absurd (cc)
  push_addrs-In (Addr.v6 ∷ addrs) later used ip mask u h (inr i) w =
      push_addrs-In addrs later used ip mask u h i w
  push_addrs-In (Addr.v4 ip' none ∷ addrs) later used ip mask u h i w = absurd (cc)
  push_addrs-In (Addr.v4 ip' (some mask') ∷ addrs) later used ip mask u h i w =
      let rest = push_addrs ipnet subnets addrs later in
      let k =
        and_then-some (with_netmask ip' mask') (λ n. and_then rest (λ ns. some (n ∷ ns))) used h in
      let j = and_then-some rest (λ ns. some (k.0 ∷ ns)) used k.2 in
      subst (In u) (some-injective j.2) (elim i [
        | inl e ↦ inl (cc (e, w, k.1))
        | inr l ↦ inr (push_addrs-In addrs later j.0 ip mask u j.1 l w)
      ])

  pub used_subnets-In :
      (interfaces : List (List Addr)) (used : List Ipv4Net) (addrs : List Addr) (ip mask : ℕ)
      (u : Ipv4Net)
      → used_subnets ipnet subnets interfaces ≡ some used
      → In addrs interfaces
      → In (Addr.v4 ip (some mask)) addrs
      → with_netmask ip mask ≡ some u
      → In u used
  unfolding used_subnets
  used_subnets-In [] used addrs ip mask u h i a w = absurd i
  used_subnets-In (x ∷ xs) used addrs ip mask u h (inl e) a w =
      push_addrs-In x (used_subnets ipnet subnets xs) used ip mask u h
        (subst (In (Addr.v4 ip (some mask))) e a) w
  used_subnets-In (x ∷ xs) used addrs ip mask u h (inr i) a w =
      let t = push_addrs-rest x (used_subnets ipnet subnets xs) used h in
      t.2 u (used_subnets-In xs t.0 addrs ip mask u t.1 i a w)
