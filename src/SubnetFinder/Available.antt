-- ===== src/SubnetFinder/Available.antt =====
-- lib/subnet_finder/mod.rs: what a subnet that is found is, and when one is found.
use softnet.Prelude.{
  and_then-some, and_then, ℕ, zero, suc, ◌≤◌, ◌<◌, ◌≡◌, ◌≢◌, refl, sym, ap, subst, ◌∙◌, true, false,
  Option, none, some, some-injective, ◌==◌, List, [], ◌∷◌, ltb, arith, In, inl, inr, ◌⊎◌,
  Bool-cases, Option-cases,
}
use softnet.Ipnet.{Ipnet}
use softnet.SubnetFinder.Networks.{parse_all-In, used_subnets-In}
use softnet.SubnetFinder.{
  max_attempts, Subnets, Attempt, Addr, private_texts, parse_all, used_subnets, overlaps, first_two,
  found_or_again, try_candidate, try_subnet, or_again, try_subnets, find_available_subnet,
}

-- The list begins with the two.
abbrev pub Usable : ℕ → ℕ → List ℕ → Type 0
Usable first second [] = ⊥
Usable first second (a ∷ []) = ⊥
Usable first second (a ∷ (b ∷ more)) = (a ≡ first) × (b ≡ second)

module _ (ipnet : Ipnet) (subnets : Subnets ipnet) where
  open ipnet use {Ipv4Net, prefix_len, trunc, of_address, contains, parse}
  open subnets use {
    new, with_netmask, hosts, show, choose, choose_address, new-total, new-prefix_len, new-contains,
    choose-In, choose_address-contains,
  }

  -- The network is one of the private ranges.
  abbrev pub IsPrivate : Ipv4Net → Type 0
  IsPrivate p = (text : List ℕ) × In text (private_texts ipnet subnets) × (parse text ≡ some p)

  -- An interface of the host has an IPv4 address in the network.
  abbrev pub IsUsed : Ipv4Net → Type 0
  IsUsed u =
      (interfaces : List (List Addr)) × (addrs : List Addr) × (ip mask : ℕ) × (show
        ≡ some interfaces)
      × In addrs interfaces
      × In (Addr.v4 ip (some mask)) addrs
      × (with_netmask ip mask ≡ some u)

  -- A subnet of the length, in a private range, beside all that are used, with its first two hosts.
  pub record IsAvailable (len first second : ℕ) (subnet : Ipv4Net) : Type 0 where
    pub length : prefix_len subnet ≡ len
    pub within : (p : Ipv4Net) × IsPrivate p × (contains p subnet ≡ true)
    pub apart : (u : Ipv4Net) → IsUsed u → (contains subnet u ≡ false) × (contains u subnet ≡ false)
    pub usable : Usable first second (hosts subnet)

  -- The same, of the lists that the code computes.
  record IsFree (private used : List Ipv4Net) (len first second : ℕ) (subnet : Ipv4Net)
      : Type 0 where
    length : prefix_len subnet ≡ len
    within : (p : Ipv4Net) × In p private × (contains p subnet ≡ true)
    apart : (u : Ipv4Net) → In u used → (contains subnet u ≡ false) × (contains u subnet ≡ false)
    usable : Usable first second (hosts subnet)

  overlaps-false :
      (used : List Ipv4Net) (n u : Ipv4Net)
      → overlaps ipnet subnets used n ≡ false
      → In u used
      → (contains n u ≡ false) × (contains u n ≡ false)
  unfolding overlaps
  overlaps-false [] n u h i = absurd i
  overlaps-false (v ∷ used) n u h (inl e) = rw e (ground (arith, h), ground (arith, h))
  overlaps-false (v ∷ used) n u h (inr i) = overlaps-false used n u (ground (arith, h)) i

  found-injective :
      {x y : ℕ × ℕ × Ipv4Net} → found_or_again ipnet subnets (some x) ≡ Attempt.found y → x ≡ y
  found-injective e = cc

  first_two-hosts :
      (hs : List ℕ) (n : Ipv4Net) (r : ℕ × ℕ × Ipv4Net)
      → found_or_again ipnet subnets (first_two ipnet subnets hs n) ≡ Attempt.found r
      → (r.2 ≡ n) × Usable r.0 r.1 hs
  first_two-hosts [] n r h = absurd (cc)
  first_two-hosts (a ∷ []) n r h = absurd (cc)
  first_two-hosts (a ∷ (b ∷ more)) n r h =
      let same : Usable a b (a ∷ (b ∷ more)) = (refl, refl) in
      subst (λ w. (w.2 ≡ n) × Usable w.0 w.1 (a ∷ (b ∷ more))) (found-injective h) (refl, same)

  -- A candidate that is taken.
  candidate-taken :
      (used : List Ipv4Net) (o : Option Ipv4Net) (r : ℕ × ℕ × Ipv4Net)
      → try_candidate ipnet subnets used o ≡ Attempt.found r
      → (n : Ipv4Net) × (o ≡ some n)
        × (overlaps ipnet subnets used r.2 ≡ false)
        × (r.2 ≡ trunc n)
        × Usable r.0 r.1 (hosts r.2)
  candidate-taken used none r h = absurd (cc)
  candidate-taken used (some n) r h = elim (Bool-cases (overlaps ipnet subnets used (trunc n))) [
    | inl e ↦ absurd (cc (rw e at h))
    | inr e ↦
        let k = first_two-hosts (hosts (trunc n)) (trunc n) r (rw e at h) in
        (
          n,
          refl,
          ap (overlaps ipnet subnets used) k.0 ∙ e,
          k.0,
          subst (λ w. Usable r.0 r.1 (hosts w)) (sym k.0) k.1,
        )
  ]

  try_subnet-IsFree :
      (private used : List Ipv4Net) (len attempt : ℕ) (r : ℕ × ℕ × Ipv4Net)
      → private ≢ []
      → try_subnet ipnet subnets private used len attempt ≡ Attempt.found r
      → IsFree private used len r.0 r.1 r.2
  unfolding try_subnet
  try_subnet-IsFree private used len attempt r n h =
      let p = choose attempt private in
      let a = choose_address attempt p in
      elim (Bool-cases (ltb len (prefix_len p))) [
        | inl e ↦ absurd (cc (rw (e, try_subnet) at h))
        | inr e ↦
            let k = candidate-taken used (new a len) r (rw (e, try_subnet) at h) in
            record {
              length = ap prefix_len k.3 ∙ new-prefix_len a len k.0 k.1;
              within = (
                p,
                choose-In attempt private n,
                ap (contains p) k.3
                    ∙ new-contains p a len k.0 (choose_address-contains attempt p)
                        (ground (arith, e)) k.1,
              );
              apart = λ u i. overlaps-false used r.2 u k.2 i;
              usable = k.4;
            }
      ]

  or_again-some :
      (t : Attempt ipnet subnets) (rest : Option (ℕ × ℕ × Ipv4Net)) (r : ℕ × ℕ × Ipv4Net)
      → or_again ipnet subnets t rest ≡ some r
      → (t ≡ Attempt.found r) ⊎ (rest ≡ some r)
  or_again-some Attempt.again rest r h = inr h
  or_again-some Attempt.failed rest r h = absurd (cc)
  or_again-some (Attempt.found x) rest r h = inl (ap Attempt.found (some-injective h))

  try_subnets-IsFree :
      (private used : List Ipv4Net) (len left : ℕ) (r : ℕ × ℕ × Ipv4Net)
      → private ≢ []
      → try_subnets ipnet subnets private used len left ≡ some r
      → IsFree private used len r.0 r.1 r.2
  unfolding try_subnets
  try_subnets-IsFree private used len zero r n h = absurd (cc)
  try_subnets-IsFree private used len (suc left) r n h =
      elim (or_again-some (try_subnet ipnet subnets private used len left) _ r h) [
        | inl e ↦ try_subnet-IsFree private used len left r n e
        | inr e ↦ try_subnets-IsFree private used len left r n e
      ]

  parse_all-ne-nil :
      (texts : List (List ℕ)) (ns : List Ipv4Net)
      → texts ≢ []
      → parse_all ipnet subnets texts ≡ some ns
      → ns ≢ []
  unfolding parse_all
  parse_all-ne-nil [] ns n h = absurd (n refl)
  parse_all-ne-nil (text ∷ texts) ns n h =
      let rest = parse_all ipnet subnets texts in
      let k = and_then-some (parse text) (λ m. and_then rest (λ ms. some (m ∷ ms))) ns h in
      let j = and_then-some rest (λ ms. some (k.0 ∷ ms)) ns k.2 in (λ e. cc (j.2, e))

  -- A subnet that is found has the length, lies in one of the private ranges, overlaps no network
  -- in which an interface of the host has an IPv4 address, and comes with its first two usable
  -- addresses.
  pub find_available_subnet-Available :
      (len : ℕ) (r : ℕ × ℕ × Ipv4Net)
      → find_available_subnet ipnet subnets len ≡ some r
      → IsAvailable len r.0 r.1 r.2
  unfolding find_available_subnet
  find_available_subnet-Available len r h =
      let p = and_then-some _ _ r h in
      let i = and_then-some _ _ r p.2 in
      let u = and_then-some _ _ r i.2 in
      let f =
        try_subnets-IsFree p.0 u.0 len max_attempts r
          (parse_all-ne-nil (private_texts ipnet subnets) p.0 (λ e. cc) p.1) u.2 in
      record {
        length = f.length;
        within = (
          f.within.0,
          parse_all-In ipnet subnets (private_texts ipnet subnets) p.0 f.within.0 p.1 f.within.1,
          f.within.2,
        );
        apart = λ n (interfaces, addrs, ip, mask, s, a, b, w). f.apart n (
            used_subnets-In ipnet subnets i.0 u.0 addrs ip mask n u.1
              (subst (In addrs) (some-injective (sym s ∙ i.1)) a) b w);
        usable = f.usable;
      }

  found_or_again-ne-failed :
      (o : Option (ℕ × ℕ × Ipv4Net)) → found_or_again ipnet subnets o ≢ Attempt.failed
  found_or_again-ne-failed none h = cc
  found_or_again-ne-failed (some r) h = cc

  -- An attempt fails only for a length that is none.
  try_subnet-ne-failed :
      (private used : List Ipv4Net) (len attempt : ℕ)
      → len ≤ 32
      → try_subnet ipnet subnets private used len attempt ≢ Attempt.failed
  unfolding try_subnet
  try_subnet-ne-failed private used len attempt l h =
      let p = choose attempt private in
      let a = choose_address attempt p in
      elim (Bool-cases (ltb len (prefix_len p))) [
        | inl e ↦ absurd (cc (rw (e, try_subnet) at h))
        | inr e ↦ elim (Option-cases (new a len)) [
          | inl n ↦ new-total a len l n
          | inr (n, o) ↦ elim (Bool-cases (overlaps ipnet subnets used (trunc n))) [
            | inl u ↦ absurd (cc (rw (e, o, u, try_subnet) at h))
            | inr u ↦
                found_or_again-ne-failed (first_two ipnet subnets (hosts (trunc n)) (trunc n))
                  (rw (e, o, u, try_subnet) at h)
          ]
        ]
      ]

  or_again-ne-none :
      (t : Attempt ipnet subnets) (rest : Option (ℕ × ℕ × Ipv4Net))
      → t ≢ Attempt.failed
      → (t ≡ Attempt.again → rest ≢ none)
      → or_again ipnet subnets t rest ≢ none
  or_again-ne-none Attempt.again rest n m h = m refl h
  or_again-ne-none Attempt.failed rest n m h = n refl
  or_again-ne-none (Attempt.found x) rest n m h = cc

  try_subnets-ne-none :
      (private used : List Ipv4Net) (len left k : ℕ) (r : ℕ × ℕ × Ipv4Net)
      → len ≤ 32
      → k < left
      → try_subnet ipnet subnets private used len k ≡ Attempt.found r
      → try_subnets ipnet subnets private used len left ≢ none
  unfolding try_subnets
  try_subnets-ne-none private used len zero k r l lt h = absurd (omega (arith, lt))
  try_subnets-ne-none private used len (suc left) k r l lt h =
      or_again-ne-none (try_subnet ipnet subnets private used len left)
        (try_subnets ipnet subnets private used len left)
        (try_subnet-ne-failed private used len left l)
        (λ e. try_subnets-ne-none private used len left k r l (earlier e) h)
    where
      earlier : try_subnet ipnet subnets private used len left ≡ Attempt.again → k < left
      earlier e = elim (Bool-cases (k == left)) [
        | inl same ↦
            let w : k ≡ left = ground (arith, same) in
            absurd (cc (h, e, ap (try_subnet ipnet subnets private used len) w))
        | inr other ↦ ground (arith, other, lt)
      ]

  -- For a prefix length of at most 32, when the system lists its networks, the search ends with a
  -- subnet if one of its 128 attempts comes upon a free one, whatever the others do.
  pub find_available_subnet-ne-none :
      (private used : List Ipv4Net) (interfaces : List (List Addr)) (len k : ℕ)
      (r : ℕ × ℕ × Ipv4Net)
      → len ≤ 32
      → parse_all ipnet subnets (private_texts ipnet subnets) ≡ some private
      → show ≡ some interfaces
      → used_subnets ipnet subnets interfaces ≡ some used
      → k < max_attempts
      → try_subnet ipnet subnets private used len k ≡ Attempt.found r
      → find_available_subnet ipnet subnets len ≢ none
  unfolding find_available_subnet
  find_available_subnet-ne-none private used interfaces len k r l p s u lt h =
      let last = λ (private : List Ipv4Net) (used : List Ipv4Net).
        try_subnets ipnet subnets private used len max_attempts in
      let search = λ (private : List Ipv4Net) (interfaces : List (List Addr)).
        and_then (used_subnets ipnet subnets interfaces) (last private) in
      let found =
        ap (λ o. and_then o (λ private. and_then show (search private))) p
        ∙ ap (λ o. and_then o (search private)) s
        ∙ ap (λ o. and_then o (last private)) u in
      (λ e. try_subnets-ne-none private used len max_attempts k r l lt h (sym found ∙ e))
