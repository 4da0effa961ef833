-- ===== src/Witnesses/Subnets.antt =====
-- lib/subnet_finder/mod.rs: a host with one interface, and the subnet that is found beside it.
use softnet.Prelude.{
  ℕ, ◌+◌, ◌-◌, ◌*◌, ◌/◌, ◌≤◌, ◌<◌, ◌≡◌, ◌≢◌, refl, true, Option, none, some, List, [], ◌∷◌, arith,
  ltb, ◌==◌, if◌then◌else◌, In, inl, inr, subst, sym, ◌⊎◌, some-injective, Bool-cases,
}
use softnet.Example.{Net, ipnet, prefix_len, contains}
use softnet.SubnetFinder.{
  Addr, Unique, Subnets, Attempt, private_texts, parse_all, used_subnets, try_subnet,
  find_available_subnet,
}
use softnet.SubnetFinder.Available.{
  IsAvailable, find_available_subnet-Available, find_available_subnet-ne-none,
}

abbrev pub new : ℕ → ℕ → Option Net
new a l =
    if l == 0
    then some Net.all
    else if l == 32
    then some (Net.one a)
    else if ltb l 32
    then some (Net.block (l - 1) (a / 8))
    else none

abbrev pub hosts : Net → List ℕ
hosts Net.all = []
hosts (Net.one a) = a ∷ []
hosts (Net.block k a) =
    (a * 8 + 1) ∷ (a * 8 + 2) ∷ (a * 8 + 3) ∷ (a * 8 + 4) ∷ (a * 8 + 5) ∷ (a * 8 + 6) ∷ []

-- The first of a list, and the first address of a network.
abbrev pub choose : ℕ → List Net → Net
choose n [] = Net.all
choose n (x ∷ xs) = x

abbrev pub choose_address : ℕ → Net → ℕ
choose_address n Net.all = 0
choose_address n (Net.one a) = a
choose_address n (Net.block k a) = a * 8

pub new-total : (a l : ℕ) → l ≤ 32 → new a l ≢ none
new-total a l h = ground arith

new-cases :
    (a l : ℕ) (n : Net)
    → new a l ≡ some n
    → ((Net.all ≡ n) × (l ≡ 0))
      ⊎ (((Net.one a ≡ n) × (l ≡ 32)) ⊎ ((Net.block (l - 1) (a / 8) ≡ n) × (1 ≤ l) × (l < 32)))
new-cases a l n h = elim (Bool-cases (l == 0)) [
  | inl e ↦ inl (some-injective (rw e at h), ground arith)
  | inr e ↦ elim (Bool-cases (l == 32)) [
    | inl f ↦ inr (inl (some-injective (rw (e, f) at h), ground arith))
    | inr f ↦ elim (Bool-cases (ltb l 32)) [
      | inl g ↦ inr (inr (some-injective (rw (e, f, g) at h), ground (arith, e), ground (arith, g)))
      | inr g ↦ absurd (cc (rw (e, f, g) at h))
    ]
  ]
]

pub new-prefix_len : (a l : ℕ) (n : Net) → new a l ≡ some n → prefix_len n ≡ l
new-prefix_len a l n h = elim (new-cases a l n h) [
  | inl (e, k) ↦ subst (λ w. prefix_len w ≡ l) e (sym k)
  | inr (inl (e, k)) ↦ subst (λ w. prefix_len w ≡ l) e (sym k)
  | inr (inr (e, low, high)) ↦ subst (λ w. prefix_len w ≡ l) e (omega arith)
]

narrow_all :
    (p : Net) (a : ℕ) → contains p (Net.one a) ≡ true → prefix_len p ≤ 0 → contains p Net.all ≡ true
narrow_all Net.all a h k = refl
narrow_all (Net.one b) a h k = absurd (omega (arith, k))
narrow_all (Net.block j b) a h k = absurd (omega (arith, k))

narrow_block :
    (p : Net) (a l : ℕ)
    → contains p (Net.one a) ≡ true
    → prefix_len p ≤ 31
    → contains p (Net.block l (a / 8)) ≡ true
narrow_block Net.all a l h k = refl
narrow_block (Net.one b) a l h k = absurd (omega (arith, k))
narrow_block (Net.block j b) a l h k = ground (arith, h)

pub new-contains :
    (p : Net) (a l : ℕ) (n : Net)
    → contains p (Net.one a) ≡ true
    → prefix_len p ≤ l
    → new a l ≡ some n
    → contains p n ≡ true
new-contains p a l n h k e = elim (new-cases a l n e) [
  | inl (s, z) ↦ subst (λ w. contains p w ≡ true) s (narrow_all p a h (omega (arith, k, z)))
  | inr (inl (s, z)) ↦ subst (λ w. contains p w ≡ true) s h
  | inr (inr (s, low, high)) ↦
      subst (λ w. contains p w ≡ true) s (narrow_block p a (l - 1) h (omega (arith, k, high)))
]

pub hosts-Unique : (n : Net) → Unique (hosts n)
hosts-Unique Net.all = tt
hosts-Unique (Net.one a) = (λ i. i, tt)
hosts-Unique (Net.block k a) = (
  λ i. ground (arith, i),
  (
    λ i. ground (arith, i),
    (λ i. ground (arith, i), (λ i. ground (arith, i), (λ i. ground (arith, i), (λ i. i, tt)))),
  ),
)

pub choose-In : (n : ℕ) (xs : List Net) → xs ≢ [] → In (choose n xs) xs
choose-In n [] h = h refl
choose-In n (x ∷ xs) h = inl refl

pub choose_address-contains : (n : ℕ) (p : Net) → contains p (Net.one (choose_address n p)) ≡ true
choose_address-contains n Net.all = refl
choose_address-contains n (Net.one a) = ground arith
choose_address-contains n (Net.block k a) = ground arith

-- An interface with the address 80 in the block 10, and one with an IPv6 address only.
abbrev pub subnets : Subnets ipnet
subnets = record {
  new = new;
  with_netmask = λ ip mask. some (Net.block mask (ip / 8));
  netmask = prefix_len;
  hosts = hosts;
  show = some ((Addr.v4 80 (some 28) ∷ []) ∷ ((Addr.v6 ∷ []) ∷ []));
  choose = choose;
  choose_address = choose_address;
  new-total = new-total;
  new-prefix_len = new-prefix_len;
  new-contains = new-contains;
  hosts-Unique = hosts-Unique;
  choose-In = choose-In;
  choose_address-contains = choose_address-contains;
}

abbrev private : List Net
private =
    Net.block 1 7 ∷ (Net.block 0 11 ∷ (Net.block 0 12 ∷ (Net.block 0 13 ∷ (Net.block 0 13 ∷ []))))

abbrev used : List Net
used = Net.block 28 10 ∷ []

abbrev interfaces : List (List Addr)
interfaces = (Addr.v4 80 (some 28) ∷ []) ∷ ((Addr.v6 ∷ []) ∷ [])

parsed : parse_all ipnet subnets (private_texts ipnet subnets) ≡ some private
unfolding parse_all
parsed = refl

in_use : used_subnets ipnet subnets interfaces ≡ some used
unfolding used_subnets
in_use = refl

pub free_subnet : find_available_subnet ipnet subnets 29 ≡ some (57, 58, Net.block 28 7)
unfolding find_available_subnet
free_subnet = refl

first_attempt : try_subnet ipnet subnets private used 29 3 ≡ Attempt.found (57, 58, Net.block 28 7)
unfolding try_subnet
first_attempt = refl

find_available_subnet-Available_example : IsAvailable ipnet subnets 29 57 58 (Net.block 28 7)
find_available_subnet-Available_example =
    find_available_subnet-Available ipnet subnets 29 (57, 58, Net.block 28 7) free_subnet

find_available_subnet-ne-none_example : find_available_subnet ipnet subnets 29 ≢ none
find_available_subnet-ne-none_example =
    find_available_subnet-ne-none ipnet subnets private used interfaces 29 3
      (57, 58, Net.block 28 7) (omega arith) parsed refl in_use (omega arith) first_attempt
