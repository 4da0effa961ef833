-- ===== src/SubnetFinder.antt =====
-- lib/subnet_finder/mod.rs: find_available_subnet. The crates rand, network_interface and ipnet are
-- interfaces.
pub mod Networks
pub mod Available
use softnet.Prelude.{
  and_then, ℕ, zero, suc, ◌≤◌, ◌≡◌, ◌≢◌, Bool, true, ◌||◌, Option, none, some, List, [], ◌∷◌, ltb,
  if◌then◌else◌, any, In,
}
use softnet.Ipnet.{Ipnet}

abbrev pub max_attempts : ℕ
max_attempts = 128

-- `network_interface::Addr`; an IPv4 address may come without a netmask.
pub data Addr : Type 0 where
  v4 : ℕ → Option ℕ → Addr
  v6 : Addr

-- No address is listed twice.
abbrev pub Unique : List ℕ → Type 0
Unique [] = Unit
Unique (x ∷ xs) = (In x xs → ⊥) × Unique xs

module _ (ipnet : Ipnet) where
  open ipnet use {Ipv4Net, prefix_len, trunc, of_address, contains, parse}

  -- More of ipnet, and what rand and network_interface return.
  pub record Subnets : Type 0 where
    -- `Ipv4Net::new`, an error for prefixes longer than 32
    pub new : ℕ → ℕ → Option Ipv4Net
    pub with_netmask : ℕ → ℕ → Option Ipv4Net
    pub netmask : Ipv4Net → ℕ
    -- the usable addresses of a network, in order
    pub hosts : Ipv4Net → List ℕ
    -- the addresses of each interface, or an error
    pub show : Option (List (List Addr))
    -- a random element of a list, and a random address of a network, in an attempt
    pub choose : ℕ → List Ipv4Net → Ipv4Net
    pub choose_address : ℕ → Ipv4Net → ℕ
    pub new-total : (a l : ℕ) → l ≤ 32 → new a l ≢ none
    pub new-prefix_len : (a l : ℕ) (n : Ipv4Net) → new a l ≡ some n → prefix_len (trunc n) ≡ l
    pub new-contains :
        (p : Ipv4Net) (a l : ℕ) (n : Ipv4Net)
        → contains p (of_address a) ≡ true
        → prefix_len p ≤ l
        → new a l ≡ some n
        → contains p (trunc n) ≡ true
    pub hosts-Unique : (n : Ipv4Net) → Unique (hosts n)
    pub choose-In : (attempt : ℕ) (xs : List Ipv4Net) → xs ≢ [] → In (choose attempt xs) xs
    pub choose_address-contains :
        (attempt : ℕ) (n : Ipv4Net) → contains n (of_address (choose_address attempt n)) ≡ true

  module _ (subnets : Subnets) where
    open subnets use {new, with_netmask, hosts, show, choose, choose_address}

    -- The texts of the private ranges, as numbers of bytes.
    abbrev pub private_texts : List (List ℕ)
    private_texts =
        (b'1' ∷ b'0' ∷ b'.' ∷ b'0' ∷ b'.' ∷ b'0' ∷ b'.' ∷ b'0' ∷ b'/' ∷ b'8' ∷ [])
        ∷ (b'1' ∷ b'7' ∷ b'2' ∷ b'.' ∷ b'1' ∷ b'6' ∷ b'.' ∷ b'0' ∷ b'.' ∷ b'0' ∷ b'/' ∷ b'1' ∷ b'2'
            ∷ [])
        ∷ (b'1' ∷ b'9' ∷ b'2' ∷ b'.' ∷ b'1' ∷ b'6' ∷ b'8' ∷ b'.' ∷ b'0' ∷ b'.' ∷ b'0' ∷ b'/' ∷ b'1'
            ∷ b'8' ∷ [])
        ∷ (b'1' ∷ b'9' ∷ b'2' ∷ b'.' ∷ b'1' ∷ b'6' ∷ b'8' ∷ b'.' ∷ b'6' ∷ b'4' ∷ b'.' ∷ b'0' ∷ b'/'
            ∷ b'1' ∷ b'9' ∷ [])
        ∷ (b'1' ∷ b'9' ∷ b'2' ∷ b'.' ∷ b'1' ∷ b'6' ∷ b'8' ∷ b'.' ∷ b'9' ∷ b'6' ∷ b'.' ∷ b'0' ∷ b'/'
            ∷ b'2' ∷ b'2' ∷ [])
        ∷ []

    -- `vec![..parse()?, ..]`
    unfoldable pub parse_all : List (List ℕ) → Option (List Ipv4Net)
    parse_all [] = some []
    parse_all (text ∷ texts) =
        let rest = parse_all texts in
        and_then (parse text) (λ n. and_then rest (λ ns. some (n ∷ ns)))

    -- The inner loop: the networks of one interface, in front of those of the next.
    unfoldable pub push_addrs : List Addr → Option (List Ipv4Net) → Option (List Ipv4Net)
    push_addrs [] used = used
    push_addrs (Addr.v6 ∷ addrs) used = push_addrs addrs used
    push_addrs (Addr.v4 ip none ∷ addrs) used = none
    push_addrs (Addr.v4 ip (some mask) ∷ addrs) used =
        let rest = push_addrs addrs used in
        and_then (with_netmask ip mask) (λ n. and_then rest (λ ns. some (n ∷ ns)))

    unfoldable pub used_subnets : List (List Addr) → Option (List Ipv4Net)
    unfolding push_addrs
    used_subnets [] = some []
    used_subnets (addrs ∷ interfaces) = push_addrs addrs (used_subnets interfaces)

    unfoldable pub overlaps : List Ipv4Net → Ipv4Net → Bool
    overlaps used candidate = any (λ u. contains candidate u || contains u candidate) used

    abbrev pub first_two : List ℕ → Ipv4Net → Option (ℕ × ℕ × Ipv4Net)
    first_two (first_host ∷ second_host ∷ more) candidate =
        some (first_host, second_host, candidate)
    first_two _ candidate = none

    -- What one attempt comes to: the next attempt, an error, or a subnet.
    pub data Attempt : Type 0 where
      again failed : Attempt
      found : ℕ × ℕ × Ipv4Net → Attempt

    abbrev pub found_or_again : Option (ℕ × ℕ × Ipv4Net) → Attempt
    found_or_again none = Attempt.again
    found_or_again (some result) = Attempt.found result

    abbrev pub try_candidate : List Ipv4Net → Option Ipv4Net → Attempt
    try_candidate used none = Attempt.failed
    try_candidate used (some n) =
        if overlaps used (trunc n)
        then Attempt.again
        else found_or_again (first_two (hosts (trunc n)) (trunc n))

    unfoldable pub try_subnet : List Ipv4Net → List Ipv4Net → ℕ → ℕ → Attempt
    unfolding overlaps
    try_subnet private used len attempt =
        let private_subnet = choose attempt private in
        if ltb len (prefix_len private_subnet)
        then Attempt.again
        else try_candidate used (new (choose_address attempt private_subnet) len)

    abbrev pub or_again : Attempt → Option (ℕ × ℕ × Ipv4Net) → Option (ℕ × ℕ × Ipv4Net)
    or_again Attempt.again rest = rest
    or_again Attempt.failed rest = none
    or_again (Attempt.found result) rest = some result

    -- The loop, with the attempts that are left; `none` is an error.
    unfoldable pub try_subnets : List Ipv4Net → List Ipv4Net → ℕ → ℕ → Option (ℕ × ℕ × Ipv4Net)
    unfolding try_subnet
    try_subnets private used len zero = none
    try_subnets private used len (suc left) =
        or_again (try_subnet private used len left) (try_subnets private used len left)

    unfoldable pub find_available_subnet : ℕ → Option (ℕ × ℕ × Ipv4Net)
    unfolding parse_all used_subnets try_subnets
    find_available_subnet len = and_then (parse_all private_texts) (λ private.
        and_then show (λ interfaces.
          and_then (used_subnets interfaces) (λ used. try_subnets private used len max_attempts)))
