-- ===== src/Ipnet.antt =====
-- The crates ipnet and prefix_trie, which are not part of the repository, as interfaces: the
-- operations that the policy uses, with what their documentation says of them.
use softnet.Prelude.{
  ℕ, ◌≤◌, ◌≡◌, ◌≢◌, Bool, true, ◌&&◌, ◌||◌, Option, none, some, List, [], map, In, All, leb, ◌==◌,
  if◌then◌else◌,
}
use mathlib.Core.Option

abbrev pub is_network_byte : ℕ → Bool
is_network_byte c = leb b'0' c && leb c b'9' || c == b'.' || c == b'/'

-- `ipnet::Ipv4Net`: an address and a prefix length. Addresses are numbers, texts are lists of bytes.
pub record Ipnet : Type 1 where
  pub Ipv4Net : Type 0
  pub Ipv4Net-discrete : Discrete Ipv4Net
  pub prefix_len : Ipv4Net → ℕ
  -- the network with the host bits cleared
  pub trunc : Ipv4Net → Ipv4Net
  -- `Ipv4Net::from(address)`, the prefix of one host
  pub of_address : ℕ → Ipv4Net
  -- `Ipv4Net::default()`, which is 0.0.0.0/0
  pub default : Ipv4Net
  pub contains : Ipv4Net → Ipv4Net → Bool
  pub to_string : Ipv4Net → List ℕ
  pub parse : List ℕ → Option Ipv4Net
  pub prefix_len-le : (n : Ipv4Net) → prefix_len n ≤ 32
  -- what `Display` writes are digits, dots and a slash, and `FromStr` reads it back
  pub to_string-bytes : (n : Ipv4Net) → All (λ c. is_network_byte c ≡ true) (to_string n)
  pub to_string-ne-nil : (n : Ipv4Net) → to_string n ≢ []
  pub parse-to_string : (n : Ipv4Net) → parse (to_string n) ≡ some n
  pub trunc-trunc : (n : Ipv4Net) → trunc (trunc n) ≡ trunc n

module _ (ipnet : Ipnet) where
  open ipnet use {Ipv4Net, prefix_len, contains}

  -- `prefix_trie::PrefixMap<Ipv4Net, _>`: a map from networks, which knows a prefix by its network.
  pub record PrefixTrie : Type 1 where
    pub PrefixMap : Type 0 → Type 0
    pub new : (V : Type 0) → PrefixMap V
    -- `entry(prefix).or_default()` followed by a change of the value
    pub update : {V : Type 0} → PrefixMap V → Ipv4Net → V → (V → V) → PrefixMap V
    pub get : {V : Type 0} → PrefixMap V → Ipv4Net → Option V
    pub into_iter : {V : Type 0} → PrefixMap V → List (Ipv4Net × V)
    pub collect : {V : Type 0} → List (Ipv4Net × V) → PrefixMap V
    pub values : {V : Type 0} → PrefixMap V → List V
    -- the entries whose prefix contains the given one
    pub cover : {V : Type 0} → PrefixMap V → Ipv4Net → List (Ipv4Net × V)
    -- two prefixes of one network
    pub same : Ipv4Net → Ipv4Net → Bool
    pub same-refl : (p : Ipv4Net) → same p p ≡ true
    pub same-prefix_len : (p q : Ipv4Net) → same p q ≡ true → prefix_len p ≡ prefix_len q
    pub same-contains : (p q a : Ipv4Net) → same p q ≡ true → contains p a ≡ contains q a
    pub get-new : (V : Type 0) (p : Ipv4Net) → get (new V) p ≡ none
    pub get-update :
        {V : Type 0} (m : PrefixMap V) (p q : Ipv4Net) (default : V) (change : V → V)
        → get (update m p default change) q
          ≡ (if same p q then some (change (Option.get_or (get m p) default)) else get m q)
    pub get-same :
        {V : Type 0} (m : PrefixMap V) (p q : Ipv4Net) → same p q ≡ true → get m p ≡ get m q
    -- collecting what iteration yields, with each value changed, changes each value in place
    pub get-collect :
        {V W : Type 0} (m : PrefixMap V) (change : ℕ → V → W) (p : Ipv4Net)
        → get (collect (map (λ e. (e.0, change (prefix_len e.0) e.1)) (into_iter m))) p
          ≡ Option.map (change (prefix_len p)) (get m p)
    pub cover_sound :
        {V : Type 0} (m : PrefixMap V) (p a : Ipv4Net) (v : V)
        → In (p, v) (cover m a)
        → (get m p ≡ some v) × (contains p a ≡ true)
    pub cover_complete :
        {V : Type 0} (m : PrefixMap V) (p a : Ipv4Net) (v : V)
        → get m p ≡ some v
        → contains p a ≡ true
        → (q : Ipv4Net) × (same p q ≡ true) × In (q, v) (cover m a)
