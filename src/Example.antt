-- ===== src/Example.antt =====
-- A concrete network type, prefix map, clock and outside world, which show that what is assumed of
-- those libraries can hold. A network here is 0.0.0.0/0, one address, or, of any length between, the
-- eight addresses of a block.
use softnet.Prelude.{
  ℕ, zero, suc, Option, All, length, ◌+◌, ◌/◌, ◌%◌, ◌++◌, ◌≤◌, ◌≡◌, ◌≢◌, refl, sym, ap, ◌∙◌, inl,
  inr, Bool, true, false, none, some, List, [], ◌∷◌, map, arith, leb, ◌==◌, if◌then◌else◌, ite,
  if_pos, if_neg, In, ℕ_discrete, Bool-cases,
}
use mathlib.Core.Option
use softnet.Prelude.HashMap.{get, insert, get-insert}
use softnet.Flows.{Clock}
use softnet.Ipnet.{is_network_byte, Ipnet, PrefixTrie}
use softnet.Dhcp.{Message, Received, Opcode, HType}
use softnet.Proxy.{Outside, SendResult}

pub data Net : Type 0 where
  all : Net
  one : ℕ → Net
  block : ℕ → ℕ → Net

unfoldable pub Net-discrete : Discrete Net
Net-discrete = hlevel ℕ_discrete

abbrev pub prefix_len : Net → ℕ
prefix_len all = 0
prefix_len (one _) = 32
prefix_len (block k _) = 1 + k % 31

abbrev pub contains : Net → Net → Bool
contains all b = true
contains (one a) all = false
contains (one a) (one b) = a == b
contains (one a) (block k b) = false
contains (block k a) all = false
contains (block k a) (one b) = b / 8 == a
contains (block k a) (block l b) = a == b

pub prefix_len-le : (n : Net) → prefix_len n ≤ 32
prefix_len-le all = omega arith
prefix_len-le (one _) = omega arith
prefix_len-le (block k _) = omega arith

abbrev pub zeros : ℕ → List ℕ
zeros zero = []
zeros (suc n) = b'0' ∷ zeros n

-- 0.0.0.0/0 is written as a slash, an address in unary behind a dot, and a block as both numbers.
abbrev pub to_string : Net → List ℕ
to_string all = b'/' ∷ []
to_string (one a) = b'.' ∷ zeros a
to_string (block k a) = b'0' ∷ (zeros k ++ (b'.' ∷ zeros a))

-- The number of zeros, and what is behind them.
abbrev pub count : List ℕ → ℕ × List ℕ
count [] = (0, [])
count (c ∷ cs) = let rest = count cs in if c == b'0' then (suc rest.0, rest.1) else (0, cs)

abbrev pub parse : List ℕ → Option Net
parse [] = none
parse (c ∷ cs) =
    if c == b'/'
    then some all
    else if c == b'.'
    then some (one (length cs))
    else some (block (count cs).0 (length (count cs).1))

zeros-bytes : (n : ℕ) → All (λ c. is_network_byte c ≡ true) (zeros n)
zeros-bytes zero = tt
zeros-bytes (suc n) = (refl, zeros-bytes n)

length-zeros : (n : ℕ) → length (zeros n) ≡ n
length-zeros zero = refl
length-zeros (suc n) = ap suc (length-zeros n)

Network-append :
    (xs ys : List ℕ)
    → All (λ c. is_network_byte c ≡ true) xs
    → All (λ c. is_network_byte c ≡ true) ys
    → All (λ c. is_network_byte c ≡ true) (xs ++ ys)
Network-append [] ys a b = b
Network-append (x ∷ xs) ys a b = (a.0, Network-append xs ys a.1 b)

count-zeros : (k a : ℕ) → count (zeros k ++ (b'.' ∷ zeros a)) ≡ (k, zeros a)
count-zeros zero a = refl
count-zeros (suc k) a = ap (λ w. (suc w.0, w.1)) (count-zeros k a)

pub to_string-bytes : (n : Net) → All (λ c. is_network_byte c ≡ true) (to_string n)
to_string-bytes all = (refl, tt)
to_string-bytes (one a) = (refl, zeros-bytes a)
to_string-bytes (block k a) =
    (refl, Network-append (zeros k) (b'.' ∷ zeros a) (zeros-bytes k) (refl, zeros-bytes a))

pub to_string-ne-nil : (n : Net) → to_string n ≢ []
to_string-ne-nil all h = cc
to_string-ne-nil (one a) h = cc
to_string-ne-nil (block k a) h = cc

pub parse-to_string : (n : Net) → parse (to_string n) ≡ some n
parse-to_string all = refl
parse-to_string (one a) = ap (λ n. some (one n)) (length-zeros a)
parse-to_string (block k a) =
    ap (λ w. some (block w.0 (length w.1))) (count-zeros k a)
    ∙ ap (λ n. some (block k n)) (length-zeros a)

abbrev pub ipnet : Ipnet
ipnet = record {
  Ipv4Net = Net;
  Ipv4Net-discrete = Net-discrete;
  prefix_len = prefix_len;
  trunc = λ n. n;
  of_address = one;
  default = all;
  contains = contains;
  to_string = to_string;
  parse = parse;
  prefix_len-le = prefix_len-le;
  to_string-bytes = to_string-bytes;
  to_string-ne-nil = to_string-ne-nil;
  parse-to_string = parse-to_string;
  trunc-trunc = λ n. refl;
}

abbrev pub same : Net → Net → Bool
same p q = elim (Net-discrete p q) [ yes _ ↦ true | no _ ↦ false ]

pub same-eq : (p q : Net) → same p q ≡ true → p ≡ q
same-eq p q h = elim (Net-discrete p q) [ yes e ↦ e | no n ↦ absurd (ground (arith, h, n)) ]

pub same_self : (p : Net) → same p p ≡ true
same_self p = ground arith

module _ {V : Type 0} where
  -- The entries of other networks.
  unfoldable pub without : Net → List (Net × V) → List (Net × V)
  without q [] = []
  without q ((p, v) ∷ m) = ite (Net-discrete p q) (without q m) ((p, v) ∷ without q m)

  In-without :
      (q p : Net) (v : V) (m : List (Net × V)) → In (p, v) (without q m) → (p ≢ q) × In (p, v) m
  unfolding without
  In-without q p v [] i = absurd i
  In-without q p v ((r, w) ∷ m) i = elim (Net-discrete r q) [
    | yes e ↦
        let k =
          In-without q p v m
            (rw (if_pos (Net-discrete r q) e (without q m) ((r, w) ∷ without q m)) at i) in
        (k.0, inr k.1)
    | no n ↦ elim (rw (if_neg (Net-discrete r q) n (without q m) ((r, w) ∷ without q m)) at i) [
      | inl e ↦ (λ s. n (cc (s, ap (λ x. x.0) e)), inl e)
      | inr j ↦ let k = In-without q p v m j in (k.0, inr k.1)
    ]
  ]

  without-In :
      (q p : Net) (v : V) (m : List (Net × V)) → p ≢ q → In (p, v) m → In (p, v) (without q m)
  unfolding without
  without-In q p v [] n i = absurd i
  without-In q p v ((r, w) ∷ m) n i = elim (Net-discrete r q) [
    | yes e ↦
        rw (if_pos (Net-discrete r q) e (without q m) ((r, w) ∷ without q m), without)
          (elim i [ inl s ↦ absurd (n (ap (λ x. x.0) s ∙ e)) | inr j ↦ without-In q p v m n j ])
    | no o ↦
        rw (if_neg (Net-discrete r q) o (without q m) ((r, w) ∷ without q m), without)
          (elim i [ inl s ↦ inl s | inr j ↦ inr (without-In q p v m n j) ])
  ]

  -- An entry that a later one of the same network hides is left out.
  unfoldable pub cover : List (Net × V) → Net → List (Net × V)
  unfolding without
  cover [] a = []
  cover ((p, v) ∷ m) a =
      let rest = without p (cover m a) in if contains p a then (p, v) ∷ rest else rest

  pub cover_sound :
      (m : List (Net × V)) (p a : Net) (v : V)
      → In (p, v) (cover m a)
      → (get Net-discrete p m ≡ some v) × (contains p a ≡ true)
  unfolding get cover
  cover_sound [] p a v i = absurd i
  cover_sound ((q, w) ∷ m) p a v i = elim (Bool-cases (contains q a)) [
    | inl e ↦ elim (rw e at i) [
      | inl s ↦
          let t : p ≡ q = ap (λ x. x.0) s in
          (
            if_pos (Net-discrete q p) (sym t) (some w) (get Net-discrete p m)
                ∙ ap some (sym (ap (λ x. x.1) s)),
            rw t e,
          )
      | inr j ↦ later (cover_sound m p a v) j
    ]
    | inr e ↦ later (cover_sound m p a v) (rw e at i)
  ]
    where
      later :
          (In (p, v) (cover m a) → (get Net-discrete p m ≡ some v) × (contains p a ≡ true))
          → In (p, v) (without q (cover m a))
          → (get Net-discrete p ((q, w) ∷ m) ≡ some v) × (contains p a ≡ true)
      later found j =
          let k = In-without q p v (cover m a) j in
          let r = found k.1 in
          (if_neg (Net-discrete q p) (λ s. k.0 (sym s)) (some w) (get Net-discrete p m) ∙ r.0, r.1)

  pub cover_complete :
      (m : List (Net × V)) (p a : Net) (v : V)
      → get Net-discrete p m ≡ some v
      → contains p a ≡ true
      → In (p, v) (cover m a)
  unfolding get cover
  cover_complete [] p a v h c = cc
  cover_complete ((q, w) ∷ m) p a v h c = elim (Net-discrete q p) [
    | yes e ↦ let s : w ≡ v = ground (arith, h, e) in rw (e, c, s) (inl refl)
    | no n ↦
        let j =
          without-In q p v (cover m a) (λ s. n (sym s))
            (cover_complete m p a v (ground (arith, h, n)) c) in
        elim (Bool-cases (contains q a)) [ inl e ↦ rw e (inr j) | inr e ↦ rw e j ]
  ]

  pub get-change :
      {W : Type 0} (m : List (Net × V)) (change : ℕ → V → W) (p : Net)
      → get Net-discrete p (map (λ e. (e.0, change (prefix_len e.0) e.1)) m)
        ≡ Option.map (change (prefix_len p)) (get Net-discrete p m)
  unfolding get
  get-change [] change p = refl
  get-change ((q, w) ∷ m) change p = elim (Net-discrete q p) [
    | yes e ↦
        if_pos (Net-discrete q p) e (some (change (prefix_len q) w)) _
        ∙ ap (λ z. some (change (prefix_len z) w)) e
        ∙ sym (
            ap (Option.map (change (prefix_len p)))
              (if_pos (Net-discrete q p) e (some w) (get Net-discrete p m)))
    | no n ↦
        if_neg (Net-discrete q p) n (some (change (prefix_len q) w)) _
        ∙ get-change m change p
        ∙ sym (
            ap (Option.map (change (prefix_len p)))
              (if_neg (Net-discrete q p) n (some w) (get Net-discrete p m)))
  ]

pub same-prefix_len : (p q : Net) → same p q ≡ true → prefix_len p ≡ prefix_len q
same-prefix_len p q h = ap prefix_len (same-eq p q h)

pub get-update :
    {V : Type 0} (m : List (Net × V)) (p q : Net) (v : V)
    → get Net-discrete q (insert Net-discrete p v m)
      ≡ (if same p q then some v else get Net-discrete q m)
get-update m p q v = ground (arith, get-insert Net-discrete p q v m)

pub get-nothing : (V : Type 0) (p : Net) → get {V = V} Net-discrete p [] ≡ none
unfolding get
get-nothing V p = refl

abbrev pub trie : PrefixTrie ipnet
trie = record {
  PrefixMap = λ V. List (Net × V);
  new = λ V. [];
  update = λ m p d f. insert Net-discrete p (f (Option.get_or (get Net-discrete p m) d)) m;
  get = λ m p. get Net-discrete p m;
  into_iter = λ m. m;
  collect = λ m. m;
  values = λ m. map (λ e. e.1) m;
  cover = cover;
  same = same;
  same-refl = same_self;
  same-prefix_len = same-prefix_len;
  same-contains = λ p q a h. ap (λ n. contains n a) (same-eq p q h);
  get-new = get-nothing;
  get-update = λ m p q d f. get-update m p q (f (Option.get_or (get Net-discrete p m) d));
  get-same = λ m p q h. ap (λ n. get Net-discrete n m) (same-eq p q h);
  get-collect = get-change;
  cover_sound = cover_sound;
  cover_complete = λ m p a v h c. (p, same_self p, cover_complete m p a v h c);
}

abbrev pub clock : Clock
clock = record { from_secs = λ s. s; add = λ a b. a + b }

abbrev pub default_message : Message
default_message = record {
  opcode = Opcode.boot_request;
  htype = HType.eth;
  hlen = 6;
  xid = 0;
  flags = record { broadcast = false; reserved = 0 };
  ciaddr = 0;
  yiaddr = 0;
  giaddr = 0;
  chaddr = 0;
  opts = [];
}

-- Every write succeeds; there is no DNS server; an address is global from 100 on.
abbrev pub outside : Outside
outside = record {
  enobufs = 55;
  vm_write = λ _ _. SendResult.sent;
  host_write = λ _ _. true;
  from_bytes = λ _. some default_message;
  encode_packet = λ _. some [];
  default_message = default_message;
  DnsServer = ℕ;
  domain = λ _. [];
  respond = λ _ _ _ _ _ _. Received.no_reply;
  is_global = λ a. leb 100 a;
}
