-- ===== src/Rules/Candidates.antt =====
-- lib/proxy/rules.rs: the candidates of `select`, against the flat list of entries.
use softnet.Prelude.{
  ℕ, ◌≡◌, refl, sym, ap, ◌∙◌, inl, inr, true, Option, none, some, List, [], ◌∷◌, arith, In,
  Option-cases, subst,
}
use mathlib.Core.Option
use softnet.Wire.{IpProtocol}
use softnet.Ipnet.{Ipnet, PrefixTrie}
use softnet.Rule.{Filter, Protocol}
use softnet.Rules.{
  Action, Priority, FilterRules, PendingRules, rule_priority, priority_leb, filter_matches,
  filter_action, filter_protocol, compile_filters, compile_rules, candidates, add_candidate,
  max_by_priority,
}
use softnet.Rules.Order.{sort-IsSorted, In-sort, priority_trans, priority_refl}
use softnet.Rules.Compiled.{Matches, find-In, find-best, max-In, max-best, max-total}
use softnet.Rules.Entries.{Entry, BlocksLast}
use softnet.Rules.Latest.{
  built, built-Unique, stored-In, stored_present, filters_of_stored, stored_of_filters,
}

-- A filter that allows matches no more than the same filter where it blocks.
matches_mono :
    (f : Filter) (a b : Action) (protocol : Option Protocol) (port : Option ℕ)
    → (a ≡ Action.block → b ≡ Action.block)
    → filter_matches f a protocol port ≡ true
    → filter_matches f b protocol port ≡ true
unfolding filter_matches
matches_mono f Action.allow Action.allow protocol port k h = h
matches_mono f Action.block Action.block protocol port k h = h
matches_mono f Action.block Action.allow protocol port k h = cc (k refl)
matches_mono f Action.allow Action.block protocol port k h = ground arith

priority_mono :
    (n : ℕ) (f : Filter) (a b : Action)
    → (a ≡ Action.block → b ≡ Action.block)
    → priority_leb (rule_priority n f a) (rule_priority n f b) ≡ true
unfolding rule_priority priority_leb
priority_mono n f Action.allow Action.allow k = priority_refl (rule_priority n f Action.allow)
priority_mono n f Action.block Action.block k = priority_refl (rule_priority n f Action.block)
priority_mono n f Action.block Action.allow k = cc (k refl)
priority_mono n f Action.allow Action.block k =
    ground (arith, priority_refl (rule_priority n f Action.allow))

module _ (ipnet : Ipnet) (trie : PrefixTrie ipnet) where
  open ipnet use {Ipv4Net, of_address, prefix_len, contains}
  open trie use {same, cover}

  abbrev pub entry_priority : Entry Ipv4Net → Priority
  entry_priority e = rule_priority (prefix_len e.prefix) e.filter e.action

  add_candidate-In :
      (p : Ipv4Net) (o : Option (Filter × Action)) (rest : List (Priority × Action))
      (x : Priority × Action)
      → In x rest
      → In x (add_candidate ipnet trie p o rest)
  add_candidate-In p none rest x i = i
  add_candidate-In p (some e) rest x i = inr i

  In-candidates :
      (c : List (Ipv4Net × FilterRules)) (protocol : IpProtocol) (port : Option ℕ)
      (x : Priority × Action)
      → In x (candidates ipnet trie c protocol port)
      → (p : Ipv4Net) × (filters : FilterRules) × (f : Filter) × (a : Action) × In (p, filters) c
        × (filter_action filters protocol port ≡ some (f, a))
        × (x ≡ (rule_priority (prefix_len p) f a, a))
  unfolding candidates
  In-candidates [] protocol port x i = absurd i
  In-candidates ((p, filters) ∷ c) protocol port x i =
      step (In-candidates c protocol port x) (filter_action filters protocol port) refl i
    where
      Later : Type 0
      Later =
          (q : Ipv4Net) × (fs : FilterRules) × (f : Filter) × (a : Action) × In (q, fs) c
          × (filter_action fs protocol port ≡ some (f, a))
          × (x ≡ (rule_priority (prefix_len q) f a, a))

      Found : Type 0
      Found =
          (q : Ipv4Net) × (fs : FilterRules) × (f : Filter) × (a : Action) × In (q, fs)
            ((p, filters) ∷ c)
          × (filter_action fs protocol port ≡ some (f, a))
          × (x ≡ (rule_priority (prefix_len q) f a, a))

      later : Later → Found
      later (q, fs, f, a, k, m, r) = (q, fs, f, a, inr k, m, r)

      step :
          (In x (candidates ipnet trie c protocol port) → Later)
          → (o : Option (Filter × Action)) → filter_action filters protocol port ≡ o
          → In x (add_candidate ipnet trie p o (candidates ipnet trie c protocol port))
          → Found
      step rec none e j = later (rec j)
      step rec (some (f, a)) e (inl q) = (p, filters, f, a, inl refl, e, q)
      step rec (some (f, a)) e (inr j) = later (rec j)

  candidates-In :
      (c : List (Ipv4Net × FilterRules)) (protocol : IpProtocol) (port : Option ℕ) (p : Ipv4Net)
      (filters : FilterRules) (f : Filter) (a : Action)
      → In (p, filters) c
      → filter_action filters protocol port ≡ some (f, a)
      → In (rule_priority (prefix_len p) f a, a) (candidates ipnet trie c protocol port)
  unfolding candidates
  candidates-In [] protocol port p filters f a i m = absurd i
  candidates-In ((q, fs) ∷ c) protocol port p filters f a (inl e) m =
      let here : filter_action fs protocol port ≡ some (f, a) =
        ap (λ w. filter_action w.1 protocol port) (sym e) ∙ m in
      rw here (inl (ap (λ w. (rule_priority (prefix_len w.0) f a, a)) e))
  candidates-In ((q, fs) ∷ c) protocol port p filters f a (inr i) m =
      add_candidate-In q (filter_action fs protocol port) (candidates ipnet trie c protocol port) _
        (candidates-In c protocol port p filters f a i m)

  -- The entry is about packets of this protocol and port from or to the address.
  abbrev pub Applies : Entry Ipv4Net → ℕ → IpProtocol → Option ℕ → Type 0
  Applies e address protocol port =
      (contains e.prefix (of_address address) ≡ true)
      × Matches (e.filter, e.action) (filter_protocol protocol) port

  get-compiled :
      (m : PendingRules ipnet trie) (p : Ipv4Net)
      → trie.get (compile_rules ipnet trie m) p
        ≡ Option.map (compile_filters (prefix_len p)) (trie.get m p)
  unfolding compile_rules
  get-compiled m p = trie.get-collect m compile_filters p

  module _ (es : List (Entry Ipv4Net)) (address : ℕ) (protocol : IpProtocol) (port : Option ℕ) where
    abbrev pub covering : List (Ipv4Net × FilterRules)
    covering = cover (compile_rules ipnet trie (built ipnet trie es)) (of_address address)

    abbrev pub found : List (Priority × Action)
    found = candidates ipnet trie covering protocol port

    -- Whatever applies is at most as high as the maximum that `select` takes.
    pub dominated :
        (x : Entry Ipv4Net)
        → BlocksLast es
        → In x es
        → Applies x address protocol port
        → (m : Priority × Action) × (max_by_priority found ≡ some m)
          × (priority_leb (entry_priority x) m.0 ≡ true)
    unfolding filter_action compile_filters
    dominated x last i (c, h) =
        let (a, held, blocks) = stored_present ipnet trie es x last i in
        let (filters, got, place) =
          filters_of_stored ipnet trie (built ipnet trie es) x.prefix x.filter a held in
        let sorted = compile_filters (prefix_len x.prefix) filters in
        let key = λ (e : Filter × Action). rule_priority (prefix_len x.prefix) e.0 e.1 in
        let compiled : trie.get (compile_rules ipnet trie (built ipnet trie es)) x.prefix
            ≡ some sorted =
          get-compiled (built ipnet trie es) x.prefix
          ∙ ap (Option.map (compile_filters (prefix_len x.prefix))) got in
        let (q, alike, covers) =
          trie.cover_complete _ x.prefix (of_address address) sorted compiled c in
        let (e, first, above) =
          find-best key sorted (filter_protocol protocol) port (x.filter, a)
            (sort-IsSorted key filters) ((In-sort key (x.filter, a) filters).1 place)
            (matches_mono x.filter x.action a (filter_protocol protocol) port blocks h) in
        let candidate = candidates-In covering protocol port q sorted e.0 e.1 covers first in
        let (m, top) = max-total found _ candidate in
        let (_, over) = max-best found m _ top candidate in
        let same_len : prefix_len x.prefix ≡ prefix_len q = trie.same-prefix_len x.prefix q alike in
        (
          m,
          top,
          priority_trans (entry_priority x) (key (x.filter, a)) m.0
              (priority_mono (prefix_len x.prefix) x.filter x.action a blocks)
              (priority_trans (key (x.filter, a)) (key e) m.0 above (
                subst (λ n. priority_leb (rule_priority n e.0 e.1) m.0 ≡ true) (sym same_len)
                  over)),
        )

    -- What `select` takes, an entry of the policy says.
    pub taken :
        (m : Priority × Action)
        → max_by_priority found ≡ some m
        → (e : Entry Ipv4Net) × In e es
          × Applies e address protocol port
          × (e.action ≡ m.1)
          × (entry_priority e ≡ m.0)
    unfolding filter_action compile_filters
    taken m top =
        let (p, filters, f, a, covers, first, value) =
          In-candidates covering protocol port m (max-In found m top) in
        let (got, c) = trie.cover_sound _ p (of_address address) filters covers in
        let compiled = sym (get-compiled (built ipnet trie es) p) ∙ got in
        let (place, h) = find-In filters (filter_protocol protocol) port (f, a) first in
        elim (Option-cases (trie.get (built ipnet trie es) p)) [
          | inl n ↦ absurd (cc (ap (Option.map (compile_filters (prefix_len p))) n, compiled))
          | inr (l, n) ↦
              let whole : compile_filters (prefix_len p) l ≡ filters =
                cc (ap (Option.map (compile_filters (prefix_len p))) n, compiled) in
              let inside = (In-sort _ (f, a) l).0 (subst (In (f, a)) (sym whole) place) in
              let held =
                stored_of_filters ipnet trie (built ipnet trie es) p f a l
                  (built-Unique ipnet trie es p l n) n inside in
              let (e, i, alike, same_filter, same_action) = stored-In ipnet trie es p f a held in
              (
                e,
                i,
                (
                  trie.same-contains e.prefix p (of_address address) alike ∙ c,
                  subst (λ w. Matches w (filter_protocol protocol) port)
                      (sym (cc (same_filter, same_action))) h,
                ),
                cc (same_action, value),
                cc (
                  trie.same-prefix_len e.prefix p alike,
                  same_filter,
                  same_action,
                  ap (λ w. w.0) value,
                ),
              )
        ]
