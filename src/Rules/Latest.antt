-- ===== src/Rules/Latest.antt =====
-- lib/proxy/rules.rs: what the pending maps hold for a network and a filter is the latest entry for
-- them, so that what blocks wins over what allows the same.
use softnet.Prelude.{
  ◌≡◌, refl, sym, ap, ◌∙◌, ◌⊎◌, inl, inr, true, Option, none, some, List, [], ◌∷◌, arith,
  if◌then◌else◌, ite, if_pos, if_neg, In, Bool-cases, Option-cases, subst,
}
use softnet.Prelude.HashMap
use softnet.Prelude.HashMap.{Distinct, get-insert, insert-Distinct}
use mathlib.Core.Option
use softnet.Ipnet.{Ipnet, PrefixTrie}
use softnet.Rule.{Filter, Filter-discrete}
use softnet.Rules.{Action, PendingRules, insert_entry}
use softnet.Rules.Entries.{Entry, BlocksLast, insert_entries}

module _ (ipnet : Ipnet) (trie : PrefixTrie ipnet) where
  open ipnet use {Ipv4Net}
  open trie use {same}

  abbrev of_filters : Filter → Option (List (Filter × Action)) → Option Action
  of_filters f none = none
  of_filters f (some filters) = HashMap.get Filter-discrete f filters

  -- What a pending map says of a network and a filter.
  unfoldable pub stored : PendingRules ipnet trie → Ipv4Net → Filter → Option Action
  stored m p f = of_filters f (trie.get m p)

  abbrev pub latest_step : Ipv4Net → Filter → Entry Ipv4Net → Option Action → Option Action
  latest_step p f e rest =
      if same e.prefix p then ite (Filter-discrete e.filter f) (some e.action) rest else rest

  -- The action of the last entry for the network and the filter.
  unfoldable pub latest : Ipv4Net → Filter → List (Entry Ipv4Net) → Option Action → Option Action
  latest p f [] before = before
  latest p f (e ∷ es) before = latest p f es (latest_step p f e before)

  of_filters-insert :
      (g f : Filter) (a : Action) (o : Option (List (Filter × Action)))
      → HashMap.get Filter-discrete f (HashMap.insert Filter-discrete g a (Option.get_or o []))
        ≡ ite (Filter-discrete g f) (some a) (of_filters f o)
  unfolding HashMap.get
  of_filters-insert g f a none = get-insert Filter-discrete g f a []
  of_filters-insert g f a (some filters) = get-insert Filter-discrete g f a filters

  stored-insert_entry :
      (m : PendingRules ipnet trie) (e : Entry Ipv4Net) (p : Ipv4Net) (f : Filter)
      → stored (insert_entry ipnet trie m e.prefix e.filter e.action) p f
        ≡ latest_step p f e (stored m p f)
  unfolding stored insert_entry
  stored-insert_entry m e p f = elim (Bool-cases (same e.prefix p)) [
    | inl h ↦
        rw (trie.get-update, h, ← trie.get-same m e.prefix p h)
          (of_filters-insert e.filter f e.action (trie.get m e.prefix))
    | inr h ↦ rw (trie.get-update, h) refl
  ]

  stored-insert_entries :
      (m : PendingRules ipnet trie) (es : List (Entry Ipv4Net)) (p : Ipv4Net) (f : Filter)
      → stored (insert_entries ipnet trie m es) p f ≡ latest p f es (stored m p f)
  unfolding insert_entries latest
  stored-insert_entries m [] p f = refl
  stored-insert_entries m (e ∷ es) p f =
      stored-insert_entries (insert_entry ipnet trie m e.prefix e.filter e.action) es p f
      ∙ ap (latest p f es) (stored-insert_entry m e p f)

  -- Where something is stored, an entry of the list put it there.
  latest-In :
      (p : Ipv4Net) (f : Filter) (es : List (Entry Ipv4Net)) (before : Option Action) (a : Action)
      → latest p f es before ≡ some a
      → (before ≡ some a)
        ⊎ ((e : Entry Ipv4Net) × In e es
            × (same e.prefix p ≡ true)
            × (e.filter ≡ f)
            × (e.action ≡ a))
  unfolding latest
  latest-In p f [] before a h = inl h
  latest-In p f (e ∷ es) before a h = elim (latest-In p f es (latest_step p f e before) a h) [
    | inr (x, i, s, g, b) ↦ inr (x, inr i, s, g, b)
    | inl k ↦ elim (Bool-cases (same e.prefix p)) [
      | inr s ↦ inl (rw s at k)
      | inl s ↦ elim (Filter-discrete e.filter f) [
        | yes g ↦ inr (e, inl refl, s, g, ground arith)
        | no g ↦ inl (ground arith)
      ]
    ]
  ]

  -- What is stored is not lost, and what blocks stays blocked by what blocks.
  latest-kept :
      (p : Ipv4Net) (f : Filter) (es : List (Entry Ipv4Net)) (b : Action)
      → BlocksLast es
      → ((x : Entry Ipv4Net) → In x es → b ≡ Action.block → x.action ≡ Action.block)
      → (a : Action) × (latest p f es (some b) ≡ some a) × (b ≡ Action.block → a ≡ Action.block)
  unfolding latest
  latest-kept p f [] b last later = (b, refl, λ h. h)
  latest-kept p f (e ∷ es) b last later = elim (Bool-cases (same e.prefix p)) [
    | inr s ↦ rw s (latest-kept p f es b last.1 (λ x i. later x (inr i)))
    | inl s ↦ elim (Filter-discrete e.filter f) [
      | no g ↦ rw (s, if_neg _ g) (latest-kept p f es b last.1 (λ x i. later x (inr i)))
      | yes g ↦
          let (a, found, blocks) = latest-kept p f es e.action last.1 (λ x i h. last.0 h x i) in
          (a, rw (s, if_pos _ g) found, λ h. blocks (later e (inl refl) h))
    ]
  ]

  latest-present :
      (p : Ipv4Net) (es : List (Entry Ipv4Net)) (before : Option Action) (e : Entry Ipv4Net)
      → BlocksLast es
      → In e es
      → same e.prefix p ≡ true
      → (a : Action) × (latest p e.filter es before ≡ some a)
        × (e.action ≡ Action.block → a ≡ Action.block)
  unfolding latest
  latest-present p [] before e last i s = absurd i
  latest-present p (x ∷ es) before e last (inr i) s =
      latest-present p es (latest_step p e.filter x before) e last.1 i s
  latest-present p (x ∷ es) before e last (inl q) s =
      let (a, found, blocks) =
        latest-kept p e.filter es e.action last.1
          (λ y i h. last.0 (ap (λ w. w.action) (sym q) ∙ h) y i) in
      let here : latest_step p e.filter x before ≡ some e.action =
        rw (← q) (rw s (if_pos (Filter-discrete e.filter e.filter) refl (some e.action) before)) in
      (a, ap (latest p e.filter es) here ∙ found, blocks)

  -- Every filter stands once under a network.
  abbrev pub Unique : PendingRules ipnet trie → Type 0
  Unique m =
      (p : Ipv4Net) (filters : List (Filter × Action))
      → trie.get m p ≡ some filters
      → Distinct Filter-discrete filters

  insert_entry-Unique :
      (m : PendingRules ipnet trie) (e : Entry Ipv4Net)
      → Unique m
      → Unique (insert_entry ipnet trie m e.prefix e.filter e.action)
  unfolding insert_entry
  insert_entry-Unique m e u p filters h = elim (Bool-cases (same e.prefix p)) [
    | inr s ↦ u p filters (rw (trie.get-update, s) at h)
    | inl s ↦
        subst (Distinct Filter-discrete) (unwrapped _ filters (rw (trie.get-update, s) at h)) (
          insert-Distinct Filter-discrete e.filter e.action _
            (changed (trie.get m e.prefix) (u e.prefix)))
  ]
    where
      unwrapped :
          (x y : List (Filter × Action))
          → ◌≡◌ {A = Option (List (Filter × Action))} (some x) (some y)
          → x ≡ y
      unwrapped x y k = cc

      changed :
          (o : Option (List (Filter × Action)))
          → ((l : List (Filter × Action)) → o ≡ some l → Distinct Filter-discrete l)
          → Distinct Filter-discrete (Option.get_or o [])
      changed none k = tt
      changed (some l) k = k l refl

  insert_entries-Unique :
      (m : PendingRules ipnet trie) (es : List (Entry Ipv4Net))
      → Unique m
      → Unique (insert_entries ipnet trie m es)
  unfolding insert_entries
  insert_entries-Unique m [] u = u
  insert_entries-Unique m (e ∷ es) u =
      insert_entries-Unique (insert_entry ipnet trie m e.prefix e.filter e.action) es
        (insert_entry-Unique m e u)

  -- The entries inserted into no rules.
  abbrev pub built : List (Entry Ipv4Net) → PendingRules ipnet trie
  built es = insert_entries ipnet trie (trie.new (List (Filter × Action))) es

  pub built-Unique : (es : List (Entry Ipv4Net)) → Unique (built es)
  built-Unique es =
      insert_entries-Unique _ es
        (λ p filters h. absurd (cc (trie.get-new (List (Filter × Action)) p, h)))

  stored-built :
      (es : List (Entry Ipv4Net)) (p : Ipv4Net) (f : Filter)
      → stored (built es) p f ≡ latest p f es none
  unfolding stored
  stored-built es p f =
      stored-insert_entries _ es p f
      ∙ ap (λ o. latest p f es (of_filters f o)) (trie.get-new (List (Filter × Action)) p)

  -- What a pending map says of a network and a filter, an entry of the policy says.
  pub stored-In :
      (es : List (Entry Ipv4Net)) (p : Ipv4Net) (f : Filter) (a : Action)
      → stored (built es) p f ≡ some a
      → (e : Entry Ipv4Net) × In e es × (same e.prefix p ≡ true) × (e.filter ≡ f) × (e.action ≡ a)
  stored-In es p f a h = elim (latest-In p f es none a (sym (stored-built es p f) ∙ h)) [
    | inl k ↦ cc
    | inr k ↦ k
  ]

  -- Each entry of the policy is there, unless one that blocks has replaced it.
  pub stored_present :
      (es : List (Entry Ipv4Net)) (e : Entry Ipv4Net)
      → BlocksLast es
      → In e es
      → (a : Action) × (stored (built es) e.prefix e.filter ≡ some a)
        × (e.action ≡ Action.block → a ≡ Action.block)
  stored_present es e last i =
      let (a, found, blocks) = latest-present e.prefix es none e last i (trie.same-refl e.prefix) in
      (a, stored-built es e.prefix e.filter ∙ found, blocks)

  -- What a map of filters holds under a filter stands in it, and the other way round.
  pub filters_of_stored :
      (m : PendingRules ipnet trie) (p : Ipv4Net) (f : Filter) (a : Action)
      → stored m p f ≡ some a
      → (filters : List (Filter × Action)) × (trie.get m p ≡ some filters) × In (f, a) filters
  unfolding stored
  filters_of_stored m p f a h = elim (Option-cases (trie.get m p)) [
    | inl e ↦ absurd (ground arith)
    | inr (filters, e) ↦ (filters, e, In-get filters (rw e at h))
  ]
    where
      In-get : (l : List (Filter × Action)) → HashMap.get Filter-discrete f l ≡ some a → In (f, a) l
      In-get l k = HashMap.In-get Filter-discrete f a l k

  pub stored_of_filters :
      (m : PendingRules ipnet trie) (p : Ipv4Net) (f : Filter) (a : Action)
      (filters : List (Filter × Action))
      → Distinct Filter-discrete filters
      → trie.get m p ≡ some filters
      → In (f, a) filters
      → stored m p f ≡ some a
  unfolding stored
  stored_of_filters m p f a filters d e i = rw e (HashMap.get_of_In Filter-discrete f a filters d i)
