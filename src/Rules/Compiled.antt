-- ===== src/Rules/Compiled.antt =====
-- lib/proxy/rules.rs: the first match of a sorted list and the maximum of `select`.
use softnet.Prelude.{
  ℕ, ◌≡◌, refl, ◌⊎◌, inl, inr, subst, true, false, Option, some, List, [], ◌∷◌, arith, In,
  Bool-cases,
}
use softnet.Rule.{Filter, Protocol}
use softnet.Rules.{
  Action, Priority, FilterRules, priority_leb, filter_matches, find_filter, max_from,
  max_by_priority,
}
use softnet.Rules.Order.{Bounds, IsSorted, Bounds-In, priority_trans, priority_refl, not_leb}

abbrev pub Matches : Filter × Action → Option Protocol → Option ℕ → Type 0
Matches e protocol port = filter_matches e.0 e.1 protocol port ≡ true

-- What `find` returns stands in the list and matches.
pub find-In :
    (filters : FilterRules) (protocol : Option Protocol) (port : Option ℕ) (e : Filter × Action)
    → find_filter filters protocol port ≡ some e
    → In e filters × Matches e protocol port
unfolding find_filter
find-In [] protocol port e h = cc
find-In ((f, a) ∷ filters) protocol port e h =
    elim (Bool-cases (filter_matches f a protocol port)) [
      | inl m ↦ (inl (ground arith), ground arith)
      | inr m ↦ let (i, n) = find-In filters protocol port e (rw m at h) in (inr i, n)
    ]

-- In a sorted list, whatever matches is at most as high as what `find` returns.
pub find-best :
    (key : Filter × Action → Priority) (filters : FilterRules) (protocol : Option Protocol)
    (port : Option ℕ) (x : Filter × Action)
    → IsSorted key filters
    → In x filters
    → Matches x protocol port
    → (e : Filter × Action) × (find_filter filters protocol port ≡ some e)
      × (priority_leb (key x) (key e) ≡ true)
unfolding find_filter
find-best key [] protocol port x s i m = absurd i
find-best key ((f, a) ∷ filters) protocol port x s i m =
    elim (Bool-cases (filter_matches f a protocol port)) [
      | inl y ↦ (
        (f, a),
        rw y refl,
        elim i [
          | inl e ↦ rw e (priority_refl (key (f, a)))
          | inr j ↦ Bounds-In key (key (f, a)) x filters s.0 j
        ],
      )
      | inr y ↦ elim i [
        | inl e ↦ absurd (ground arith)
        | inr j ↦ rw y (find-best key filters protocol port x s.1 j m)
      ]
    ]

-- `m` is the accumulator or in the list, and nothing of either is higher.
abbrev Best : Priority × Action → Priority × Action → List (Priority × Action) → Type 0
Best m best xs =
    ((m ≡ best) ⊎ In m xs) × (priority_leb best.0 m.0 ≡ true) × Bounds (λ y. y.0) m.0 xs

Best-raised :
    (m best x : Priority × Action) (xs : List (Priority × Action))
    → priority_leb best.0 x.0 ≡ true
    → Best m x xs
    → Best m best (x ∷ xs)
Best-raised m best x xs h (place, above, rest) = (
  elim place [ inl e ↦ inr (inl e) | inr i ↦ inr (inr i) ],
  priority_trans best.0 x.0 m.0 h above,
  (above, rest),
)

Best-kept :
    (m best x : Priority × Action) (xs : List (Priority × Action))
    → priority_leb best.0 x.0 ≡ false
    → Best m best xs
    → Best m best (x ∷ xs)
Best-kept m best x xs h (place, above, rest) = (
  elim place [ inl e ↦ inl e | inr i ↦ inr (inr i) ],
  above,
  (priority_trans x.0 best.0 m.0 (not_leb best.0 x.0 h) above, rest),
)

max_from-Best :
    (best : Priority × Action) (xs : List (Priority × Action)) → Best (max_from best xs) best xs
unfolding max_from
max_from-Best best [] = (inl refl, priority_refl best.0, tt)
max_from-Best best (x ∷ xs) = elim (Bool-cases (priority_leb best.0 x.0)) [
  | inl h ↦
      subst (λ m. Best m best (x ∷ xs)) (rw h refl)
        (Best-raised (max_from x xs) best x xs h (max_from-Best x xs))
  | inr h ↦
      subst (λ m. Best m best (x ∷ xs)) (rw h refl)
        (Best-kept (max_from best xs) best x xs h (max_from-Best best xs))
]

-- The maximum stands in the list, and nothing in the list is higher.
pub max-best :
    (xs : List (Priority × Action)) (m x : Priority × Action)
    → max_by_priority xs ≡ some m
    → In x xs
    → In m xs × (priority_leb x.0 m.0 ≡ true)
unfolding max_by_priority
max-best [] m x h i = absurd i
max-best (y ∷ xs) m x h i =
    let same : max_from y xs ≡ m = ground arith in
    let (place, above, rest) = subst (λ w. Best w y xs) same (max_from-Best y xs) in
    (place, elim i [ inl e ↦ rw e above | inr j ↦ Bounds-In (λ w. w.0) m.0 x xs rest j ])

pub max-In :
    (xs : List (Priority × Action)) (m : Priority × Action) → max_by_priority xs ≡ some m → In m xs
unfolding max_by_priority
max-In [] m h = cc
max-In (y ∷ xs) m h = (max-best (y ∷ xs) m y h (inl refl)).0

pub max-total :
    (xs : List (Priority × Action)) (x : Priority × Action)
    → In x xs
    → (m : Priority × Action) × (max_by_priority xs ≡ some m)
unfolding max_by_priority
max-total [] x i = absurd i
max-total (y ∷ xs) x i = (max_from y xs, refl)
