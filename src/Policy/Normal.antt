-- ===== src/Policy/Normal.antt =====
-- lib/proxy/mod.rs: what `normalize_rules` keeps, and that its result is a fixed point.
use softnet.Prelude.{
  ℕ, ◌≡◌, refl, sym, ap, ◌∙◌, ◌↔◌, ◌⊎◌, inl, inr, true, false, List, [], ◌∷◌, map, arith, In,
  Bool-cases, subst, if_pos, if_neg,
}
use softnet.Ipnet.{Ipnet}
use softnet.Rule.{Rule, Rule-discrete, Target, normalized, normalized_target}
use softnet.Rule.Text.{rule_text}
use softnet.Policy.{text_leb, insert_by_key, sort_by_key, dedup_after, dedup, normalize_rules}

text_leb_total : (a b : List ℕ) → text_leb a b ≡ false → text_leb b a ≡ true
unfolding text_leb
text_leb_total [] b h = cc
text_leb_total (x ∷ xs) [] h = refl
text_leb_total (x ∷ xs) (y ∷ ys) h = ground (arith, text_leb_total xs ys)

module _ {A : Type 0} (key : A → List ℕ) where
  -- Each element's key is at most that of the next.
  abbrev pub Below : A → List A → Type 0
  Below x [] = Unit
  Below x (y ∷ ys) = text_leb (key x) (key y) ≡ true

  abbrev pub Ascending : List A → Type 0
  Ascending [] = Unit
  Ascending (x ∷ xs) = Below x xs × Ascending xs

  Below-insert :
      (x y : A) (ys : List A)
      → text_leb (key y) (key x) ≡ true
      → Below y ys
      → Below y (insert_by_key key x ys)
  unfolding insert_by_key
  Below-insert x y [] h k = h
  Below-insert x y (z ∷ zs) h k = elim (Bool-cases (text_leb (key x) (key z))) [
    | inl e ↦ rw (e, insert_by_key) h
    | inr e ↦ rw (e, insert_by_key) k
  ]

  insert-Ascending : (x : A) (xs : List A) → Ascending xs → Ascending (insert_by_key key x xs)
  unfolding insert_by_key
  insert-Ascending x [] s = (tt, tt)
  insert-Ascending x (y ∷ ys) s = elim (Bool-cases (text_leb (key x) (key y))) [
    | inl e ↦ rw (e, insert_by_key) (e, s)
    | inr e ↦
        rw (e, insert_by_key)
          (Below-insert x y ys (text_leb_total (key x) (key y) e) s.0, insert-Ascending x ys s.1)
  ]

  sort-Ascending : (xs : List A) → Ascending (sort_by_key key xs)
  unfolding sort_by_key
  sort-Ascending [] = tt
  sort-Ascending (x ∷ xs) = insert-Ascending x (sort_by_key key xs) (sort-Ascending xs)

  sort_Ascending : (xs : List A) → Ascending xs → sort_by_key key xs ≡ xs
  unfolding sort_by_key insert_by_key
  sort_Ascending [] s = refl
  sort_Ascending (x ∷ xs) s = ap (insert_by_key key x) (sort_Ascending xs s.1) ∙ front x xs s.0
    where
      front : (y : A) (ys : List A) → Below y ys → insert_by_key key y ys ≡ y ∷ ys
      front y [] h = refl
      front y (z ∷ zs) h = simp (h, insert_by_key)

  In-insert : (x y : A) (ys : List A) → In x (insert_by_key key y ys) ↔ ((x ≡ y) ⊎ In x ys)
  unfolding insert_by_key
  In-insert x y [] = (λ i. i, λ i. i)
  In-insert x y (z ∷ zs) = elim (Bool-cases (text_leb (key y) (key z))) [
    | inl e ↦ rw (e, insert_by_key) (λ i. i, λ i. i)
    | inr e ↦
        let r = In-insert x y zs in
        rw (e, insert_by_key)
          (
            λ i. elim i [
              | inl h ↦ inr (inl h)
              | inr j ↦ elim (r.0 j) [ inl h ↦ inl h | inr h ↦ inr (inr h) ]
            ],
            λ i. elim i [
              | inl h ↦ inr (r.1 (inl h))
              | inr (inl h) ↦ inl h
              | inr (inr h) ↦ inr (r.1 (inr h))
            ],
          )
  ]

  In-sort : (x : A) (xs : List A) → In x (sort_by_key key xs) ↔ In x xs
  unfolding sort_by_key
  In-sort x [] = (λ i. i, λ i. i)
  In-sort x (y ∷ ys) =
      let r = In-insert x y (sort_by_key key ys) in
      let s = In-sort x ys in
      (
        λ i. elim (r.0 i) [ inl h ↦ inl h | inr h ↦ inr (s.0 h) ],
        λ i. r.1 (elim i [ inl h ↦ inl h | inr h ↦ inr (s.1 h) ]),
      )

  module _ (dec : Discrete A) where
    Below-dedup_after :
        (x : A) (xs : List A) → Below x xs → Ascending xs → Below x (dedup_after dec x xs)
    unfolding dedup_after
    Below-dedup_after x [] h s = tt
    Below-dedup_after x (y ∷ ys) h s = elim (dec x y) [
      | yes e ↦
          rw (if_pos (dec x y) e (dedup_after dec x ys) (y ∷ dedup_after dec y ys), dedup_after)
            (Below-dedup_after x ys (subst (λ w. Below w ys) (sym e) s.0) s.1)
      | no n ↦
          rw (if_neg (dec x y) n (dedup_after dec x ys) (y ∷ dedup_after dec y ys), dedup_after) h
    ]

    dedup_after-Ascending : (x : A) (xs : List A) → Ascending xs → Ascending (dedup_after dec x xs)
    unfolding dedup_after
    dedup_after-Ascending x [] s = tt
    dedup_after-Ascending x (y ∷ ys) s = elim (dec x y) [
      | yes e ↦
          rw (if_pos (dec x y) e (dedup_after dec x ys) (y ∷ dedup_after dec y ys), dedup_after)
            (dedup_after-Ascending x ys s.1)
      | no n ↦
          rw (if_neg (dec x y) n (dedup_after dec x ys) (y ∷ dedup_after dec y ys), dedup_after)
            (Below-dedup_after y ys s.0 s.1, dedup_after-Ascending y ys s.1)
    ]

    dedup-Ascending : (xs : List A) → Ascending xs → Ascending (dedup dec xs)
    unfolding dedup
    dedup-Ascending [] s = tt
    dedup-Ascending (x ∷ xs) s = (Below-dedup_after x xs s.0 s.1, dedup_after-Ascending x xs s.1)

module _ {A : Type 0} (dec : Discrete A) where
  dedup_after_twice :
      (x : A) (xs : List A) → dedup_after dec x (dedup_after dec x xs) ≡ dedup_after dec x xs
  unfolding dedup_after
  dedup_after_twice x [] = refl
  dedup_after_twice x (y ∷ ys) = ground (arith, dedup_after_twice x ys, dedup_after_twice y ys)

  dedup_twice : (xs : List A) → dedup dec (dedup dec xs) ≡ dedup dec xs
  unfolding dedup
  dedup_twice [] = refl
  dedup_twice (x ∷ xs) = ap (λ w. x ∷ w) (dedup_after_twice x xs)

  In-dedup_after :
      (z x : A) (xs : List A) → ((z ≡ x) ⊎ In z (dedup_after dec x xs)) ↔ ((z ≡ x) ⊎ In z xs)
  unfolding dedup_after
  In-dedup_after z x [] = (λ i. i, λ i. i)
  In-dedup_after z x (y ∷ ys) = elim (dec x y) [
    | yes e ↦
        let r = In-dedup_after z x ys in
        rw (if_pos (dec x y) e (dedup_after dec x ys) (y ∷ dedup_after dec y ys), dedup_after)
          (
            λ i. elim (r.0 i) [ inl h ↦ inl h | inr h ↦ inr (inr h) ],
            λ i.
                r.1
                  (elim i [ inl h ↦ inl h | inr (inl h) ↦ inl (h ∙ sym e) | inr (inr h) ↦ inr h ]),
          )
    | no n ↦
        let r = In-dedup_after z y ys in
        rw (if_neg (dec x y) n (dedup_after dec x ys) (y ∷ dedup_after dec y ys), dedup_after)
          (
            λ i. elim i [ inl h ↦ inl h | inr h ↦ inr (r.0 h) ],
            λ i. elim i [ inl h ↦ inl h | inr h ↦ inr (r.1 h) ],
          )
  ]

  In-dedup : (z : A) (xs : List A) → In z (dedup dec xs) ↔ In z xs
  unfolding dedup
  In-dedup z [] = (λ i. i, λ i. i)
  In-dedup z (x ∷ xs) = In-dedup_after z x xs

map_fixed : {A : Type 0} (f : A → A) (xs : List A) → ((x : A) → In x xs → f x ≡ x) → map f xs ≡ xs
map_fixed f [] h = refl
map_fixed f (x ∷ xs) h = cc (h x (inl refl), map_fixed f xs (λ y i. h y (inr i)))

In-map :
    {A : Type 0} (f : A → A) (y : A) (xs : List A)
    → In y (map f xs) ↔ ((x : A) × In x xs × (y ≡ f x))
In-map f y [] = (λ i. absurd i, λ (x, i, e). absurd i)
In-map f y (x ∷ xs) =
    let r = In-map f y xs in
    (
      λ i. elim i [ inl e ↦ (x, inl refl, e) | inr j ↦ let k = r.0 j in (k.0, inr k.1, k.2) ],
      λ (z, i, e). elim i [ inl h ↦ inl (e ∙ ap f h) | inr j ↦ inr (r.1 (z, j, e)) ],
    )

module _ (ipnet : Ipnet) where
  open ipnet use {Ipv4Net, Ipv4Net-discrete, trunc-trunc}

  target_twice :
      (t : Target Ipv4Net)
      → normalized_target ipnet (normalized_target ipnet t) ≡ normalized_target ipnet t
  unfolding normalized_target
  target_twice (Target.prefix p) = ap Target.prefix (trunc-trunc p)
  target_twice Target.host = refl
  target_twice Target.peers = refl

  normalized_twice : (r : Rule Ipv4Net) → normalized ipnet (normalized ipnet r) ≡ normalized ipnet r
  unfolding normalized
  normalized_twice (Rule.stateless target) = ap Rule.stateless (target_twice target)
  normalized_twice (Rule.stateful direction target filter) =
      ap (λ t. Rule.stateful direction t filter) (target_twice target)

  -- The normal form has exactly the normalized rules of the input, whatever their order and number.
  pub In-normalize_rules :
      (r : Rule Ipv4Net) (rules : List (Rule Ipv4Net))
      → In r (normalize_rules ipnet rules)
        ↔ ((x : Rule Ipv4Net) × In x rules × (r ≡ normalized ipnet x))
  unfolding normalize_rules
  In-normalize_rules r rules =
      let a =
        In-dedup (Rule-discrete Ipv4Net-discrete) r
          (sort_by_key (rule_text ipnet) (map (normalized ipnet) rules)) in
      let b = In-sort (rule_text ipnet) r (map (normalized ipnet) rules) in
      let c = In-map (normalized ipnet) r rules in (λ i. c.0 (b.0 (a.0 i)), λ k. a.1 (b.1 (c.1 k)))

  -- Normalizing twice is normalizing once, so a policy that was read back compares equal.
  pub normalize_rules_twice :
      (rules : List (Rule Ipv4Net))
      → normalize_rules ipnet (normalize_rules ipnet rules) ≡ normalize_rules ipnet rules
  unfolding normalize_rules
  normalize_rules_twice rules =
      let sorted = sort_by_key (rule_text ipnet) (map (normalized ipnet) rules) in
      let dec = Rule-discrete Ipv4Net-discrete in
      let fixed : map (normalized ipnet) (normalize_rules ipnet rules)
          ≡ normalize_rules ipnet rules =
        map_fixed (normalized ipnet) (normalize_rules ipnet rules) (λ x i.
          let (y, _, e) = (In-normalize_rules x rules).0 i in
          ap (normalized ipnet) e ∙ normalized_twice y ∙ sym e) in
      ap (λ w. dedup dec (sort_by_key (rule_text ipnet) w)) fixed
      ∙ ap (dedup dec) (
          sort_Ascending (rule_text ipnet) (dedup dec sorted) (
            dedup-Ascending (rule_text ipnet) dec sorted
              (sort-Ascending (rule_text ipnet) (map (normalized ipnet) rules))))
      ∙ dedup_twice dec sorted
