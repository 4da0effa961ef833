-- ===== src/Rules/Order.antt =====
-- lib/proxy/rules.rs: `rule_priority` orders filters, the sort puts the highest first, and so the
-- first match is the highest one.
use softnet.Prelude.{
  ℕ, ◌≡◌, ◌⊎◌, ◌↔◌, inl, inr, Bool, true, false, List, [], ◌∷◌, arith, leb, bit, In, Bool-cases,
}
use softnet.Rules.{Priority, lex, priority_leb, insert_sorted, sort_by_priority}

lex_trans :
    (a b c : ℕ) (r s t : Bool)
    → (r ≡ true → s ≡ true → t ≡ true)
    → lex a b r ≡ true
    → lex b c s ≡ true
    → lex a c t ≡ true
lex_trans a b c r s t step h k = ground arith

-- The reversed component: the arguments stand the other way round.
lex_flip_trans :
    (a b c : ℕ) (r s t : Bool)
    → (r ≡ true → s ≡ true → t ≡ true)
    → lex b a r ≡ true
    → lex c b s ≡ true
    → lex c a t ≡ true
lex_flip_trans a b c r s t step h k = ground arith

lex_total :
    (a b : ℕ) (r s : Bool) → (r ≡ true) ⊎ (s ≡ true) → (lex a b r ≡ true) ⊎ (lex b a s ≡ true)
lex_total a b r s h = ground arith

leb_trans : (a b c : ℕ) → leb a b ≡ true → leb b c ≡ true → leb a c ≡ true
leb_trans a b c h k = ground arith

leb_total : (a b : ℕ) → (leb a b ≡ true) ⊎ (leb b a ≡ true)
leb_total a b = ground arith

pub priority_trans :
    (a b c : Priority) → priority_leb a b ≡ true → priority_leb b c ≡ true → priority_leb a c ≡ true
unfolding priority_leb
priority_trans a b c = lex_trans (bit a.has_port) (bit b.has_port) (bit c.has_port) _ _ _ (
    lex_trans a.prefix_len b.prefix_len c.prefix_len _ _ _ (
      lex_trans (bit a.has_protocol) (bit b.has_protocol) (bit c.has_protocol) _ _ _ (
        lex_flip_trans a.width b.width c.width _ _ _
          (leb_trans (bit a.blocks) (bit b.blocks) (bit c.blocks)))))

pub priority_total : (a b : Priority) → (priority_leb a b ≡ true) ⊎ (priority_leb b a ≡ true)
unfolding priority_leb
priority_total a b = lex_total (bit a.has_port) (bit b.has_port) _ _ (
    lex_total a.prefix_len b.prefix_len _ _ (
      lex_total (bit a.has_protocol) (bit b.has_protocol) _ _
        (lex_total b.width a.width _ _ (leb_total (bit a.blocks) (bit b.blocks)))))

pub priority_refl : (p : Priority) → priority_leb p p ≡ true
priority_refl p = elim (priority_total p p) [ inl h ↦ h | inr h ↦ h ]

pub not_leb : (a b : Priority) → priority_leb a b ≡ false → priority_leb b a ≡ true
not_leb a b h = elim (priority_total a b) [ inl e ↦ cc | inr e ↦ e ]

lex_antisym : (a b : ℕ) (r s : Bool) → lex a b r ≡ true → lex b a s ≡ true → (r ≡ true) × (s ≡ true)
lex_antisym a b r s h k = ground arith

-- Priorities that are at most as high as each other block or allow alike.
pub blocks_antisym :
    (a b : Priority) → priority_leb a b ≡ true → priority_leb b a ≡ true → a.blocks ≡ b.blocks
unfolding priority_leb
blocks_antisym a b h k =
    let (h1, k1) = lex_antisym (bit a.has_port) (bit b.has_port) _ _ h k in
    let (h2, k2) = lex_antisym a.prefix_len b.prefix_len _ _ h1 k1 in
    let (h3, k3) = lex_antisym (bit a.has_protocol) (bit b.has_protocol) _ _ h2 k2 in
    let (h4, k4) = lex_antisym b.width a.width _ _ h3 k3 in ground arith

-- Everything in the list is at most as high.
abbrev pub Bounds {ℓ} : {A : Type ℓ} → (A → Priority) → Priority → List A → Type 0
Bounds key bound [] = Unit {0}
Bounds key bound (x ∷ xs) = (priority_leb (key x) bound ≡ true) × Bounds key bound xs

-- From highest to lowest.
abbrev pub IsSorted {ℓ} : {A : Type ℓ} → (A → Priority) → List A → Type 0
IsSorted key [] = Unit {0}
IsSorted key (x ∷ xs) = Bounds key (key x) xs × IsSorted key xs

module _ {ℓ} {A : Type ℓ} (key : A → Priority) where
  Bounds-mono :
      (a b : Priority) (xs : List A) → priority_leb a b ≡ true → Bounds key a xs → Bounds key b xs
  Bounds-mono a b [] h k = tt
  Bounds-mono a b (x ∷ xs) h k = (priority_trans (key x) a b k.0 h, Bounds-mono a b xs h k.1)

  insert_sorted-Bounds :
      (bound : Priority) (x : A) (xs : List A)
      → priority_leb (key x) bound ≡ true
      → Bounds key bound xs
      → Bounds key bound (insert_sorted key x xs)
  unfolding insert_sorted
  insert_sorted-Bounds bound x [] h k = (h, tt)
  insert_sorted-Bounds bound x (y ∷ ys) h k = elim (Bool-cases (priority_leb (key y) (key x))) [
    | inl e ↦ rw e (h, k)
    | inr e ↦ rw e (k.0, insert_sorted-Bounds bound x ys h k.1)
  ]

  insert_sorted-IsSorted :
      (x : A) (xs : List A) → IsSorted key xs → IsSorted key (insert_sorted key x xs)
  unfolding insert_sorted
  insert_sorted-IsSorted x [] s = (tt, tt)
  insert_sorted-IsSorted x (y ∷ ys) s = elim (Bool-cases (priority_leb (key y) (key x))) [
    | inl e ↦ rw e ((e, Bounds-mono (key y) (key x) ys e s.0), s)
    | inr e ↦ rw e (
      insert_sorted-Bounds (key y) x ys (not_leb (key y) (key x) e) s.0,
      insert_sorted-IsSorted x ys s.1,
    )
  ]

  pub sort-IsSorted : (xs : List A) → IsSorted key (sort_by_priority key xs)
  unfolding sort_by_priority
  sort-IsSorted [] = tt
  sort-IsSorted (x ∷ xs) = insert_sorted-IsSorted x (sort_by_priority key xs) (sort-IsSorted xs)

module _ {A : Type 0} (key : A → Priority) where
  In-insert_sorted : (z x : A) (xs : List A) → In z (insert_sorted key x xs) ↔ ((z ≡ x) ⊎ In z xs)
  unfolding insert_sorted
  In-insert_sorted z x [] = (λ h. h, λ h. h)
  In-insert_sorted z x (y ∷ ys) = elim (Bool-cases (priority_leb (key y) (key x))) [
    | inl e ↦ rw e (λ h. h, λ h. h)
    | inr e ↦
        let ih = In-insert_sorted z x ys in
        rw e (
          elim [
            | inl h ↦ inr (inl h)
            | inr h ↦ elim (ih.0 h) [ inl a ↦ inl a | inr a ↦ inr (inr a) ]
          ],
          elim [
            | inl h ↦ inr (ih.1 (inl h))
            | inr h ↦ elim h [ inl a ↦ inl a | inr a ↦ inr (ih.1 (inr a)) ]
          ],
        )
  ]

  pub In-sort : (z : A) (xs : List A) → In z (sort_by_priority key xs) ↔ In z xs
  unfolding sort_by_priority
  In-sort z [] = (λ h. h, λ h. h)
  In-sort z (x ∷ xs) =
      let ih = In-sort z xs in
      let step = In-insert_sorted z x (sort_by_priority key xs) in
      (
        λ h. elim (step.0 h) [ inl a ↦ inl a | inr a ↦ inr (ih.0 a) ],
        λ h. elim h [ inl a ↦ step.1 (inl a) | inr a ↦ step.1 (inr (ih.1 a)) ],
      )

  pub Bounds-In :
      (bound : Priority) (z : A) (xs : List A)
      → Bounds key bound xs
      → In z xs
      → priority_leb (key z) bound ≡ true
  Bounds-In bound z (x ∷ xs) b (inl e) = rw e b.0
  Bounds-In bound z (x ∷ xs) b (inr h) = Bounds-In bound z xs b.1 h
  Bounds-In bound z [] b h = absurd h
