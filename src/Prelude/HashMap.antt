-- ===== src/Prelude/HashMap.antt =====
-- `std::collections::HashMap` as an association list: what iterates over it does so in an
-- unspecified order in the source, and nothing here depends on that order.
use Prim.Native.Nat.{suc, ◌≤◌}
use mathlib.Core.Path.{◌≡◌, refl}
use mathlib.Core.Bool.{Bool, true, false}
use mathlib.Core.Logic.{ite, if_pos, if_neg, ◌≢◌, inl, inr}
use mathlib.Core.List.{List, [], ◌∷◌}
use mathlib.Core.Option.{Option, none, some}
use native.Mathlib.Omega.{arith}
use softnet.Prelude.Lists.{length, In}
use softnet.Prelude.Tests.{if◌then◌else◌}

module _ {ℓ} {K V : Type ℓ} where
  -- `HashMap::retain`
  unfoldable pub retain : (K → V → Bool) → List (K × V) → List (K × V)
  retain p [] = []
  retain p ((k, v) ∷ m) = if p k v then (k, v) ∷ retain p m else retain p m

  pub length-retain-le : (p : K → V → Bool) (m : List (K × V)) → length (retain p m) ≤ length m
  unfolding retain
  length-retain-le p [] = omega arith
  length-retain-le p ((k, v) ∷ m) = ground (arith, length-retain-le p m)

module _ {ℓ} {K V : Type ℓ} (dec : Discrete K) where
  -- `HashMap::get`
  unfoldable pub get : K → List (K × V) → Option V
  get k [] = none
  get k ((j, v) ∷ m) = ite (dec j k) (some v) (get k m)

  -- `HashMap::insert`
  unfoldable pub insert : K → V → List (K × V) → List (K × V)
  insert k v [] = (k, v) ∷ []
  insert k v ((j, w) ∷ m) = ite (dec j k) ((k, v) ∷ m) ((j, w) ∷ insert k v m)

  -- `HashMap::contains_key`
  unfoldable pub contains_key : K → List (K × V) → Bool
  contains_key k m = elim (get k m) [ none ↦ false | some _ ↦ true ]

  -- No key stands twice.
  abbrev pub Distinct : List (K × V) → Type ℓ
  Distinct [] = Unit
  Distinct ((k, v) ∷ m) = (get k m ≡ none) × Distinct m

  pub get-insert_self : (k : K) (v : V) (m : List (K × V)) → get k (insert k v m) ≡ some v
  unfolding get insert
  get-insert_self k v [] = if_pos (dec k k) refl _ _
  get-insert_self k v ((j, w) ∷ m) = ground (arith, get-insert_self k v m)

  pub get-insert_ne :
      (k j : K) (v : V) (m : List (K × V)) → ¬ (k ≡ j) → get j (insert k v m) ≡ get j m
  unfolding get insert
  get-insert_ne k j v [] h = if_neg (dec k j) h _ _
  get-insert_ne k j v ((i, w) ∷ m) h = ground (arith, get-insert_ne k j v m h)

  pub get-insert :
      (k j : K) (v : V) (m : List (K × V)) → get j (insert k v m) ≡ ite (dec k j) (some v) (get j m)
  get-insert k j v m = ground (arith, get-insert_self k v m, get-insert_ne k j v m)

  pub insert-Distinct : (k : K) (v : V) (m : List (K × V)) → Distinct m → Distinct (insert k v m)
  unfolding get insert
  insert-Distinct k v [] d = (refl, tt)
  insert-Distinct k v ((j, w) ∷ m) d =
      ground (arith, insert-Distinct k v m d.1, get-insert_ne k j v m)

  pub length-insert_new :
      (k : K) (v : V) (m : List (K × V)) → get k m ≡ none → length (insert k v m) ≡ suc (length m)
  unfolding get insert
  length-insert_new k v [] h = refl
  length-insert_new k v ((j, w) ∷ m) h = ground (arith, length-insert_new k v m)

  pub length-insert_old :
      (k : K) (v w : V) (m : List (K × V)) → get k m ≡ some w → length (insert k v m) ≡ length m
  unfolding get insert
  length-insert_old k v w [] h = cc
  length-insert_old k v w ((j, u) ∷ m) h = ground (arith, length-insert_old k v w m)

  pub get-retain-none :
      (p : K → V → Bool) (k : K) (m : List (K × V)) → get k m ≡ none → get k (retain p m) ≡ none
  unfolding get retain
  get-retain-none p k [] h = refl
  get-retain-none p k ((j, v) ∷ m) h = ground (arith, get-retain-none p k m)

  pub retain-Distinct : (p : K → V → Bool) (m : List (K × V)) → Distinct m → Distinct (retain p m)
  unfolding get retain
  retain-Distinct p [] d = tt
  retain-Distinct p ((j, v) ∷ m) d = ground (arith, retain-Distinct p m d.1, get-retain-none p j m)

  -- What is left under a key is what was there, if it passes the test.
  abbrev pub kept : (K → V → Bool) → K → Option V → Option V
  kept p k none = none
  kept p k (some v) = if p k v then some v else none

  pub get-retain :
      (p : K → V → Bool) (k : K) (m : List (K × V))
      → Distinct m
      → get k (retain p m) ≡ kept p k (get k m)
  unfolding get retain
  get-retain p k [] d = refl
  get-retain p k ((j, v) ∷ m) d = ground (arith, get-retain p k m d.1, get-retain-none p k m)

module _ {K V : Type 0} (dec : Discrete K) where
  pub In-get : (k : K) (v : V) (m : List (K × V)) → get dec k m ≡ some v → In (k, v) m
  unfolding get
  In-get k v [] h = cc
  In-get k v ((j, w) ∷ m) h = elim (dec j k) [
    | yes e ↦ inl (ground arith)
    | no n ↦ inr (In-get k v m (ground arith))
  ]

  get_ne_none : (k : K) (v : V) (m : List (K × V)) → In (k, v) m → get dec k m ≢ none
  unfolding get
  get_ne_none k v [] i = absurd i
  get_ne_none k v ((j, w) ∷ m) (inl e) = ground arith
  get_ne_none k v ((j, w) ∷ m) (inr i) = ground (arith, get_ne_none k v m i)

  pub get_of_In :
      (k : K) (v : V) (m : List (K × V)) → Distinct dec m → In (k, v) m → get dec k m ≡ some v
  unfolding get
  get_of_In k v [] d i = absurd i
  get_of_In k v ((j, w) ∷ m) d (inl e) = ground arith
  get_of_In k v ((j, w) ∷ m) d (inr i) = ground (arith, get_of_In k v m d.1 i, get_ne_none k v m i)
