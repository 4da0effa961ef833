-- ===== src/Policy.antt =====
-- lib/proxy/mod.rs, `normalize_rules`: the normal form of a list of rules.
pub mod Normal
use softnet.Prelude.{ℕ, Bool, true, false, List, [], ◌∷◌, map, ltb, ◌==◌, if◌then◌else◌, ite}
use softnet.Ipnet.{Ipnet}
use softnet.Rule.{Rule, Rule-discrete, normalized}
use softnet.Rule.Text.{rule_text}

-- `a <= b` on texts, byte by byte.
unfoldable pub text_leb : List ℕ → List ℕ → Bool
text_leb [] ys = true
text_leb (a ∷ xs) [] = false
text_leb (a ∷ xs) (b ∷ ys) =
    let rest = text_leb xs ys in if ltb a b then true else (if a == b then rest else false)

-- `sort_by_key`, which is stable, on keys that are texts.
module _ {ℓ} {A : Type ℓ} (key : A → List ℕ) where
  unfoldable pub insert_by_key : A → List A → List A
  unfolding text_leb
  insert_by_key x [] = x ∷ []
  insert_by_key x (y ∷ ys) = if text_leb (key x) (key y) then x ∷ y ∷ ys else y ∷ insert_by_key x ys

  unfoldable pub sort_by_key : List A → List A
  unfolding insert_by_key
  sort_by_key [] = []
  sort_by_key (x ∷ xs) = insert_by_key x (sort_by_key xs)

-- `Vec::dedup`: an element equal to the one kept before it is removed.
module _ {ℓ} {A : Type ℓ} (dec : Discrete A) where
  unfoldable pub dedup_after : A → List A → List A
  dedup_after x [] = []
  dedup_after x (y ∷ ys) = ite (dec x y) (dedup_after x ys) (y ∷ dedup_after y ys)

  unfoldable pub dedup : List A → List A
  unfolding dedup_after
  dedup [] = []
  dedup (x ∷ xs) = x ∷ dedup_after x xs

module _ (ipnet : Ipnet) where
  open ipnet use {Ipv4Net, Ipv4Net-discrete}

  unfoldable pub normalize_rules : List (Rule Ipv4Net) → List (Rule Ipv4Net)
  unfolding normalized sort_by_key dedup rule_text
  normalize_rules rules =
      dedup (Rule-discrete Ipv4Net-discrete)
        (sort_by_key (rule_text ipnet) (map (normalized ipnet) rules))
