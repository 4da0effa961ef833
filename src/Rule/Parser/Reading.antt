-- ===== src/Rule/Parser/Reading.antt =====
-- lib/proxy/rule.pest: each part of a rule is taken off the front of its text.
use softnet.Prelude.{
  and_then, ℕ, ◌≡◌, ◌≢◌, refl, ap, sym, ◌∙◌, Bool, true, false, Option, none, some, List, [], ◌∷◌,
  ◌++◌, arith, ◌==◌, All, Bool-cases, inl, inr,
}
use mathlib.Core.List.{append-nil}
use softnet.Rule.{Protocol, PortRange}
use softnet.Rule.Text.{decimal, is_digit, range_text, protocol_text, port_part}
use softnet.Rule.Text.RoundTrip.{Digits, decimal-Digits, decimal-ne-nil}
use softnet.Rule.Grammar.{
  skip_spaces, spaces, take_while, take_some, non_empty, range_end, take_destination_port,
  take_port, Field, optional,
}

-- The input does not go on with a byte of the test.
abbrev pub Stops : (ℕ → Bool) → List ℕ → Type 0
Stops p [] = Unit
Stops p (c ∷ cs) = p c ≡ false

take_while-append :
    (p : ℕ → Bool) (xs rest : List ℕ)
    → All (λ c. p c ≡ true) xs
    → Stops p rest
    → take_while p (xs ++ rest) ≡ (xs, rest)
unfolding take_while
take_while-append p [] [] a s = refl
take_while-append p [] (c ∷ cs) a s = rw s refl
take_while-append p (x ∷ xs) rest a s = rw (a.0, take_while-append p xs rest a.1 s) refl

pub take_some-append :
    (p : ℕ → Bool) (xs rest : List ℕ)
    → xs ≢ []
    → All (λ c. p c ≡ true) xs
    → Stops p rest
    → take_some p (xs ++ rest) ≡ some (xs, rest)
unfolding take_some
take_some-append p [] rest n a s = absurd (n refl)
take_some-append p (x ∷ xs) rest n a s = ap non_empty (take_while-append p (x ∷ xs) rest a s)

Digits-All : (xs : List ℕ) → Digits xs → All (λ c. is_digit c ≡ true) xs
Digits-All [] d = tt
Digits-All (c ∷ cs) d = (d.0, Digits-All cs d.1)

take_range :
    (xs ys : List ℕ)
    → xs ≢ []
    → ys ≢ []
    → Digits xs
    → Digits ys
    → take_destination_port (xs ++ (58 ∷ ys)) ≡ some (xs ++ (58 ∷ ys), [])
unfolding take_destination_port range_end is_digit
take_range xs ys n m d e =
    let first = take_some-append is_digit xs (58 ∷ ys) n (Digits-All xs d) refl in
    let second : take_some is_digit ys ≡ some (ys, []) =
      ap (take_some is_digit) (sym (append-nil ys))
      ∙ take_some-append is_digit ys [] m (Digits-All ys e) tt in
    rw (first, second) refl

take_bound : (xs : List ℕ) → xs ≢ [] → Digits xs → take_destination_port xs ≡ some (xs, [])
unfolding take_destination_port range_end
take_bound xs n d =
    let first : take_some is_digit xs ≡ some (xs, []) =
      ap (take_some is_digit) (sym (append-nil xs))
      ∙ take_some-append is_digit xs [] n (Digits-All xs d) tt in
    rw first refl

pub take_destination_port-range_text :
    (r : PortRange) → take_destination_port (range_text r) ≡ some (range_text r, [])
unfolding range_text
take_destination_port-range_text r = elim (Bool-cases (r.start == r.end)) [
  | inl e ↦
      rw e (take_bound (decimal 5 r.start) (decimal-ne-nil 4 r.start) (decimal-Digits 5 r.start))
  | inr e ↦ rw e (
      take_range (decimal 5 r.start) (decimal 5 r.end) (decimal-ne-nil 4 r.start)
        (decimal-ne-nil 4 r.end) (decimal-Digits 5 r.start) (decimal-Digits 5 r.end))
]

digit_front :
    (xs : List ℕ) → xs ≢ [] → Digits xs → (ys : List ℕ) → skip_spaces (xs ++ ys) ≡ xs ++ ys
unfolding skip_spaces is_digit
digit_front [] n d ys = absurd (n refl)
digit_front (c ∷ cs) n d ys = let other : (c == b' ') ≡ false = ground (arith, d.0) in rw other refl

skip_spaces-range_text : (r : PortRange) → skip_spaces (range_text r) ≡ range_text r
unfolding range_text
skip_spaces-range_text r = elim (Bool-cases (r.start == r.end)) [
  | inl e ↦ rw e (
      ap skip_spaces (sym (append-nil (decimal 5 r.start)))
      ∙ digit_front (decimal 5 r.start) (decimal-ne-nil 4 r.start) (decimal-Digits 5 r.start) []
      ∙ append-nil (decimal 5 r.start))
  | inr e ↦ rw e (
      digit_front (decimal 5 r.start) (decimal-ne-nil 4 r.start) (decimal-Digits 5 r.start)
        (58 ∷ decimal 5 r.end))
]

-- The port of a rule, at its end.
abbrev pub ports_of : Option PortRange → List Field
ports_of none = []
ports_of (some r) = Field.destination_port (range_text r) ∷ []

spaces_front : (cs : List ℕ) → spaces (b' ' ∷ cs) ≡ some (skip_spaces cs)
unfolding spaces
spaces_front cs = refl

take_port-range_text :
    (r : PortRange)
    → take_port (b'p' ∷ b'o' ∷ b'r' ∷ b't' ∷ b' ' ∷ range_text r) ≡ some (range_text r, [])
unfolding take_port
take_port-range_text r =
    ap (λ o. and_then o take_destination_port) (spaces_front (range_text r))
    ∙ ap take_destination_port (skip_spaces-range_text r)
    ∙ take_destination_port-range_text r

pub optional-some :
    (part : List ℕ → Option (List ℕ × List ℕ)) (field : List ℕ → Field) (cs text rest : List ℕ)
    → part (skip_spaces cs) ≡ some (text, rest)
    → optional part field (b' ' ∷ cs) ≡ (field text ∷ [], rest)
unfolding optional
optional-some part field cs text rest h = rw h refl

pub optional-none :
    (part : List ℕ → Option (List ℕ × List ℕ)) (field : List ℕ → Field) (cs : List ℕ)
    → part (skip_spaces cs) ≡ none
    → optional part field (b' ' ∷ cs) ≡ ([], b' ' ∷ cs)
unfolding optional
optional-none part field cs h = rw h refl

pub optional-port :
    (o : Option PortRange)
    → optional take_port Field.destination_port (port_part o) ≡ (ports_of o, [])
unfolding optional skip_spaces
optional-port none = refl
optional-port (some r) =
    optional-some take_port Field.destination_port (b'p' ∷ b'o' ∷ b'r' ∷ b't' ∷ b' ' ∷ range_text r)
      (range_text r) [] (take_port-range_text r)

abbrev pub protocols_of : Option Protocol → List Field
protocols_of none = []
protocols_of (some p) = Field.protocol_name (protocol_text p) ∷ []
