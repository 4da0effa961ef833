-- ===== src/Rule/Text/RoundTrip.antt =====
-- lib/proxy/rule.rs: what `Display` writes for a port range, `FromStr` reads back.
use softnet.Prelude.{
  ℕ, zero, suc, ◌+◌, ◌-◌, ◌*◌, ◌/◌, ◌%◌, ◌≤◌, ◌<◌, ◌≡◌, refl, ap, ◌∙◌, true, false, none, some,
  List, [], ◌∷◌, ◌++◌, arith, ltb, ◌==◌, Bool-cases, inl, inr,
}
use mathlib.Core.Logic.{◌≢◌}
use softnet.Rule.{PortRange, new_range}
use softnet.Rule.Text.{
  decimal, range_text, is_digit, is_port_text, split_once, parse_digits, parse_bound, parse_range,
}

abbrev power : ℕ → ℕ
power zero = 1
power (suc k) = 10 * power k

-- The bytes are digits.
abbrev pub Digits : List ℕ → Type 0
Digits [] = Unit
Digits (c ∷ cs) = (is_digit c ≡ true) × Digits cs

digit_of : (d : ℕ) → d < 10 → is_digit (48 + d) ≡ true
unfolding is_digit
digit_of d h = ground arith

Digits-append : (xs ys : List ℕ) → Digits xs → Digits ys → Digits (xs ++ ys)
Digits-append [] ys d e = e
Digits-append (c ∷ cs) ys d e = (d.0, Digits-append cs ys d.1 e)

pub decimal-Digits : (fuel n : ℕ) → Digits (decimal fuel n)
unfolding decimal
decimal-Digits zero n = tt
decimal-Digits (suc fuel) n = elim (Bool-cases (ltb n 10)) [
  | inl e ↦ rw (e, decimal) (digit_of n (ground arith), tt)
  | inr e ↦
      rw (e, decimal)
        (Digits-append (decimal fuel (n / 10)) _ (decimal-Digits fuel (n / 10))
          (digit_of (n % 10) (omega arith), tt))
]

parse_digits-append :
    (v n d : ℕ) (xs : List ℕ)
    → parse_digits v xs ≡ some n
    → d < 10
    → n * 10 + d ≤ 65535
    → parse_digits v (xs ++ ((48 + d) ∷ [])) ≡ some (n * 10 + d)
unfolding parse_digits is_digit
parse_digits-append v n d [] h small bound = ground arith
parse_digits-append v n d (c ∷ cs) h small bound =
    ground (arith, parse_digits-append (v * 10 + (c - 48)) n d cs)

one_digit : (n : ℕ) → n < 10 → parse_digits 0 ((48 + n) ∷ []) ≡ some n
unfolding parse_digits is_digit
one_digit n h = ground arith

parse_digits-decimal :
    (fuel n : ℕ) → n < power (suc fuel) → n ≤ 65535 → parse_digits 0 (decimal (suc fuel) n) ≡ some n
unfolding decimal
parse_digits-decimal zero n h bound = elim (Bool-cases (ltb n 10)) [
  | inl e ↦ rw (e, decimal) (one_digit n (ground arith))
  | inr e ↦ absurd (ground arith)
]
parse_digits-decimal (suc fuel) n h bound = elim (Bool-cases (ltb n 10)) [
  | inl e ↦ rw (e, decimal) (one_digit n (ground arith))
  | inr e ↦
      rw (e, decimal)
        (parse_digits-append 0 (n / 10) (n % 10) (decimal (suc fuel) (n / 10))
            (parse_digits-decimal fuel (n / 10) (omega arith) (omega arith)) (omega arith)
            (omega arith)
          ∙ ap some (omega arith))
]

-- The first byte of a number is a digit, so the text is not empty.
parse_bound-digits :
    (xs : List ℕ) (n : ℕ) → parse_digits 0 xs ≡ some n → xs ≢ [] → parse_bound xs ≡ some n
unfolding parse_bound
parse_bound-digits [] n h k = absurd (k refl)
parse_bound-digits (c ∷ cs) n h k = h

append-ne-nil : (xs : List ℕ) (y : ℕ) → xs ++ (y ∷ []) ≢ []
append-ne-nil [] y h = cc
append-ne-nil (x ∷ xs) y h = cc

pub decimal-ne-nil : (fuel n : ℕ) → decimal (suc fuel) n ≢ []
unfolding decimal
decimal-ne-nil fuel n = elim (Bool-cases (ltb n 10)) [
  | inl e ↦ rw (e, decimal) (λ h. cc)
  | inr e ↦ rw (e, decimal) (append-ne-nil (decimal fuel (n / 10)) (48 + n % 10))
]

parse_bound-decimal : (n : ℕ) → n ≤ 65535 → parse_bound (decimal 5 n) ≡ some n
parse_bound-decimal n h =
    parse_bound-digits (decimal 5 n) n (parse_digits-decimal 4 n (omega arith) h)
      (decimal-ne-nil 4 n)

is_port_text-Digits : (xs : List ℕ) → Digits xs → is_port_text xs ≡ true
unfolding is_port_text
is_port_text-Digits [] d = refl
is_port_text-Digits (c ∷ cs) d = rw (d.0) (is_port_text-Digits cs d.1)

is_port_text-pair : (xs ys : List ℕ) → Digits xs → Digits ys → is_port_text (xs ++ (58 ∷ ys)) ≡ true
unfolding is_port_text
is_port_text-pair [] ys d e = ground (arith, is_port_text-Digits ys e)
is_port_text-pair (c ∷ cs) ys d e = rw (d.0) (is_port_text-pair cs ys d.1 e)

no_colon : (c : ℕ) → is_digit c ≡ true → (c == 58) ≡ false
unfolding is_digit
no_colon c h = ground arith

split_once-Digits : (xs : List ℕ) → Digits xs → split_once xs ≡ (xs, none)
unfolding split_once
split_once-Digits [] d = refl
split_once-Digits (c ∷ cs) d = rw (no_colon c d.0, split_once-Digits cs d.1) refl

split_once-pair : (xs ys : List ℕ) → Digits xs → split_once (xs ++ (58 ∷ ys)) ≡ (xs, some ys)
unfolding split_once
split_once-pair [] ys d = refl
split_once-pair (c ∷ cs) ys d = rw (no_colon c d.0, split_once-pair cs ys d.1) refl

new_range-some :
    (start end : ℕ)
    → 1 ≤ start
    → start ≤ end
    → new_range start end ≡ some (record { start = start; end = end })
unfolding new_range
new_range-some start end low order = ground arith

-- A valid port range is read back from what it is written as: its bounds are ports and in order.
pub parse_range-range_text :
    (r : PortRange)
    → 1 ≤ r.start
    → r.start ≤ r.end
    → r.end ≤ 65535
    → parse_range (range_text r) ≡ some r
unfolding parse_range range_text
parse_range-range_text r low order high = elim (Bool-cases (r.start == r.end)) [
  | inl e ↦
      let same : r.start ≡ r.end = ground arith in
      let d = decimal-Digits 5 r.start in
      let b = parse_bound-decimal r.start (omega arith) in
      rw (e, is_port_text-Digits (decimal 5 r.start) d, split_once-Digits (decimal 5 r.start) d, b)
        (new_range-some r.start r.start low (omega arith)
          ∙ ap (λ w. some (record { start = r.start; end = w })) same)
  | inr e ↦
      let d = decimal-Digits 5 r.start in
      rw
        (
          e,
          is_port_text-pair (decimal 5 r.start) (decimal 5 r.end) d (decimal-Digits 5 r.end),
          split_once-pair (decimal 5 r.start) (decimal 5 r.end) d,
          parse_bound-decimal r.start (omega arith),
          parse_bound-decimal r.end high,
        )
        (new_range-some r.start r.end low order)
]
