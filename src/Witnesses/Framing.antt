-- ===== src/Witnesses/Framing.antt =====
-- lib/control_transport.rs: a codec that looks for the newline from the start, and a frame in pieces.
use softnet.Prelude.{ℕ, ◌≡◌, refl, ap, Option, none, some, List, [], ◌∷◌, ◌++◌, ◌==◌, if◌then◌else◌}
use softnet.Transport.{newline, Unbroken, LinesCodec, Receive, next}
use softnet.Transport.Framing.{Delivers}
use softnet.Transport.Delivery.{next-Delivers, next-buffered}

abbrev pushed : ℕ → Option (List ℕ) × List ℕ → Option (List ℕ) × List ℕ
pushed c (none, rest) = (none, c ∷ rest)
pushed c (some line, rest) = (some (c ∷ line), rest)

-- The line in front of the newline, and what is behind it.
abbrev split_line : List ℕ → Option (List ℕ) × List ℕ
split_line [] = (none, [])
split_line (c ∷ cs) =
    let rest = split_line cs in if c == newline then (some [], cs) else pushed c rest

split_line-Unbroken : (xs : List ℕ) → Unbroken xs → split_line xs ≡ (none, xs)
split_line-Unbroken [] u = refl
split_line-Unbroken (c ∷ cs) u = rw (u.0, split_line-Unbroken cs u.1) refl

split_line-newline :
    (xs rest : List ℕ) → Unbroken xs → split_line (xs ++ (newline ∷ rest)) ≡ (some xs, rest)
split_line-newline [] rest u = refl
split_line-newline (c ∷ cs) rest u = rw (u.0, split_line-newline cs rest u.1) refl

abbrev as_line : Option (List ℕ) → Option (Option (List ℕ))
as_line none = none
as_line (some line) = some (some line)

abbrev lines_codec : LinesCodec
lines_codec = record {
  State = Unit;
  new = tt;
  decode = λ s xs. (as_line (split_line xs).0, tt, (split_line xs).1);
  text = some;
  Ready = λ s xs. Unit;
  new-Ready = λ xs. tt;
  decode-none = λ s xs r u. ap (λ w. as_line w.0) (split_line-Unbroken xs u);
  decode-rest = λ s xs r u. ap (λ w. w.1) (split_line-Unbroken xs u);
  decode-Ready = λ s xs ys r u. tt;
  decode-line = λ s xs rest r u. ap (λ w. as_line w.0) (split_line-newline xs rest u);
  decode-line-rest = λ s xs rest r u. ap (λ w. w.1) (split_line-newline xs rest u);
}

-- "hi" in two pieces, the first of them with the descriptor 7, and "!" behind the newline.
next-Delivers_example :
    Delivers lines_codec
      (next lines_codec (record {
        socket =
            Receive.received (b'h' ∷ []) (7 ∷ [])
            ∷ (Receive.received (b'i' ∷ newline ∷ b'!' ∷ []) [] ∷ []);
        buffered = [];
      }))
      (some (b'h' ∷ b'i' ∷ [], 7 ∷ []))
      []
      (b'!' ∷ [])
next-Delivers_example =
    next-Delivers lines_codec [] ((b'h' ∷ [], 7 ∷ []) ∷ []) (b'i' ∷ []) (b'!' ∷ []) [] [] tt
      (λ e. cc, (refl, tt), tt) (refl, tt)

next-buffered_example :
    Delivers lines_codec
      (next lines_codec (record { socket = []; buffered = b'h' ∷ newline ∷ b'!' ∷ [] }))
      (some (b'h' ∷ [], []))
      []
      (b'!' ∷ [])
next-buffered_example = next-buffered lines_codec (b'h' ∷ []) (b'!' ∷ []) [] (refl, tt)
