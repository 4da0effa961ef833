-- ===== src/Transport/Pieces.antt =====
-- lib/control_transport.rs: the loop of `next` over the pieces of a frame.
use softnet.Prelude.{
  ℕ, ◌-◌, ◌≡◌, ◌≢◌, refl, sym, subst, ◌∙◌, Bool, true, false, Option, none, some, List, [], ◌∷◌,
  ◌++◌, arith, ltb, length,
}
use softnet.Transport.{
  newline, Unbroken, LinesCodec, max_request_bytes, FrameError, Receive, insert_if, is_some,
  line_of, fds_of, descriptor_error, Reading, finish, keep_reading, extend, next_loop,
}
use softnet.Transport.Framing.{
  receives, Pieces, accepted, Delivers, next_loop-line, next_loop-step, accepted-rejected,
  keep_reading-rejected,
}

descriptor_error-kept :
    (fds input : List ℕ) (e : Option FrameError)
    → is_some e ≡ true
    → is_some (descriptor_error fds input e) ≡ true
unfolding descriptor_error
descriptor_error-kept fds input none h = absurd (ground (arith, h))
descriptor_error-kept [] input (some e) h = refl
descriptor_error-kept (fd ∷ fds) [] (some e) h = refl
descriptor_error-kept (fd ∷ fds) (c ∷ input) (some e) h = refl

insert_if-kept :
    (b : Bool) (e : FrameError) (recorded : Option FrameError)
    → is_some recorded ≡ true
    → is_some (insert_if b e recorded) ≡ true
insert_if-kept b e none h = absurd (ground (arith, h))
insert_if-kept false e (some recorded) h = refl
insert_if-kept true e (some recorded) h = refl

pub middle-ne-nil : (xs ys : List ℕ) (y : ℕ) → xs ++ (y ∷ ys) ≢ []
middle-ne-nil [] ys y h = cc
middle-ne-nil (x ∷ xs) ys y h = cc

pub Unbroken-append : (xs ys : List ℕ) → Unbroken xs → Unbroken ys → Unbroken (xs ++ ys)
Unbroken-append [] ys u v = v
Unbroken-append (x ∷ xs) ys u v = (u.0, Unbroken-append xs ys u.1 v)

module _ (lines_codec : LinesCodec) where
  open lines_codec use {State, new, decode, text, Ready, new-Ready, decode-Ready}

  -- A frame that is rejected already, whatever follows.
  abbrev pub IsRejected : Reading lines_codec → Type 0
  IsRejected r =
      is_some
        (insert_if (ltb max_request_bytes (length r.input)) FrameError.too_large r.frame_error)
      ≡ true

  pub recorded-IsRejected : (r : Reading lines_codec) → is_some r.frame_error ≡ true → IsRejected r
  recorded-IsRejected r h =
      insert_if-kept (ltb max_request_bytes (length r.input)) FrameError.too_large r.frame_error h

  extend-rejected :
      (r : Reading lines_codec) (bytes fds : List ℕ)
      → IsRejected r
      → Unbroken r.input
      → Ready r.codec r.input
      → (let r' = extend lines_codec (keep_reading lines_codec r) bytes fds in
          (is_some r'.frame_error ≡ true) × (r'.input ≡ bytes) × Ready r'.codec r'.input)
  unfolding extend
  extend-rejected r bytes fds bad u ready =
      subst
        (λ k.
          let r' = extend lines_codec k bytes fds in
          (is_some r'.frame_error ≡ true) × (r'.input ≡ bytes) × Ready r'.codec r'.input)
        (sym (keep_reading-rejected lines_codec r bad u ready))
        (descriptor_error-kept fds [] _ bad, refl, new-Ready bytes)

  pub finish-rejected :
      (r : Reading lines_codec) (rest : List ℕ) (line : Option (List ℕ))
      → is_some r.frame_error ≡ true
      → accepted (finish lines_codec r rest line).line (finish lines_codec r rest line).fds ≡ none
  unfolding finish
  finish-rejected r rest line h =
      let b = ltb max_request_bytes (length r.input - length rest - 1) in
      accepted-rejected lines_codec r.frame_error line b
        (fds_of (line_of (insert_if b FrameError.too_large r.frame_error) line) r.fds) h

  pub rejected-Delivers :
      (r : Reading lines_codec) (pieces : List (List ℕ × List ℕ)) (front rest fds : List ℕ)
      (socket : List Receive)
      → IsRejected r
      → Unbroken r.input
      → Ready r.codec r.input
      → Pieces pieces
      → Unbroken front
      → Delivers lines_codec
          (next_loop lines_codec r
            (receives pieces (Receive.received (front ++ (newline ∷ rest)) fds ∷ socket)))
          none
          socket
          rest
  rejected-Delivers r [] front rest fds socket bad u ready p q =
      let k = extend-rejected r (front ++ (newline ∷ rest)) fds bad u ready in
      let r' = extend lines_codec (keep_reading lines_codec r) (front ++ (newline ∷ rest)) fds in
      (
        finish lines_codec r' rest (text front),
        next_loop-step lines_codec r (front ++ (newline ∷ rest)) fds socket
              (middle-ne-nil front rest newline) u ready
            ∙ next_loop-line lines_codec r' front rest socket k.1 q k.2,
        finish-rejected r' rest (text front) k.0,
      )
  rejected-Delivers r ((bytes, some_fds) ∷ pieces) front rest fds socket bad u ready p q =
      let k = extend-rejected r bytes some_fds bad u ready in
      let r' = extend lines_codec (keep_reading lines_codec r) bytes some_fds in
      let later =
        rejected-Delivers r' pieces front rest fds socket (recorded-IsRejected r' k.0)
          (subst Unbroken (sym k.1) p.1) k.2 p.2 q in
      (
        later.0,
        next_loop-step lines_codec r bytes some_fds
              (receives pieces (Receive.received (front ++ (newline ∷ rest)) fds ∷ socket)) p.0 u
              ready
            ∙ later.1,
        later.2,
      )
