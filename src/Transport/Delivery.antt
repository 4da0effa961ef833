-- ===== src/Transport/Delivery.antt =====
-- lib/control_transport.rs: `next` delivers a frame whose pieces have arrived.
use softnet.Prelude.{
  ℕ, suc, ◌+◌, ◌≡◌, ◌≢◌, refl, sym, ap, ◌∙◌, true, false, Option, none, List, [], ◌∷◌, ◌++◌, arith,
  ltb, if◌then◌else◌, length, length-append, Bool-cases, Option-cases, inl, inr,
}
use mathlib.Core.Option
use mathlib.Core.List.{append-nil, append_assoc}
use softnet.Transport.{
  newline, Unbroken, LinesCodec, max_request_bytes, Receive, ControlTransport, Next, is_some,
  descriptor_error, Reading, finish, next_loop, next,
}
use softnet.Transport.Framing.{
  bytes_in, fds_in, late, receives, Pieces, fits, expected, Delivers, next_loop-line,
  next_loop-step,
}
use softnet.Transport.Pieces.{
  rejected-Delivers, finish-rejected, recorded-IsRejected, middle-ne-nil, Unbroken-append,
}
use softnet.Transport.Whole.{
  fits-too_large, fits-descriptors, expected-extend, last-late, finish-accepted, extend-clean,
  IsClean, few_more,
}

late-nil : (input : List ℕ) → late input [] ≡ false
late-nil [] = refl
late-nil (c ∷ cs) = refl

append-ne-nil : (xs ys : List ℕ) → ys ≢ [] → xs ++ ys ≢ []
append-ne-nil [] ys n h = n h
append-ne-nil (x ∷ xs) ys n h = cc

module _ (lines_codec : LinesCodec) where
  open lines_codec use {State, new, decode, text, Ready, new-Ready, decode-Ready}

  -- What a receive makes of a clean reading.
  abbrev after : Reading lines_codec → List ℕ → List ℕ → Reading lines_codec
  after r bytes fds = record {
    input = r.input ++ bytes;
    fds = r.fds ++ fds;
    frame_error = descriptor_error fds r.input none;
    codec = (decode r.codec r.input).1;
  }

  next_loop-after :
      (r : Reading lines_codec) (bytes fds : List ℕ) (socket : List Receive)
      → IsClean lines_codec r
      → ltb max_request_bytes (length r.input) ≡ false
      → bytes ≢ []
      → next_loop lines_codec r (Receive.received bytes fds ∷ socket)
        ≡ next_loop lines_codec (after r bytes fds) socket
  next_loop-after r bytes fds socket c h n =
      next_loop-step lines_codec r bytes fds socket n c.unbroken c.ready
      ∙ ap (λ k. next_loop lines_codec k socket)
          (extend-clean lines_codec r bytes fds c.no_error h c.unbroken c.ready)

  -- The receive with the newline.
  last-frame :
      (r : Reading lines_codec) (front rest fds : List ℕ) (socket : List Receive)
      → IsClean lines_codec r
      → ltb max_request_bytes (length r.input) ≡ false
      → Unbroken front
      → next_loop lines_codec r (Receive.received (front ++ (newline ∷ rest)) fds ∷ socket) ≡ (
        Next.frame (
            finish lines_codec
              (after r (front ++ (newline ∷ rest)) fds)
              rest
              (text (r.input ++ front))),
        record { socket = socket; buffered = rest },
      )
  last-frame r front rest fds socket c h q =
      next_loop-after r (front ++ (newline ∷ rest)) fds socket c h
        (middle-ne-nil front rest newline)
      ∙ next_loop-line lines_codec (after r (front ++ (newline ∷ rest)) fds) (r.input ++ front) rest
          socket (sym (append_assoc r.input front (newline ∷ rest)))
          (Unbroken-append r.input front c.unbroken q)
          (decode-Ready r.codec r.input (front ++ (newline ∷ rest)) c.ready c.unbroken)

  expected-last :
      (input kept front fds : List ℕ)
      → descriptor_error fds input none ≡ none
      → expected lines_codec input kept ((front, fds) ∷ []) ≡ (
          if fits (input ++ front) (kept ++ fds) false
          then Option.map (λ t. (t, kept ++ fds)) (text (input ++ front))
          else none)
  expected-last input kept front fds d =
      rw (append-nil front, append-nil fds, last-late lines_codec input front fds d) refl

  expected-none :
      (input kept : List ℕ) (pieces : List (List ℕ × List ℕ))
      → fits (input ++ bytes_in pieces) (kept ++ fds_in pieces) (late input pieces) ≡ false
      → expected lines_codec input kept pieces ≡ none
  expected-none input kept pieces h = rw h refl

  length-line :
      (input front rest : List ℕ)
      → length (input ++ (front ++ (newline ∷ rest))) ≡ length (input ++ front) + suc (length rest)
  length-line input front rest =
      ap length (sym (append_assoc input front (newline ∷ rest)))
      ∙ length-append (input ++ front) (newline ∷ rest)

  Delivers-last :
      (r : Reading lines_codec) (front rest fds : List ℕ) (socket : List Receive)
      → IsClean lines_codec r
      → ltb max_request_bytes (length r.input) ≡ false
      → Unbroken front
      → Delivers lines_codec
          (next_loop lines_codec r (Receive.received (front ++ (newline ∷ rest)) fds ∷ socket))
          (expected lines_codec r.input r.fds ((front, fds) ∷ []))
          socket
          rest
  Delivers-last r front rest fds socket c h q =
      elim (Option-cases (descriptor_error fds r.input none)) [
        | inl d ↦ (
          finish lines_codec r' rest (text (r.input ++ front)),
          last-frame r front rest fds socket c h q,
          finish-accepted lines_codec r' rest (r.input ++ front) (text (r.input ++ front)) d
                (length-line r.input front rest) (few_more lines_codec r fds c d)
              ∙ sym (expected-last r.input r.fds front fds d),
        )
        | inr (e, d) ↦ (
          finish lines_codec r' rest (text (r.input ++ front)),
          last-frame r front rest fds socket c h q,
          finish-rejected lines_codec r' rest (text (r.input ++ front)) (ap is_some d)
              ∙ sym (
                  expected-none r.input r.fds ((front, fds) ∷ []) (
                    fits-descriptors front r.input fds r.fds [] (r.input ++ (front ++ []))
                      (ap is_some d))),
        )
      ]
    where
      r' : Reading lines_codec
      r' = after r (front ++ (newline ∷ rest)) fds

  after-IsClean :
      (r : Reading lines_codec) (bytes fds : List ℕ)
      → IsClean lines_codec r
      → bytes ≢ []
      → Unbroken bytes
      → descriptor_error fds r.input none ≡ none
      → IsClean lines_codec (after r bytes fds)
  after-IsClean r bytes fds c n u d = record {
    no_error = d;
    with_bytes = λ e. absurd (append-ne-nil r.input bytes n e);
    few = few_more lines_codec r fds c d;
    unbroken = Unbroken-append r.input bytes c.unbroken u;
    ready = decode-Ready r.codec r.input bytes c.ready c.unbroken;
  }

  rejected :
      (o : Option (List ℕ × List ℕ)) (socket : List Receive) (rest : List ℕ)
      (result : Next × ControlTransport)
      → Delivers lines_codec result none socket rest
      → o ≡ none
      → Delivers lines_codec result o socket rest
  rejected o socket rest result d e = (d.0, d.1, d.2 ∙ sym e)

  large-Delivers :
      (r : Reading lines_codec) (pieces : List (List ℕ × List ℕ)) (front rest fds : List ℕ)
      (socket : List Receive)
      → IsClean lines_codec r
      → ltb max_request_bytes (length r.input) ≡ true
      → Pieces pieces
      → Unbroken front
      → Delivers lines_codec
          (next_loop lines_codec r
            (receives pieces (Receive.received (front ++ (newline ∷ rest)) fds ∷ socket)))
          (expected lines_codec r.input r.fds (pieces ++ ((front, fds) ∷ [])))
          socket
          rest
  large-Delivers r pieces front rest fds socket c large p q =
      let all = pieces ++ ((front, fds) ∷ []) in
      rejected (expected lines_codec r.input r.fds all) socket rest
        (next_loop lines_codec r
          (receives pieces (Receive.received (front ++ (newline ∷ rest)) fds ∷ socket)))
        (rejected-Delivers lines_codec r pieces front rest fds socket (rw (large, c.no_error) refl)
          c.unbroken c.ready p q)
        (expected-none r.input r.fds all
          (fits-too_large r.input (bytes_in all) (r.fds ++ fds_in all) (late r.input all) large))

  clean-Delivers :
      (r : Reading lines_codec) (pieces : List (List ℕ × List ℕ)) (front rest fds : List ℕ)
      (socket : List Receive)
      → IsClean lines_codec r
      → Pieces pieces
      → Unbroken front
      → Delivers lines_codec
          (next_loop lines_codec r
            (receives pieces (Receive.received (front ++ (newline ∷ rest)) fds ∷ socket)))
          (expected lines_codec r.input r.fds (pieces ++ ((front, fds) ∷ [])))
          socket
          rest
  clean-Delivers r [] front rest fds socket c p q =
      elim (Bool-cases (ltb max_request_bytes (length r.input))) [
        | inl large ↦ large-Delivers r [] front rest fds socket c large p q
        | inr small ↦ Delivers-last r front rest fds socket c small q
      ]
  clean-Delivers r ((bytes, more) ∷ pieces) front rest fds socket c p q =
      let r' = after r bytes more in
      let all = pieces ++ ((front, fds) ∷ []) in
      let later = receives pieces (Receive.received (front ++ (newline ∷ rest)) fds ∷ socket) in
      elim (Bool-cases (ltb max_request_bytes (length r.input))) [
        | inl large ↦ large-Delivers r ((bytes, more) ∷ pieces) front rest fds socket c large p q
        | inr small ↦ elim (Option-cases (descriptor_error more r.input none)) [
          | inl d ↦
              let k =
                clean-Delivers r' pieces front rest fds socket
                  (after-IsClean r bytes more c p.0 p.1 d) p.2 q in
              (
                k.0,
                next_loop-after r bytes more later c small p.0 ∙ k.1,
                k.2 ∙ expected-extend lines_codec r.input r.fds bytes more all p.0 d,
              )
          | inr (e, d) ↦
              let k =
                rejected-Delivers lines_codec r' pieces front rest fds socket
                  (recorded-IsRejected lines_codec r' (ap is_some d))
                  (Unbroken-append r.input bytes c.unbroken p.1)
                  (decode-Ready r.codec r.input bytes c.ready c.unbroken) p.2 q in
              (
                k.0,
                next_loop-after r bytes more later c small p.0 ∙ k.1,
                k.2
                    ∙ sym (
                        expected-none r.input r.fds ((bytes, more) ∷ all) (
                          fits-descriptors bytes r.input more r.fds all
                            (r.input ++ (bytes ++ bytes_in all)) (ap is_some d))),
              )
        ]
      ]

  -- When the pieces of a frame have arrived, up to a newline, `next` returns a frame, however it was
  -- cut: it carries the line and all descriptors if the line is within the limit, the descriptors
  -- are not too many and came with its first bytes, and it is UTF-8, and else an error. What follows
  -- the newline stays buffered, and what follows the receive stays on the socket.
  pub next-Delivers :
      (buffered : List ℕ) (pieces : List (List ℕ × List ℕ)) (front rest fds : List ℕ)
      (socket : List Receive)
      → Unbroken buffered
      → Pieces pieces
      → Unbroken front
      → Delivers lines_codec
          (next lines_codec (record {
            socket = receives pieces (Receive.received (front ++ (newline ∷ rest)) fds ∷ socket);
            buffered = buffered;
          }))
          (expected lines_codec buffered [] (pieces ++ ((front, fds) ∷ [])))
          socket
          rest
  unfolding next
  next-Delivers buffered pieces front rest fds socket u p q =
      clean-Delivers (record { input = buffered; fds = []; frame_error = none; codec = new }) pieces
        front rest fds socket
        (record {
          no_error = refl;
          with_bytes = λ e. refl;
          few = omega arith;
          unbroken = u;
          ready = new-Ready buffered;
        })
        p q

  expected-line :
      (line : List ℕ)
      → expected lines_codec line [] []
        ≡ (if fits line [] false then Option.map (λ t. (t, [])) (text line) else none)
  expected-line line = rw (append-nil line, late-nil line) refl

  -- A line that is buffered already is returned without a receive and without descriptors, if it is
  -- within the limit and UTF-8, and else as an error.
  pub next-buffered :
      (line rest : List ℕ) (socket : List Receive)
      → Unbroken line
      → Delivers lines_codec
          (next lines_codec (record { socket = socket; buffered = line ++ (newline ∷ rest) }))
          (expected lines_codec line [] [])
          socket
          rest
  unfolding next
  next-buffered line rest socket u =
      let r : Reading lines_codec = record {
        input = line ++ (newline ∷ rest);
        fds = [];
        frame_error = none;
        codec = new;
      } in
      (
        finish lines_codec r rest (text line),
        next_loop-line lines_codec r line rest socket refl u (new-Ready r.input),
        finish-accepted lines_codec r rest line (text line) refl
              (length-append line (newline ∷ rest)) (omega arith)
            ∙ sym (expected-line line),
      )
