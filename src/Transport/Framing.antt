-- ===== src/Transport/Framing.antt =====
-- lib/control_transport.rs: a frame that arrives in pieces, as if it had arrived at once.
use softnet.Prelude.{
  is_nil, ℕ, ◌≡◌, ◌≢◌, refl, ap, subst, ◌∙◌, Bool, true, false, not, ◌&&◌, Option, none, some, List,
  [], ◌∷◌, ◌++◌, arith, ltb, leb, if◌then◌else◌, length,
}
use mathlib.Core.Option
use softnet.Transport.{
  newline, Unbroken, LinesCodec, max_request_bytes, max_frame_fds, FrameError, Line, Frame, Receive,
  ControlTransport, Next, insert_if, is_some, line_of, descriptor_error, Reading, finish,
  keep_reading, extend, next_loop,
}

-- Pieces of bytes with the descriptors that came with them.
abbrev pub bytes_in : List (List ℕ × List ℕ) → List ℕ
bytes_in [] = []
bytes_in ((bytes, fds) ∷ pieces) = bytes ++ bytes_in pieces

abbrev pub fds_in : List (List ℕ × List ℕ) → List ℕ
fds_in [] = []
fds_in ((bytes, fds) ∷ pieces) = fds ++ fds_in pieces

-- Descriptors that came behind the first byte of the frame, of which `input` was there before.
abbrev pub late : List ℕ → List (List ℕ × List ℕ) → Bool
late [] [] = false
late [] ((bytes, fds) ∷ pieces) = not (is_nil (fds_in pieces))
late (c ∷ cs) pieces = not (is_nil (fds_in pieces))

-- What a socket returns that passes on the pieces.
abbrev pub receives : List (List ℕ × List ℕ) → List Receive → List Receive
receives [] socket = socket
receives ((bytes, fds) ∷ pieces) socket = Receive.received bytes fds ∷ receives pieces socket

-- Pieces without a newline; only the last one may be empty, since its newline is cut off.
abbrev pub Pieces : List (List ℕ × List ℕ) → Type 0
Pieces [] = Unit
Pieces ((bytes, fds) ∷ pieces) = (bytes ≢ []) × Unbroken bytes × Pieces pieces

-- The line and the descriptors of an accepted frame.
abbrev pub accepted : Line → List ℕ → Option (List ℕ × List ℕ)
accepted (Line.ok t) fds = some (t, fds)
accepted (Line.error e) fds = none

-- A frame of these bytes and descriptors, judged as a whole.
abbrev pub fits : List ℕ → List ℕ → Bool → Bool
fits bytes fds is_late =
    leb (length bytes) max_request_bytes && (not is_late && leb (length fds) max_frame_fds)

pub descriptor_error-late :
    (c : ℕ) (input received_fds : List ℕ)
    → received_fds ≢ []
    → descriptor_error received_fds (c ∷ input) none ≡ some FrameError.late_descriptors
unfolding descriptor_error
descriptor_error-late c input [] n = absurd (n refl)
descriptor_error-late c input (fd ∷ fds) n = refl

module _ (lines_codec : LinesCodec) where
  open lines_codec use {
    State, new, decode, text, Ready, decode-none, decode-rest, decode-Ready, decode-line,
    decode-line-rest,
  }

  next_loop-frame :
      (r : Reading lines_codec) (line : Option (List ℕ)) (rest : List ℕ) (socket : List Receive)
      → (decode r.codec r.input).0 ≡ some line
      → (decode r.codec r.input).2 ≡ rest
      → next_loop lines_codec r socket
        ≡ (Next.frame (finish lines_codec r rest line), record { socket = socket; buffered = rest })
  unfolding next_loop
  next_loop-frame r line rest [] h k = rw (h, k, next_loop) refl
  next_loop-frame r line rest (Receive.io_error ∷ socket) h k = rw (h, k, next_loop) refl
  next_loop-frame r line rest (Receive.received [] fds ∷ socket) h k = rw (h, k, next_loop) refl
  next_loop-frame r line rest (Receive.received (c ∷ cs) fds ∷ socket) h k =
      rw (h, k, next_loop) refl

  pub next_loop-line :
      (r : Reading lines_codec) (xs rest : List ℕ) (socket : List Receive)
      → r.input ≡ xs ++ (newline ∷ rest)
      → Unbroken xs
      → Ready r.codec r.input
      → next_loop lines_codec r socket ≡ (
        Next.frame (finish lines_codec r rest (text xs)),
        record { socket = socket; buffered = rest },
      )
  next_loop-line r xs rest socket e u ready =
      let ready' = subst (Ready r.codec) e ready in
      next_loop-frame r (text xs) rest socket
        (ap (λ w. (decode r.codec w).0) e ∙ decode-line r.codec xs rest ready' u)
        (ap (λ w. (decode r.codec w).2) e ∙ decode-line-rest r.codec xs rest ready' u)

  pub next_loop-step :
      (r : Reading lines_codec) (bytes fds : List ℕ) (socket : List Receive)
      → bytes ≢ []
      → Unbroken r.input
      → Ready r.codec r.input
      → next_loop lines_codec r (Receive.received bytes fds ∷ socket)
        ≡ next_loop lines_codec (extend lines_codec (keep_reading lines_codec r) bytes fds) socket
  unfolding next_loop
  next_loop-step r [] fds socket n u ready = absurd (n refl)
  next_loop-step r (c ∷ cs) fds socket n u ready =
      rw (decode-none r.codec r.input ready u, next_loop) refl

  -- The frame of an input, its descriptors and the pieces that follow.
  abbrev pub expected : List ℕ → List ℕ → List (List ℕ × List ℕ) → Option (List ℕ × List ℕ)
  expected input fds pieces =
      let bytes = input ++ bytes_in pieces in
      let all = fds ++ fds_in pieces in
      if fits bytes all (late input pieces) then Option.map (λ t. (t, all)) (text bytes) else none

  -- The frame is delivered as `o`, and the transport is left with `socket` and `buffered`.
  abbrev pub Delivers :
      Next × ControlTransport → Option (List ℕ × List ℕ) → List Receive → List ℕ → Type 0
  Delivers result o socket buffered =
      (f : Frame) × (result ≡ (Next.frame f, record { socket = socket; buffered = buffered }))
      × (accepted f.line f.fds ≡ o)

  pub accepted-rejected :
      (e : Option FrameError) (line : Option (List ℕ)) (b : Bool) (fds : List ℕ)
      → is_some e ≡ true
      → accepted (line_of (insert_if b FrameError.too_large e) line) fds ≡ none
  accepted-rejected none line b fds h = absurd (ground (arith, h))
  accepted-rejected (some e) line false fds h = refl
  accepted-rejected (some e) line true fds h = refl

  pub keep_reading-rejected :
      (r : Reading lines_codec)
      → is_some
          (insert_if (ltb max_request_bytes (length r.input)) FrameError.too_large r.frame_error)
        ≡ true
      → Unbroken r.input
      → Ready r.codec r.input
      → keep_reading lines_codec r ≡ record {
        input = [];
        fds = [];
        frame_error =
            insert_if (ltb max_request_bytes (length r.input)) FrameError.too_large r.frame_error;
        codec = new;
      }
  unfolding keep_reading
  keep_reading-rejected r h u ready = rw (decode-rest r.codec r.input ready u, h) refl

  pub keep_reading-clean :
      (r : Reading lines_codec)
      → r.frame_error ≡ none
      → ltb max_request_bytes (length r.input) ≡ false
      → Unbroken r.input
      → Ready r.codec r.input
      → keep_reading lines_codec r ≡ record {
        input = r.input;
        fds = r.fds;
        frame_error = none;
        codec = (decode r.codec r.input).1;
      }
  unfolding keep_reading
  keep_reading-clean r e h u ready = rw (decode-rest r.codec r.input ready u, h, e) refl
