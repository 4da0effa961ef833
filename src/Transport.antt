-- ===== src/Transport.antt =====
-- lib/control_transport.rs: frames of bytes and descriptors over a stream socket. `LinesCodec` is of
-- the crate tokio_util; opening the socket and sending are input and output.
pub mod Framing
pub mod Pieces
pub mod Whole
pub mod Delivery
use softnet.Prelude.{
  is_nil, ℕ, ◌+◌, ◌-◌, ◌*◌, ◌≡◌, Bool, true, false, not, ◌||◌, Option, none, some, List, [], ◌∷◌,
  ◌++◌, ltb, ◌==◌, if◌then◌else◌, length, All,
}
use softnet.Control.{max_vms}

abbrev pub newline : ℕ
newline = 10

abbrev pub Unbroken : List ℕ → Type 0
Unbroken xs = All (λ c. (c == newline) ≡ false) xs

-- `LinesCodec`, whose state remembers how far the input was searched. A state is `Ready` for an
-- input of which it has searched no more than a front without a newline.
pub record LinesCodec : Type 1 where
  pub State : Type 0
  pub new : State
  -- the line, if there is one, the next state, and what is left of the input
  pub decode : State → List ℕ → Option (Option (List ℕ)) × State × List ℕ
  -- a line without its newline as text, `none` where it is not UTF-8
  pub text : List ℕ → Option (List ℕ)
  pub Ready : State → List ℕ → Type 0
  pub new-Ready : (xs : List ℕ) → Ready new xs
  pub decode-none : (s : State) (xs : List ℕ) → Ready s xs → Unbroken xs → (decode s xs).0 ≡ none
  pub decode-rest : (s : State) (xs : List ℕ) → Ready s xs → Unbroken xs → (decode s xs).2 ≡ xs
  pub decode-Ready :
      (s : State) (xs ys : List ℕ) → Ready s xs → Unbroken xs → Ready (decode s xs).1 (xs ++ ys)
  pub decode-line :
      (s : State) (xs rest : List ℕ)
      → Ready s (xs ++ (newline ∷ rest))
      → Unbroken xs
      → (decode s (xs ++ (newline ∷ rest))).0 ≡ some (text xs)
  pub decode-line-rest :
      (s : State) (xs rest : List ℕ)
      → Ready s (xs ++ (newline ∷ rest))
      → Unbroken xs
      → (decode s (xs ++ (newline ∷ rest))).2 ≡ rest

abbrev pub max_request_bytes : ℕ
max_request_bytes = 1024 * 1024

abbrev pub max_frame_fds : ℕ
max_frame_fds = max_vms

pub data FrameError : Type 0 where
  too_large late_descriptors too_many_descriptors invalid_utf8 : FrameError

pub data Line : Type 0 where
  ok : List ℕ → Line
  error : FrameError → Line

pub record Frame : Type 0 where
  pub line : Line
  pub fds : List ℕ

-- What `recv_fds_into` returns: bytes with descriptors, or an error.
pub data Receive : Type 0 where
  received : List ℕ → List ℕ → Receive
  io_error : Receive

-- `ControlTransport`, with what its socket will return.
pub record ControlTransport : Type 0 where
  pub socket : List Receive
  pub buffered : List ℕ

-- `io::Result<Option<Frame>>`, or a socket that has nothing to read yet.
pub data Next : Type 0 where
  frame : Frame → Next
  closed failed waiting : Next

-- `frame_error.get_or_insert_with(..)` where the condition holds.
abbrev pub insert_if : Bool → FrameError → Option FrameError → Option FrameError
insert_if false e recorded = recorded
insert_if true e none = some e
insert_if true e (some first) = some first

abbrev pub is_some {ℓ} : {A : Type ℓ} → Option A → Bool
is_some none = false
is_some (some a) = true

-- `line.context(..)` where no error was recorded
abbrev pub line_of : Option FrameError → Option (List ℕ) → Line
line_of (some e) line = Line.error e
line_of none none = Line.error FrameError.invalid_utf8
line_of none (some t) = Line.ok t

abbrev pub fds_of : Line → List ℕ → List ℕ
fds_of (Line.ok t) fds = fds
fds_of (Line.error e) fds = []

-- The error that descriptors cause which came with the bytes that follow the input.
unfoldable pub descriptor_error : List ℕ → List ℕ → Option FrameError → Option FrameError
descriptor_error received_fds input frame_error =
    if is_nil received_fds
    then frame_error
    else (if not (is_nil input) || is_some frame_error
        then insert_if true FrameError.late_descriptors frame_error
        else insert_if (ltb max_frame_fds (length received_fds)) FrameError.too_many_descriptors
            frame_error)

module _ (lines_codec : LinesCodec) where
  open lines_codec use {State, new, decode}

  -- The variables of the loop of `next`.
  pub record Reading : Type 0 where
    pub input : List ℕ
    pub fds : List ℕ
    pub frame_error : Option FrameError
    pub codec : State

  -- The frame that ends in front of what is left.
  unfoldable pub finish : Reading → List ℕ → Option (List ℕ) → Frame
  finish r rest line =
      let frame_error =
        insert_if (ltb max_request_bytes (length r.input - length rest - 1)) FrameError.too_large
          r.frame_error in
      let line' = line_of frame_error line in record { line = line'; fds = fds_of line' r.fds }

  -- Up to the receive, where no line is complete.
  unfoldable pub keep_reading : Reading → Reading
  keep_reading r =
      let decoded = decode r.codec r.input in
      let frame_error =
        insert_if (ltb max_request_bytes (length decoded.2)) FrameError.too_large r.frame_error in
      if is_some frame_error
      then record { input = []; fds = []; frame_error = frame_error; codec = new }
      else record { input = decoded.2; fds = r.fds; frame_error = frame_error; codec = decoded.1 }

  -- From the receive to the end of the loop's body.
  unfoldable pub extend : Reading → List ℕ → List ℕ → Reading
  unfolding descriptor_error
  extend r bytes received_fds = record r {
    input = r.input ++ bytes;
    fds = r.fds ++ received_fds;
    frame_error = descriptor_error received_fds r.input r.frame_error;
  }

  -- What the loop does with what was decoded: return the frame, or go on.
  abbrev pub frame_or :
      Reading
      → List Receive
      → Next × ControlTransport
      → Option (Option (List ℕ))
      → List ℕ
      → Next × ControlTransport
  frame_or r socket otherwise none rest = otherwise
  frame_or r socket otherwise (some line) rest =
      (Next.frame (finish r rest line), record { socket = socket; buffered = rest })

  unfoldable pub next_loop : Reading → List Receive → Next × ControlTransport
  unfolding finish keep_reading extend
  next_loop r [] =
      let decoded = decode r.codec r.input in
      frame_or r [] (Next.waiting, record { socket = []; buffered = [] }) decoded.0 decoded.2
  next_loop r (Receive.io_error ∷ socket) =
      let decoded = decode r.codec r.input in
      frame_or r (Receive.io_error ∷ socket)
        (Next.failed, record { socket = socket; buffered = [] }) decoded.0 decoded.2
  next_loop r (Receive.received [] fds ∷ socket) =
      let decoded = decode r.codec r.input in
      frame_or r (Receive.received [] fds ∷ socket)
        (Next.closed, record { socket = socket; buffered = [] }) decoded.0 decoded.2
  next_loop r (Receive.received (c ∷ cs) fds ∷ socket) =
      let decoded = decode r.codec r.input in
      let rest = next_loop (extend (keep_reading r) (c ∷ cs) fds) socket in
      frame_or r (Receive.received (c ∷ cs) fds ∷ socket) rest decoded.0 decoded.2

  unfoldable pub next : ControlTransport → Next × ControlTransport
  unfolding next_loop
  next t =
      next_loop (record { input = t.buffered; fds = []; frame_error = none; codec = new }) t.socket
