-- ===== src/Transport/Whole.antt =====
-- lib/control_transport.rs: a frame in pieces is judged as the whole is.
use softnet.Prelude.{
  is_nil, ℕ, suc, ◌+◌, ◌-◌, ◌≤◌, ◌≡◌, ◌≢◌, refl, ap, Bool, true, false, not, Option, none, some,
  List, [], ◌∷◌, ◌++◌, arith, ltb, leb, if◌then◌else◌, length, length-append, Bool-cases, inl, inr,
  ◌⊎◌,
}
use mathlib.Core.Option
use mathlib.Core.List.{append-nil, append_assoc}
use softnet.Transport.{
  Unbroken, LinesCodec, max_request_bytes, max_frame_fds, is_some, line_of, fds_of,
  descriptor_error, Reading, finish, keep_reading, extend,
}
use softnet.Transport.Framing.{bytes_in, fds_in, late, accepted, fits, expected, keep_reading-clean}

-- What a receive without an error leaves: it had no descriptors, or was the first.
pub descriptor_error-none :
    (fds input : List ℕ)
    → descriptor_error fds input none ≡ none
    → (fds ≡ []) ⊎ ((input ≡ []) × (length fds ≤ max_frame_fds))
unfolding descriptor_error
descriptor_error-none [] input h = inl refl
descriptor_error-none (fd ∷ fds) [] h = inr (refl, ground (arith, h))
descriptor_error-none (fd ∷ fds) (c ∷ input) h = absurd (ground (arith, h))

pub late-extend :
    (input bytes fds : List ℕ) (pieces : List (List ℕ × List ℕ))
    → bytes ≢ []
    → descriptor_error fds input none ≡ none
    → late (input ++ bytes) pieces ≡ late input ((bytes, fds) ∷ pieces)
unfolding descriptor_error
late-extend input [] fds pieces n h = absurd (n refl)
late-extend [] (b ∷ bs) fds pieces n h = refl
late-extend (c ∷ cs) (b ∷ bs) [] pieces n h = refl
late-extend (c ∷ cs) (b ∷ bs) (fd ∷ fds) pieces n h = absurd (ground (arith, h))

pub fits-too_large :
    (input more fds : List ℕ) (b : Bool)
    → ltb max_request_bytes (length input) ≡ true
    → fits (input ++ more) fds b ≡ false
fits-too_large input more fds b h =
    let big : leb (length (input ++ more)) max_request_bytes ≡ false =
      ground (arith, h, length-append input more) in
    rw big refl

fits-many :
    (bytes fds : List ℕ) (b : Bool)
    → leb (length fds) max_frame_fds ≡ false
    → fits bytes fds b ≡ false
fits-many bytes fds b h = elim (Bool-cases (leb (length bytes) max_request_bytes)) [
  | inl e ↦ elim (Bool-cases b) [ inl k ↦ rw (e, k) refl | inr k ↦ rw (e, k, h) refl ]
  | inr e ↦ rw e refl
]

fits-late : (bytes fds : List ℕ) → fits bytes fds true ≡ false
fits-late bytes fds = elim (Bool-cases (leb (length bytes) max_request_bytes)) [
  | inl e ↦ rw e refl
  | inr e ↦ rw e refl
]

pub fits-descriptors :
    (bytes input fds kept : List ℕ) (pieces : List (List ℕ × List ℕ)) (all : List ℕ)
    → is_some (descriptor_error fds input none) ≡ true
    → fits all (kept ++ (fds ++ fds_in pieces)) (late input ((bytes, fds) ∷ pieces)) ≡ false
unfolding descriptor_error
fits-descriptors bytes input [] kept pieces all h = absurd (ground (arith, h))
fits-descriptors bytes [] (fd ∷ fds) kept pieces all h =
    let many : leb (length (kept ++ (fd ∷ (fds ++ fds_in pieces)))) max_frame_fds ≡ false = ground (
      arith,
      h,
      length-append kept (fd ∷ (fds ++ fds_in pieces)),
      length-append fds (fds_in pieces),
    ) in
    fits-many all (kept ++ (fd ∷ (fds ++ fds_in pieces))) (not (is_nil (fds_in pieces))) many
fits-descriptors bytes (c ∷ cs) (fd ∷ fds) kept pieces all h =
    fits-late all (kept ++ (fd ∷ (fds ++ fds_in pieces)))

module _ (lines_codec : LinesCodec) where
  open lines_codec use {State, new, decode, text, Ready, new-Ready, decode-Ready}

  pub expected-extend :
      (input kept bytes fds : List ℕ) (pieces : List (List ℕ × List ℕ))
      → bytes ≢ []
      → descriptor_error fds input none ≡ none
      → expected lines_codec (input ++ bytes) (kept ++ fds) pieces
        ≡ expected lines_codec input kept ((bytes, fds) ∷ pieces)
  expected-extend input kept bytes fds pieces n h =
      rw
        (
          append_assoc input bytes (bytes_in pieces),
          append_assoc kept fds (fds_in pieces),
          late-extend input bytes fds pieces n h,
        )
        refl

  -- The last piece ends the frame.
  pub last-late :
      (input front fds : List ℕ)
      → descriptor_error fds input none ≡ none
      → late input ((front, fds) ∷ []) ≡ false
  unfolding descriptor_error
  last-late [] front fds h = refl
  last-late (c ∷ cs) front [] h = refl
  last-late (c ∷ cs) front (fd ∷ fds) h = absurd (ground (arith, h))

  judged :
      (o : Option (List ℕ)) (fds : List ℕ)
      → accepted (line_of none o) (fds_of (line_of none o) fds) ≡ Option.map (λ t. (t, fds)) o
  judged none fds = refl
  judged (some t) fds = refl

  pub finish-accepted :
      (r : Reading lines_codec) (rest line : List ℕ) (o : Option (List ℕ))
      → r.frame_error ≡ none
      → length r.input ≡ length line + suc (length rest)
      → length r.fds ≤ max_frame_fds
      → accepted (finish lines_codec r rest o).line (finish lines_codec r rest o).fds
        ≡ (if fits line r.fds false then Option.map (λ t. (t, r.fds)) o else none)
  unfolding finish
  finish-accepted r rest line o e n few =
      let size = length r.input - length rest - 1 in
      let few' : leb (length r.fds) max_frame_fds ≡ true = ground (arith, few) in
      elim (Bool-cases (leb (length line) max_request_bytes)) [
        | inl k ↦
            let small : ltb max_request_bytes size ≡ false = ground (arith, n, k) in
            rw (small, k, few', e) (judged o r.fds)
        | inr k ↦
            let large : ltb max_request_bytes size ≡ true = ground (arith, n, k) in
            rw (large, k, e) refl
      ]

  pub extend-clean :
      (r : Reading lines_codec) (bytes fds : List ℕ)
      → r.frame_error ≡ none
      → ltb max_request_bytes (length r.input) ≡ false
      → Unbroken r.input
      → Ready r.codec r.input
      → extend lines_codec (keep_reading lines_codec r) bytes fds ≡ record {
        input = r.input ++ bytes;
        fds = r.fds ++ fds;
        frame_error = descriptor_error fds r.input none;
        codec = (decode r.codec r.input).1;
      }
  unfolding extend
  extend-clean r bytes fds e h u ready =
      ap (λ k. extend lines_codec k bytes fds) (keep_reading-clean lines_codec r e h u ready)

  -- A reading without an error: descriptors come only with bytes, and are not too many.
  pub record IsClean (r : Reading lines_codec) : Type 0 where
    pub no_error : r.frame_error ≡ none
    pub with_bytes : r.input ≡ [] → r.fds ≡ []
    pub few : length r.fds ≤ max_frame_fds
    pub unbroken : Unbroken r.input
    pub ready : Ready r.codec r.input

  pub few_more :
      (r : Reading lines_codec) (fds : List ℕ)
      → IsClean r
      → descriptor_error fds r.input none ≡ none
      → length (r.fds ++ fds) ≤ max_frame_fds
  few_more r fds c h = elim (descriptor_error-none fds r.input h) [
    | inl e ↦ rw (e, append-nil r.fds) (c.few)
    | inr (e, k) ↦ rw (c.with_bytes e) k
  ]
