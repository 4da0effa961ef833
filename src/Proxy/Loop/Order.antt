-- ===== src/Proxy/Loop/Order.antt =====
-- lib/proxy/mod.rs: what it is to handle events in order, and the bursts of the VM.
use softnet.Prelude.{
  ℕ, zero, suc, ◌≡◌, ◌≢◌, refl, sym, ap, ◌∙◌, Bool, true, false, Option, none, some, List, [], ◌∷◌,
  ◌++◌, if◌then◌else◌, Bool-cases, inl, inr,
}
use mathlib.Core.List.{append-nil, append_assoc}
use softnet.Wire.{EthernetFrame}
use softnet.Flows.{Clock}
use softnet.Ipnet.{Ipnet, PrefixTrie}
use softnet.Proxy.{Outside, process_frame_from_vm}
use softnet.Proxy.Replace.{Event, event_step, run}
use softnet.Proxy.Loop.{Exit, is_would_block, is_disconnect, exit_of, Read, P, burst}

module _ (edestaddrreq : ℕ) (outside : Outside) (clock : Clock) (ipnet : Ipnet)
    (trie : PrefixTrie ipnet) where
  abbrev pub Proxied : Type 0
  Proxied = P edestaddrreq outside clock ipnet trie

  abbrev pub Events : Type 0
  Events = List (Event outside clock ipnet trie)

  -- The events that are due were handled in order, all of them if the loop goes on, else a front.
  pub record Handles (p p' : Proxied) (exit : Exit) (due : Events) : Type 0 where
    pub handled : Events
    pub left : Events
    pub in_order : handled ++ left ≡ due
    pub effect : p' ≡ run outside clock ipnet trie p handled
    pub complete : exit ≡ Exit.goes_on → left ≡ []

  pub Handles-nil : (p : Proxied) (exit : Exit) → Handles p p exit []
  unfolding run
  Handles-nil p exit = record {
    handled = [];
    left = [];
    in_order = refl;
    effect = refl;
    complete = λ e. refl;
  }

  pub Handles-stop :
      (p : Proxied) (exit : Exit) (due : Events) → exit ≢ Exit.goes_on → Handles p p exit due
  unfolding run
  Handles-stop p exit due n = record {
    handled = [];
    left = due;
    in_order = refl;
    effect = refl;
    complete = λ e. absurd (n e);
  }

  pub Handles-cons :
      (p p' : Proxied) (exit : Exit) (e : Event outside clock ipnet trie) (due : Events)
      → Handles (event_step outside clock ipnet trie p e) p' exit due
      → Handles p p' exit (e ∷ due)
  unfolding run
  Handles-cons p p' exit e due h = record {
    handled = e ∷ h.handled;
    left = h.left;
    in_order = ap (λ w. e ∷ w) h.in_order;
    effect = h.effect;
    complete = h.complete;
  }

  run-append :
      (p : Proxied) (xs ys : Events)
      → run outside clock ipnet trie p (xs ++ ys)
        ≡ run outside clock ipnet trie (run outside clock ipnet trie p xs) ys
  unfolding run
  run-append p [] ys = refl
  run-append p (x ∷ xs) ys = run-append (event_step outside clock ipnet trie p x) xs ys

  pub Handles-append :
      (p p' p'' : Proxied) (first exit : Exit) (due later : Events)
      → first ≡ Exit.goes_on
      → Handles p p' first due
      → Handles p' p'' exit later
      → Handles p p'' exit (due ++ later)
  Handles-append p p' p'' first exit due later e h k = record {
    handled = due ++ k.handled;
    left = k.left;
    in_order = append_assoc due k.handled k.left ∙ ap (λ w. due ++ w) k.in_order;
    effect =
        k.effect
        ∙ ap (λ w. run outside clock ipnet trie w k.handled)
            (h.effect
              ∙ ap (run outside clock ipnet trie p)
                  (all_of h.handled h.left due h.in_order (h.complete e)))
        ∙ sym (run-append p due k.handled);
    complete = k.complete;
  }
    where
      all_of : (xs ys zs : Events) → xs ++ ys ≡ zs → ys ≡ [] → xs ≡ zs
      all_of xs ys zs s n = sym (append-nil xs) ∙ ap (λ w. xs ++ w) (sym n) ∙ s

  pub Handles-more :
      (p p' : Proxied) (exit : Exit) (due later : Events)
      → exit ≢ Exit.goes_on
      → Handles p p' exit due
      → Handles p p' exit (due ++ later)
  Handles-more p p' exit due later n h = record {
    handled = h.handled;
    left = h.left ++ later;
    in_order = sym (append_assoc h.handled h.left later) ∙ ap (λ w. w ++ later) h.in_order;
    effect = h.effect;
    complete = λ e. absurd (n e);
  }

  pub exit_of-ne-goes_on : (o : Option Bool) → exit_of o ≢ Exit.goes_on
  exit_of-ne-goes_on none e = cc
  exit_of-ne-goes_on (some true) e = cc
  exit_of-ne-goes_on (some false) e = cc

  -- The frames of a burst, up to its bound, an empty queue or an error.
  abbrev pub queued : ℕ → List Read → Events
  queued zero reads = []
  queued (suc left) [] = []
  queued (suc left) (Read.packet none now ∷ reads) = queued left reads
  queued (suc left) (Read.packet (some frame) now ∷ reads) =
      Event.from_vm frame now ∷ queued left reads
  queued (suc left) (Read.read_error error peer ∷ reads) = []

  -- A step that goes on with the rest if it succeeded, and else ends.
  pub step-Handles :
      (p : Proxied) (e : Event outside clock ipnet trie) (succeeded : Bool) (exit : Exit)
      (rest : Proxied × Exit) (due : Events)
      → exit ≢ Exit.goes_on
      → Handles (event_step outside clock ipnet trie p e) rest.0 rest.1 due
      → (let r = if succeeded then rest else (event_step outside clock ipnet trie p e, exit) in
          Handles p r.0 r.1 (e ∷ due))
  step-Handles p e true exit rest due n h = Handles-cons p rest.0 rest.1 e due h
  step-Handles p e false exit rest due n h =
      let p' = event_step outside clock ipnet trie p e in
      Handles-cons p p' exit e due (Handles-stop p' exit due n)

  pub from_vm-Handles :
      (p : Proxied) (frame : EthernetFrame) (now : ℕ) (rest : Proxied × Exit) (due : Events)
      → (let result = process_frame_from_vm outside clock ipnet trie p frame now in
          Handles result.0 rest.0 rest.1 due
          → (let r = if result.1 then rest else (result.0, Exit.ends_in_error) in
              Handles p r.0 r.1 (Event.from_vm frame now ∷ due)))
  from_vm-Handles p frame now rest due h =
      let result = process_frame_from_vm outside clock ipnet trie p frame now in
      step-Handles p (Event.from_vm frame now) result.1 Exit.ends_in_error rest due (λ e. cc) h

  pub burst-Handles :
      (left : ℕ) (p : Proxied) (reads : List Read)
      → (let r = burst edestaddrreq outside clock ipnet trie left p reads in
          Handles p r.0 r.1 (queued left reads))
  unfolding burst
  burst-Handles zero p reads = Handles-nil p Exit.goes_on
  burst-Handles (suc left) p [] = Handles-nil p Exit.goes_on
  burst-Handles (suc left) p (Read.packet none now ∷ reads) = burst-Handles left p reads
  burst-Handles (suc left) p (Read.packet (some frame) now ∷ reads) =
      let result = process_frame_from_vm outside clock ipnet trie p frame now in
      from_vm-Handles p frame now (burst edestaddrreq outside clock ipnet trie left result.0 reads)
        (queued left reads) (burst-Handles left result.0 reads)
  burst-Handles (suc left) p (Read.read_error error peer ∷ reads) =
      elim (Bool-cases (is_would_block error.kind)) [
        | inl e ↦ rw (e, burst) (Handles-nil p Exit.goes_on)
        | inr e ↦ rw (e, burst) (Handles-nil p (exit_of (is_disconnect edestaddrreq error peer)))
      ]
