-- ===== src/Proxy/Loop/Turns.antt =====
-- lib/proxy/mod.rs: the loop handles what it receives in order, until it ends.
use softnet.Prelude.{ℕ, refl, none, some, List, [], ◌∷◌, ◌++◌}
use softnet.Flows.{Clock}
use softnet.Ipnet.{Ipnet, PrefixTrie}
use softnet.Proxy.{Outside, process_frame_from_vm, process_frame_from_host}
use softnet.Proxy.Replace.{Event, event_step}
use softnet.Proxy.Loop.{
  Exit, is_disconnect, exit_of, is_connected, tick_exit, Read, HostPacket, Command, Turn, burst,
  vm_turn, host_batch, turn, Result, and_later, run_loop,
}
use softnet.Proxy.Loop.Order.{
  Proxied, Events, Handles, Handles-nil, Handles-cons, Handles-append, Handles-more,
  from_vm-Handles, burst-Handles, step-Handles, exit_of-ne-goes_on, queued,
}

module _ (edestaddrreq : ℕ) (outside : Outside) (clock : Clock) (ipnet : Ipnet)
    (trie : PrefixTrie ipnet) where
  abbrev Handled :
      Proxied edestaddrreq outside clock ipnet trie
      → Proxied edestaddrreq outside clock ipnet trie × Exit
      → Events edestaddrreq outside clock ipnet trie
      → Type 0
  Handled p r due = Handles edestaddrreq outside clock ipnet trie p r.0 r.1 due

  -- The frames of a turn that begins with a read of the VM: at most 128.
  abbrev pub vm_due : Read → List Read → Events edestaddrreq outside clock ipnet trie
  vm_due (Read.packet none now) reads = queued edestaddrreq outside clock ipnet trie 127 reads
  vm_due (Read.packet (some frame) now) reads =
      Event.from_vm frame now ∷ queued edestaddrreq outside clock ipnet trie 127 reads
  vm_due (Read.read_error error peer) reads = []

  vm_turn-Handled :
      (p : Proxied edestaddrreq outside clock ipnet trie) (first : Read) (reads : List Read)
      → Handled p (vm_turn edestaddrreq outside clock ipnet trie p first reads) (vm_due first reads)
  unfolding vm_turn
  vm_turn-Handled p (Read.packet none now) reads =
      burst-Handles edestaddrreq outside clock ipnet trie 127 p reads
  vm_turn-Handled p (Read.packet (some frame) now) reads =
      let p' = (process_frame_from_vm outside clock ipnet trie p frame now).0 in
      from_vm-Handles edestaddrreq outside clock ipnet trie p frame now
        (burst edestaddrreq outside clock ipnet trie 127 p' reads)
        (queued edestaddrreq outside clock ipnet trie 127 reads)
        (burst-Handles edestaddrreq outside clock ipnet trie 127 p' reads)
  vm_turn-Handled p (Read.read_error error peer) reads =
      Handles-nil edestaddrreq outside clock ipnet trie p
        (exit_of (is_disconnect edestaddrreq error peer))

  abbrev pub batch_due : List HostPacket → Events edestaddrreq outside clock ipnet trie
  batch_due [] = []
  batch_due (HostPacket.host_packet none now error peer ∷ hs) = batch_due hs
  batch_due (HostPacket.host_packet (some frame) now error peer ∷ hs) =
      Event.from_host frame now ∷ batch_due hs

  host_batch-Handled :
      (p : Proxied edestaddrreq outside clock ipnet trie) (hs : List HostPacket)
      → Handled p (host_batch edestaddrreq outside clock ipnet trie p hs) (batch_due hs)
  unfolding host_batch
  host_batch-Handled p [] = Handles-nil edestaddrreq outside clock ipnet trie p Exit.goes_on
  host_batch-Handled p (HostPacket.host_packet none now error peer ∷ hs) = host_batch-Handled p hs
  host_batch-Handled p (HostPacket.host_packet (some frame) now error peer ∷ hs) =
      let result = process_frame_from_host outside clock ipnet trie p frame now in
      step-Handles edestaddrreq outside clock ipnet trie p (Event.from_host frame now) result.1
        (exit_of (is_disconnect edestaddrreq error peer))
        (host_batch edestaddrreq outside clock ipnet trie result.0 hs) (batch_due hs)
        (exit_of-ne-goes_on edestaddrreq outside clock ipnet trie
          (is_disconnect edestaddrreq error peer))
        (host_batch-Handled result.0 hs)

  -- What a turn is to handle.
  abbrev pub turn_due :
      Turn edestaddrreq outside clock ipnet trie → Events edestaddrreq outside clock ipnet trie
  turn_due (Turn.vm_read first reads) = vm_due first reads
  turn_due (Turn.host_read none) = []
  turn_due (Turn.host_read (some hs)) = batch_due hs
  turn_due (Turn.received (some Command.policy_get)) = []
  turn_due (Turn.received (some (Command.policy_set allow block now))) =
      Event.replaces allow block now ∷ []
  turn_due (Turn.received none) = []
  turn_due (Turn.tick peer) = []

  turn-Handled :
      (p : Proxied edestaddrreq outside clock ipnet trie)
      (t : Turn edestaddrreq outside clock ipnet trie)
      → (let r = turn edestaddrreq outside clock ipnet trie p t in
          Handled p (r.0, r.1) (turn_due t))
  unfolding turn
  turn-Handled p (Turn.vm_read first reads) = vm_turn-Handled p first reads
  turn-Handled p (Turn.host_read none) =
      Handles-nil edestaddrreq outside clock ipnet trie p Exit.ends_in_error
  turn-Handled p (Turn.host_read (some hs)) = host_batch-Handled p hs
  turn-Handled p (Turn.received (some Command.policy_get)) =
      Handles-nil edestaddrreq outside clock ipnet trie p Exit.goes_on
  turn-Handled p (Turn.received (some (Command.policy_set allow block now))) =
      let e = Event.replaces allow block now in
      let p' = event_step outside clock ipnet trie p e in
      Handles-cons edestaddrreq outside clock ipnet trie p p' Exit.goes_on e []
        (Handles-nil edestaddrreq outside clock ipnet trie p' Exit.goes_on)
  turn-Handled p (Turn.received none) =
      Handles-nil edestaddrreq outside clock ipnet trie p Exit.ends_well
  turn-Handled p (Turn.tick peer) =
      Handles-nil edestaddrreq outside clock ipnet trie p (tick_exit (is_connected peer))

  abbrev pub due :
      List (Turn edestaddrreq outside clock ipnet trie)
      → Events edestaddrreq outside clock ipnet trie
  due [] = []
  due (t ∷ ts) = turn_due t ++ due ts

  and_later-Handled :
      (p : Proxied edestaddrreq outside clock ipnet trie)
      (now later : Result edestaddrreq outside clock ipnet trie)
      (first rest : Events edestaddrreq outside clock ipnet trie)
      → Handled p (now.0, now.1) first
      → Handled now.0 (later.0, later.1) rest
      → (let r = and_later edestaddrreq outside clock ipnet trie now later in
          Handled p (r.0, r.1) (first ++ rest))
  and_later-Handled p (p', Exit.goes_on, replies) later first rest h k =
      Handles-append edestaddrreq outside clock ipnet trie p p' later.0 Exit.goes_on later.1 first
        rest refl h k
  and_later-Handled p (p', Exit.ends_well, replies) later first rest h k =
      Handles-more edestaddrreq outside clock ipnet trie p p' Exit.ends_well first rest (λ e. cc) h
  and_later-Handled p (p', Exit.ends_in_error, replies) later first rest h k =
      Handles-more edestaddrreq outside clock ipnet trie p p' Exit.ends_in_error first rest
        (λ e. cc) h

  -- The loop handles the frames of the VM, at most 128 in a turn, those of the host and the policy
  -- changes in the order in which it receives them, by the handlers alone and skipping none, until a
  -- turn ends it.
  pub run_loop-Handled :
      (p : Proxied edestaddrreq outside clock ipnet trie)
      (ts : List (Turn edestaddrreq outside clock ipnet trie))
      → (let r = run_loop edestaddrreq outside clock ipnet trie p ts in
          Handles edestaddrreq outside clock ipnet trie p r.0 r.1 (due ts))
  unfolding run_loop
  run_loop-Handled p [] = Handles-nil edestaddrreq outside clock ipnet trie p Exit.goes_on
  run_loop-Handled p (t ∷ ts) =
      let now = turn edestaddrreq outside clock ipnet trie p t in
      and_later-Handled p now (run_loop edestaddrreq outside clock ipnet trie now.0 ts) (turn_due t)
        (due ts) (turn-Handled p t) (run_loop-Handled now.0 ts)
