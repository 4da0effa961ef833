-- ===== src/Proxy/Loop.antt =====
-- lib/proxy/mod.rs: Proxy::run, over what its select loop receives, with VM::is_disconnect and
-- VM::is_connected of lib/vm.rs. What the sockets return stands in the turns.
pub mod Order
pub mod Turns
use softnet.Prelude.{
  ℕ, zero, suc, Bool, true, false, not, ◌||◌, Option, none, some, List, [], ◌∷◌, ◌++◌, ◌==◌,
  if◌then◌else◌,
}
use softnet.Wire.{EthernetFrame}
use softnet.Flows.{Clock}
use softnet.Ipnet.{Ipnet, PrefixTrie}
use softnet.Rule.{Rule}
use softnet.Proxy.{Outside, Proxy, Policy, process_frame_from_vm, process_frame_from_host}

pub data ErrorKind : Type 0 where
  connection_reset not_connected would_block other : ErrorKind

-- `io::Error`
pub record IoError : Type 0 where
  pub kind : ErrorKind
  pub raw_os_error : Option ℕ

-- What `peer_addr` returns.
pub data PeerAddr : Type 0 where
  address : PeerAddr
  peer_error : ErrorKind → PeerAddr

-- Whether the loop goes on, or ends with `Ok(())` or an error.
pub data Exit : Type 0 where
  goes_on ends_well ends_in_error : Exit

abbrev pub is_would_block : ErrorKind → Bool
is_would_block ErrorKind.would_block = true
is_would_block _ = false

abbrev pub is_not_connected : ErrorKind → Bool
is_not_connected ErrorKind.not_connected = true
is_not_connected _ = false

abbrev pub is_connection_error : ErrorKind → Bool
is_connection_error ErrorKind.connection_reset = true
is_connection_error ErrorKind.not_connected = true
is_connection_error _ = false

-- `VM::is_connected`; `none` is an error.
unfoldable pub is_connected : PeerAddr → Option Bool
is_connected PeerAddr.address = some true
is_connected (PeerAddr.peer_error kind) = if is_not_connected kind then some false else none

abbrev pub is_error : Option ℕ → ℕ → Bool
is_error none code = false
is_error (some errno) code = errno == code

abbrev pub negated : Option Bool → Option Bool
negated none = none
negated (some b) = some (not b)

-- `VM::is_disconnect`, given the number of EDESTADDRREQ.
unfoldable pub is_disconnect : ℕ → IoError → PeerAddr → Option Bool
unfolding is_connected
is_disconnect edestaddrreq error peer =
    if is_connection_error error.kind || is_error error.raw_os_error edestaddrreq
    then negated (is_connected peer)
    else some false

-- `if self.vm.is_disconnect(&error)? { return Ok(()) }`, and else the error.
abbrev pub exit_of : Option Bool → Exit
exit_of (some true) = Exit.ends_well
exit_of _ = Exit.ends_in_error

-- A read of the VM's socket: a frame, if the bytes are one, at a time; or an error, with the peer.
pub data Read : Type 0 where
  packet : Option EthernetFrame → ℕ → Read
  read_error : IoError → PeerAddr → Read

-- A packet of the host at a time, with the error and the peer if it cannot be written to the VM.
pub data HostPacket : Type 0 where
  host_packet : Option EthernetFrame → ℕ → IoError → PeerAddr → HostPacket

abbrev pub tick_exit : Option Bool → Exit
tick_exit (some true) = Exit.goes_on
tick_exit (some false) = Exit.ends_well
tick_exit none = Exit.ends_in_error

module _ (edestaddrreq : ℕ) (outside : Outside) (clock : Clock) (ipnet : Ipnet)
    (trie : PrefixTrie ipnet) where
  abbrev pub P : Type 0
  P = Proxy outside clock ipnet trie

  pub data Command : Type 0 where
    policy_get : Command
    policy_set : List (Rule ipnet.Ipv4Net) → List (Rule ipnet.Ipv4Net) → ℕ → Command

  -- A branch of the select: a read of the VM with those that follow it, a batch of the host or its
  -- error, a command or the end of the channel, and a tick.
  pub data Turn : Type 0 where
    vm_read : Read → List Read → Turn
    host_read : Option (List HostPacket) → Turn
    received : Option Command → Turn
    tick : PeerAddr → Turn

  -- The rest of a burst, of at most so many packets; the end of the list is an empty queue.
  unfoldable pub burst : ℕ → P → List Read → P × Exit
  burst zero p reads = (p, Exit.goes_on)
  burst (suc left) p [] = (p, Exit.goes_on)
  burst (suc left) p (packet none now ∷ reads) = burst left p reads
  burst (suc left) p (packet (some frame) now ∷ reads) =
      let result = process_frame_from_vm outside clock ipnet trie p frame now in
      let rest = burst left result.0 reads in
      if result.1 then rest else (result.0, Exit.ends_in_error)
  burst (suc left) p (read_error error peer ∷ reads) =
      if is_would_block error.kind
      then (p, Exit.goes_on)
      else (p, exit_of (is_disconnect edestaddrreq error peer))

  -- The first read, which waited, and up to 127 more.
  unfoldable pub vm_turn : P → Read → List Read → P × Exit
  unfolding burst is_disconnect
  vm_turn p (packet none now) reads = burst 127 p reads
  vm_turn p (packet (some frame) now) reads =
      let result = process_frame_from_vm outside clock ipnet trie p frame now in
      let rest = burst 127 result.0 reads in
      if result.1 then rest else (result.0, Exit.ends_in_error)
  vm_turn p (read_error error peer) reads = (p, exit_of (is_disconnect edestaddrreq error peer))

  unfoldable pub host_batch : P → List HostPacket → P × Exit
  unfolding is_disconnect
  host_batch p [] = (p, Exit.goes_on)
  host_batch p (host_packet none now error peer ∷ hs) = host_batch p hs
  host_batch p (host_packet (some frame) now error peer ∷ hs) =
      let result = process_frame_from_host outside clock ipnet trie p frame now in
      let rest = host_batch result.0 hs in
      if result.1 then rest else (result.0, exit_of (is_disconnect edestaddrreq error peer))

  -- One turn, with the policies that are sent as replies.
  unfoldable pub turn : P → Turn → P × Exit × List (Policy outside clock ipnet trie)
  unfolding vm_turn host_batch
  turn p (Turn.vm_read first reads) = let r = vm_turn p first reads in (r.0, r.1, [])
  turn p (Turn.host_read none) = (p, Exit.ends_in_error, [])
  turn p (Turn.host_read (some hs)) = let r = host_batch p hs in (r.0, r.1, [])
  turn p (Turn.received (some Command.policy_get)) =
      (p, Exit.goes_on, softnet.Proxy.policy_get outside clock ipnet trie p ∷ [])
  turn p (Turn.received (some (Command.policy_set allow block now))) =
      let p' = softnet.Proxy.policy_set outside clock ipnet trie p allow block now in
      (p', Exit.goes_on, softnet.Proxy.policy_get outside clock ipnet trie p' ∷ [])
  turn p (Turn.received none) = (p, Exit.ends_well, [])
  turn p (Turn.tick peer) = (p, tick_exit (is_connected peer), [])

  abbrev pub Result : Type 0
  Result = P × Exit × List (Policy outside clock ipnet trie)

  -- What comes after a turn, if the loop goes on.
  abbrev pub and_later : Result → Result → Result
  and_later (p, Exit.goes_on, replies) later = (later.0, later.1, replies ++ later.2)
  and_later (p, Exit.ends_well, replies) later = (p, Exit.ends_well, replies)
  and_later (p, Exit.ends_in_error, replies) later = (p, Exit.ends_in_error, replies)

  -- `Proxy::run`, over the turns until it ends.
  unfoldable pub run_loop : P → List Turn → Result
  unfolding turn
  run_loop p [] = (p, Exit.goes_on, [])
  run_loop p (t ∷ ts) = let now = turn p t in and_later now (run_loop now.0 ts)
