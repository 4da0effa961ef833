-- ===== src/Witnesses/Looping.antt =====
-- lib/proxy/mod.rs: two frames of the VM in one turn, a change of the policy, and a closed channel.
use softnet.Prelude.{none, some, List, [], ◌∷◌}
use softnet.Wire.{Payload, EthernetFrame}
use softnet.Rule.{Rule, Target}
use softnet.Proxy.{Proxy, new_proxy}
use softnet.Proxy.Loop.{ErrorKind, PeerAddr, Read, Command, Turn, run_loop}
use softnet.Proxy.Loop.Order.{Handles}
use softnet.Proxy.Loop.Turns.{due, run_loop-Handled}
use softnet.Example.{ipnet, trie, clock, outside}

abbrev proxy : Proxy outside clock ipnet trie
proxy =
    new_proxy outside clock ipnet trie 7
      (record { vm_ip = 58; gateway_ip = 57; max_packet_size = 1500; written = [] })
      (record { netmask = 29; gateway_ip = 57; vm_ips = 58 ∷ [] }) (Rule.stateless Target.host ∷ [])
      [] none 0

abbrev frame : EthernetFrame
frame = record { src_addr = 7; dst_addr = 99; payload = Payload.other }

abbrev turns : List (Turn 39 outside clock ipnet trie)
turns =
    Turn.vm_read (Read.packet (some frame) 1) (
      Read.packet none 1
      ∷ (Read.packet (some frame) 2
          ∷ (Read.read_error (record { kind = ErrorKind.would_block; raw_os_error = none })
                PeerAddr.address
              ∷ [])))
    ∷ (Turn.received (some (Command.policy_set [] [] 3)) ∷ (Turn.received none ∷ []))

run_loop-Handled_example :
    (let r = run_loop 39 outside clock ipnet trie proxy turns in
      Handles 39 outside clock ipnet trie proxy r.0 r.1 (due 39 outside clock ipnet trie turns))
run_loop-Handled_example = run_loop-Handled 39 outside clock ipnet trie proxy turns
