-- ===== src/Lib.antt =====
-- Softnet's packet filter, and what stands around it: one VM's frames pass a proxy, which answers
-- DHCP itself and forwards what the policy and the flow table let through.
--
-- The files:
--   Prelude, Prelude/*: what the others share; HashMap is the association list for std's hash maps.
--   Wire: what smoltcp's accessors return on a frame. Bytes are not decoded here.
--   Ipnet: the crates ipnet and prefix_trie as records of operations and their documented laws.
--   Flows: lib/proxy/flows/{mod,tcp,udp,icmp}.rs. FlowTable is a list of keys and flows; inspect,
--     commit and sweep_if_due are the methods of those names, with the recent instant as `now`, and
--     inspect_tcp, inspect_udp, inspect_icmp the protocols. Children: Table (bound and
--     duplicates), Sweep (what is forgotten), Inspect (what is allowed), Proposals (what is proposed),
--     Replies (what a commit lets back in), Expiry (schedules of steps).
--   Rule, Rule/Text: lib/proxy/rule.rs: rules, and how they are written. A `u16` is a number; what
--     exceeds it is refused while parsing. `decimal` has fuel 5, the digits of the largest port.
--   Rule/Grammar, Rule/Parser: the grammar lib/proxy/rule.pest, each of its rules a function that
--     takes its text off the front of the input, and Rule::parse as parse_rule. Children: Reading and
--     Fields (each part is taken off), RoundTrip (Display, then parse), Sound (what is accepted).
--   Rules: lib/proxy/rules.rs, Rules::new as new_rules, then select and policy_decision. Children:
--     Entries (the policy as a flat list), Latest and Compiled (the maps that are built), Order,
--     Candidates, Blocks, Decision and Outcomes (the decision against the flat list).
--   Dhcp: lib/dhcp_server/mod.rs, `reply` as build_reply; Answers says what is answered, Replies what
--     a reply carries, Delivery where it is sent. The codec of messages and the bytes of a datagram
--     (encode_packet) are parameters.
--   Policy: normalize_rules of lib/proxy/mod.rs; Normal says what it keeps.
--   Proxy: lib/proxy/{mod,vm,host}.rs. The proxy's state has the writes to both sides; Outside is
--     the kernel, the DNS server's answer and the other crates. Children: Admission (what a step
--     leaves as it was), Recording (which packets the flow table records), Outbound, Inbound,
--     Spoofing, Return (request and reply together), Replace (the invariant from Proxy::new on, and
--     policy changes). Loop is Proxy::run over the turns of its
--     select, with VM::is_disconnect; a burst has the fuel 127 of the source. Its children are Order
--     and Turns.
--   Control: lib/control.rs, lib/proxy/exposed_port.rs and the requests of lib/manager.rs;
--     Initialize says what an accepted initialization carries.
--   Transport: lib/control_transport.rs, the loop of ControlTransport::next as next_loop, over the list
--     of what its receives return; keep_reading and extend are the body before and after the receive,
--     finish makes the frame. LinesCodec, of tokio_util, is an interface. Children: Framing, Pieces,
--     Whole and Delivery (a frame in pieces, as if it had come at once).
--   SubnetFinder: lib/subnet_finder/mod.rs, find_available_subnet, whose 128 attempts are the fuel of
--     try_subnets. Networks is about the ranges and networks that are read, and Available says what
--     is found, and when.
--   Network: lib/network.rs, Network::new as new_network, and Host::new of lib/host.rs as new_host.
--   Manager: lib/manager.rs, initialize in stages. System holds the interfaces and what the system
--     answers, and a Task is what the task of a VM has of its proxy. Manager/Calls is dispatch and run,
--     over a list of what the loop selects. Children: Initialize (checks and addresses), Started (the
--     proxies and their transfer to the tasks), Cases (the ways it can go), Outcomes (success and
--     failure), Sound and Runs (what holds along every run).
--   Example, Witnesses: an instance of the interfaces, and the theorems at concrete values.
--
-- An `Option<()>` is a Bool here, and an asynchronous call is its result: the proxy handles one frame
-- or command at a time, and the manager one call. All recursion is structural.
--
-- Not modelled: the manager's shutdown and the end of its control task; the set-up and the send of
-- the control transport; the JSON-RPC envelope of lib/control.rs; the command line; and the sockets,
-- the interface of vmnet and the DNS server (lib/vm.rs, lib/host.rs, lib/dns_server/mod.rs), which are
-- input and output or wrap other crates.
pub mod Prelude
pub mod Wire
pub mod Flows
pub mod Ipnet
pub mod Rule
pub mod Rules
pub mod Dhcp
pub mod Policy
pub mod Proxy
pub mod Control
pub mod Transport
pub mod SubnetFinder
pub mod Network
pub mod Manager
pub mod Example
pub mod Witnesses
