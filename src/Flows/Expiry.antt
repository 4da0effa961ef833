-- ===== src/Flows/Expiry.antt =====
-- lib/proxy/flows/mod.rs over time: a schedule of inspections and commits, as the proxy makes them.
use softnet.Prelude.{
  ℕ, ◌≡◌, ◌<◌, some, List, [], ◌∷◌, arith, Option-cases, Bool-cases, not, ◌||◌, ◌==◌, inl, inr, ◌⊎◌,
}
use softnet.Prelude.HashMap.{get}
use softnet.Wire.{Ipv4Packet}
use softnet.Flows.{
  Clock, Flow, FlowKey, FlowKey-discrete, FlowDirection, FlowTable, PendingFlow, FlowMatch,
  opposite, commit, inspect, new_table,
}
use softnet.Flows.Table.{IsValid, live, commit-IsValid, inspect-IsValid, get-commit, get-sweep}
use softnet.Flows.Inspect.{Names, allowed-Permitted}

-- What the proxy does to a table: it inspects a packet, or commits what policy has authorized.
pub data Event : Type 0 where
  inspects : Ipv4Packet → FlowDirection → ℕ → Event
  commits : PendingFlow → Event

-- The pending flow was committed by an event of the schedule.
abbrev pub Committed : FlowKey → Flow → List Event → Type 0
Committed k f [] = ⊥
Committed k f (inspects p d now ∷ es) = Committed k f es
Committed k f (commits q ∷ es) = ((q.key ≡ k) × (q.flow ≡ f)) ⊎ Committed k f es

module _ (clock : Clock) where
  abbrev pub event_step : FlowTable → Event → FlowTable
  event_step t (inspects p d now) = (inspect clock t p d now).0
  event_step t (commits q) = (commit t q).0

  -- The latest event stands first.
  unfoldable pub after : ℕ → List Event → FlowTable
  after start [] = new_table clock start
  after start (e ∷ es) = event_step (after start es) e

  pub after-IsValid : (start : ℕ) (es : List Event) → IsValid (after start es)
  unfolding after new_table
  after-IsValid start [] = record { distinct = tt; bounded = omega arith }
  after-IsValid start (inspects p d now ∷ es) =
      inspect-IsValid clock (after start es) p d now (after-IsValid start es)
  after-IsValid start (commits q ∷ es) = commit-IsValid (after start es) q (after-IsValid start es)

  get-inspect :
      (t : FlowTable) (p : Ipv4Packet) (d : FlowDirection) (now : ℕ) (k : FlowKey) (f : Flow)
      → IsValid t
      → get FlowKey-discrete k (inspect clock t p d now).0.flows ≡ some f
      → get FlowKey-discrete k t.flows ≡ some f
  unfolding inspect
  get-inspect t p d now k f v h = elim (Bool-cases (p.more_frags || not (p.frag_offset == 0))) [
    | inl e ↦ get-sweep clock t now k f v (rw (e, inspect) at h)
    | inr e ↦ get-sweep clock t now k f v (rw (e, inspect) at h)
  ]

  stored-Committed :
      (start : ℕ) (es : List Event) (k : FlowKey) (f : Flow)
      → get FlowKey-discrete k (after start es).flows ≡ some f
      → Committed k f es
  unfolding after new_table get
  stored-Committed start [] k f h = cc
  stored-Committed start (inspects p d now ∷ es) k f h =
      stored-Committed start es k f
        (get-inspect (after start es) p d now k f (after-IsValid start es) h)
  stored-Committed start (commits q ∷ es) k f h =
      ground (arith, get-commit (after start es) q k, stored-Committed start es k f)

  -- After any schedule, whatever its order, a packet is allowed only if policy has had a flow
  -- committed under its exact tuple, from the other side, which has not expired yet.
  pub allowed-Committed :
      (start : ℕ) (es : List Event) (p : Ipv4Packet) (d : FlowDirection) (now : ℕ)
      → (inspect clock (after start es) p d now).1 ≡ FlowMatch.allowed
      → (k : FlowKey) × (f : Flow) × Committed k f es
        × Names p d k
        × (f.initiating_direction ≡ opposite d)
        × (now < f.expires_at)
  unfolding live
  allowed-Committed start es p d now h =
      let r = (allowed-Permitted clock (after start es) p d now (after-IsValid start es) h).2 in
      elim (Option-cases (get FlowKey-discrete r.key (after start es).flows)) [
        | inl e ↦ absurd (ground (arith, r.stored))
        | inr (f, e) ↦
            let same : f ≡ r.flow = ground (arith, r.stored) in
            (
              r.key,
              f,
              stored-Committed start es r.key f e,
              r.names,
              rw same r.reverse,
              ground (arith, r.stored),
            )
      ]
