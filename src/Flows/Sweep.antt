-- ===== src/Flows/Sweep.antt =====
-- lib/proxy/flows/mod.rs: what an inspection forgets.
use softnet.Prelude.{
  ℕ, ◌≤◌, ◌<◌, ◌≡◌, refl, ◌⊎◌, ◌↔◌, inl, inr, Bool, Option, none, some, arith, ltb, Bool-cases,
  ◌||◌, not, ◌==◌, some-injective, subst, sym, ◌∙◌,
}
use softnet.Prelude.HashMap.{get, get-retain, kept}
use softnet.Wire.{Ipv4Packet}
use softnet.Flows.{
  Clock, Flow, FlowKey, FlowKey-discrete, FlowDirection, FlowTable, sweep_if_due, inspect,
}
use softnet.Flows.Table.{IsValid}

abbrev is_unexpired : ℕ → FlowKey → Flow → Bool
is_unexpired now _ flow = ltb now flow.expires_at

kept_iff :
    (now : ℕ) (k : FlowKey) (o : Option Flow) (f : Flow)
    → (kept FlowKey-discrete (is_unexpired now) k o ≡ some f)
      ↔ ((o ≡ some f) × (now < f.expires_at))
kept_iff now k none f = (λ h. cc, λ h. cc h.0)
kept_iff now k (some g) f = elim (Bool-cases (ltb now g.expires_at)) [
  | inl e ↦
      let early : now < g.expires_at = ground (arith, e) in
      (
        λ h.
            let same = rw e at h in
            (same, subst (λ (w : Flow). now < w.expires_at) (some-injective same) early),
        λ h. rw e h.0,
      )
  | inr e ↦ (
    λ h. absurd (cc (rw e at h)),
    λ h.
        let late : now < g.expires_at =
          subst (λ (w : Flow). now < w.expires_at) (sym (some-injective h.0)) h.1 in
        absurd (ground (arith, e, late)),
  )
]

module _ (clock : Clock) where
  -- What an inspection leaves: when a sweep is due, exactly the flows that have not expired, and
  -- otherwise every flow.
  pub record IsSwept (t : FlowTable) (now : ℕ) (t' : FlowTable) : Type 0 where
    pub flows :
        (k : FlowKey) (f : Flow)
        → (get FlowKey-discrete k t'.flows ≡ some f) ↔ (
            (get FlowKey-discrete k t.flows ≡ some f)
            × ((now < t.next_sweep) ⊎ (now < f.expires_at)))
    pub next_sweep :
        ((now < t.next_sweep) × (t'.next_sweep ≡ t.next_sweep))
        ⊎ ((t.next_sweep ≤ now) × (t'.next_sweep ≡ clock.add now (clock.from_secs 1)))

  sweep-IsSwept : (t : FlowTable) (now : ℕ) → IsValid t → IsSwept t now (sweep_if_due clock t now)
  unfolding sweep_if_due
  sweep-IsSwept t now v = elim (Bool-cases (ltb now t.next_sweep)) [
    | inl e ↦
        let early : now < t.next_sweep = ground (arith, e) in
        rw (e, sweep_if_due)
          (record {
            flows = λ k f. (λ h. (h, inl early), λ h. h.0);
            next_sweep = inl (early, refl);
          })
    | inr e ↦
        let due : t.next_sweep ≤ now = ground (arith, e) in
        rw (e, sweep_if_due)
          (record {
            flows = λ k f.
                let same = get-retain FlowKey-discrete (is_unexpired now) k t.flows v.distinct in
                let r = kept_iff now k (get FlowKey-discrete k t.flows) f in
                (
                  λ h. let w = r.0 (sym same ∙ h) in (w.0, inr w.1),
                  λ h. elim h.1 [
                    | inl early ↦ absurd (omega (arith, due, early))
                    | inr later ↦ same ∙ r.1 (h.0, later)
                  ],
                );
            next_sweep = inr (due, refl);
          })
  ]

  -- An inspection leaves, in a valid table, exactly the flows that have not expired, and sets the
  -- next sweep for a second later, when a sweep is due; before that it leaves every flow, expired
  -- or not. The packet does not matter.
  pub inspect-IsSwept :
      (t : FlowTable) (p : Ipv4Packet) (direction : FlowDirection) (now : ℕ)
      → IsValid t
      → IsSwept t now (inspect clock t p direction now).0
  unfolding inspect
  inspect-IsSwept t p direction now v =
      elim (Bool-cases (p.more_frags || not (p.frag_offset == 0))) [
        | inl h ↦ rw (h, inspect) (sweep-IsSwept t now v)
        | inr h ↦ rw (h, inspect) (sweep-IsSwept t now v)
      ]
