-- ===== src/Flows/Table.antt =====
-- lib/proxy/flows/mod.rs: the table itself, its bound, and what `commit` and the sweep leave in it.
use softnet.Prelude.{
  ℕ, suc, ◌≤◌, ◌≡◌, refl, ◌↔◌, Bool, true, false, Option, none, some, arith, ltb, if◌then◌else◌,
  ite, length, Option-cases, inl, inr, Bool-cases, leb, leb→le, ◌||◌, not, ◌==◌,
}
use softnet.Prelude.HashMap.{
  get, insert, contains_key, Distinct, get-insert, insert-Distinct, length-insert_new,
  length-insert_old, length-retain-le, retain-Distinct, get-retain,
}
use softnet.Wire.{Ipv4Packet}
use softnet.Flows.{
  Clock, Flow, FlowKey, FlowKey-discrete, FlowDirection, FlowTable, PendingFlow, max_flows, commit,
  sweep_if_due, inspect,
}

-- No key stands twice, and the table is within its limit.
pub record IsValid (t : FlowTable) : Type 0 where
  pub distinct : Distinct FlowKey-discrete t.flows
  pub bounded : length t.flows ≤ max_flows

abbrev is_unexpired : ℕ → FlowKey → Flow → Bool
is_unexpired now _ flow = ltb now flow.expires_at

-- The entry of a key, if it has not expired.
abbrev pub unexpired : ℕ → Option Flow → Option Flow
unexpired now none = none
unexpired now (some f) = if ltb now f.expires_at then some f else none

unfoldable pub live : FlowTable → FlowKey → ℕ → Option Flow
live t k now = unexpired now (get FlowKey-discrete k t.flows)

commit_cases {ℓ} :
    (P : FlowTable × Bool → Type ℓ) (t : FlowTable) (p : PendingFlow)
    → (get FlowKey-discrete p.key t.flows ≡ none → max_flows ≤ length t.flows → P (t, false))
    → (get FlowKey-discrete p.key t.flows ≡ none
        → suc (length t.flows) ≤ max_flows
        → P (record t { flows = insert FlowKey-discrete p.key p.flow t.flows }, true))
    → ((f : Flow)
        → get FlowKey-discrete p.key t.flows ≡ some f
        → P (record t { flows = insert FlowKey-discrete p.key p.flow t.flows }, true))
    → P (commit t p)
unfolding commit contains_key
commit_cases P t p full new old = elim (Option-cases (get FlowKey-discrete p.key t.flows)) [
  | inr (f, e) ↦ rw (e, commit, contains_key) (old f e)
  | inl e ↦ elim (Bool-cases (leb max_flows (length t.flows))) [
    | inl h ↦ rw (e, h, commit, contains_key) (full e (leb→le _ _ h))
    | inr h ↦ rw (e, h, commit, contains_key) (new e (ground arith))
  ]
]

-- A commit keeps the table free of duplicates and within `MAX_FLOWS`.
pub commit-IsValid : (t : FlowTable) (p : PendingFlow) → IsValid t → IsValid (commit t p).0
commit-IsValid t p v =
    commit_cases (λ r. IsValid r.0) t p (λ _ _. v)
      (λ new room. record {
        distinct = insert-Distinct FlowKey-discrete p.key p.flow t.flows v.distinct;
        bounded = omega (arith, length-insert_new FlowKey-discrete p.key p.flow t.flows new);
      })
      (λ f old. record {
        distinct = insert-Distinct FlowKey-discrete p.key p.flow t.flows v.distinct;
        bounded =
            omega (arith, v.bounded, length-insert_old FlowKey-discrete p.key p.flow f t.flows old);
      })

-- A commit is refused exactly when the key is new and the table is full.
pub commit_refused_iff :
    (t : FlowTable) (p : PendingFlow)
    → ((commit t p).1 ≡ false)
      ↔ ((get FlowKey-discrete p.key t.flows ≡ none) × (max_flows ≤ length t.flows))
commit_refused_iff t p =
    commit_cases
      (λ r.
        (r.1 ≡ false)
        ↔ ((get FlowKey-discrete p.key t.flows ≡ none) × (max_flows ≤ length t.flows)))
      t p (λ new full. (λ _. (new, full), λ _. refl))
      (λ new room. (λ e. cc, λ h. absurd (omega arith))) (λ f old. (λ e. cc, λ h. cc))

-- A refused commit changes nothing; an accepted one stores the pending flow under its key and
-- leaves every other key as it was.
pub get-commit :
    (t : FlowTable) (p : PendingFlow) (k : FlowKey)
    → get FlowKey-discrete k (commit t p).0.flows ≡ (
        if (commit t p).1
        then ite (FlowKey-discrete p.key k) (some p.flow) (get FlowKey-discrete k t.flows)
        else get FlowKey-discrete k t.flows)
get-commit t p k =
    commit_cases
      (λ r. get FlowKey-discrete k r.0.flows ≡ (
        if r.1
        then ite (FlowKey-discrete p.key k) (some p.flow) (get FlowKey-discrete k t.flows)
        else get FlowKey-discrete k t.flows))
      t p (λ _ _. refl) (λ _ _. get-insert FlowKey-discrete p.key k p.flow t.flows)
      (λ _ _. get-insert FlowKey-discrete p.key k p.flow t.flows)

module _ (clock : Clock) where
  pub sweep-IsValid : (t : FlowTable) (now : ℕ) → IsValid t → IsValid (sweep_if_due clock t now)
  unfolding sweep_if_due
  sweep-IsValid t now v = elim (Bool-cases (ltb now t.next_sweep)) [
    | inl h ↦ rw h v
    | inr h ↦ rw h (record {
      distinct = retain-Distinct FlowKey-discrete (is_unexpired now) t.flows v.distinct;
      bounded = omega (arith, v.bounded, length-retain-le (is_unexpired now) t.flows);
    })
  ]

  -- Inspection keeps the table free of duplicates and within `MAX_FLOWS`.
  pub inspect-IsValid :
      (t : FlowTable) (p : Ipv4Packet) (direction : FlowDirection) (now : ℕ)
      → IsValid t
      → IsValid (inspect clock t p direction now).0
  unfolding inspect
  inspect-IsValid t p direction now v =
      elim (Bool-cases (p.more_frags || not (p.frag_offset == 0))) [
        | inl h ↦ rw (h, inspect) (sweep-IsValid t now v)
        | inr h ↦ rw (h, inspect) (sweep-IsValid t now v)
      ]

  -- The sweep drops nothing that has not expired, and revives nothing.
  pub live-sweep :
      (t : FlowTable) (k : FlowKey) (now : ℕ)
      → IsValid t
      → live (sweep_if_due clock t now) k now ≡ live t k now
  unfolding live sweep_if_due
  live-sweep t k now v =
      ground (arith, get-retain FlowKey-discrete (is_unexpired now) k t.flows v.distinct)

  -- What the sweep leaves was there before.
  pub get-sweep :
      (t : FlowTable) (now : ℕ) (k : FlowKey) (f : Flow)
      → IsValid t
      → get FlowKey-discrete k (sweep_if_due clock t now).flows ≡ some f
      → get FlowKey-discrete k t.flows ≡ some f
  unfolding sweep_if_due
  get-sweep t now k f v h =
      ground (arith, get-retain FlowKey-discrete (is_unexpired now) k t.flows v.distinct)
