-- ===== src/Witnesses/Tracking.antt =====
-- lib/proxy/flows/mod.rs: the theorems at the flow that the VM's request starts.
use softnet.Prelude.{
  ℕ, ◌≡◌, ◌≢◌, ◌≤◌, ◌<◌, refl, ◌⊎◌, ◌↔◌, inl, inr, Bool, true, false, Option, none, some, List, [],
  ◌∷◌, arith, In, ite, length, if◌then◌else◌,
}
use softnet.Prelude.HashMap.{get}
use softnet.Flows.{
  FlowKey, Flow, FlowKey-discrete, FlowDirection, FlowTable, FlowMatch, PendingFlow, commit,
  inspect, new_table, max_flows,
}
use softnet.Flows.Table.{commit_refused_iff, get-commit}
use softnet.Flows.Sweep.{IsSwept, inspect-IsSwept}
use softnet.Flows.Inspect.{Permitted, Names, allowed-Permitted}
use softnet.Flows.Proposals.{Proposed, candidate-Proposed}
use softnet.Flows.Replies.{reply-allowed}
use softnet.Flows.Expiry.{after, Committed, allowed-Committed}
use softnet.Flows.Expiry
use softnet.Flows.{opposite}
use softnet.Example.{clock}
use softnet.Witnesses.{
  request, response, pending, table, table-IsValid, response-IsReply, request_candidate, asked,
  asked-IsValid,
}

-- The flows of the schedule in which the request is inspected and committed.
abbrev schedule : List Expiry.Event
schedule = Expiry.Event.commits pending ∷ Expiry.Event.inspects request FlowDirection.from_vm 5 ∷ []

schedule_allowed :
    (inspect clock (after clock 0 schedule) response FlowDirection.from_host 6).1
    ≡ FlowMatch.allowed
unfolding after inspect softnet.Flows.inspect_protocol softnet.Flows.match_existing_flow get commit
    new_table softnet.Prelude.HashMap.retain softnet.Prelude.HashMap.insert FlowKey-discrete
    softnet.Prelude.ℕ_discrete
schedule_allowed = refl

allowed-Committed_example :
    (k : FlowKey) × (f : Flow) × Committed k f schedule
    × Names response FlowDirection.from_host k
    × (f.initiating_direction ≡ opposite FlowDirection.from_host)
    × (6 < f.expires_at)
allowed-Committed_example =
    allowed-Committed clock 0 schedule response FlowDirection.from_host 6 schedule_allowed

request_committed :
    (commit (inspect clock table request FlowDirection.from_vm 5).0 pending).1 ≡ true
unfolding inspect commit get softnet.Prelude.HashMap.retain
request_committed = refl

reply-allowed_example :
    (inspect clock
      (commit (inspect clock table request FlowDirection.from_vm 5).0 pending).0
      response
      (opposite FlowDirection.from_vm)
      6).1
    ≡ FlowMatch.allowed
reply-allowed_example =
    reply-allowed clock table request response FlowDirection.from_vm 5 6 pending table-IsValid
      request_candidate request_committed response-IsReply (omega arith)

response_inspected : (inspect clock asked response FlowDirection.from_host 6).1 ≡ FlowMatch.allowed
unfolding inspect softnet.Flows.inspect_protocol softnet.Flows.match_existing_flow get
    softnet.Prelude.HashMap.retain FlowKey-discrete softnet.Prelude.ℕ_discrete
response_inspected = refl

allowed-Permitted_example :
    (response.more_frags ≡ false)
    × (response.frag_offset ≡ 0)
    × Permitted asked response FlowDirection.from_host 6
allowed-Permitted_example =
    allowed-Permitted clock asked response FlowDirection.from_host 6 asked-IsValid
      response_inspected

candidate-Proposed_example :
    (request.more_frags ≡ false)
    × (request.frag_offset ≡ 0)
    × Proposed clock table request FlowDirection.from_vm 5 pending
candidate-Proposed_example =
    candidate-Proposed clock table request FlowDirection.from_vm 5 pending table-IsValid
      request_candidate

inspect-IsSwept_example :
    IsSwept clock asked 6 (inspect clock asked response FlowDirection.from_host 6).0
inspect-IsSwept_example =
    inspect-IsSwept clock asked response FlowDirection.from_host 6 asked-IsValid

commit_refused_iff_example :
    ((commit table pending).1 ≡ false)
    ↔ ((get FlowKey-discrete pending.key table.flows ≡ none) × (max_flows ≤ length table.flows))
commit_refused_iff_example = commit_refused_iff table pending

get-commit_example : get FlowKey-discrete pending.key (commit asked pending).0.flows ≡ (
    if (commit asked pending).1
    then ite
        (FlowKey-discrete pending.key pending.key)
        (some pending.flow)
        (get FlowKey-discrete pending.key asked.flows)
    else get FlowKey-discrete pending.key asked.flows)
get-commit_example = get-commit asked pending pending.key
