-- ===== src/Manager/Calls.antt =====
-- lib/manager.rs: dispatch, and the loop of `run` as the sequence of what it selects.
use softnet.Prelude.{
  is_nil, ℕ, Bool, true, false, not, ◌&&◌, Option, none, some, List, [], ◌∷◌, ◌==◌, if◌then◌else◌,
  any, ℕ_discrete,
}
use softnet.Prelude.HashMap.{get, insert, retain}
use softnet.Wire.{EthernetFrame}
use softnet.Rule.{Rule}
use softnet.Proxy.{Policy, policy_get, policy_set, process_frame_from_vm, process_frame_from_host}
use softnet.Control.{Request}
use softnet.Manager.{InitializedVm, Initialization, or, System, VmProxy, Task, Manager, initialize}

unfoldable pub without : ℕ → List ℕ → List ℕ
without id [] = []
without id (k ∷ ids) = let rest = without id ids in if k == id then rest else k ∷ rest

module _ (system : System) where
  open system use {outside, clock, ipnet, trie, Name}

  -- `Result<Reply, CallError>`
  pub data Answer : Type 0 where
    initialized : List InitializedVm → Answer
    policy : Policy outside clock ipnet trie → Answer
    invalid_params failed : Answer

  -- The identifier of the handle; `none` is an error.
  abbrev pub known : List ℕ → Option ℕ → Option ℕ
  known handles none = none
  known handles (some id) = if any (λ h. h == id) handles then some id else none

  unfoldable pub proxy_handle : Manager system → Option ℕ → Option ℕ
  proxy_handle m id = known m.proxy_handles (or id m.default_vm_id)

  -- `ProxyHandle::policy_get` and `ProxyHandle::policy_set`, which fail where no proxy runs.
  abbrev pub get_on : Option (Task system) → Answer
  get_on (some (Task.forwards p)) = Answer.policy (policy_get outside clock ipnet trie p)
  get_on _ = Answer.failed

  abbrev pub set_on :
      Manager system
      → ℕ
      → List (Rule ipnet.Ipv4Net)
      → List (Rule ipnet.Ipv4Net)
      → ℕ
      → Option (Task system)
      → Manager system × Answer
  set_on m id allow block now (some (Task.forwards p)) =
      let p' = policy_set outside clock ipnet trie p allow block now in
      (
        record m { proxy_tasks = insert ℕ_discrete id (Task.forwards p') m.proxy_tasks },
        Answer.policy (policy_get outside clock ipnet trie p'),
      )
  set_on m id allow block now _ = (m, Answer.failed)

  abbrev pub get_answer : Manager system → Option ℕ → Answer
  get_answer m none = Answer.invalid_params
  get_answer m (some id) = get_on (get ℕ_discrete id m.proxy_tasks)

  abbrev pub set_answer :
      Manager system
      → List (Rule ipnet.Ipv4Net)
      → List (Rule ipnet.Ipv4Net)
      → ℕ
      → Option ℕ
      → Manager system × Answer
  set_answer m allow block now none = (m, Answer.invalid_params)
  set_answer m allow block now (some id) =
      set_on m id allow block now (get ℕ_discrete id m.proxy_tasks)

  -- The reply to an initialization, and whether the run goes on.
  abbrev pub initialize_answer : Initialization → Answer × Bool
  initialize_answer (Initialization.ok vms) = (Answer.initialized vms, true)
  initialize_answer Initialization.invalid_params = (Answer.invalid_params, true)
  initialize_answer Initialization.rejected = (Answer.failed, true)
  initialize_answer Initialization.activation_failed = (Answer.failed, false)

  unfoldable pub dispatch :
      Manager system → Request ipnet.Ipv4Net Name → ℕ → Manager system × Answer × Bool
  unfolding initialize proxy_handle
  dispatch m (Request.initialize net_type vms) now =
      let result = initialize system m net_type vms now in
      let answer = initialize_answer result.1 in (result.0, answer.0, answer.1)
  dispatch m (Request.get_policy vm_id) now = (m, get_answer m (proxy_handle m vm_id), true)
  dispatch m (Request.set_policy vm_id allow block) now =
      let result = set_answer m allow block now (proxy_handle m vm_id) in (result.0, result.1, true)

  unfoldable pub reap_task : Manager system → ℕ → Manager system
  unfolding without
  reap_task m id = record m {
    proxy_handles = without id m.proxy_handles;
    proxy_tasks = retain (λ k _. not (k == id)) m.proxy_tasks;
  }

  -- What happens to the manager and the tasks: a call, the end of a task, with whether it was an
  -- error, and a frame at a VM's proxy.
  pub data Event : Type 0 where
    call : Request ipnet.Ipv4Net Name → ℕ → Event
    finished : ℕ → Bool → Event
    frame_from_vm frame_from_host : ℕ → EthernetFrame → ℕ → Event

  abbrev pub change : (VmProxy system → VmProxy system) → Task system → Task system
  change f Task.waiting = Task.waiting
  change f (Task.prepared p) = Task.prepared p
  change f (Task.forwards p) = Task.forwards (f p)

  unfoldable pub change_task :
      ℕ → (VmProxy system → VmProxy system) → List (ℕ × Task system) → List (ℕ × Task system)
  change_task id f [] = []
  change_task id f ((k, o) ∷ tasks) =
      (k, if k == id then change f o else o) ∷ change_task id f tasks

  -- One turn of the loop, and whether the run goes on.
  unfoldable pub step : Manager system → Event → Manager system × Bool
  unfolding dispatch reap_task change_task
  step m (Event.call request now) = let result = dispatch m request now in (result.0, result.2)
  step m (Event.finished id ended_well) =
      let m' = reap_task m id in (m', ended_well && not (is_nil m'.proxy_tasks))
  step m (Event.frame_from_vm id frame now) = (
    record m {
      proxy_tasks =
          change_task id (λ p. (process_frame_from_vm outside clock ipnet trie p frame now).0)
            m.proxy_tasks;
    },
    true,
  )
  step m (Event.frame_from_host id frame now) = (
    record m {
      proxy_tasks =
          change_task id (λ p. (process_frame_from_host outside clock ipnet trie p frame now).0)
            m.proxy_tasks;
    },
    true,
  )

  -- `Manager::run`, which stops where a turn ends it.
  unfoldable pub run : Manager system → List Event → Manager system
  unfolding step
  run m [] = m
  run m (e ∷ es) =
      let result = step m e in let rest = run result.0 es in if result.1 then rest else result.0
