-- ===== src/Manager/Runs.antt =====
-- lib/manager.rs: what holds of the manager along every run.
use softnet.Prelude.{
  ℕ, ◌≡◌, ◌≢◌, refl, sym, ap, subst, ◌∙◌, true, false, not, Option, none, some, List, [], ◌∷◌, ◌==◌,
  if◌then◌else◌, inl, inr, ◌⊎◌, any, arith, In, Bool-cases, ℕ_discrete,
}
use softnet.Prelude.HashMap.{get, get-insert_ne, get-insert_self}
use softnet.Rule.{Rule}
use softnet.Proxy.{policy_get, policy_set, process_frame_from_vm, process_frame_from_host}
use softnet.Proxy.Replace.{from_vm-IsConsistent, from_host-IsConsistent}
use softnet.Control.{NetType, Request}
use softnet.Manager.{
  InitializedVm, Initialization, System, Config, VmProxy, Task, Manager, or, new_manager,
  initialize, start,
}
use softnet.Manager.Outcomes.{initialize-IsInitialized}
use softnet.Manager.Sound.{
  IsSound, AllSound-retain, AllSound-change, initialize-IsSound, set_on-IsSound,
}
use softnet.Manager.Calls.{
  Answer, known, proxy_handle, set_on, set_answer, dispatch, reap_task, Event, step, run,
}

any-In : (id : ℕ) (ids : List ℕ) → In id ids → any (λ h. h == id) ids ≡ true
any-In id [] i = absurd i
any-In id (x ∷ ids) (inl e) = ground (arith, e)
any-In id (x ∷ ids) (inr i) = ground (arith, any-In id ids i)

module _ (system : System) where
  known-In : (id : ℕ) (ids : List ℕ) → In id ids → known system ids (some id) ≡ some id
  known-In id ids i = ap (λ b. if b then some id else none) (any-In id ids i)

  open system use {outside, clock, ipnet, trie, Name}

  set_answer-IsSound :
      (m : Manager system) (allow block : List (Rule ipnet.Ipv4Net)) (now : ℕ) (o : Option ℕ)
      → IsSound system m
      → IsSound system (set_answer system m allow block now o).0
  set_answer-IsSound m allow block now none s = s
  set_answer-IsSound m allow block now (some id) s =
      set_on-IsSound system m id allow block now (get ℕ_discrete id m.proxy_tasks) refl s

  dispatch-IsSound :
      (m : Manager system) (request : Request ipnet.Ipv4Net Name) (now : ℕ)
      → IsSound system m
      → IsSound system (dispatch system m request now).0
  unfolding dispatch
  dispatch-IsSound m (Request.initialize net_type vms) now s =
      initialize-IsSound system m net_type vms now s
  dispatch-IsSound m (Request.get_policy vm_id) now s = s
  dispatch-IsSound m (Request.set_policy vm_id allow block) now s =
      set_answer-IsSound m allow block now (proxy_handle system m vm_id) s

  step-IsSound :
      (m : Manager system) (e : Event system)
      → IsSound system m
      → IsSound system (step system m e).0
  unfolding step reap_task
  step-IsSound m (Event.call request now) s = dispatch-IsSound m request now s
  step-IsSound m (Event.finished id ended_well) s =
      AllSound-retain system m.initialized (λ k _. not (k == id)) m.proxy_tasks s
  step-IsSound m (Event.frame_from_vm id frame now) s =
      AllSound-change system m.initialized id
        (λ p. (process_frame_from_vm outside clock ipnet trie p frame now).0) m.proxy_tasks
        (λ p c. from_vm-IsConsistent outside clock ipnet trie p frame now c) s
  step-IsSound m (Event.frame_from_host id frame now) s =
      AllSound-change system m.initialized id
        (λ p. (process_frame_from_host outside clock ipnet trie p frame now).0) m.proxy_tasks
        (λ p c. from_host-IsConsistent outside clock ipnet trie p frame now c) s

  run-kept :
      (P : Manager system → Type 0)
      → ((m : Manager system) (e : Event system) → P m → P (step system m e).0)
      → (m : Manager system) (es : List (Event system)) → P m
      → P (run system m es)
  unfolding run
  run-kept P k m [] p = p
  run-kept P k m (e ∷ es) p = elim (Bool-cases (step system m e).1) [
    | inl b ↦ subst P (sym (goes_on b)) (run-kept P k (step system m e).0 es (k m e p))
    | inr b ↦ subst P (sym (ends b)) (k m e p)
  ]
    where
      goes_on :
          (step system m e).1 ≡ true → run system m (e ∷ es) ≡ run system (step system m e).0 es
      goes_on b = ap (λ b. if b then run system (step system m e).0 es else (step system m e).0) b

      ends : (step system m e).1 ≡ false → run system m (e ∷ es) ≡ (step system m e).0
      ends b = ap (λ b. if b then run system (step system m e).0 es else (step system m e).0) b

  -- Along every run of calls, frames and ends of tasks, the compiled rules, the lists and the flow
  -- table of each VM's proxy are consistent, and no VM forwards before a successful
  -- initialization.
  pub run-IsSound : (es : List (Event system)) → IsSound system (run system (new_manager system) es)
  run-IsSound es = run-kept (IsSound system) step-IsSound (new_manager system) es tt

  set_on-initialized :
      (m : Manager system) (id : ℕ) (allow block : List (Rule ipnet.Ipv4Net)) (now : ℕ)
      (o : Option (Task system))
      → (set_on system m id allow block now o).0.initialized ≡ m.initialized
  set_on-initialized m id allow block now none = refl
  set_on-initialized m id allow block now (some Task.waiting) = refl
  set_on-initialized m id allow block now (some (Task.prepared p)) = refl
  set_on-initialized m id allow block now (some (Task.forwards p)) = refl

  set_answer-initialized :
      (m : Manager system) (allow block : List (Rule ipnet.Ipv4Net)) (now : ℕ) (o : Option ℕ)
      → (set_answer system m allow block now o).0.initialized ≡ m.initialized
  set_answer-initialized m allow block now none = refl
  set_answer-initialized m allow block now (some id) =
      set_on-initialized m id allow block now (get ℕ_discrete id m.proxy_tasks)

  initialize-again :
      (m : Manager system) (net_type : NetType) (vms : List (Config system)) (now : ℕ)
      → m.initialized ≡ true
      → initialize system m net_type vms now ≡ (m, Initialization.rejected)
  unfolding initialize
  initialize-again m net_type vms now e = rw (e, initialize) refl

  step-initialized :
      (m : Manager system) (e : Event system)
      → m.initialized ≡ true
      → (step system m e).0.initialized ≡ true
  unfolding step dispatch reap_task
  step-initialized m (Event.call (Request.initialize net_type vms) now) h =
      ap (λ (w : Manager system × Initialization). w.0.initialized)
        (initialize-again m net_type vms now h)
      ∙ h
  step-initialized m (Event.call (Request.get_policy vm_id) now) h = h
  step-initialized m (Event.call (Request.set_policy vm_id allow block) now) h =
      set_answer-initialized m allow block now (proxy_handle system m vm_id) ∙ h
  step-initialized m (Event.finished id ended_well) h = h
  step-initialized m (Event.frame_from_vm id frame now) h = h
  step-initialized m (Event.frame_from_host id frame now) h = h

  -- After a successful initialization, whatever else happens, every further one is rejected and
  -- changes nothing.
  pub initialize-once :
      (m : Manager system) (net_type net_type' : NetType) (vms vms' : List (Config system))
      (now later : ℕ) (started : List InitializedVm) (es : List (Event system))
      → (initialize system m net_type vms now).1 ≡ Initialization.ok started
      → (let m' = run system (initialize system m net_type vms now).0 es in
          initialize system m' net_type' vms' later ≡ (m', Initialization.rejected))
  unfolding start
  initialize-once m net_type net_type' vms vms' now later started es h =
      let r = initialize system m net_type vms now in
      let k =
        initialize-IsInitialized system m r.0 net_type vms now started (ap (λ w. (r.0, w)) h) in
      initialize-again (run system r.0 es) net_type' vms' later
        (run-kept (λ m. m.initialized ≡ true) step-initialized r.0 es k.initialized)

  -- The VM that a call means: the one that it names, or, without a name, the default one.
  abbrev pub Means : Manager system → Option ℕ → ℕ → Type 0
  Means m vm_id id = (vm_id ≡ some id) ⊎ ((vm_id ≡ none) × (m.default_vm_id ≡ some id))

  proxy_handle-Means :
      (m : Manager system) (vm_id : Option ℕ) (id : ℕ)
      → Means m vm_id id
      → In id m.proxy_handles
      → proxy_handle system m vm_id ≡ some id
  unfolding proxy_handle
  proxy_handle-Means m vm_id id c i =
      ap (known system m.proxy_handles) (chosen c) ∙ known-In id m.proxy_handles i
    where
      chosen : Means m vm_id id → or vm_id m.default_vm_id ≡ some id
      chosen (inl e) = ap (λ o. or o m.default_vm_id) e
      chosen (inr (e, d)) = ap (λ o. or o m.default_vm_id) e ∙ d

  -- A policy call for a VM with a handle and a running proxy, which the call names, or which is the
  -- default one of a call without a name, answers with the policy that this proxy has after the
  -- change, and leaves the tasks of all other VMs.
  pub set_policy-isolated :
      (m : Manager system) (vm_id : Option ℕ) (id other : ℕ) (p : VmProxy system)
      (allow block : List (Rule ipnet.Ipv4Net)) (now : ℕ)
      → Means m vm_id id
      → In id m.proxy_handles
      → get ℕ_discrete id m.proxy_tasks ≡ some (Task.forwards p)
      → id ≢ other
      → (let result = dispatch system m (Request.set_policy vm_id allow block) now in
          let p' = policy_set outside clock ipnet trie p allow block now in
          (result.1 ≡ Answer.policy (policy_get outside clock ipnet trie p'))
          × (get ℕ_discrete id result.0.proxy_tasks ≡ some (Task.forwards p'))
          × (get ℕ_discrete other result.0.proxy_tasks ≡ get ℕ_discrete other m.proxy_tasks))
  unfolding dispatch
  set_policy-isolated m vm_id id other p allow block now c i t n =
      let p' = policy_set outside clock ipnet trie p allow block now in
      let h = proxy_handle-Means m vm_id id c i in
      let same : set_answer system m allow block now (proxy_handle system m vm_id)
          ≡ set_on system m id allow block now (some (Task.forwards p)) =
        ap (set_answer system m allow block now) h ∙ ap (set_on system m id allow block now) t in
      (
        ap (λ (w : Manager system × Answer system). w.1) same,
        ap (λ (w : Manager system × Answer system). get ℕ_discrete id w.0.proxy_tasks) same
            ∙ get-insert_self ℕ_discrete id (Task.forwards p') m.proxy_tasks,
        ap (λ (w : Manager system × Answer system). get ℕ_discrete other w.0.proxy_tasks) same
            ∙ get-insert_ne ℕ_discrete id other (Task.forwards p') m.proxy_tasks n,
      )
