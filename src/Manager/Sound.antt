-- ===== src/Manager/Sound.antt =====
-- lib/manager.rs: the proxies of a manager stay consistent.
use softnet.Prelude.{
  ℕ, ◌≡◌, ◌≢◌, refl, sym, ap, subst, ◌∙◌, Bool, true, false, Option, none, some, some-injective,
  List, [], ◌∷◌, ◌++◌, ◌==◌, if◌then◌else◌, inl, inr, ◌⊎◌, Bool-cases, if_pos, if_neg, ℕ_discrete,
}
use softnet.Prelude.HashMap.{get, insert, retain}
use softnet.Proxy.{policy_set}
use softnet.Proxy.Replace.{IsConsistent, policy_set-IsConsistent}
use softnet.Rule.{Rule}
use softnet.Control.{NetType}
use softnet.Manager.{
  InitializedVm, Initialization, System, Config, VmProxy, Task, Manager, Configured, register,
  start, initialize,
}
use softnet.Manager.Started.{AllStarted, forwarding, IsIdle, AllIdle}
use softnet.Manager.Outcomes.{initialize-failed, initialize-IsInitialized}
use softnet.Manager.Calls.{set_on, change, change_task}

pub outcome_cases :
    (o : Initialization)
    → ((started : List InitializedVm) × (o ≡ Initialization.ok started))
      ⊎ ((started : List InitializedVm) → o ≢ Initialization.ok started)
outcome_cases (Initialization.ok vms) = inl (vms, refl)
outcome_cases Initialization.invalid_params = inr (λ vms e. cc)
outcome_cases Initialization.rejected = inr (λ vms e. cc)
outcome_cases Initialization.activation_failed = inr (λ vms e. cc)

module _ (system : System) where
  open system use {outside, clock, ipnet, trie, Name}

  abbrev pub Tasks : Type 0
  Tasks = List (ℕ × Task system)

  -- A proxy is consistent, and runs only in an initialized manager.
  abbrev pub Sound : Bool → Task system → Type 0
  Sound b Task.waiting = Unit
  Sound b (Task.prepared p) = IsConsistent outside clock ipnet trie p
  Sound b (Task.forwards p) = IsConsistent outside clock ipnet trie p × (b ≡ true)

  abbrev pub AllSound : Bool → Tasks → Type 0
  AllSound b [] = Unit
  AllSound b ((id, o) ∷ tasks) = Sound b o × AllSound b tasks

  abbrev pub IsSound : Manager system → Type 0
  IsSound m = AllSound m.initialized m.proxy_tasks

  AllSound-append :
      (b : Bool) (xs ys : Tasks) → AllSound b xs → AllSound b ys → AllSound b (xs ++ ys)
  AllSound-append b [] ys s t = t
  AllSound-append b ((id, o) ∷ xs) ys s t = (s.0, AllSound-append b xs ys s.1 t)

  Sound-idle : (b : Bool) (t : Task system) → IsIdle system t → Sound b t
  Sound-idle b Task.waiting i = tt
  Sound-idle b (Task.prepared p) i = i
  Sound-idle b (Task.forwards p) i = absurd i

  AllSound-idle :
      (b : Bool) (cs : List (Configured system)) (ts : Tasks) → AllIdle system cs ts → AllSound b ts
  AllSound-idle b [] [] a = tt
  AllSound-idle b [] (t ∷ ts) a = absurd a
  AllSound-idle b (c ∷ cs) [] a = absurd a
  AllSound-idle b (c ∷ cs) ((id, t) ∷ ts) a = (Sound-idle b t a.1, AllSound-idle b cs ts a.2)

  AllSound-started :
      (gateway_ip : ℕ) (cs : List (Configured system)) (ps : List (ℕ × VmProxy system))
      → AllStarted system gateway_ip cs ps
      → AllSound true (forwarding system ps)
  AllSound-started g [] [] a = tt
  AllSound-started g [] (p ∷ ps) a = absurd a
  AllSound-started g (c ∷ cs) [] a = absurd a
  AllSound-started g (c ∷ cs) ((id, p) ∷ ps) a =
      let first = a.0 in ((first.consistent, refl), AllSound-started g cs ps a.1)

  Sound-initialized : (b : Bool) (t : Task system) → Sound b t → Sound true t
  Sound-initialized b Task.waiting s = tt
  Sound-initialized b (Task.prepared p) s = s
  Sound-initialized b (Task.forwards p) s = (s.0, refl)

  AllSound-initialized : (b : Bool) (ts : Tasks) → AllSound b ts → AllSound true ts
  AllSound-initialized b [] s = tt
  AllSound-initialized b ((id, o) ∷ ts) s =
      (Sound-initialized b o s.0, AllSound-initialized b ts s.1)

  AllSound-get :
      (b : Bool) (id : ℕ) (o : Task system) (ts : Tasks)
      → AllSound b ts
      → get ℕ_discrete id ts ≡ some o
      → Sound b o
  unfolding get
  AllSound-get b id o [] s h = absurd (cc)
  AllSound-get b id o ((k, v) ∷ ts) s h = elim (ℕ_discrete k id) [
    | yes e ↦
        subst (Sound b)
          (some-injective (sym (if_pos (ℕ_discrete k id) e (some v) (get ℕ_discrete id ts)) ∙ h))
          s.0
    | no n ↦
        AllSound-get b id o ts s.1
          (sym (if_neg (ℕ_discrete k id) n (some v) (get ℕ_discrete id ts)) ∙ h)
  ]

  AllSound-insert :
      (b : Bool) (id : ℕ) (o : Task system) (ts : Tasks)
      → Sound b o
      → AllSound b ts
      → AllSound b (insert ℕ_discrete id o ts)
  unfolding insert
  AllSound-insert b id o [] c s = (c, tt)
  AllSound-insert b id o ((k, v) ∷ ts) c s =
      let later = insert ℕ_discrete id o ts in
      elim (ℕ_discrete k id) [
        | yes e ↦
            subst (AllSound b) (sym (if_pos (ℕ_discrete k id) e ((id, o) ∷ ts) ((k, v) ∷ later)))
              (c, s.1)
        | no n ↦
            subst (AllSound b) (sym (if_neg (ℕ_discrete k id) n ((id, o) ∷ ts) ((k, v) ∷ later)))
              (s.0, AllSound-insert b id o ts c s.1)
      ]

  pub AllSound-retain :
      (b : Bool) (keep : ℕ → Task system → Bool) (ts : Tasks)
      → AllSound b ts
      → AllSound b (retain keep ts)
  unfolding retain
  AllSound-retain b keep [] s = tt
  AllSound-retain b keep ((k, o) ∷ ts) s = elim (Bool-cases (keep k o)) [
    | inl e ↦ rw (e, retain) (s.0, AllSound-retain b keep ts s.1)
    | inr e ↦ rw (e, retain) (AllSound-retain b keep ts s.1)
  ]

  -- A change of a proxy that keeps it consistent.
  abbrev pub Keeps : (VmProxy system → VmProxy system) → Type 0
  Keeps f =
      (p : VmProxy system)
      → IsConsistent outside clock ipnet trie p
      → IsConsistent outside clock ipnet trie (f p)

  Sound-change :
      (b matches : Bool) (f : VmProxy system → VmProxy system) (o : Task system)
      → Keeps f
      → Sound b o
      → Sound b (if matches then change system f o else o)
  Sound-change b false f o k s = s
  Sound-change b true f Task.waiting k s = tt
  Sound-change b true f (Task.prepared p) k s = s
  Sound-change b true f (Task.forwards p) k s = (k p s.0, s.1)

  pub AllSound-change :
      (b : Bool) (id : ℕ) (f : VmProxy system → VmProxy system) (ts : Tasks)
      → Keeps f
      → AllSound b ts
      → AllSound b (change_task system id f ts)
  unfolding change_task
  AllSound-change b id f [] k s = tt
  AllSound-change b id f ((j, o) ∷ ts) k s =
      (Sound-change b (j == id) f o k s.0, AllSound-change b id f ts k s.1)

  IsSound-parts :
      (m : Manager system) (b : Bool) (ts : Tasks)
      → m.initialized ≡ b
      → m.proxy_tasks ≡ ts
      → AllSound b ts
      → IsSound m
  IsSound-parts m b ts e f s =
      subst (λ w. AllSound w m.proxy_tasks) (sym e) (subst (AllSound b) (sym f) s)

  pub initialize-IsSound :
      (m : Manager system) (net_type : NetType) (vms : List (Config system)) (now : ℕ)
      → IsSound m
      → IsSound (initialize system m net_type vms now).0
  unfolding start register
  initialize-IsSound m net_type vms now s =
      elim (outcome_cases (initialize system m net_type vms now).1) [
        | inl (started, e) ↦
            let r = initialize system m net_type vms now in
            let k =
              initialize-IsInitialized system m r.0 net_type vms now started
                (ap (λ w. (r.0, w)) e) in
            IsSound-parts r.0 true (forwarding system k.proxies ++ m.proxy_tasks) k.initialized
              k.proxy_tasks
              (AllSound-append true (forwarding system k.proxies) m.proxy_tasks
                (AllSound-started k.gateway_ip k.cs k.proxies k.all_started)
                (AllSound-initialized m.initialized m.proxy_tasks s))
        | inr n ↦
            elim (initialize-failed system m (initialize system m net_type vms now).0 net_type vms
              now (initialize system m net_type vms now).1 refl n) [
                | inl k ↦ subst IsSound (sym k.0) s
                | inr (k, failed) ↦
                    IsSound-parts (initialize system m net_type vms now).0 m.initialized
                      (k.tasks ++ m.proxy_tasks) k.initialized k.proxy_tasks
                      (AllSound-append m.initialized k.tasks m.proxy_tasks
                        (AllSound-idle m.initialized k.cs k.tasks k.idle) s)
              ]
      ]

  pub set_on-IsSound :
      (m : Manager system) (id : ℕ) (allow block : List (Rule ipnet.Ipv4Net)) (now : ℕ)
      (o : Option (Task system))
      → get ℕ_discrete id m.proxy_tasks ≡ o
      → IsSound m
      → IsSound (set_on system m id allow block now o).0
  set_on-IsSound m id allow block now none e s = s
  set_on-IsSound m id allow block now (some Task.waiting) e s = s
  set_on-IsSound m id allow block now (some (Task.prepared p)) e s = s
  set_on-IsSound m id allow block now (some (Task.forwards p)) e s =
      let c = AllSound-get m.initialized id (Task.forwards p) m.proxy_tasks s e in
      AllSound-insert m.initialized id
        (Task.forwards (policy_set outside clock ipnet trie p allow block now)) m.proxy_tasks
        (policy_set-IsConsistent outside clock ipnet trie p allow block now c.0, c.1) s
