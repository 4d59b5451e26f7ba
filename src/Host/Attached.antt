-- ===== src/Host/Attached.antt =====
-- What start-up has done where it gives a collector (truetop/src/lib.rs).
use mathlib.Core.Path.{subst}
use truetop.Common.{
  ℕ, ◌≡◌, refl, sym, ap, ◌∙◌, Bool, Option, none, some, List, [], ◌∷◌, ◌++◌, append-nil,
  if◌then◌else◌, inl, inr, Option-cases, arith, All, true,
}
use truetop.Common.Text.{Text, codes}
use truetop.Kernel.Task.{Globals}
use truetop.Host.System.{CpuCounts}
use truetop.Host.Startup.{Loaded, ok, err, ◌>>=◌, resolve_globals, default_max_processes}
use truetop.Host.Attach.{
  ProgramKind, is_raw, is_fentry, attach_program, AttachError, Ebpf, LoadRequest,
  attach_raw_tracepoint, attach_creds, commit_creds, tracepoints, attach_all, linked, finish,
  take_maps, Built, collector, SetUp, built_on, setup_collector, request, load_ebpf, set_up_loaded,
  attach_with,
}

linked-names :
    (name : Text) (outcome : Option AttachError) (rest : List Text × Option AttachError)
    (names : List Text)
    → (rest.1 ≡ none → rest.0 ≡ names)
    → (linked name outcome rest).1 ≡ none
    → (linked name outcome rest).0 ≡ name ∷ names
linked-names name none (links, error) names h went = ap (◌∷◌ name) (h went)
linked-names name (some e) rest names h went = absurd (ground (arith, went))

attach_all-links :
    (ebpf : Ebpf) (names : List Text)
    → (attach_all ebpf names).1 ≡ none
    → (attach_all ebpf names).0 ≡ names
unfolding attach_all
attach_all-links ebpf [] h = refl
attach_all-links ebpf (name ∷ names) h =
    linked-names name (attach_raw_tracepoint ebpf name) (attach_all ebpf names) names
      (attach_all-links ebpf names) h

-- The kernel has taken a program, and runs it.
abbrev pub Runs : Ebpf → Text → Type 0
Runs ebpf name = (ebpf.loads name ≡ true) × (ebpf.attaches name ≡ true)

attach_program-Runs :
    (is_kind : ProgramKind → Bool) (ebpf : Ebpf) (name : Text)
    → attach_program is_kind ebpf name ≡ none
    → Runs ebpf name
unfolding attach_program
attach_program-Runs is_kind ebpf name h = (ground (arith, h), ground (arith, h))

attach_creds-Runs : (ebpf : Ebpf) → attach_creds ebpf ≡ none → Runs ebpf commit_creds
unfolding attach_creds
attach_creds-Runs ebpf h = attach_program-Runs is_fentry ebpf commit_creds (ground (arith, h))

linked-Runs :
    (ebpf : Ebpf) (name : Text) (outcome : Option AttachError)
    (rest : List Text × Option AttachError)
    → (outcome ≡ none → Runs ebpf name)
    → (rest.1 ≡ none → All (Runs ebpf) rest.0)
    → (linked name outcome rest).1 ≡ none
    → All (Runs ebpf) (linked name outcome rest).0
linked-Runs ebpf name none (links, error) one more went = (one refl, more went)
linked-Runs ebpf name (some e) rest one more went = tt

attach_all-Runs :
    (ebpf : Ebpf) (names : List Text)
    → (attach_all ebpf names).1 ≡ none
    → All (Runs ebpf) (attach_all ebpf names).0
unfolding attach_all
attach_all-Runs ebpf [] h = tt
attach_all-Runs ebpf (name ∷ names) h =
    linked-Runs ebpf name (attach_raw_tracepoint ebpf name) (attach_all ebpf names)
      (attach_program-Runs is_raw ebpf name) (attach_all-Runs ebpf names) h

All-snoc : (P : Text → Type 0) (xs : List Text) (x : Text) → All P xs → P x → All P (xs ++ x ∷ [])
All-snoc P [] x h p = (p, tt)
All-snoc P (y ∷ xs) x h p = (h.0, All-snoc P xs x h.1 p)

built_on-capacity :
    (ebpf : Ebpf) (capacity : ℕ)
    → built_on ebpf ≡ collector capacity
    → ebpf.capacity ≡ some capacity
unfolding built_on
built_on-capacity ebpf capacity h = elim (Option-cases (take_maps ebpf)) [
  | inl e ↦ elim (Option-cases ebpf.capacity) [
    | inl c ↦ absurd (ground (arith, h, e, c))
    | inr (n, c) ↦ ground (arith, h, e, c)
  ]
  | inr (error, e) ↦ absurd (ground (arith, h, e))
]

-- The programs on the scheduler's tracepoints (truetop-ebpf/src/main.rs), and that on the credentials.
abbrev pub scheduler_programs : List Text
scheduler_programs =
    codes "sched_switch"
    ∷ codes "sched_process_exec"
    ∷ codes "sched_process_fork"
    ∷ codes "sched_process_exit"
    ∷ []

abbrev pub credential_program : Text
credential_program = codes "commit_creds"

-- The maps that grow with the number of processes, each with its size.
abbrev pub sized_maps : ℕ → List (Text × ℕ)
sized_maps entries =
    (codes "CPU_NS", entries)
    ∷ (codes "IOWAIT_NS", entries)
    ∷ (codes "COMM_MAP", entries)
    ∷ (codes "SLEEP_SINCE", entries)
    ∷ []

-- The capacity that the user asks for, or the default for the topology.
abbrev pub wanted : Option ℕ → CpuCounts → ℕ
wanted none cpus = default_max_processes cpus.possible
wanted (some n) cpus = n

-- The links that are there, and the capacity that the kernel reports.
pub record IsSetUp (ebpf : Ebpf) (capacity : ℕ) (s : SetUp) : Type 0 where
  pub links : s.links ≡ scheduler_programs ++ (if s.warned then [] else credential_program ∷ [])
  pub runs : All (Runs ebpf) s.links
  pub capacity_eq : ebpf.capacity ≡ some capacity

finish-IsSetUp :
    (ebpf : Ebpf) (capacity : ℕ) (tried : List Text × Option AttachError)
    (creds : Option AttachError) (built : Built)
    → (tried.1 ≡ none → tried.0 ≡ tracepoints)
    → (tried.1 ≡ none → All (Runs ebpf) tried.0)
    → (creds ≡ none → Runs ebpf commit_creds)
    → (built ≡ collector capacity → ebpf.capacity ≡ some capacity)
    → (finish tried creds built).built ≡ collector capacity
    → IsSetUp ebpf capacity (finish tried creds built)
finish-IsSetUp ebpf capacity (links, some e) creds built all run own known h =
    absurd (ground (arith, h))
finish-IsSetUp ebpf capacity (links, none) (some e) built all run own known h = record {
  links = all refl ∙ sym (append-nil tracepoints);
  runs = run refl;
  capacity_eq = known h;
}
finish-IsSetUp ebpf capacity (links, none) none built all run own known h = record {
  links = ap (λ ls. ls ++ commit_creds ∷ []) (all refl);
  runs = All-snoc (Runs ebpf) links commit_creds (run refl) (own refl);
  capacity_eq = known h;
}

setup_collector-IsSetUp :
    (ebpf : Ebpf) (capacity : ℕ)
    → (setup_collector ebpf).built ≡ collector capacity
    → IsSetUp ebpf capacity (setup_collector ebpf)
unfolding setup_collector
setup_collector-IsSetUp ebpf capacity h =
    finish-IsSetUp ebpf capacity (attach_all ebpf tracepoints) (attach_creds ebpf) (built_on ebpf)
      (attach_all-links ebpf tracepoints) (attach_all-Runs ebpf tracepoints)
      (attach_creds-Runs ebpf) (built_on-capacity ebpf capacity) h

module _ (field_byte_offset : Text → Text → Option ℕ) (is_big_endian is_64_bit : Bool)
    (has_prev_state : Option Bool) (loader : LoadRequest → Option Ebpf) where
  -- The object was loaded with resolved globals and with the maps' sizes, and was set up.
  pub record IsAttached (entries capacity : ℕ) (s : SetUp) : Type 0 where
    pub globals : Globals
    pub resolved :
        resolve_globals field_byte_offset is_big_endian is_64_bit has_prev_state ≡ ok globals
    pub ebpf : Ebpf
    pub loaded : loader (record { globals = globals; max_entries = sized_maps entries }) ≡ some ebpf
    pub set_up : IsSetUp ebpf capacity s

  load_ebpf-of :
      (resolved : Loaded Globals) (entries : ℕ)
      → resolve_globals field_byte_offset is_big_endian is_64_bit has_prev_state ≡ resolved
      → load_ebpf field_byte_offset is_big_endian is_64_bit has_prev_state loader entries ≡ (
          resolved >>= λ globals. ok (
            loader (
              request field_byte_offset is_big_endian is_64_bit has_prev_state loader globals
                entries)))
  unfolding load_ebpf
  load_ebpf-of resolved entries h =
      ap
        (λ r. r >>= λ globals. ok (
          loader (
            request field_byte_offset is_big_endian is_64_bit has_prev_state loader globals
              entries)))
        h

  loaded-IsAttached :
      (entries capacity : ℕ) (globals : Globals) (answer : Option Ebpf)
      → resolve_globals field_byte_offset is_big_endian is_64_bit has_prev_state ≡ ok globals
      → loader
          (request field_byte_offset is_big_endian is_64_bit has_prev_state loader globals entries)
        ≡ answer
      → (set_up_loaded field_byte_offset is_big_endian is_64_bit has_prev_state loader
          (ok answer)).built
        ≡ collector capacity
      → IsAttached entries capacity (
          set_up_loaded field_byte_offset is_big_endian is_64_bit has_prev_state loader (ok answer))
  loaded-IsAttached entries capacity globals none resolved loaded h = absurd (ground (arith, h))
  loaded-IsAttached entries capacity globals (some ebpf) resolved loaded h = record {
    globals = globals;
    resolved = resolved;
    ebpf = ebpf;
    loaded = loaded;
    set_up = setup_collector-IsSetUp ebpf capacity h;
  }

  set_up-IsAttached :
      (entries capacity : ℕ) (resolved : Loaded Globals)
      → resolve_globals field_byte_offset is_big_endian is_64_bit has_prev_state ≡ resolved
      → (set_up_loaded field_byte_offset is_big_endian is_64_bit has_prev_state loader
          (load_ebpf field_byte_offset is_big_endian is_64_bit has_prev_state loader entries)).built
        ≡ collector capacity
      → IsAttached entries capacity (
          set_up_loaded field_byte_offset is_big_endian is_64_bit has_prev_state loader
            (load_ebpf field_byte_offset is_big_endian is_64_bit has_prev_state loader entries))
  set_up-IsAttached entries capacity (err e) resolved h =
      let h' =
        subst
          (λ l.
            (set_up_loaded field_byte_offset is_big_endian is_64_bit has_prev_state loader l).built
            ≡ collector capacity)
          (load_ebpf-of (err e) entries resolved) h in
      absurd (ground (arith, h'))
  set_up-IsAttached entries capacity (ok globals) resolved h =
      let loads = load_ebpf-of (ok globals) entries resolved in
      subst
        (λ l.
          IsAttached entries capacity
            (set_up_loaded field_byte_offset is_big_endian is_64_bit has_prev_state loader l))
        (sym loads)
        (loaded-IsAttached entries capacity globals _ resolved refl (
          subst
            (λ l.
              (set_up_loaded field_byte_offset is_big_endian is_64_bit has_prev_state loader
                l).built
              ≡ collector capacity)
            loads h))

  -- Where start-up gives a collector, the globals were resolved and the object was loaded with
  -- them and with the capacity that was asked for, or the default, for each of the four maps that
  -- grow with the processes; the programs on the switch, exec, fork and exit run, and that on the
  -- credentials too unless the user was warned; and the collector's capacity is the one that the
  -- kernel reports.
  pub attach_with-IsAttached :
      (cpus : CpuCounts) (max_processes : Option ℕ) (capacity : ℕ)
      → (attach_with field_byte_offset is_big_endian is_64_bit has_prev_state loader cpus
          max_processes).built
        ≡ collector capacity
      → IsAttached (wanted max_processes cpus) capacity (
          attach_with field_byte_offset is_big_endian is_64_bit has_prev_state loader cpus
            max_processes)
  unfolding attach_with
  attach_with-IsAttached cpus none capacity h =
      set_up-IsAttached (default_max_processes cpus.possible) capacity _ refl h
  attach_with-IsAttached cpus (some n) capacity h = set_up-IsAttached n capacity _ refl h
