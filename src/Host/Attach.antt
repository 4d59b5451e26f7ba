-- ===== src/Host/Attach.antt =====
-- truetop/src/lib.rs: loading and attaching. What the loader and the kernel answer is a parameter.
use truetop.Common.{ℕ, Bool, true, false, Option, none, some, List, [], ◌∷◌, ◌++◌, if◌then◌else◌}
use truetop.Common.Text.{Text, codes}
use truetop.Kernel.Task.{Globals}
use truetop.Host.System.{
  CpuCounts, Topology, counted, unreadable_possible, unreadable_online, implausible, detect,
}
use truetop.Host.Startup.{LoadError, Loaded, ok, err, ◌>>=◌, resolve_globals, default_max_processes}

pub data ProgramKind : Type 0 where
  raw_tracepoint fentry other_program : ProgramKind

-- A map of the object: one of the two per-CPU kinds, or another by a number.
pub data MapKind : Type 0 where
  per_cpu_hash_map per_cpu_lru_hash_map : MapKind
  other_map : ℕ → MapKind

-- The maps of aya that others are converted to.
pub data Target : Type 0 where
  to_hash_map to_ring_buf to_per_cpu_array : Target

pub data AttachError : Type 0 where
  resolving : LoadError → AttachError
  loading_object reading_btf no_capacity : AttachError
  program_not_found wrong_program loading attaching : Text → AttachError
  map_not_found not_per_cpu_hash wrong_map : Text → AttachError

-- The loaded object, and what the kernel answers about it. `capacity` is that of `CPU_NS` in the
-- kernel's own information, if it gives any.
pub record Ebpf : Type 0 where
  pub program : Text → Option ProgramKind
  pub map_of : Text → Option MapKind
  pub converts : Target → MapKind → Bool
  pub loads : Text → Bool
  pub attaches : Text → Bool
  pub has_btf : Bool
  pub capacity : Option ℕ

-- What is asked of the loader: the globals, and the sizes of the maps that are given one.
pub record LoadRequest : Type 0 where
  pub globals : Globals
  pub max_entries : List (Text × ℕ)

-- How an attachment goes: an error, or none.
abbrev pub is_raw : ProgramKind → Bool
is_raw raw_tracepoint = true
is_raw fentry = false
is_raw other_program = false

abbrev pub is_fentry : ProgramKind → Bool
is_fentry raw_tracepoint = false
is_fentry fentry = true
is_fentry other_program = false

unfoldable pub attach_program : (ProgramKind → Bool) → Ebpf → Text → Option AttachError
attach_program is_kind ebpf name = elim (ebpf.program name) [
  | none ↦ some (program_not_found name)
  | some kind ↦
      if is_kind kind
      then (if ebpf.loads name
          then (if ebpf.attaches name then none else some (attaching name))
          else some (loading name))
      else some (wrong_program name)
]

abbrev pub attach_raw_tracepoint : Ebpf → Text → Option AttachError
attach_raw_tracepoint ebpf name = attach_program is_raw ebpf name

abbrev pub commit_creds : Text
commit_creds = codes "commit_creds"

unfoldable pub attach_creds : Ebpf → Option AttachError
unfolding attach_program
attach_creds ebpf =
    if ebpf.has_btf then attach_program is_fentry ebpf commit_creds else some reading_btf

abbrev pub tracepoints : List Text
tracepoints =
    codes "sched_switch"
    ∷ codes "sched_process_exec"
    ∷ codes "sched_process_fork"
    ∷ codes "sched_process_exit"
    ∷ []

-- The links behind one that was tried.
abbrev pub linked :
    Text → Option AttachError → List Text × Option AttachError → List Text × Option AttachError
linked name none (links, error) = (name ∷ links, error)
linked name (some e) rest = ([], some e)

-- The links that are made, in order, up to the first error.
unfoldable pub attach_all : Ebpf → List Text → List Text × Option AttachError
unfolding attach_program
attach_all ebpf [] = ([], none)
attach_all ebpf (name ∷ names) =
    linked name (attach_raw_tracepoint ebpf name) (attach_all ebpf names)

abbrev pub is_per_cpu : MapKind → Bool
is_per_cpu per_cpu_hash_map = true
is_per_cpu per_cpu_lru_hash_map = true
is_per_cpu (other_map n) = false

unfoldable pub take_percpu_map : Ebpf → Text → Option AttachError
take_percpu_map ebpf name = elim (ebpf.map_of name) [
  | none ↦ some (map_not_found name)
  | some kind ↦ if is_per_cpu kind then none else some (not_per_cpu_hash name)
]

unfoldable pub take_map : Ebpf → Target → Text → Option AttachError
take_map ebpf target name = elim (ebpf.map_of name) [
  | none ↦ some (map_not_found name)
  | some kind ↦ if ebpf.converts target kind then none else some (wrong_map name)
]

abbrev pub first_error : List (Option AttachError) → Option AttachError
first_error [] = none
first_error (none ∷ more) = first_error more
first_error (some e ∷ more) = some e

unfoldable pub take_maps : Ebpf → Option AttachError
unfolding take_percpu_map take_map
take_maps ebpf = first_error (
    take_percpu_map ebpf (codes "CPU_NS")
    ∷ take_percpu_map ebpf (codes "IOWAIT_NS")
    ∷ take_map ebpf to_hash_map (codes "COMM_MAP")
    ∷ take_map ebpf to_ring_buf (codes "EXITS")
    ∷ take_map ebpf to_per_cpu_array (codes "START_TIME")
    ∷ take_map ebpf to_per_cpu_array (codes "CURRENT_TGID")
    ∷ [])

-- What a set-up leaves: the links, whether the user was warned, and the collector's capacity or the error.
pub data Built : Type 0 where
  collector : ℕ → Built
  fails : AttachError → Built

pub record SetUp : Type 0 where
  pub links : List Text
  pub warned : Bool
  pub built : Built

unfoldable pub built_on : Ebpf → Built
unfolding take_maps
built_on ebpf = elim (take_maps ebpf) [
  | some e ↦ fails e
  | none ↦ elim ebpf.capacity [ none ↦ fails no_capacity | some capacity ↦ collector capacity ]
]

-- What follows the tracepoints; an error of `attach_creds` only warns.
abbrev pub finish : List Text × Option AttachError → Option AttachError → Built → SetUp
finish (links, some e) creds built = record { links = links; warned = false; built = fails e }
finish (links, none) (some e) built = record { links = links; warned = true; built = built }
finish (links, none) none built = record {
  links = links ++ commit_creds ∷ [];
  warned = false;
  built = built;
}

unfoldable pub setup_collector : Ebpf → SetUp
unfolding attach_all attach_creds built_on
setup_collector ebpf = finish (attach_all ebpf tracepoints) (attach_creds ebpf) (built_on ebpf)

-- `loader` loads the object for a request; the type information answers as in `resolve_globals`.
module _ (field_byte_offset : Text → Text → Option ℕ) (is_big_endian is_64_bit : Bool)
    (has_prev_state : Option Bool) (loader : LoadRequest → Option Ebpf) where
  abbrev pub request : Globals → ℕ → LoadRequest
  request globals max_processes = record {
    globals = globals;
    max_entries =
        (codes "CPU_NS", max_processes)
        ∷ (codes "IOWAIT_NS", max_processes)
        ∷ (codes "COMM_MAP", max_processes)
        ∷ (codes "SLEEP_SINCE", max_processes)
        ∷ [];
  }

  unfoldable pub load_ebpf : ℕ → Loaded (Option Ebpf)
  unfolding resolve_globals
  load_ebpf max_processes = do
    globals ← resolve_globals field_byte_offset is_big_endian is_64_bit has_prev_state
    ok (loader (request globals max_processes))

  abbrev pub entries_of : Option ℕ → ℕ → ℕ
  entries_of none possible = default_max_processes possible
  entries_of (some n) possible = n

  abbrev pub set_up_loaded : Loaded (Option Ebpf) → SetUp
  set_up_loaded (err e) = record { links = []; warned = false; built = fails (resolving e) }
  set_up_loaded (ok none) = record { links = []; warned = false; built = fails loading_object }
  set_up_loaded (ok (some ebpf)) = setup_collector ebpf

  unfoldable pub attach_with : CpuCounts → Option ℕ → SetUp
  unfolding load_ebpf setup_collector default_max_processes
  attach_with cpus max_processes =
      set_up_loaded (load_ebpf (entries_of max_processes cpus.possible))

  abbrev attach_counted : Topology → Option ℕ → Option SetUp
  attach_counted (counted cpus) max_processes = some (attach_with cpus max_processes)
  attach_counted unreadable_possible max_processes = none
  attach_counted unreadable_online max_processes = none
  attach_counted implausible max_processes = none

  -- `attach_with_capacity`, and `attach` for no capacity; `none` where no topology is found.
  unfoldable pub attach_with_capacity : (possible online : Option ℕ) → Option ℕ → Option SetUp
  unfolding detect attach_with
  attach_with_capacity possible online max_processes =
      attach_counted (detect possible online) max_processes
