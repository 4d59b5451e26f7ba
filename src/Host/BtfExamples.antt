-- ===== src/Host/BtfExamples.antt =====
-- The reader of the type information at concrete files.
use truetop.Common.{ℕ, ◌≡◌, refl, Bool, true, false, some, arith, ◌++◌, All, List, [], ◌∷◌}
use truetop.Common.Text.{codes}
use truetop.Metrics.Identity.{before_nul}
use truetop.Host.Btf.{
  Btf, Answer, ok, err, no_field, no_struct, field_offset, field_byte_offset, u32_at, string,
}
use truetop.Host.BtfWalk.{IsRecord, IsFound, field_offset_ends, field_offset-IsFound}
use truetop.Host.BtfTypes.{type_offsets, tracepoint_proto_params, sched_switch_has_prev_state}
use truetop.Host.BtfProto.{type_offsets_lem, IsPrototype, tracepoint_proto_params-IsPrototype}
use truetop.Common.{replicate, false}
use truetop.Kernel.Task.{Globals}
use truetop.Host.Startup
use truetop.Host.Injected.{load_globals, load_globals_exact}
use truetop.Host.BtfFile.{btf_file, BtfType, struct_type, other_type, IsFormed}
use truetop.Host.BtfRead.{field_byte_offset_exact}
use truetop.Host.BtfParams.{sched_switch_has_prev_state_exact}
use truetop.Host.BtfSamples.{
  sample_btf, sample_strings, sample_types, sample_btf-btf_file, sample_types-IsFormed,
  tracepoint_strings, tracepoint_types, tracepoint_types-IsFormed, other-IsFormed, struct-IsFormed,
}

-- A struct `s` whose member `f` is at bit 64.
abbrev struct_types : Btf
struct_types = record {
  bytes =
      (1 ∷ 0 ∷ 0 ∷ 0 ∷ 1 ∷ 0 ∷ 0 ∷ 4 ∷ 8 ∷ 0 ∷ 0 ∷ 0 ∷ [])
      ++ (3 ∷ 0 ∷ 0 ∷ 0 ∷ 1 ∷ 0 ∷ 0 ∷ 0 ∷ 64 ∷ 0 ∷ 0 ∷ 0 ∷ [])
      ++ (0 ∷ b's' ∷ 0 ∷ b'f' ∷ 0 ∷ []);
  le = true;
  type_off = 0;
  type_len = 24;
  str_off = 24;
}

field_offset_ends_example :
    (answer : Answer ℕ) × (field_offset some struct_types (codes "s") (codes "f") ≡ some answer)
field_offset_ends_example = field_offset_ends some struct_types (codes "s") (codes "f")

field_offset-IsFound_example : IsFound some struct_types (codes "s") (codes "f") 8
unfolding u32_at before_nul
field_offset-IsFound_example =
    field_offset-IsFound some struct_types (codes "s") (codes "f") 8 (unfold field_offset in refl)

-- A typedef `s` of a pointer to a prototype of five parameters.
abbrev proto_types : Btf
proto_types = record {
  bytes =
      (1 ∷ 0 ∷ 0 ∷ 0 ∷ 0 ∷ 0 ∷ 0 ∷ 8 ∷ 2 ∷ 0 ∷ 0 ∷ 0 ∷ [])
      ++ (0 ∷ 0 ∷ 0 ∷ 0 ∷ 0 ∷ 0 ∷ 0 ∷ 2 ∷ 3 ∷ 0 ∷ 0 ∷ 0 ∷ [])
      ++ (0 ∷ 0 ∷ 0 ∷ 0 ∷ 5 ∷ 0 ∷ 0 ∷ 13 ∷ 0 ∷ 0 ∷ 0 ∷ 0 ∷ [])
      ++ (0 ∷ b's' ∷ 0 ∷ []);
  le = true;
  type_off = 0;
  type_len = 36;
  str_off = 36;
}

type_offsets_lem_example :
    (offsets : List ℕ) × (type_offsets proto_types ≡ some (0 ∷ offsets))
    × All (IsRecord proto_types) offsets
type_offsets_lem_example = type_offsets_lem proto_types

tracepoint_proto_params-IsPrototype_example : IsPrototype some proto_types (codes "s") 5
unfolding u32_at string before_nul
tracepoint_proto_params-IsPrototype_example =
    tracepoint_proto_params-IsPrototype some proto_types (codes "s") 5
      (unfold tracepoint_proto_params in refl)

field_byte_offset_exact_example :
    field_byte_offset some
      (some (btf_file false sample_types sample_strings))
      (codes "task")
      (codes "tgid")
    ≡ some (ok 4)
unfolding before_nul
field_byte_offset_exact_example =
    field_byte_offset_exact some false sample_types sample_strings (codes "task") (codes "tgid")
      sample_types-IsFormed (omega arith)

sched_switch_has_prev_state_exact_example :
    sched_switch_has_prev_state some (some (btf_file true (tracepoint_types 4) tracepoint_strings))
    ≡ some (ok false)
unfolding before_nul
sched_switch_has_prev_state_exact_example =
    sched_switch_has_prev_state_exact some true (tracepoint_types 4) tracepoint_strings
      (tracepoint_types-IsFormed 4 (omega arith)) (omega arith)

-- A kernel's file: the structs that the programs read, and the prototype of the tracepoint.
abbrev kernel_strings : List ℕ
kernel_strings =
    (0 ∷ codes "task_struct")
    ++ ((0 ∷ codes "pid")
        ++ ((0 ∷ codes "tgid")
            ++ ((0 ∷ codes "signal")
                ++ ((0 ∷ codes "__state")
                    ++ ((0 ∷ codes "signal_struct")
                        ++ ((0 ∷ codes "live")
                            ++ ((0 ∷ codes "cred")
                                ++ ((0 ∷ codes "uid")
                                    ++ ((0 ∷ codes "btf_trace_sched_switch") ++ 0 ∷ [])))))))))

abbrev kernel_types : List BtfType
kernel_types =
    other_type 0 false 1 0 4 (0 ∷ [])
    ∷ other_type 0 false 13 5 0 (replicate 10 0)
    ∷ other_type 0 false 2 0 2 []
    ∷ other_type 65 false 8 0 3 []
    ∷ struct_type 1 false 9000 (
        record { name = 29; type_id = 1; offset = 192 }
        ∷ record { name = 13; type_id = 1; offset = 18112 }
        ∷ record { name = 17; type_id = 1; offset = 18144 }
        ∷ record { name = 22; type_id = 1; offset = 24000 }
        ∷ [])
    ∷ struct_type 37 false 1000 (record { name = 51; type_id = 1; offset = 64 } ∷ [])
    ∷ struct_type 56 false 200 (record { name = 61; type_id = 1; offset = 32 } ∷ [])
    ∷ []

kernel_types-IsFormed : All IsFormed kernel_types
kernel_types-IsFormed = (
  other-IsFormed 0 1 0 4 _ (omega arith) (omega arith) (omega arith) (omega arith) (omega arith)
      refl,
  (
    other-IsFormed 0 13 5 0 _ (omega arith) (omega arith) (omega arith) (omega arith) (omega arith)
        refl,
    (
      other-IsFormed 0 2 0 2 _ (omega arith) (omega arith) (omega arith) (omega arith) (omega arith)
          refl,
      (
        other-IsFormed 65 8 0 3 _ (omega arith) (omega arith) (omega arith) (omega arith)
            (omega arith) refl,
        (
          struct-IsFormed 1 9000 _ (omega arith) (omega arith) (omega arith),
          (
            struct-IsFormed 37 1000 _ (omega arith) (omega arith) (omega arith),
            (struct-IsFormed 56 200 _ (omega arith) (omega arith) (omega arith), tt),
          ),
        ),
      ),
    ),
  ),
)

abbrev kernel_globals : Globals
kernel_globals = record {
  pid_offset = 2264;
  tgid_offset = 2268;
  state_offset = 24;
  signal_offset = 3000;
  live_offset = 8;
  cred_uid_offset = 4;
  has_prev_state = 1;
  is_big_endian = false;
}

load_globals_exact_example :
    load_globals some (some (btf_file true kernel_types kernel_strings)) false true
    ≡ Startup.ok kernel_globals
unfolding before_nul
load_globals_exact_example =
    load_globals_exact some true kernel_types kernel_strings kernel_globals true 5
      kernel_types-IsFormed (omega arith)
      (record {
        pid = refl;
        tgid = refl;
        signal = refl;
        live = refl;
        cred_uid = refl;
        state = refl;
        prototype = refl;
        prev_state = refl;
      })
      refl

-- The repository's tests of `field_offset`, in both byte orders.
resolves_field_offset :
    (le : Bool)
    → (field_byte_offset some (some (sample_btf le)) (codes "task") (codes "pid") ≡ some (ok 0))
      × (field_byte_offset some (some (sample_btf le)) (codes "task") (codes "tgid") ≡ some (ok 4))
unfolding before_nul
resolves_field_offset le = rw (sample_btf-btf_file le) (
  field_byte_offset_exact some le sample_types sample_strings (codes "task") (codes "pid")
      sample_types-IsFormed (omega arith),
  field_byte_offset_exact some le sample_types sample_strings (codes "task") (codes "tgid")
      sample_types-IsFormed (omega arith),
)

unknown_field_is_error :
    field_byte_offset some (some (sample_btf true)) (codes "task") (codes "missing")
    ≡ some (err no_field)
unfolding before_nul
unknown_field_is_error = rw (sample_btf-btf_file true) (
    field_byte_offset_exact some true sample_types sample_strings (codes "task") (codes "missing")
      sample_types-IsFormed (omega arith))

unknown_struct_is_error :
    field_byte_offset some (some (sample_btf true)) (codes "missing") (codes "pid")
    ≡ some (err no_struct)
unfolding before_nul
unknown_struct_is_error = rw (sample_btf-btf_file true) (
    field_byte_offset_exact some true sample_types sample_strings (codes "missing") (codes "pid")
      sample_types-IsFormed (omega arith))
