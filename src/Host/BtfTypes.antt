-- ===== src/Host/BtfTypes.antt =====
-- truetop/src/btf.rs: the types by number, and the parameters of a tracepoint's prototype.
use truetop.Common.{
  ℕ, zero, suc, ◌+◌, Bool, ◌&&◌, Option, none, some, List, [], ◌∷◌, length, get_elem?, leb, ◌==◌,
  if◌then◌else◌,
}
use truetop.Common.Text.{Text, codes, text_eq}
use truetop.Host.Btf.{
  Btf, unavailable, Answer, ok, err, or_err, ◌>>=◌, no_typedef, truncated_type, dangling_reference,
  unexpected_kind, u32_at, vlen_of, kind_of, extra_len, end_of, string, from_bytes,
}

unfoldable pub kind_at : Btf → ℕ → ℕ
kind_at b off = elim (u32_at b (off + 4)) [ none ↦ 0 | some info ↦ kind_of info ]

unfoldable pub vlen_at : Btf → ℕ → ℕ
vlen_at b off = elim (u32_at b (off + 4)) [ none ↦ 0 | some info ↦ vlen_of info ]

abbrev pub cons_to : ℕ → Option (List ℕ) → Option (List ℕ)
cons_to off none = none
cons_to off (some offsets) = some (off ∷ offsets)

-- The loop of `type_offsets`; `none` is out of fuel.
unfoldable pub type_walk : ℕ → Btf → ℕ → Option (List ℕ)
unfolding extra_len
type_walk zero b cur = none
type_walk (suc fuel) b cur = elim (u32_at b (cur + 4)) [
  | none ↦ some (if leb (cur + 12) (end_of b) then cur ∷ [] else [])
  | some info ↦
      let rest = type_walk fuel b (cur + 12 + extra_len (kind_of info) (vlen_of info)) in
      if leb (cur + 12) (end_of b) then cons_to cur rest else some []
]

-- The records in order, behind the 0 of the type number 0.
unfoldable pub type_offsets : Btf → Option (List ℕ)
unfolding type_walk
type_offsets b = cons_to 0 (type_walk (suc (length b.bytes)) b b.type_off)

-- `filter(|&o| o != 0)`.
abbrev pub not_zero : Option ℕ → Option ℕ
not_zero none = none
not_zero (some o) = if o == 0 then none else some o

unfoldable pub referent : Btf → List ℕ → ℕ → ℕ → Answer ℕ
unfolding kind_at
referent b offsets off expected = do
  target ← or_err (u32_at b (off + 8)) truncated_type
  dst ← or_err (not_zero (get_elem? offsets target)) dangling_reference
  if kind_at b dst == expected then ok dst else err unexpected_kind

abbrev pub kind_ptr : ℕ
kind_ptr = 2

abbrev pub kind_typedef : ℕ
kind_typedef = 8

abbrev pub kind_func_proto : ℕ
kind_func_proto = 13

module _ (from_utf8 : List ℕ → Option Text) where
  unfoldable pub type_name : Btf → ℕ → Text
  type_name b off = elim (u32_at b off) [ none ↦ [] | some n ↦ string from_utf8 b n ]

  -- The first record of a kind and a name; `skip(1)` is done by the caller.
  unfoldable pub find_type : Btf → List ℕ → ℕ → Text → Option ℕ
  unfolding kind_at type_name
  find_type b [] kind name = none
  find_type b (off ∷ offsets) kind name =
      let rest = find_type b offsets kind name in
      if kind_at b off == kind && text_eq (type_name b off) name then some off else rest

  abbrev pub skip_one : List ℕ → List ℕ
  skip_one [] = []
  skip_one (o ∷ os) = os

  unfoldable pub proto_params : Btf → Text → List ℕ → Answer ℕ
  unfolding find_type referent vlen_at
  proto_params b name offsets = do
    typedef ← or_err (find_type b (skip_one offsets) kind_typedef name) no_typedef
    pointer ← referent b offsets typedef kind_ptr
    prototype ← referent b offsets pointer kind_func_proto
    ok (vlen_at b prototype)

  unfoldable pub tracepoint_proto_params : Btf → Text → Option (Answer ℕ)
  unfolding type_offsets proto_params
  tracepoint_proto_params b name = elim (type_offsets b) [
    | none ↦ none
    | some offsets ↦ some (proto_params b name offsets)
  ]

  abbrev pub at_least_five : Answer ℕ → Answer Bool
  at_least_five (ok params) = ok (leb 5 params)
  at_least_five (err e) = err e

  unfoldable pub sched_switch_has_prev_state : Option (List ℕ) → Option (Answer Bool)
  unfolding tracepoint_proto_params from_bytes
  sched_switch_has_prev_state none = some (err unavailable)
  sched_switch_has_prev_state (some content) = elim (from_bytes content) [
    | err e ↦ some (err e)
    | ok b ↦ elim (tracepoint_proto_params b (codes "btf_trace_sched_switch")) [
      | none ↦ none
      | some answer ↦ some (at_least_five answer)
    ]
  ]
