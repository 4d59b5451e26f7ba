-- ===== src/Host/BtfProto.antt =====
-- The parameters of a tracepoint (truetop/src/btf.rs): the search ends, and follows a typedef and a
-- pointer to a prototype.
use mathlib.Core.Path.{subst}
use truetop.Common.{
  ℕ, zero, suc, ◌+◌, ◌*◌, ◌≤◌, ◌<◌, ◌≡◌, ◌≢◌, ◌⊎◌, refl, true, ◌&&◌, Option, some, List, [], ◌∷◌,
  arith, length, get_elem?, leb, leb→le, ◌==◌, Option-cases, Bool-cases, inl, inr, All,
}
use truetop.Common.Text.{Text, text_eq}
use truetop.Host.Btf.{Btf, BtfError, Answer, ok, err, u32_at, vlen_of, kind_of, extra_len, end_of}
use truetop.Host.BtfTypes.{
  kind_at, vlen_at, type_walk, type_offsets, referent, kind_ptr, kind_typedef, kind_func_proto,
  type_name, find_type, proto_params, tracepoint_proto_params,
}
use truetop.Host.BtfWalk.{IsRecord, first, next}

type_walk_ends :
    (fuel : ℕ) (b : Btf) (cur : ℕ)
    → 0 < fuel
    → end_of b < cur + 12 * fuel
    → IsRecord b cur
    → (offsets : List ℕ) × (type_walk fuel b cur ≡ some offsets) × All (IsRecord b) offsets
unfolding type_walk
type_walk_ends zero b cur p h at = absurd (omega arith)
type_walk_ends (suc fuel) b cur p h at = elim (Bool-cases (leb (cur + 12) (end_of b))) [
  | inr out ↦ elim (Option-cases (u32_at b (cur + 4))) [
    | inl e ↦ rw (e, out, type_walk) ([], refl, tt)
    | inr (info, e) ↦ rw (e, out, type_walk) ([], refl, tt)
  ]
  | inl inside ↦
      let le : cur + 12 ≤ end_of b = leb→le (cur + 12) (end_of b) inside in
      elim (Option-cases (u32_at b (cur + 4))) [
        | inl e ↦ rw (e, inside, type_walk) (cur ∷ [], refl, (at, tt))
        | inr (info, e) ↦
            let step = extra_len (kind_of info) (vlen_of info) in
            let (offsets, walked, records) =
              type_walk_ends fuel b (cur + 12 + step) (omega arith) (omega arith) (next at le e) in
            rw (e, inside, walked, type_walk) (cur ∷ offsets, refl, (at, records))
      ]
]

-- Whatever the bytes are, the table of types is built within its fuel: 0, then positions of records.
pub type_offsets_lem :
    (b : Btf)
    → (offsets : List ℕ) × (type_offsets b ≡ some (0 ∷ offsets)) × All (IsRecord b) offsets
unfolding type_offsets
type_offsets_lem b =
    let (offsets, walked, records) =
      type_walk_ends (suc (length b.bytes)) b b.type_off (omega arith) (omega arith) first in
    (offsets, rw walked refl, records)

-- A reference from one record to another of a kind, through the table.
pub record Refers (b : Btf) (offsets : List ℕ) (off expected dst : ℕ) : Type 0 where
  pub number : ℕ
  pub read : u32_at b (off + 8) ≡ some number
  pub entry : get_elem? offsets number ≡ some dst
  pub not_void : dst ≢ 0
  pub kind : kind_at b dst ≡ expected

referent-Refers :
    (b : Btf) (offsets : List ℕ) (off expected dst : ℕ)
    → referent b offsets off expected ≡ ok dst
    → Refers b offsets off expected dst
unfolding referent
referent-Refers b offsets off expected dst h = elim (Option-cases (u32_at b (off + 8))) [
  | inl e ↦ absurd (ground (arith, rw (e, referent) at h))
  | inr (number, e) ↦ elim (Option-cases (get_elem? offsets number)) [
    | inl e' ↦ absurd (ground (arith, rw (e, e', referent) at h))
    | inr (o, e') ↦ record {
      number = number;
      read = e;
      entry = ground (arith, e', rw (e, e', referent) at h);
      not_void = ground (arith, rw (e, e', referent) at h);
      kind = ground (arith, rw (e, e', referent) at h);
    }
  ]
]

module _ (from_utf8 : List ℕ → Option Text) where
  find_type-IsRecord :
      (b : Btf) (offsets : List ℕ) (kind : ℕ) (name : Text) (off : ℕ)
      → All (IsRecord b) offsets
      → find_type from_utf8 b offsets kind name ≡ some off
      → IsRecord b off × (kind_at b off ≡ kind) × (text_eq (type_name from_utf8 b off) name ≡ true)
  unfolding find_type
  find_type-IsRecord b [] kind name off records h = absurd (ground arith)
  find_type-IsRecord b (o ∷ offsets) kind name off records h =
      elim (Bool-cases (kind_at b o == kind && text_eq (type_name from_utf8 b o) name)) [
        | inr other ↦
            find_type-IsRecord b offsets kind name off records.1 (rw (other, find_type) at h)
        | inl hit ↦
            let here : some o ≡ some off = rw (hit, find_type) at h in
            let same : o ≡ off = ground arith in
            subst
              (λ x.
                IsRecord b x
                × (kind_at b x ≡ kind)
                × (text_eq (type_name from_utf8 b x) name ≡ true))
              same (records.0, ground arith, ground arith)
      ]

  -- The chain that a count of parameters is read from.
  pub record IsPrototype (b : Btf) (name : Text) (params : ℕ) : Type 0 where
    pub offsets : List ℕ
    pub typedef : ℕ
    pub pointer : ℕ
    pub prototype : ℕ
    pub table : type_offsets b ≡ some (0 ∷ offsets)
    pub is_record : IsRecord b typedef
    pub is_typedef : kind_at b typedef ≡ kind_typedef
    pub named : text_eq (type_name from_utf8 b typedef) name ≡ true
    pub to_pointer : Refers b (0 ∷ offsets) typedef kind_ptr pointer
    pub to_prototype : Refers b (0 ∷ offsets) pointer kind_func_proto prototype
    pub params_eq : params ≡ vlen_at b prototype

  Answer-cases : (a : Answer ℕ) → ((v : ℕ) × (a ≡ ok v)) ⊎ ((e : BtfError) × (a ≡ err e))
  Answer-cases (ok v) = inl (v, refl)
  Answer-cases (err e) = inr (e, refl)

  -- A count of parameters is that of a prototype behind a pointer behind a typedef of the
  -- tracepoint's name, which is a record of the section.
  pub tracepoint_proto_params-IsPrototype :
      (b : Btf) (name : Text) (params : ℕ)
      → tracepoint_proto_params from_utf8 b name ≡ some (ok params)
      → IsPrototype b name params
  unfolding tracepoint_proto_params proto_params
  tracepoint_proto_params-IsPrototype b name params h =
      let (offsets, table, records) = type_offsets_lem b in
      let counted : proto_params from_utf8 b name (0 ∷ offsets) ≡ ok params =
        ground (arith, rw (table, tracepoint_proto_params) at h) in
      elim (Option-cases (find_type from_utf8 b offsets kind_typedef name)) [
        | inl e ↦ absurd (ground (arith, rw (e, proto_params) at counted))
        | inr (typedef, e) ↦
            let (is_record, is_typedef, named) =
              find_type-IsRecord b offsets kind_typedef name typedef records e in
            elim (Answer-cases (referent b (0 ∷ offsets) typedef kind_ptr)) [
              | inr (bad, e') ↦ absurd (ground (arith, rw (e, e', proto_params) at counted))
              | inl (pointer, e') ↦
                  elim (Answer-cases (referent b (0 ∷ offsets) pointer kind_func_proto)) [
                    | inr (bad, e'') ↦
                        absurd (ground (arith, rw (e, e', e'', proto_params) at counted))
                    | inl (prototype, e'') ↦ record {
                      offsets = offsets;
                      typedef = typedef;
                      pointer = pointer;
                      prototype = prototype;
                      table = table;
                      is_record = is_record;
                      is_typedef = is_typedef;
                      named = named;
                      to_pointer = referent-Refers b _ typedef kind_ptr pointer e';
                      to_prototype = referent-Refers b _ pointer kind_func_proto prototype e'';
                      params_eq = ground (arith, rw (e, e', e'', proto_params) at counted);
                    }
                  ]
            ]
      ]
