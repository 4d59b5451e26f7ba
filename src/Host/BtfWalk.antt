-- ===== src/Host/BtfWalk.antt =====
-- The search for a field (truetop/src/btf.rs): it ends, and what it finds stands in the section.
use truetop.Common.{
  ℕ, zero, suc, ◌+◌, ◌*◌, ◌/◌, ◌≤◌, ◌<◌, ◌≡◌, refl, true, ◌&&◌, Option, some, List, arith, length,
  leb, leb→le, ◌==◌, Option-cases, Bool-cases, inl, inr,
}
use truetop.Common.Text.{Text, text_eq}
use truetop.Host.Btf.{
  Btf, Answer, ok, err, or_err, no_struct, no_field, u32_at, vlen_of, kind_of, kflag_of,
  kind_struct, extra_len, end_of, bit_off, string, has_name, find_member, field_walk, field_offset,
}

-- The positions of the records: the first, and behind each record the next.
pub data IsRecord (b : Btf) : ℕ → Type 0 where
  first : IsRecord b b.type_off
  next :
      {cur info : ℕ}
      → IsRecord b cur
      → cur + 12 ≤ end_of b
      → u32_at b (cur + 4) ≡ some info
      → IsRecord b (cur + 12 + extra_len (kind_of info) (vlen_of info))

module _ (from_utf8 : List ℕ → Option Text) where
  -- A member of the record at `cur` that has the field's name, and its offset in bytes.
  pub record IsMember (b : Btf) (cur : ℕ) (info : ℕ) (field : Text) (offset : ℕ) : Type 0 where
    pub index : ℕ
    pub name : ℕ
    pub bits : ℕ
    pub in_range : index < vlen_of info
    pub name_read : u32_at b (cur + 12 + index * 12) ≡ some name
    pub named : text_eq (string from_utf8 b name) field ≡ true
    pub bits_read : u32_at b (cur + 12 + index * 12 + 8) ≡ some bits
    pub offset_eq : offset ≡ bit_off (kflag_of info) bits / 8

  -- The struct that a search answers from.
  pub record IsFound (b : Btf) (struct_name field : Text) (offset : ℕ) : Type 0 where
    pub cur : ℕ
    pub info : ℕ
    pub is_record : IsRecord b cur
    pub inside : cur + 12 ≤ end_of b
    pub info_read : u32_at b (cur + 4) ≡ some info
    pub is_struct : kind_of info ≡ kind_struct
    pub struct_named : has_name from_utf8 b cur struct_name ≡ true
    pub member : IsMember b cur info field offset

  walk_ends :
      (fuel : ℕ) (b : Btf) (s f : Text) (cur : ℕ)
      → 0 < fuel
      → end_of b < cur + 12 * fuel
      → (answer : Answer ℕ) × (field_walk from_utf8 fuel b s f cur ≡ some answer)
  unfolding field_walk
  walk_ends zero b s f cur p h = absurd (omega arith)
  walk_ends (suc fuel) b s f cur p h = elim (Option-cases (u32_at b (cur + 4))) [
    | inl e ↦ rw (e, field_walk) (err no_struct, refl)
    | inr (info, e) ↦ elim (Bool-cases (leb (cur + 12) (end_of b))) [
      | inr out ↦ rw (e, out, field_walk) (err no_struct, refl)
      | inl inside ↦
          let le : cur + 12 ≤ end_of b = leb→le (cur + 12) (end_of b) inside in
          elim (Bool-cases (kind_of info == kind_struct && has_name from_utf8 b cur s)) [
            | inl found ↦ rw (e, inside, found, field_walk) (_, refl)
            | inr other ↦
                rw (e, inside, other, field_walk)
                  (walk_ends fuel b s f (cur + 12 + extra_len (kind_of info) (vlen_of info))
                    (omega arith) (omega arith))
          ]
    ]
  ]

  -- Whatever the bytes of the type information are, the search for a field ends within its fuel.
  pub field_offset_ends :
      (b : Btf) (s f : Text) → (answer : Answer ℕ) × (field_offset from_utf8 b s f ≡ some answer)
  unfolding field_offset
  field_offset_ends b s f =
      walk_ends (suc (length b.bytes)) b s f b.type_off (omega arith) (omega arith)

  find_member_sound :
      (n i : ℕ) (b : Btf) (cur info : ℕ) (field : Text) (offset : ℕ)
      → i + n ≤ vlen_of info
      → find_member from_utf8 b (cur + 12) (kflag_of info) field i n ≡ some offset
      → IsMember b cur info field offset
  unfolding find_member
  find_member_sound zero i b cur info field offset r h = ground arith
  find_member_sound (suc n) i b cur info field offset r h =
      elim (Option-cases (u32_at b (cur + 12 + i * 12))) [
        | inl e ↦
            find_member_sound n (i + 1) b cur info field offset (omega arith)
              (rw (e, find_member) at h)
        | inr (name, e) ↦ elim (Option-cases (u32_at b (cur + 12 + i * 12 + 8))) [
          | inl e' ↦
              find_member_sound n (i + 1) b cur info field offset (omega arith)
                (rw (e, e', find_member) at h)
          | inr (bits, e') ↦ elim (Bool-cases (text_eq (string from_utf8 b name) field)) [
            | inr other ↦
                find_member_sound n (i + 1) b cur info field offset (omega arith)
                  (rw (e, e', other, find_member) at h)
            | inl named ↦
                let found : some (bit_off (kflag_of info) bits / 8) ≡ some offset =
                  rw (e, e', named, find_member) at h in
                record {
                  index = i;
                  name = name;
                  bits = bits;
                  in_range = omega arith;
                  name_read = e;
                  named = named;
                  bits_read = e';
                  offset_eq = ground arith;
                }
          ]
        ]
      ]

  walk_sound :
      (fuel : ℕ) (b : Btf) (s f : Text) (cur offset : ℕ)
      → IsRecord b cur
      → field_walk from_utf8 fuel b s f cur ≡ some (ok offset)
      → IsFound b s f offset
  unfolding field_walk
  walk_sound zero b s f cur offset at h = ground arith
  walk_sound (suc fuel) b s f cur offset at h = elim (Option-cases (u32_at b (cur + 4))) [
    | inl e ↦
        let bad : some (err no_struct) ≡ some (ok offset) = rw (e, field_walk) at h in ground arith
    | inr (info, e) ↦ elim (Bool-cases (leb (cur + 12) (end_of b))) [
      | inr out ↦
          let bad : some (err no_struct) ≡ some (ok offset) = rw (e, out, field_walk) at h in
          ground arith
      | inl inside ↦
          let le : cur + 12 ≤ end_of b = leb→le (cur + 12) (end_of b) inside in
          elim (Bool-cases (kind_of info == kind_struct && has_name from_utf8 b cur s)) [
            | inr other ↦
                walk_sound fuel b s f _ offset (next at le e)
                  (rw (e, inside, other, field_walk) at h)
            | inl found ↦
                let hit : some (
                      or_err (find_member from_utf8 b (cur + 12) (kflag_of info) f 0 (vlen_of info))
                        no_field)
                    ≡ some (ok offset) =
                  rw (e, inside, found, field_walk) at h in
                record {
                  cur = cur;
                  info = info;
                  is_record = at;
                  inside = le;
                  info_read = e;
                  is_struct = ground arith;
                  struct_named = ground arith;
                  member =
                      find_member_sound (vlen_of info) 0 b cur info f offset (omega arith)
                        (ground arith);
                }
          ]
    ]
  ]

  -- An offset that the search of the type information answers is that of a member with the field's
  -- name in a struct with the struct's name, at the position of a record within the section.
  pub field_offset-IsFound :
      (b : Btf) (s f : Text) (offset : ℕ)
      → field_offset from_utf8 b s f ≡ some (ok offset)
      → IsFound b s f offset
  unfolding field_offset
  field_offset-IsFound b s f offset h =
      walk_sound (suc (length b.bytes)) b s f b.type_off offset first h
