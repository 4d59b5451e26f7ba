-- ===== src/Host/BtfExact.antt =====
-- The search for a field (truetop/src/btf.rs) against what a file of the format says.
use truetop.Common.{
  ℕ, zero, suc, ◌+◌, ◌*◌, ◌%◌, ◌≤◌, ◌<◌, ◌≡◌, refl, ap, sym, ◌∙◌, ==_ne, Bool, true, false, ◌&&◌,
  Option, some, List, [], ◌∷◌, ◌++◌, arith, length, length-append, All, leb, ◌==◌, if◌then◌else◌,
  Bool-cases, Option-cases, inl, inr,
}
use truetop.Common.Text.{Text, text_eq}
use truetop.Host.Btf.{
  Btf, err, or_err, no_struct, no_field, u32_at, vlen_of, kind_of, kflag_of, kind_struct, extra_len,
  end_of, bit_off, string, has_name, find_member, field_walk,
}
use truetop.Host.BtfFile.{
  Member, BtfType, struct_type, other_type, name_of, flag_of, kind_no, vlen_no, size_of,
  member_words, trailing_of, info_of, type_words, IsFormed, member_offset, field_of, words_behind,
}
use truetop.Host.BtfWords.{Words, moved-Words, Words-append}

-- The fields of the information word are read as they were written.
pub info_fields :
    (t : BtfType)
    → IsFormed t
    → (kind_of (info_of t) ≡ kind_no t)
      × (vlen_of (info_of t) ≡ vlen_no t)
      × (kflag_of (info_of t) ≡ (if flag_of t then 1 else 0))
info_fields t f = elim (Bool-cases (flag_of t)) [
  | inl e ↦ rw e (omega (arith, f.kind_small, f.vlen_small))
  | inr e ↦ rw e (omega (arith, f.kind_small, f.vlen_small))
]

read_at : (b : Btf) {cur cur' w : ℕ} → cur ≡ cur' → u32_at b cur ≡ some w → u32_at b cur' ≡ some w
read_at b {w = w} e h = (moved-Words b (w ∷ []) e (h, tt)).0

-- The words of the first type, and those of the rest.
pub record Stands (b : Btf) (cur : ℕ) (t : BtfType) (ts : List BtfType) : Type 0 where
  pub name_read : u32_at b cur ≡ some (name_of t)
  pub info_read : u32_at b (cur + 4) ≡ some (info_of t)
  pub size_read : u32_at b (cur + 8) ≡ some (size_of t)
  pub trailing_read : Words b (cur + 12) (trailing_of t)
  pub rest_read : Words b (cur + 12 + 4 * length (trailing_of t)) (type_words ts)

pub type-Stands :
    (b : Btf) (cur : ℕ) (t : BtfType) (ts : List BtfType)
    → Words b cur (type_words (t ∷ ts))
    → Stands b cur t ts
type-Stands b cur t ts h =
    let (trailing, rest) =
      Words-append b (cur + 12) (trailing_of t) (type_words ts)
        (moved-Words b (trailing_of t ++ type_words ts) (omega arith) h.1.1.1) in
    record {
      name_read = h.0;
      info_read = h.1.0;
      size_read = read_at b (omega arith) h.1.1.0;
      trailing_read = trailing;
      rest_read = rest;
    }

extra_len-words_behind : (kind n : ℕ) → extra_len kind n ≡ 4 * words_behind kind n
unfolding extra_len
extra_len-words_behind kind n = ground arith

-- The reader's next record is the next type.
pub step_exact :
    (t : BtfType)
    → IsFormed t
    → extra_len (kind_of (info_of t)) (vlen_of (info_of t)) ≡ 4 * length (trailing_of t)
step_exact t f =
    rw ((info_fields t f).0, (info_fields t f).1)
      (extra_len-words_behind (kind_no t) (vlen_no t) ∙ ap (λ n. 4 * n) (sym f.trailing_length))

pub length-type_words :
    (t : BtfType) (ts : List BtfType)
    → length (type_words (t ∷ ts)) ≡ 3 + length (trailing_of t) + length (type_words ts)
length-type_words t ts = omega (arith, length-append {0} (trailing_of t) (type_words ts))

bit_off_exact :
    (flag : Bool) (kflag bits : ℕ)
    → kflag ≡ (if flag then 1 else 0)
    → bit_off kflag bits ≡ (if flag then bits % 16777216 else bits)
bit_off_exact true kflag bits h = ground arith
bit_off_exact false kflag bits h = ground arith

module _ (from_utf8 : List ℕ → Option Text) (b : Btf) (flag : Bool) (kflag : ℕ)
    (flagged : kflag ≡ (if flag then 1 else 0)) (field : Text) (members : ℕ) where
  find_member_exact :
      (i : ℕ) (ms : List Member)
      → Words b (members + i * 12) (member_words ms)
      → find_member from_utf8 b members kflag field i (length ms)
        ≡ member_offset (string from_utf8 b) flag field ms
  unfolding find_member
  find_member_exact i [] h = refl
  find_member_exact i (m ∷ ms) h =
      let offset_read : u32_at b (members + i * 12 + 8) ≡ some m.offset =
        read_at b (omega arith) h.1.1.0 in
      let rest =
        find_member_exact (i + 1) ms (moved-Words b (member_words ms) (omega arith) h.1.1.1) in
      rw (h.0, offset_read, find_member) (rw (rest, bit_off_exact flag kflag m.offset flagged))

module _ (from_utf8 : List ℕ → Option Text) (b : Btf) (s f : Text) where
  field_step :
      (fuel cur name info : ℕ)
      → u32_at b cur ≡ some name
      → u32_at b (cur + 4) ≡ some info
      → cur + 12 ≤ end_of b
      → field_walk from_utf8 (suc fuel) b s f cur ≡ (
          if kind_of info == kind_struct && text_eq (string from_utf8 b name) s
          then some (
              or_err
                (find_member from_utf8 b (cur + 12) (kflag_of info) f 0 (vlen_of info))
                no_field)
          else field_walk from_utf8 fuel b s f (cur + 12 + extra_len (kind_of info) (vlen_of info)))
  unfolding field_walk
  field_step fuel cur name info n i le =
      let inside : leb (cur + 12) (end_of b) ≡ true = ground arith in
      rw (i, inside, field_walk) (rw (n, has_name) refl)

  field_walk_end :
      (fuel cur : ℕ)
      → end_of b ≡ cur
      → field_walk from_utf8 (suc fuel) b s f cur ≡ some (err no_struct)
  unfolding field_walk
  field_walk_end fuel cur e = elim (Option-cases (u32_at b (cur + 4))) [
    | inl no_info ↦ rw (no_info, field_walk) refl
    | inr (info, found) ↦
        let out : leb (cur + 12) (end_of b) ≡ false = ground arith in
        rw (found, out, field_walk) refl
  ]

  branch_exact :
      (fuel cur : ℕ) (t : BtfType) (ts : List BtfType)
      → IsFormed t
      → Stands b cur t ts
      → field_walk from_utf8 fuel b s f (cur + 12 + 4 * length (trailing_of t))
        ≡ some (field_of (string from_utf8 b) s f ts)
      → (if kind_of (info_of t) == kind_struct && text_eq (string from_utf8 b (name_of t)) s
          then some (
              or_err
                (find_member from_utf8 b
                  (cur + 12)
                  (kflag_of (info_of t))
                  f
                  0
                  (vlen_of (info_of t)))
                no_field)
          else field_walk from_utf8 fuel b s f
              (cur + 12 + extra_len (kind_of (info_of t)) (vlen_of (info_of t))))
        ≡ some (field_of (string from_utf8 b) s f (t ∷ ts))
  branch_exact fuel cur (struct_type name flag size members) ts formed st rest =
      let t : BtfType = struct_type name flag size members in
      let (kind, vlen, kflag) = info_fields t formed in
      let found =
        find_member_exact from_utf8 b flag (kflag_of (info_of t)) kflag f (cur + 12) 0 members
          (moved-Words b (member_words members) (omega arith) st.trailing_read) in
      elim (Bool-cases (text_eq (string from_utf8 b name) s)) [
        | inl e ↦ rw (e, kind, vlen, found) refl
        | inr e ↦ rw (e, step_exact t formed, rest, kind) refl
      ]
  branch_exact fuel cur (other_type name flag kind vlen size trailing) ts formed st rest =
      let t : BtfType = other_type name flag kind vlen size trailing in
      let other : (kind_of (info_of t) == kind_struct) ≡ false =
        rw (info_fields t formed).0 (==_ne kind 4 formed.no_struct_kind) in
      rw (other, step_exact t formed, rest) refl

  pub field_walk_exact :
      (fuel cur : ℕ) (ts : List BtfType)
      → end_of b < cur + 12 * fuel
      → 0 < fuel
      → All IsFormed ts
      → Words b cur (type_words ts)
      → end_of b ≡ cur + 4 * length (type_words ts)
      → field_walk from_utf8 fuel b s f cur ≡ some (field_of (string from_utf8 b) s f ts)
  field_walk_exact zero cur ts enough p formed h e = absurd (omega arith)
  field_walk_exact (suc fuel) cur [] enough p formed h e = field_walk_end fuel cur (omega arith)
  field_walk_exact (suc fuel) cur (t ∷ ts) enough p formed h e =
      let st = type-Stands b cur t ts h in
      let long = length-type_words t ts in
      let rest =
        field_walk_exact fuel (cur + 12 + 4 * length (trailing_of t)) ts (omega arith) (omega arith)
          formed.1 st.rest_read (omega arith) in
      field_step fuel cur (name_of t) (info_of t) st.name_read st.info_read (omega arith)
      ∙ branch_exact fuel cur t ts formed.0 st rest
