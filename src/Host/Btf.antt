-- ===== src/Host/Btf.antt =====
-- truetop/src/btf.rs: the reader of the kernel's type information. The file is its bytes; usize has 64
-- bits, so that sums of 32-bit words do not wrap. A walk runs on fuel: `none` is out of fuel.
use truetop.Common.{
  ℕ, zero, suc, ◌+◌, ◌*◌, ◌/◌, ◌%◌, min, Bool, true, false, not, ◌&&◌, Option, none, some, List, [],
  ◌∷◌, length, drop, ltb, leb, ◌==◌, if◌then◌else◌,
}
use truetop.Common.Text.{Text, text_eq}
use truetop.Metrics.Identity.{before_nul}
use truetop.Collector.Reaper.{from_ne_bytes}

pub record Btf : Type 0 where
  pub bytes : List ℕ
  pub le : Bool
  pub type_off : ℕ
  pub type_len : ℕ
  pub str_off : ℕ

pub data BtfError : Type 0 where
  unavailable too_small bad_magic truncated_header no_field no_struct no_typedef : BtfError
  truncated_type dangling_reference unexpected_kind : BtfError

pub data Answer (A : Type 0) : Type 0 where
  ok : A → Answer A
  err : BtfError → Answer A

infixl 5 ◌>>=◌
abbrev pub ◌>>=◌ : {A B : Type 0} → Answer A → (A → Answer B) → Answer B
ok a >>= f = f a
err e >>= f = err e

-- `.context(...)?` on an option.
abbrev pub or_err : {A : Type 0} → Option A → BtfError → Answer A
or_err none e = err e
or_err (some a) e = ok a

unfoldable pub word : Bool → List ℕ → Option ℕ
word le [] = none
word le (b0 ∷ []) = none
word le (b0 ∷ b1 ∷ []) = none
word le (b0 ∷ b1 ∷ b2 ∷ []) = none
word le (b0 ∷ b1 ∷ b2 ∷ b3 ∷ rest) = some (from_ne_bytes (not le) b0 b1 b2 b3)

-- `None` past the buffer.
unfoldable pub u32_at : Btf → ℕ → Option ℕ
unfolding word
u32_at b at = word b.le (drop at b.bytes)

-- The byte order, from the first two bytes: the magic is 0xeb9f.
unfoldable pub magic_is_le : List ℕ → Answer Bool
magic_is_le [] = err too_small
magic_is_le (b0 ∷ []) = err too_small
magic_is_le (b0 ∷ b1 ∷ rest) =
    if b1 * 256 + b0 == 0xeb9f
    then ok true
    else if b0 * 256 + b1 == 0xeb9f
    then ok false
    else err bad_magic

unfoldable pub from_bytes : List ℕ → Answer Btf
unfolding magic_is_le u32_at
from_bytes content = if ltb (length content) 24 then err too_small else do
  le ← magic_is_le content
  let btf : Btf = record { bytes = content; le = le; type_off = 0; type_len = 0; str_off = 0 }
  hdr_len ← or_err (u32_at btf 4) truncated_header
  type_off ← or_err (u32_at btf 8) truncated_header
  type_len ← or_err (u32_at btf 12) truncated_header
  str_off ← or_err (u32_at btf 16) truncated_header
  ok (record btf {
    type_off = hdr_len + type_off;
    type_len = type_len;
    str_off = hdr_len + str_off;
  })

-- The fields of a record's `info` word.
abbrev pub vlen_of : ℕ → ℕ
vlen_of info = info % 65536

abbrev pub kind_of : ℕ → ℕ
kind_of info = info / 16777216 % 32

abbrev pub kflag_of : ℕ → ℕ
kflag_of info = info / 2147483648 % 2

abbrev pub kind_struct : ℕ
kind_struct = 4

-- Bytes behind the 12-byte header of a record.
unfoldable pub extra_len : ℕ → ℕ → ℕ
extra_len kind vlen =
    if kind == 1
    then 4
    else if kind == 14
    then 4
    else if kind == 17
    then 4
    else if kind == 3
    then 12
    else if kind == 4
    then 12 * vlen
    else if kind == 5
    then 12 * vlen
    else if kind == 15
    then 12 * vlen
    else if kind == 19
    then 12 * vlen
    else if kind == 6
    then 8 * vlen
    else if kind == 13
    then 8 * vlen
    else 0

-- The end of the type section, clamped to the buffer.
abbrev pub end_of : Btf → ℕ
end_of b = min (b.type_off + b.type_len) (length b.bytes)

abbrev pub or_empty : Option Text → Text
or_empty none = []
or_empty (some s) = s

abbrev pub bit_off : ℕ → ℕ → ℕ
bit_off kflag bits = if kflag == 1 then bits % 16777216 else bits

-- `std::str::from_utf8` is a parameter.
module _ (from_utf8 : List ℕ → Option Text) where
  unfoldable pub string : Btf → ℕ → Text
  string b name_off =
      let start = b.str_off + name_off in
      if leb start (length b.bytes)
      then or_empty (from_utf8 (before_nul (drop start b.bytes)))
      else []

  -- `map_or("", ..)`: of a record's name offset, or a member's.
  unfoldable pub has_name : Btf → ℕ → Text → Bool
  unfolding string
  has_name b at name = elim (u32_at b at) [ none ↦ false | some n ↦ text_eq (string b n) name ]

  -- The members from index `i`, with `n` left.
  unfoldable pub find_member : Btf → ℕ → ℕ → Text → ℕ → ℕ → Option ℕ
  unfolding string
  find_member b members kflag field i zero = none
  find_member b members kflag field i (suc n) =
      let m = members + i * 12 in
      let rest = find_member b members kflag field (i + 1) n in
      elim (u32_at b m) [
        | none ↦ rest
        | some name ↦ elim (u32_at b (m + 8)) [
          | none ↦ rest
          | some bits ↦
              if text_eq (string b name) field then some (bit_off kflag bits / 8) else rest
        ]
      ]

  unfoldable pub field_walk : ℕ → Btf → Text → Text → ℕ → Option (Answer ℕ)
  unfolding has_name find_member extra_len
  field_walk zero b struct_name field cur = none
  field_walk (suc fuel) b struct_name field cur = elim (u32_at b (cur + 4)) [
    | none ↦ some (err no_struct)
    | some info ↦
        let rest =
          field_walk fuel b struct_name field
            (cur + 12 + extra_len (kind_of info) (vlen_of info)) in
        if leb (cur + 12) (end_of b)
        then (if kind_of info == kind_struct && has_name b cur struct_name
            then some
                (or_err (find_member b (cur + 12) (kflag_of info) field 0 (vlen_of info)) no_field)
            else rest)
        else some (err no_struct)
  ]

  unfoldable pub field_offset : Btf → Text → Text → Option (Answer ℕ)
  unfolding field_walk
  field_offset b struct_name field =
      field_walk (suc (length b.bytes)) b struct_name field b.type_off

  -- `Btf::load` and the search; `none` for a file that cannot be read.
  unfoldable pub field_byte_offset : Option (List ℕ) → Text → Text → Option (Answer ℕ)
  unfolding from_bytes field_offset
  field_byte_offset none struct_name field = some (err unavailable)
  field_byte_offset (some content) struct_name field = elim (from_bytes content) [
    | ok b ↦ field_offset b struct_name field
    | err e ↦ some (err e)
  ]
