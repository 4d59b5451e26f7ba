-- ===== src/Host/BtfFile.antt =====
-- The format of the type information that truetop/src/btf.rs reads: a file as its types and its
-- strings, and the bytes that it is written as. Its sections stand as in the file of a kernel.
use truetop.Common.{
  zero, suc, get_elem?, ℕ, ◌+◌, ◌*◌, ◌/◌, ◌%◌, ◌<◌, ◌≡◌, ◌≢◌, Bool, true, false, not, Option, none,
  some, List, [], ◌∷◌, ◌++◌, length, drop, All, ◌==◌, ◌||◌, leb, if◌then◌else◌,
}
use truetop.Common.Text.{Text, text_eq}
use truetop.Metrics.Identity.{before_nul}
use truetop.Collector.Reaping.{to_ne_bytes}
use truetop.Host.Btf.{
  Answer, ok, err, or_err, ◌>>=◌, or_empty, no_struct, no_field, no_typedef, dangling_reference,
  unexpected_kind,
}

pub record Member : Type 0 where
  pub name : ℕ
  pub type_id : ℕ
  pub offset : ℕ

-- A type: its name is a position among the strings. `flag` says that the offsets of the members are
-- those of bit fields; `size` is a size, or the number of the type that is referred to.
pub data BtfType : Type 0 where
  struct_type : ℕ → Bool → ℕ → List Member → BtfType
  other_type : ℕ → Bool → ℕ → ℕ → ℕ → List ℕ → BtfType

abbrev pub name_of : BtfType → ℕ
name_of (struct_type name flag size members) = name
name_of (other_type name flag kind vlen size trailing) = name

abbrev pub flag_of : BtfType → Bool
flag_of (struct_type name flag size members) = flag
flag_of (other_type name flag kind vlen size trailing) = flag

abbrev pub kind_no : BtfType → ℕ
kind_no (struct_type name flag size members) = 4
kind_no (other_type name flag kind vlen size trailing) = kind

abbrev pub vlen_no : BtfType → ℕ
vlen_no (struct_type name flag size members) = length members
vlen_no (other_type name flag kind vlen size trailing) = vlen

abbrev pub size_of : BtfType → ℕ
size_of (struct_type name flag size members) = size
size_of (other_type name flag kind vlen size trailing) = size

abbrev pub member_words : List Member → List ℕ
member_words [] = []
member_words (m ∷ ms) = m.name ∷ m.type_id ∷ m.offset ∷ member_words ms

abbrev pub trailing_of : BtfType → List ℕ
trailing_of (struct_type name flag size members) = member_words members
trailing_of (other_type name flag kind vlen size trailing) = trailing

abbrev pub info_of : BtfType → ℕ
info_of t = vlen_no t + kind_no t * 16777216 + (if flag_of t then 2147483648 else 0)

-- The words of the section.
abbrev pub type_words : List BtfType → List ℕ
type_words [] = []
type_words (t ∷ ts) = (name_of t ∷ info_of t ∷ size_of t ∷ trailing_of t) ++ type_words ts

abbrev pub IsWord : ℕ → Type 0
IsWord w = w < 4294967296

-- What is written as another type is no struct.
abbrev pub IsOther : BtfType → Type 0
IsOther (struct_type name flag size members) = Unit
IsOther (other_type name flag kind vlen size trailing) = kind ≢ 4

-- The words behind the first three of a type: one for an int, a variable or a tag of a declaration, and
-- three for an array; three for each member, section or 64-bit value, and two for each value or
-- parameter.
abbrev pub words_behind : ℕ → ℕ → ℕ
words_behind kind n =
    if kind == 1 || (kind == 14 || kind == 17)
    then 1
    else if kind == 3
    then 3
    else if kind == 4 || (kind == 5 || (kind == 15 || kind == 19))
    then 3 * n
    else if kind == 6 || kind == 13
    then 2 * n
    else 0

-- A type that the format can hold.
pub record IsFormed (t : BtfType) : Type 0 where
  pub name_word : IsWord (name_of t)
  pub size_word : IsWord (size_of t)
  pub kind_small : kind_no t < 32
  pub vlen_small : vlen_no t < 65536
  pub trailing_words : All IsWord (trailing_of t)
  pub no_struct_kind : IsOther t
  pub trailing_length : length (trailing_of t) ≡ words_behind (kind_no t) (vlen_no t)

unfoldable pub word_bytes : Bool → List ℕ → List ℕ
word_bytes le [] = []
word_bytes le (w ∷ ws) = to_ne_bytes (not le) w ++ word_bytes le ws

abbrev pub magic : Bool → List ℕ
magic true = 0x9f ∷ 0xeb ∷ []
magic false = 0xeb ∷ 0x9f ∷ []

-- The header is 24 bytes long: the magic, the version and the flags, the length of the header, the
-- position and the length of the types, and those of the strings.
unfoldable pub header_bytes : Bool → ℕ → ℕ → List ℕ
unfolding word_bytes
header_bytes le type_len str_len =
    magic le ++ (1 ∷ 0 ∷ word_bytes le (24 ∷ 0 ∷ type_len ∷ type_len ∷ str_len ∷ []))

unfoldable pub btf_file : Bool → List BtfType → List ℕ → List ℕ
unfolding header_bytes word_bytes
btf_file le ts strings =
    let types = word_bytes le (type_words ts) in
    header_bytes le (length types) (length strings) ++ (types ++ strings)

-- What the file says.
abbrev pub text_at : (List ℕ → Option Text) → List ℕ → ℕ → Text
text_at from_utf8 strings n =
    if leb n (length strings) then or_empty (from_utf8 (before_nul (drop n strings))) else []

module _ (text : ℕ → Text) where
  abbrev pub member_offset : Bool → Text → List Member → Option ℕ
  member_offset flag field [] = none
  member_offset flag field (m ∷ ms) =
      if text_eq (text m.name) field
      then some ((if flag then m.offset % 16777216 else m.offset) / 8)
      else member_offset flag field ms

  -- The offset of a field, in the first struct of a name.
  abbrev pub field_of : Text → Text → List BtfType → Answer ℕ
  field_of struct_name field [] = err no_struct
  field_of struct_name field (struct_type name flag size members ∷ ts) =
      if text_eq (text name) struct_name
      then or_err (member_offset flag field members) no_field
      else field_of struct_name field ts
  field_of struct_name field (other_type name flag kind vlen size trailing ∷ ts) =
      field_of struct_name field ts

  -- The first type of a kind and a name.
  abbrev pub first_named : ℕ → Text → List BtfType → Option BtfType
  first_named kind name [] = none
  first_named kind name (t ∷ ts) =
      if kind_no t == kind
      then (if text_eq (text (name_of t)) name then some t else first_named kind name ts)
      else first_named kind name ts

-- The types are numbered from 1; 0 is no type.
abbrev pub numbered : List BtfType → ℕ → Option BtfType
numbered ts zero = none
numbered ts (suc n) = get_elem? ts n

-- The type that a typedef or a pointer refers to.
abbrev pub target : List BtfType → ℕ → BtfType → Answer BtfType
target ts kind t = do
  dst ← or_err (numbered ts (size_of t)) dangling_reference
  if kind_no dst == kind then ok dst else err unexpected_kind

-- The parameters of the prototype behind a pointer behind a typedef.
abbrev pub params_of : (ℕ → Text) → Text → List BtfType → Answer ℕ
params_of text name ts = do
  typedef ← or_err (first_named text 8 name ts) no_typedef
  pointer ← target ts 2 typedef
  prototype ← target ts 13 pointer
  ok (vlen_no prototype)
