-- ===== src/Host/BtfRead.antt =====
-- A file of the format is read (truetop/src/btf.rs, `from_bytes` and `field_offset`) as what it says.
use mathlib.Core.Path.{subst}
use truetop.Common.{
  ℕ, suc, ◌+◌, ◌*◌, ◌≤◌, ◌≡◌, refl, ap, sym, ◌∙◌, fun_ext, Bool, false, Option, some, List, [], ◌∷◌,
  ◌++◌, arith, length, length-append, drop, drop-append, drop-drop, All, ltb, leb, Bool-cases, inl,
  inr,
}
use truetop.Common.Text.{Text}
use truetop.Host.Btf.{
  Btf, ok, end_of, string, magic_is_le, from_bytes, field_offset, field_byte_offset,
}
use truetop.Host.BtfFile.{
  BtfType, info_of, size_of, trailing_of, flag_of, type_words, IsWord, IsFormed, word_bytes,
  header_bytes, btf_file, text_at, field_of,
}
use truetop.Host.BtfWords.{Words, length-word_bytes, written-Words}
use truetop.Host.BtfExact.{field_walk_exact}

All-append : (xs ys : List ℕ) → All IsWord xs → All IsWord ys → All IsWord (xs ++ ys)
All-append [] ys h k = k
All-append (x ∷ xs) ys h k = (h.0, All-append xs ys h.1 k)

info-IsWord : (t : BtfType) → IsFormed t → IsWord (info_of t)
info-IsWord t f = elim (Bool-cases (flag_of t)) [
  | inl e ↦ rw e (omega (arith, f.kind_small, f.vlen_small))
  | inr e ↦ rw e (omega (arith, f.kind_small, f.vlen_small))
]

type_words-IsWord : (ts : List BtfType) → All IsFormed ts → All IsWord (type_words ts)
type_words-IsWord [] h = tt
type_words-IsWord (t ∷ ts) h = (
  h.0.name_word,
  (
    info-IsWord t h.0,
    All-append (size_of t ∷ trailing_of t) (type_words ts) (h.0.size_word, h.0.trailing_words)
        (type_words-IsWord ts h.1),
  ),
)

-- The file before its sections are known.
abbrev unread : List ℕ → Bool → Btf
unread content le = record { bytes = content; le = le; type_off = 0; type_len = 0; str_off = 0 }

from_bytes_lem :
    (content : List ℕ) (le : Bool) (hdr_len type_off type_len str_off : ℕ)
    → 24 ≤ length content
    → magic_is_le content ≡ ok le
    → Words (unread content le) 4 (hdr_len ∷ type_off ∷ type_len ∷ str_off ∷ [])
    → from_bytes content
      ≡ ok (record {
        bytes = content;
        le = le;
        type_off = hdr_len + type_off;
        type_len = type_len;
        str_off = hdr_len + str_off;
      })
unfolding from_bytes
from_bytes_lem content le hdr_len type_off type_len str_off long order h =
    let enough : ltb (length content) 24 ≡ false = ground arith in
    rw (enough, order, h.0, h.1.0, h.1.1.0, h.1.1.1.0) refl

-- The whole file.
module _ (le : Bool) (ts : List BtfType) (strings : List ℕ) where
  abbrev pub types : List ℕ
  types = word_bytes le (type_words ts)

  abbrev pub read_back : Btf
  read_back = record {
    bytes = btf_file le ts strings;
    le = le;
    type_off = 24;
    type_len = length types;
    str_off = 24 + length types;
  }

  length-header_bytes : (n m : ℕ) → length (header_bytes le n m) ≡ 24
  unfolding header_bytes
  length-header_bytes n m = elim (Bool-cases le) [ inl e ↦ rw e refl | inr e ↦ rw e refl ]

  magic-btf_file : magic_is_le (btf_file le ts strings) ≡ ok le
  unfolding magic_is_le btf_file
  magic-btf_file = elim (Bool-cases le) [ inl e ↦ rw e refl | inr e ↦ rw e refl ]

  header_words :
      drop 4 (btf_file le ts strings)
      ≡ word_bytes le (24 ∷ 0 ∷ length types ∷ length types ∷ [])
        ++ (word_bytes le (length strings ∷ []) ++ (types ++ strings))
  unfolding btf_file word_bytes
  header_words = elim (Bool-cases le) [ inl e ↦ rw e refl | inr e ↦ rw e refl ]

  drop_header : drop 24 (btf_file le ts strings) ≡ types ++ strings
  unfolding btf_file
  drop_header =
      subst (λ n. drop n (btf_file le ts strings) ≡ types ++ strings)
        (length-header_bytes (length types) (length strings))
        (drop-append (header_bytes le (length types) (length strings)) (types ++ strings))

  length-btf_file : length (btf_file le ts strings) ≡ 24 + (length types + length strings)
  unfolding btf_file
  length-btf_file =
      length-append (header_bytes le (length types) (length strings)) (types ++ strings)
      ∙ omega (
        arith,
        length-header_bytes (length types) (length strings),
        length-append {0} types strings,
      )

  pub from_bytes-btf_file :
      IsWord (length types) → from_bytes (btf_file le ts strings) ≡ ok read_back
  from_bytes-btf_file small =
      from_bytes_lem (btf_file le ts strings) le 24 0 (length types) (length types)
        (omega (arith, length-btf_file)) magic-btf_file
        (written-Words (unread (btf_file le ts strings) le) _ _ 4
          (omega arith, (omega arith, (small, (small, tt)))) header_words)

  -- The strings stand behind the types.
  pub string-btf_file :
      (from_utf8 : List ℕ → Option Text) (n : ℕ)
      → string from_utf8 read_back n ≡ text_at from_utf8 strings n
  unfolding string
  string-btf_file from_utf8 n =
      let at : drop (24 + length types + n) (btf_file le ts strings) ≡ drop n strings =
        sym (drop-drop n (24 + length types) (24 + length types + n) _ refl)
        ∙ ap (drop n) (
            sym (drop-drop (length types) 24 (24 + length types) _ refl)
            ∙ ap (drop (length types)) drop_header
            ∙ drop-append types strings) in
      let inside : leb (24 + length types + n) (length (btf_file le ts strings))
          ≡ leb n (length strings) =
        ground (arith, length-btf_file) in
      rw (inside, at) refl

  pub types-Words : All IsFormed ts → Words read_back 24 (type_words ts)
  types-Words formed =
      written-Words read_back (type_words ts) strings 24 (type_words-IsWord ts formed) drop_header

  pub end-read_back : end_of read_back ≡ 24 + 4 * length (type_words ts)
  end-read_back = omega (arith, length-btf_file, length-word_bytes le (type_words ts))

field_byte_offset_read :
    (from_utf8 : List ℕ → Option Text) (content : List ℕ) (b : Btf) (s f : Text)
    → from_bytes content ≡ ok b
    → field_byte_offset from_utf8 (some content) s f ≡ field_offset from_utf8 b s f
unfolding field_byte_offset from_bytes
field_byte_offset_read from_utf8 content b s f h = rw (h, field_byte_offset) refl

-- Of a file of type information that is written for types and strings in either byte order, with a
-- section of types that fits 32 bits, the reader finds the offset that the first struct of the
-- name gives for the first member of the field's name, and the error that tells which of them is
-- missing.
pub field_byte_offset_exact :
    (from_utf8 : List ℕ → Option Text) (le : Bool) (ts : List BtfType) (strings : List ℕ)
    (s f : Text)
    → All IsFormed ts
    → IsWord (4 * length (type_words ts))
    → field_byte_offset from_utf8 (some (btf_file le ts strings)) s f
      ≡ some (field_of (text_at from_utf8 strings) s f ts)
unfolding field_offset
field_byte_offset_exact from_utf8 le ts strings s f formed small =
    let b = read_back le ts strings in
    let read =
      from_bytes-btf_file le ts strings
        (omega (arith, length-word_bytes le (type_words ts), small)) in
    let texts : string from_utf8 b ≡ text_at from_utf8 strings =
      fun_ext (string-btf_file le ts strings from_utf8) in
    let walked =
      field_walk_exact from_utf8 b s f (suc (length b.bytes)) 24 ts (omega arith) (omega arith)
        formed (types-Words le ts strings formed) (end-read_back le ts strings) in
    field_byte_offset_read from_utf8 _ b s f read ∙ walked ∙ (rw texts refl)
