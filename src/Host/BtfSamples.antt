-- ===== src/Host/BtfSamples.antt =====
-- The files that the tests of truetop/src/btf.rs build, `sample_btf` and `tracepoint_btf`, and what
-- the reader answers of them.
use truetop.Common.{
  ℕ, zero, suc, ◌+◌, ◌*◌, ◌<◌, ◌≡◌, ◌≢◌, refl, ap, ◌∙◌, Bool, true, false, some, List, [], ◌∷◌,
  ◌++◌, arith, length, length-append, All, leb,
}
use truetop.Common.Text.{codes}
use truetop.Metrics.Identity.{before_nul}
use truetop.Host.Btf.{ok}
use truetop.Host.BtfTypes.{sched_switch_has_prev_state}
use truetop.Host.BtfFile.{
  Member, member_words, BtfType, struct_type, other_type, IsWord, IsFormed, words_behind,
  word_bytes, magic, btf_file,
}
use truetop.Host.BtfParams.{sched_switch_has_prev_state_exact}

abbrev pub sample_strings : List ℕ
sample_strings = 0 ∷ codes "task" ++ (0 ∷ codes "pid" ++ (0 ∷ codes "tgid" ++ (0 ∷ [])))

-- An int, which the walk skips, and a struct with two members.
unfoldable pub sample_btf : Bool → List ℕ
unfolding word_bytes
sample_btf le =
    let types =
      word_bytes le (0 ∷ 0x1000000 ∷ 4 ∷ 0 ∷ 1 ∷ 0x4000002 ∷ 8 ∷ 6 ∷ 1 ∷ 0 ∷ 10 ∷ 1 ∷ 32 ∷ []) in
    magic le
    ++ (1 ∷ 0 ∷ word_bytes le (24 ∷ 0 ∷ length types ∷ length types ∷ length sample_strings ∷ [])
        ++ (types ++ sample_strings))

abbrev pub param_words : ℕ → List ℕ
param_words zero = []
param_words (suc n) = 0 ∷ 1 ∷ param_words n

abbrev pub tracepoint_strings : List ℕ
tracepoint_strings = 0 ∷ codes "btf_trace_sched_switch" ++ (0 ∷ [])

-- The words of a file whose prototype has the information word `info`.
abbrev tracepoint_words : ℕ → ℕ → List ℕ
tracepoint_words info params =
    (0 ∷ 0x1000000 ∷ 4 ∷ 0 ∷ [])
    ++ ((0 ∷ info ∷ 0 ∷ param_words params)
        ++ ((0 ∷ 0x2000000 ∷ 2 ∷ []) ++ (1 ∷ 0x8000000 ∷ 3 ∷ [])))

-- A typedef of a pointer to a prototype with `params` parameters, fewer than 2 ^ 24: `|` adds them.
unfoldable pub tracepoint_btf : Bool → ℕ → List ℕ
unfolding word_bytes
tracepoint_btf le params =
    let types = word_bytes le (tracepoint_words (0xd000000 + params) params) in
    magic le
    ++ (1
          ∷ 0
          ∷ word_bytes le (24 ∷ 0 ∷ length types ∷ length types ∷ length tracepoint_strings ∷ [])
        ++ (types ++ tracepoint_strings))

-- The samples as files of the format.
abbrev pub sample_types : List BtfType
sample_types =
    other_type 0 false 1 0 4 (0 ∷ [])
    ∷ struct_type 1 false 8 (
        record { name = 6; type_id = 1; offset = 0 }
        ∷ record { name = 10; type_id = 1; offset = 32 }
        ∷ [])
    ∷ []

abbrev pub tracepoint_types : ℕ → List BtfType
tracepoint_types params =
    other_type 0 false 1 0 4 (0 ∷ [])
    ∷ other_type 0 false 13 params 0 (param_words params)
    ∷ other_type 0 false 2 0 2 []
    ∷ other_type 1 false 8 0 3 []
    ∷ []

pub sample_btf-btf_file : (le : Bool) → sample_btf le ≡ btf_file le sample_types sample_strings
unfolding sample_btf btf_file
sample_btf-btf_file true = refl
sample_btf-btf_file false = refl

module _ (params : ℕ) where
  info_eq : 0xd000000 + params ≡ params + 13 * 16777216 + 0
  info_eq = omega arith

  tracepoint_btf-btf_file :
      (le : Bool)
      → tracepoint_btf le params ≡ btf_file le (tracepoint_types params) tracepoint_strings
  unfolding tracepoint_btf btf_file
  tracepoint_btf-btf_file true = rw info_eq refl
  tracepoint_btf-btf_file false = rw info_eq refl

length-param_words : (n : ℕ) → length (param_words n) ≡ 2 * n
length-param_words zero = refl
length-param_words (suc n) = omega (arith, length-param_words n)

param_words-IsWord : (n : ℕ) → All IsWord (param_words n)
param_words-IsWord zero = tt
param_words-IsWord (suc n) = (omega arith, (omega arith, param_words-IsWord n))

-- The other types.
pub other-IsFormed :
    (name kind vlen size : ℕ) (trailing : List ℕ)
    → IsWord name × IsWord size
    → kind < 32
    → vlen < 65536
    → kind ≢ 4
    → All IsWord trailing
    → length trailing ≡ words_behind kind vlen
    → IsFormed (other_type name false kind vlen size trailing)
other-IsFormed name kind vlen size trailing words kind_small vlen_small ne all long = record {
  name_word = words.0;
  size_word = words.1;
  kind_small = kind_small;
  vlen_small = vlen_small;
  trailing_words = all;
  no_struct_kind = ne;
  trailing_length = long;
}

length-member_words : (ms : List Member) → length (member_words ms) ≡ 3 * length ms
length-member_words [] = refl
length-member_words (m ∷ ms) = omega (arith, length-member_words ms)

pub struct-IsFormed :
    (name size : ℕ) (members : List Member)
    → IsWord name × IsWord size
    → length members < 65536
    → All IsWord (member_words members)
    → IsFormed (struct_type name false size members)
struct-IsFormed name size members words vlen_small all = record {
  name_word = words.0;
  size_word = words.1;
  kind_small = omega arith;
  vlen_small = vlen_small;
  trailing_words = all;
  no_struct_kind = tt;
  trailing_length = length-member_words members;
}

pub tracepoint_types-IsFormed :
    (params : ℕ) → params < 65536 → All IsFormed (tracepoint_types params)
tracepoint_types-IsFormed params h = (
  other-IsFormed 0 1 0 4 _ (omega arith) (omega arith) (omega arith) (omega arith) (omega arith)
      refl,
  (
    other-IsFormed 0 13 params 0 _ (omega arith) (omega arith) h (omega arith)
        (param_words-IsWord params) (omega (arith, length-param_words params)),
    (
      other-IsFormed 0 2 0 2 _ (omega arith) (omega arith) (omega arith) (omega arith) tt refl,
      (
        other-IsFormed 1 8 0 3 _ (omega arith) (omega arith) (omega arith) (omega arith) tt refl,
        tt,
      ),
    ),
  ),
)

-- However many parameters the prototype of the sample has, the answer is whether there are five.
pub tracepoint_btf_lem :
    (le : Bool) (params : ℕ)
    → params < 65536
    → sched_switch_has_prev_state some (some (tracepoint_btf le params)) ≡ some (ok (leb 5 params))
unfolding before_nul
tracepoint_btf_lem le params h =
    ap (λ content. sched_switch_has_prev_state some (some content))
      (tracepoint_btf-btf_file params le)
    ∙ sched_switch_has_prev_state_exact some le (tracepoint_types params) tracepoint_strings
        (tracepoint_types-IsFormed params h)
        (omega (
          arith,
          length-append {0} (param_words params) (0 ∷ 0x2000000 ∷ 2 ∷ 1 ∷ 0x8000000 ∷ 3 ∷ []),
          length-param_words params,
        ))

pub sample_types-IsFormed : All IsFormed sample_types
sample_types-IsFormed = (
  other-IsFormed 0 1 0 4 _ (omega arith) (omega arith) (omega arith) (omega arith) (omega arith)
      refl,
  (struct-IsFormed 1 8 _ (omega arith, omega arith) (omega arith) (omega arith), tt),
)
