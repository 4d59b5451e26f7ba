-- ===== src/Host/BtfParams.antt =====
-- The parameters of a tracepoint (truetop/src/btf.rs) against what a file of the format says.

use truetop.Common.{
  ℕ, zero, suc, ◌*◌, ◌≡◌, refl, ap, ◌∙◌, fun_ext, Bool, Option, none, some, List, [], ◌∷◌, arith,
  length, get_elem?, All, ◌==◌, ==_ne, if◌then◌else◌, Bool-cases, inl, inr,
}
use truetop.Common.Text.{Text, codes, text_eq}
use truetop.Host.Btf.{
  Btf, BtfError, Answer, ok, err, or_err, ◌>>=◌, no_typedef, unexpected_kind, dangling_reference,
  string, from_bytes,
}
use truetop.Host.BtfTypes.{
  kind_at, type_offsets, not_zero, referent, find_type, proto_params, tracepoint_proto_params,
  at_least_five, sched_switch_has_prev_state,
}
use truetop.Host.BtfFile.{
  BtfType, name_of, kind_no, size_of, type_words, IsWord, IsFormed, btf_file, text_at, first_named,
  numbered, target, params_of,
}
use truetop.Host.BtfWords.{length-word_bytes}
use truetop.Host.BtfRead.{
  read_back, from_bytes-btf_file, string-btf_file, types-Words, end-read_back,
}
use truetop.Host.BtfNumbers.{positions, type_walk_exact, Shows, AllShow, positions-AllShow}

module _ (from_utf8 : List ℕ → Option Text) (b : Btf) where
  abbrev Finds : Option ℕ → Option BtfType → Type 0
  Finds none none = Unit
  Finds none (some t) = ⊥
  Finds (some o) none = ⊥
  Finds (some o) (some t) = Shows from_utf8 b o t

  abbrev Answers : Answer ℕ → Answer BtfType → Type 0
  Answers (ok o) (ok t) = Shows from_utf8 b o t
  Answers (ok o) (err e) = ⊥
  Answers (err e) (ok t) = ⊥
  Answers (err e) (err e') = e ≡ e'

  or_err-Answers :
      (o : Option ℕ) (t : Option BtfType) (e : BtfError)
      → Finds o t
      → Answers (or_err o e) (or_err t e)
  or_err-Answers none none e h = refl
  or_err-Answers (some o) (some t) e h = h
  or_err-Answers none (some t) e h = elim h [ ]
  or_err-Answers (some o) none e h = elim h [ ]

  >>=-Answers :
      (x : Answer ℕ) (y : Answer BtfType) (f : ℕ → Answer ℕ) (g : BtfType → Answer ℕ)
      → Answers x y
      → ((o : ℕ) (t : BtfType) → Shows from_utf8 b o t → f o ≡ g t)
      → (x >>= f) ≡ (y >>= g)
  >>=-Answers (ok o) (ok t) f g h k = k o t h
  >>=-Answers (err e) (err e') f g h k = ap err h
  >>=-Answers (ok o) (err e') f g h k = elim h [ ]
  >>=-Answers (err e) (ok t) f g h k = elim h [ ]

  kind-Answers :
      (expected : ℕ) (x : Answer ℕ) (y : Answer BtfType)
      → Answers x y
      → Answers
          (x >>= λ dst. if kind_at b dst == expected then ok dst else err unexpected_kind)
          (y >>= λ dst. if kind_no dst == expected then ok dst else err unexpected_kind)
  kind-Answers expected (ok o) (ok t) h = elim (Bool-cases (kind_no t == expected)) [
    | inl e ↦ rw (h.kind, e) h
    | inr e ↦ rw (h.kind, e) refl
  ]
  kind-Answers expected (err e) (err e') h = h
  kind-Answers expected (ok o) (err e) h = elim h [ ]
  kind-Answers expected (err e) (ok t) h = elim h [ ]

  find_type-Finds :
      (os : List ℕ) (ts : List BtfType) (kind : ℕ) (name : Text)
      → AllShow from_utf8 b os ts
      → Finds (find_type from_utf8 b os kind name) (first_named (string from_utf8 b) kind name ts)
  unfolding find_type
  find_type-Finds [] [] kind name h = tt
  find_type-Finds [] (t ∷ ts) kind name h = elim h [ ]
  find_type-Finds (o ∷ os) [] kind name h = elim h [ ]
  find_type-Finds (o ∷ os) (t ∷ ts) kind name h =
      let rest = find_type-Finds os ts kind name h.1 in
      elim (Bool-cases (kind_no t == kind)) [
        | inr e ↦ rw (h.0.kind, e) rest
        | inl e ↦ elim (Bool-cases (text_eq (string from_utf8 b (name_of t)) name)) [
          | inr e' ↦ rw (h.0.kind, h.0.name, e, e') rest
          | inl e' ↦ rw (h.0.kind, h.0.name, e, e') h.0
        ]
      ]

  get_elem?-Finds :
      (os : List ℕ) (ts : List BtfType) (n : ℕ)
      → AllShow from_utf8 b os ts
      → Finds (not_zero (get_elem? os n)) (get_elem? ts n)
  get_elem?-Finds [] [] n h = tt
  get_elem?-Finds [] (t ∷ ts) n h = elim h [ ]
  get_elem?-Finds (o ∷ os) [] n h = elim h [ ]
  get_elem?-Finds (o ∷ os) (t ∷ ts) zero h = rw (==_ne o 0 h.0.not_void) h.0
  get_elem?-Finds (o ∷ os) (t ∷ ts) (suc n) h = get_elem?-Finds os ts n h.1

  numbered-Finds :
      (os : List ℕ) (ts : List BtfType) (n : ℕ)
      → AllShow from_utf8 b os ts
      → Finds (not_zero (get_elem? (0 ∷ os) n)) (numbered ts n)
  numbered-Finds os ts zero h = tt
  numbered-Finds os ts (suc n) h = get_elem?-Finds os ts n h

  referent-Answers :
      (os : List ℕ) (ts : List BtfType) (o : ℕ) (t : BtfType) (expected : ℕ)
      → AllShow from_utf8 b os ts
      → Shows from_utf8 b o t
      → Answers (referent b (0 ∷ os) o expected) (target ts expected t)
  unfolding referent
  referent-Answers os ts o t expected h st =
      rw (st.size, referent)
        (kind-Answers expected
          (or_err (not_zero (get_elem? (0 ∷ os) (size_of t))) dangling_reference)
          (or_err (numbered ts (size_of t)) dangling_reference)
          (or_err-Answers _ _ dangling_reference (numbered-Finds os ts (size_of t) h)))

  proto_params_exact :
      (os : List ℕ) (ts : List BtfType) (name : Text)
      → AllShow from_utf8 b os ts
      → proto_params from_utf8 b name (0 ∷ os) ≡ params_of (string from_utf8 b) name ts
  unfolding proto_params
  proto_params_exact os ts name h =
      >>=-Answers _ _ _ _ (or_err-Answers _ _ no_typedef (find_type-Finds os ts 8 name h)) λ o t st.
        >>=-Answers _ _ _ _ (referent-Answers os ts o t 2 h st)
          λ o t st. >>=-Answers _ _ _ _ (referent-Answers os ts o t 13 h st) λ o t st. ap ok st.vlen

prev_state_read :
    (from_utf8 : List ℕ → Option Text) (content : List ℕ) (b : Btf) (offsets : List ℕ)
    → from_bytes content ≡ ok b
    → type_offsets b ≡ some offsets
    → sched_switch_has_prev_state from_utf8 (some content)
      ≡ some (
          at_least_five from_utf8
            (proto_params from_utf8 b (codes "btf_trace_sched_switch") offsets))
unfolding sched_switch_has_prev_state tracepoint_proto_params
prev_state_read from_utf8 content b offsets h table =
    rw (h, sched_switch_has_prev_state) (rw (table, tracepoint_proto_params) refl)

-- Of a file of type information that is written for types and strings in either byte order, with a
-- section of types that fits 32 bits, the reader's answer about the previous state is that of the
-- prototype behind the pointer behind the typedef, by the numbers of the types, or the error that
-- tells where that chain breaks.
pub sched_switch_has_prev_state_exact :
    (from_utf8 : List ℕ → Option Text) (le : Bool) (ts : List BtfType) (strings : List ℕ)
    → All IsFormed ts
    → IsWord (4 * length (type_words ts))
    → sched_switch_has_prev_state from_utf8 (some (btf_file le ts strings))
      ≡ some (
          at_least_five from_utf8
            (params_of (text_at from_utf8 strings) (codes "btf_trace_sched_switch") ts))
unfolding type_offsets
sched_switch_has_prev_state_exact from_utf8 le ts strings formed small =
    let b = read_back le ts strings in
    let name = codes "btf_trace_sched_switch" in
    let read =
      from_bytes-btf_file le ts strings (omega (arith, length-word_bytes le (type_words ts))) in
    let words = types-Words le ts strings formed in
    let texts : string from_utf8 b ≡ text_at from_utf8 strings =
      fun_ext (string-btf_file le ts strings from_utf8) in
    let walked =
      type_walk_exact b (suc (length b.bytes)) 24 ts (omega arith) (omega arith) formed words
        (end-read_back le ts strings) in
    let table : type_offsets b ≡ some (0 ∷ positions 24 ts) = rw walked refl in
    prev_state_read from_utf8 _ b (0 ∷ positions 24 ts) read table
    ∙ ap (λ p. some (at_least_five from_utf8 p))
        (proto_params_exact from_utf8 b (positions 24 ts) ts name
            (positions-AllShow from_utf8 b 24 ts (omega arith) formed words)
          ∙ (rw texts refl))
