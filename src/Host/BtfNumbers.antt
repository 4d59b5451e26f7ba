-- ===== src/Host/BtfNumbers.antt =====
-- The search for a tracepoint's prototype (truetop/src/btf.rs) against what a file of the format says.

use truetop.Common.{
  ℕ, zero, suc, ◌+◌, ◌*◌, ◌≤◌, ◌<◌, ◌≡◌, ◌≢◌, refl, true, false, Option, some, List, [], ◌∷◌, arith,
  length, All, leb, Option-cases, inl, inr,
}
use truetop.Common.Text.{Text}
use truetop.Host.Btf.{Btf, u32_at, vlen_of, kind_of, extra_len, end_of, string}
use truetop.Host.BtfTypes.{kind_at, vlen_at, type_walk, type_name}
use truetop.Host.BtfFile.{
  BtfType, name_of, kind_no, vlen_no, size_of, trailing_of, info_of, type_words, IsFormed,
}
use truetop.Host.BtfWords.{Words}
use truetop.Host.BtfExact.{Stands, type-Stands, info_fields, step_exact, length-type_words}

-- Where the types stand.
abbrev pub positions : ℕ → List BtfType → List ℕ
positions cur [] = []
positions cur (t ∷ ts) = cur ∷ positions (cur + 12 + 4 * length (trailing_of t)) ts

module _ (b : Btf) where
  walk_step :
      (fuel cur info : ℕ)
      → u32_at b (cur + 4) ≡ some info
      → cur + 12 ≤ end_of b
      → (rest : List ℕ)
      → type_walk fuel b (cur + 12 + extra_len (kind_of info) (vlen_of info)) ≡ some rest
      → type_walk (suc fuel) b cur ≡ some (cur ∷ rest)
  unfolding type_walk
  walk_step fuel cur info i le rest walked =
      let inside : leb (cur + 12) (end_of b) ≡ true = ground arith in
      rw (i, inside, walked, type_walk) refl

  walk_end : (fuel cur : ℕ) → end_of b ≡ cur → type_walk (suc fuel) b cur ≡ some []
  unfolding type_walk
  walk_end fuel cur e =
      let out : leb (cur + 12) (end_of b) ≡ false = ground arith in
      elim (Option-cases (u32_at b (cur + 4))) [
        | inl no_info ↦ rw (no_info, out, type_walk) refl
        | inr (info, found) ↦ rw (found, out, type_walk) refl
      ]

  pub type_walk_exact :
      (fuel cur : ℕ) (ts : List BtfType)
      → end_of b < cur + 12 * fuel
      → 0 < fuel
      → All IsFormed ts
      → Words b cur (type_words ts)
      → end_of b ≡ cur + 4 * length (type_words ts)
      → type_walk fuel b cur ≡ some (positions cur ts)
  type_walk_exact zero cur ts enough p formed h e = absurd (omega arith)
  type_walk_exact (suc fuel) cur [] enough p formed h e = walk_end fuel cur (omega arith)
  type_walk_exact (suc fuel) cur (t ∷ ts) enough p formed h e =
      let st = type-Stands b cur t ts h in
      let long = length-type_words t ts in
      let rest =
        type_walk_exact fuel (cur + 12 + 4 * length (trailing_of t)) ts (omega arith) (omega arith)
          formed.1 st.rest_read (omega arith) in
      walk_step fuel cur (info_of t) st.info_read (omega arith) _ (rw (step_exact t formed.0) rest)

module _ (from_utf8 : List ℕ → Option Text) (b : Btf) where
  -- What the reader sees of a type at its position.
  pub record Shows (o : ℕ) (t : BtfType) : Type 0 where
    pub not_void : o ≢ 0
    pub kind : kind_at b o ≡ kind_no t
    pub vlen : vlen_at b o ≡ vlen_no t
    pub name : type_name from_utf8 b o ≡ string from_utf8 b (name_of t)
    pub size : u32_at b (o + 8) ≡ some (size_of t)

  Stands-Shows :
      (cur : ℕ) (t : BtfType) (ts : List BtfType)
      → 0 < cur
      → IsFormed t
      → Stands b cur t ts
      → Shows cur t
  unfolding kind_at vlen_at type_name
  Stands-Shows cur t ts p f st =
      let (kind, vlen, flag) = info_fields t f in
      record {
        not_void = omega arith;
        kind = rw (st.info_read, kind_at) kind;
        vlen = rw (st.info_read, vlen_at) vlen;
        name = rw (st.name_read, type_name) refl;
        size = st.size_read;
      }

  abbrev pub AllShow : List ℕ → List BtfType → Type 0
  AllShow [] [] = Unit
  AllShow [] (t ∷ ts) = ⊥
  AllShow (o ∷ os) [] = ⊥
  AllShow (o ∷ os) (t ∷ ts) = Shows o t × AllShow os ts

  pub positions-AllShow :
      (cur : ℕ) (ts : List BtfType)
      → 0 < cur
      → All IsFormed ts
      → Words b cur (type_words ts)
      → AllShow (positions cur ts) ts
  positions-AllShow cur [] p formed h = tt
  positions-AllShow cur (t ∷ ts) p formed h =
      let st = type-Stands b cur t ts h in
      (
        Stands-Shows cur t ts p formed.0 st,
        positions-AllShow (cur + 12 + 4 * length (trailing_of t)) ts (omega arith) formed.1
            st.rest_read,
      )
