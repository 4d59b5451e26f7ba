-- ===== src/Host/BtfWords.antt =====
-- Words that were written are read back where they stand (truetop/src/btf.rs, `u32`).
use mathlib.Core.Path.{subst}
use truetop.Common.{
  ℕ, ◌+◌, ◌*◌, ◌≡◌, refl, ap, sym, ◌∙◌, Bool, true, false, not, some, List, [], ◌∷◌, ◌++◌,
  append_assoc, arith, length, length-append, drop, drop-append, drop-drop, All,
}
use truetop.Collector.Reaping.{to_ne_bytes}
use truetop.Host.Btf.{Btf, word, u32_at}
use truetop.Host.BtfFile.{IsWord, word_bytes}

pub length-to_ne_bytes : (big : Bool) (w : ℕ) → length (to_ne_bytes big w) ≡ 4
length-to_ne_bytes true w = refl
length-to_ne_bytes false w = refl

pub length-word_bytes : (le : Bool) (ws : List ℕ) → length (word_bytes le ws) ≡ 4 * length ws
unfolding word_bytes
length-word_bytes le [] = refl
length-word_bytes le (w ∷ ws) =
    length-append (to_ne_bytes (not le) w) (word_bytes le ws)
    ∙ omega (arith, length-to_ne_bytes (not le) w, length-word_bytes le ws)

pub word_bytes-append :
    (le : Bool) (xs ys : List ℕ) → word_bytes le (xs ++ ys) ≡ word_bytes le xs ++ word_bytes le ys
unfolding word_bytes
word_bytes-append le [] ys = refl
word_bytes-append le (x ∷ xs) ys =
    ap (◌++◌ (to_ne_bytes (not le) x)) (word_bytes-append le xs ys)
    ∙ sym (append_assoc (to_ne_bytes (not le) x) (word_bytes le xs) (word_bytes le ys))

word-to_ne_bytes :
    (le : Bool) (w : ℕ) (rest : List ℕ)
    → IsWord w
    → word le (to_ne_bytes (not le) w ++ rest) ≡ some w
unfolding word
word-to_ne_bytes true w rest h = ap some (omega arith)
word-to_ne_bytes false w rest h = ap some (omega arith)

-- The words stand from a position on.
abbrev pub Words : Btf → ℕ → List ℕ → Type 0
Words b cur [] = Unit
Words b cur (w ∷ ws) = (u32_at b cur ≡ some w) × Words b (cur + 4) ws

-- A position written in another way.
pub moved-Words :
    (b : Btf) (ws : List ℕ) {cur cur' : ℕ} → cur ≡ cur' → Words b cur ws → Words b cur' ws
moved-Words b ws e h = subst (λ c. Words b c ws) e h

pub Words-append :
    (b : Btf) (cur : ℕ) (xs ys : List ℕ)
    → Words b cur (xs ++ ys)
    → Words b cur xs × Words b (cur + 4 * length xs) ys
Words-append b cur [] ys h = (tt, moved-Words b ys (omega arith) h)
Words-append b cur (x ∷ xs) ys h =
    let (front, back) = Words-append b (cur + 4) xs ys h.1 in
    ((h.0, front), moved-Words b ys (omega arith) back)

-- What was written behind `cur` bytes stands there.
pub written-Words :
    (b : Btf) (ws rest : List ℕ) (cur : ℕ)
    → All IsWord ws
    → drop cur b.bytes ≡ word_bytes b.le ws ++ rest
    → Words b cur ws
unfolding u32_at word_bytes
written-Words b [] rest cur small h = tt
written-Words b (w ∷ ws) rest cur small h =
    let four = to_ne_bytes (not b.le) w in
    let here : drop cur b.bytes ≡ four ++ (word_bytes b.le ws ++ rest) =
      h ∙ append_assoc four (word_bytes b.le ws) rest in
    let behind : drop (cur + 4) b.bytes ≡ word_bytes b.le ws ++ rest =
      sym (drop-drop 4 cur (cur + 4) b.bytes refl)
      ∙ ap (drop 4) here
      ∙ (rw (← length-to_ne_bytes (not b.le) w) (drop-append four (word_bytes b.le ws ++ rest))) in
    (
      rw here (word-to_ne_bytes b.le w (word_bytes b.le ws ++ rest) small.0),
      written-Words b ws rest (cur + 4) small.1 behind,
    )
