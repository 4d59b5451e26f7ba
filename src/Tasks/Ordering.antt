-- ===== src/Tasks/Ordering.antt =====
-- The order in which the kernel lists its mitigations does not show (xtask/src/bench/env.rs).
use mathlib.Core.List.{Perm, foldr}
use mathlib.Core.List.Perm
use truetop.Common.{
  ◌≡◌, refl, sym, ap, ◌∙◌, true, ◌||◌, Option, none, some, List, [], ◌∷◌, ◌++◌, arith,
}
use truetop.Common.Text.{Text, codes, trim}
use truetop.Tasks.Env.{
  text_le, insert_text, sort_texts, DirEntry, mitigation, mitigation_lines, mitigations, join,
}

text_le_total : (s t : Text) → (text_le s t || text_le t s) ≡ true
text_le_total [] t = refl
text_le_total (c ∷ s) [] = refl
text_le_total (c ∷ s) (d ∷ t) = ground (arith, text_le_total s t)

text_le_antisym : (s t : Text) → text_le s t ≡ true → text_le t s ≡ true → s ≡ t
text_le_antisym [] [] h k = refl
text_le_antisym [] (d ∷ t) h k = absurd (ground arith)
text_le_antisym (c ∷ s) [] h k = absurd (ground arith)
text_le_antisym (c ∷ s) (d ∷ t) h k = ground (arith, text_le_antisym s t)

text_le_trans : (s t u : Text) → text_le s t ≡ true → text_le t u ≡ true → text_le s u ≡ true
text_le_trans [] t u h k = refl
text_le_trans (c ∷ s) [] u h k = absurd (ground arith)
text_le_trans (c ∷ s) (d ∷ t) [] h k = absurd (ground arith)
text_le_trans (c ∷ s) (d ∷ t) (e ∷ u) h k = ground (arith, text_le_trans s t u)

insert_text_comm :
    (x y : Text) (zs : List Text)
    → insert_text x (insert_text y zs) ≡ insert_text y (insert_text x zs)
insert_text_comm x y [] = ground (arith, text_le_total x y, text_le_antisym x y)
insert_text_comm x y (z ∷ zs) = ground (
  arith,
  text_le_total x y,
  text_le_antisym x y,
  text_le_total x z,
  text_le_total y z,
  text_le_trans x y z,
  text_le_trans y x z,
  insert_text_comm x y zs,
)

abbrev add_mitigation : Option Text → Option Text → List Text → List Text
add_mitigation none status ls = ls
add_mitigation (some name) none ls = ls
add_mitigation (some name) (some status) ls = insert_text (name ++ codes "=" ++ trim status) ls

abbrev add_entry : Option DirEntry → List Text → List Text
add_entry none ls = ls
add_entry (some e) ls = add_mitigation e.name e.status ls

sort-mitigation :
    (name status : Option Text) (ls : List Text)
    → sort_texts (mitigation name status ++ ls) ≡ add_mitigation name status (sort_texts ls)
unfolding sort_texts
sort-mitigation none status ls = refl
sort-mitigation (some name) none ls = refl
sort-mitigation (some name) (some status) ls = refl

sort-mitigation_lines :
    (entries : List (Option DirEntry))
    → sort_texts (mitigation_lines entries) ≡ foldr add_entry [] entries
unfolding sort_texts mitigation_lines
sort-mitigation_lines [] = refl
sort-mitigation_lines (none ∷ entries) = sort-mitigation_lines entries
sort-mitigation_lines (some e ∷ entries) =
    sort-mitigation e.name e.status (mitigation_lines entries)
    ∙ ap (add_mitigation e.name e.status) (sort-mitigation_lines entries)

add_mitigation_comm :
    (n s m t : Option Text) (ls : List Text)
    → add_mitigation n s (add_mitigation m t ls) ≡ add_mitigation m t (add_mitigation n s ls)
add_mitigation_comm none s m t ls = refl
add_mitigation_comm (some n) none m t ls = refl
add_mitigation_comm (some n) (some s) none t ls = refl
add_mitigation_comm (some n) (some s) (some m) none ls = refl
add_mitigation_comm (some n) (some s) (some m) (some t) ls = insert_text_comm _ _ ls

add_entry_comm :
    (d e : Option DirEntry) (ls : List Text)
    → add_entry d (add_entry e ls) ≡ add_entry e (add_entry d ls)
add_entry_comm none e ls = refl
add_entry_comm (some d) none ls = refl
add_entry_comm (some d) (some e) ls = add_mitigation_comm d.name d.status e.name e.status ls

texts-IsSet : IsSet (List Text)
texts-IsSet = hlevel

-- The line of mitigations that is recorded does not depend on the order in which the directory
-- lists them.
mitigations_lem :
    (entries entries' : List (Option DirEntry))
    → Perm entries entries'
    → mitigations (some entries) ≡ mitigations (some entries')
unfolding mitigations
mitigations_lem entries entries' same = ap (join (codes ", ")) (
    sort-mitigation_lines entries
    ∙ Perm.foldr-eq texts-IsSet add_entry add_entry_comm same []
    ∙ sym (sort-mitigation_lines entries'))
