-- ===== src/Tasks/Picking.antt =====
-- The benchmarks that a command line picks (xtask/src/bench/mod.rs).
use mathlib.Core.Path.{subst}
use truetop.Common.{
  ◌≡◌, refl, sym, inl, inr, Bool, true, false, ◌||◌, List, [], ◌∷◌, ◌++◌, map, Bool-cases, arith,
}
use truetop.Common.Text.{Text}
use truetop.Tasks.Bench.{
  Bench, Arg, no_prep, help, pick, unknown, arg_of, bench_eq, has_pick, push_unique, picked,
  pick_loop, pick_args,
}

abbrev pub AreOnce : List Bench → Type 0
AreOnce [] = Unit
AreOnce (b ∷ picks) = (has_pick b picks ≡ false) × AreOnce picks

abbrev names : Bench → Arg → Bool
names b (pick c) = bench_eq b c
names b no_prep = false
names b help = false
names b (unknown other) = false

-- An argument is the name of the benchmark.
abbrev pub is_named : Bench → List Arg → Bool
is_named b [] = false
is_named b (arg ∷ args) = names b arg || is_named b args

has_pick-append :
    (b c : Bench) (picks : List Bench)
    → has_pick b (picks ++ c ∷ []) ≡ (has_pick b picks || bench_eq b c)
has_pick-append b c [] = ground arith
has_pick-append b c (p ∷ picks) = ground (arith, has_pick-append b c picks)

append-AreOnce :
    (c : Bench) (picks : List Bench)
    → AreOnce picks
    → has_pick c picks ≡ false
    → AreOnce (picks ++ c ∷ [])
append-AreOnce c [] once new = (refl, tt)
append-AreOnce c (p ∷ picks) once new =
    (ground (arith, has_pick-append p c picks), append-AreOnce c picks once.1 (ground arith))

has_pick-same :
    (b c : Bench) (picks : List Bench) → bench_eq b c ≡ true → has_pick b picks ≡ has_pick c picks
has_pick-same b c [] h = refl
has_pick-same b c (p ∷ picks) h = ground (arith, has_pick-same b c picks)

has_pick-push_unique :
    (b c : Bench) (picks : List Bench)
    → has_pick b (push_unique picks c) ≡ (has_pick b picks || bench_eq b c)
unfolding push_unique
has_pick-push_unique b c picks = ground (arith, has_pick-same b c picks, has_pick-append b c picks)

push_unique-AreOnce :
    (c : Bench) (picks : List Bench) → AreOnce picks → AreOnce (push_unique picks c)
unfolding push_unique
push_unique-AreOnce c picks once = elim (Bool-cases (has_pick c picks)) [
  | inl there ↦ rw (there, push_unique) once
  | inr new ↦ rw (new, push_unique) (append-AreOnce c picks once new)
]

pick_loop-grows :
    (args : List Arg) (prep prep' : Bool) (picks picks' : List Bench)
    → AreOnce picks
    → pick_loop prep picks args ≡ picked prep' picks'
    → AreOnce picks' × ((b : Bench) → has_pick b picks' ≡ (has_pick b picks || is_named b args))
unfolding pick_loop
pick_loop-grows [] prep prep' picks picks' once h =
    let same : picks ≡ picks' = ground (arith, h) in
    (subst AreOnce same once, λ b. rw (sym same) (ground arith))
pick_loop-grows (no_prep ∷ args) prep prep' picks picks' once h =
    pick_loop-grows args false prep' picks picks' once h
pick_loop-grows (help ∷ args) prep prep' picks picks' once h = absurd (ground arith)
pick_loop-grows (pick c ∷ args) prep prep' picks picks' once h =
    let (once', same) =
      pick_loop-grows args prep prep' (push_unique picks c) picks'
        (push_unique-AreOnce c picks once) h in
    (once', λ b. ground (arith, same b, has_pick-push_unique b c picks))
pick_loop-grows (unknown other ∷ args) prep prep' picks picks' once h = absurd (ground arith)

-- The picks hold each benchmark that is named once, and no other.
pub pick_args_lem :
    (args : List Text) (prep : Bool) (picks : List Bench)
    → pick_args args ≡ picked prep picks
    → AreOnce picks × ((b : Bench) → has_pick b picks ≡ is_named b (map arg_of args))
unfolding pick_args
pick_args_lem args prep picks h = pick_loop-grows (map arg_of args) true prep [] picks tt h
