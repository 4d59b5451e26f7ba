-- ===== src/Metrics/Examples.antt =====
-- Rates, names and users at concrete inputs.
use truetop.Common.{ℕ, ◌+◌, ◌-◌, some, [], ◌∷◌, leb}
use truetop.Common.Text.{codes}
use truetop.Common.Float.{F64}
use truetop.Metrics.Counters.{Snapshot}
use truetop.Metrics.Identity.{Resolver}

-- Whole numbers in place of floats; a share is left undivided.
abbrev pub whole : F64
whole = record {
  F = ℕ;
  of_nat = λ n. n;
  literal = λ n k. n;
  add = λ a b. a + b;
  sub = λ a b. a - b;
  mul = λ a b. a;
  div = λ a b. a;
  lt = λ a b. leb (a + 1) b;
  le = leb;
  total_le = leb;
}

abbrev pub before : Snapshot
before = record { at = some 1000; by_pid = (10, 300) ∷ (11, 40) ∷ [] }

abbrev pub now : Snapshot
now = record { at = some 2000; by_pid = (10, 300) ∷ (11, 90) ∷ [] }

abbrev pub resolver : Resolver
resolver = record {
  comm = (10, record { comm = codes "sh"; uid = 0 }) ∷ [];
  seed = (10, record { name = codes "init"; uid = 0 }) ∷ [];
  users = (0, codes "root") ∷ [];
}
