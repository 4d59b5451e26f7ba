-- ===== src/Tasks/Load.antt =====
-- bench/src/bin: the load generators, as what they do on the answers of `fork`.
use truetop.Common.{ℕ, zero, suc, ◌≡◌, refl, ap, Option, none, some, List, [], ◌∷◌, u64_mod}
use truetop.Common.Text.{Text, nth, parse_unsigned}

pub data Fork : Type 0 where
  in_child fork_failed : Fork
  forked : ℕ → Fork

pub data Act : Type 0 where
  sets_death_signal pauses exits_with_0 : Act
  -- For a number of nanoseconds.
  naps : ℕ → Act
  -- `waitpid` on a child.
  waits : ℕ → Act

abbrev or_default : ℕ → Option ℕ → ℕ
or_default n none = n
or_default n (some m) = m

abbrev parsed : Option Text → Option ℕ
parsed none = none
parsed (some arg) = parse_unsigned u64_mod arg

-- The argument behind the program's name.
unfoldable pub count_of : ℕ → List Text → ℕ
unfolding parse_unsigned
count_of default args = or_default default (parsed (nth 1 args))

-- The loop of `churn`, over as many answers as it meets; in a child it ends.
unfoldable pub churn : List Fork → List Act
churn [] = []
churn (in_child ∷ forks) = naps 1000000 ∷ exits_with_0 ∷ []
churn (fork_failed ∷ forks) = naps 1000000 ∷ churn forks
churn (forked pid ∷ forks) = waits pid ∷ churn forks

-- The loop of a process of `load`, for a number of rounds.
unfoldable pub keep_rescheduling : ℕ → List Act
keep_rescheduling zero = []
keep_rescheduling (suc n) = naps 100000000 ∷ keep_rescheduling n

-- `main` of either, over a worker's body: it forks `n` workers and pauses; in a child the worker runs.
unfoldable pub spawn : List Act → ℕ → List Fork → List Act
spawn worker zero forks = pauses ∷ []
spawn worker (suc n) [] = []
spawn worker (suc n) (in_child ∷ forks) = sets_death_signal ∷ worker
spawn worker (suc n) (fork_failed ∷ forks) = spawn worker n forks
spawn worker (suc n) (forked pid ∷ forks) = spawn worker n forks

abbrev waited : List Act → List ℕ
waited [] = []
waited (waits pid ∷ acts) = pid ∷ waited acts
waited (act ∷ acts) = waited acts

abbrev children : List Fork → List ℕ
children [] = []
children (in_child ∷ forks) = []
children (fork_failed ∷ forks) = children forks
children (forked pid ∷ forks) = pid ∷ children forks

-- A worker waits for each of its children before it forks the next.
waited-churn : (forks : List Fork) → waited (churn forks) ≡ children forks
unfolding churn
waited-churn [] = refl
waited-churn (in_child ∷ forks) = refl
waited-churn (fork_failed ∷ forks) = waited-churn forks
waited-churn (forked pid ∷ forks) = ap (◌∷◌ pid) (waited-churn forks)
