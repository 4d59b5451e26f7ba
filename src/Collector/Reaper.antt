-- ===== src/Collector/Reaper.antt =====
-- truetop/src/reaper.rs, and the record that it decodes (truetop-common/src/lib.rs): departed
-- processes are dropped from the maps, up to a budget each tick.
use truetop.Common.{
  ℕ, zero, suc, ◌+◌, ◌*◌, Bool, true, false, Option, none, some, List, [], ◌∷◌, Dict,
}
use truetop.Kernel.Maps.{Slots}
use truetop.Metrics.Identity.{Resolver, forget}
use truetop.Collector.Batch.{delete_elem}

-- Records on the ring, as bytes.
abbrev pub Ring : Type 0
Ring = List (List ℕ)

-- `u32::from_ne_bytes` and its inverse, for either byte order.
abbrev pub from_ne_bytes : Bool → ℕ → ℕ → ℕ → ℕ → ℕ
from_ne_bytes true b0 b1 b2 b3 = ((b0 * 256 + b1) * 256 + b2) * 256 + b3
from_ne_bytes false b0 b1 b2 b3 = ((b3 * 256 + b2) * 256 + b1) * 256 + b0

-- `ExitEvent::from_bytes`: the tgid in the first four bytes, `none` for a short record.
unfoldable pub from_bytes : Bool → List ℕ → Option ℕ
from_bytes big [] = none
from_bytes big (b0 ∷ []) = none
from_bytes big (b0 ∷ b1 ∷ []) = none
from_bytes big (b0 ∷ b1 ∷ b2 ∷ []) = none
from_bytes big (b0 ∷ b1 ∷ b2 ∷ b3 ∷ rest) = some (from_ne_bytes big b0 b1 b2 b3)

-- What the reaper works on: the maps, the names and the ring.
pub record Books : Type 0 where
  pub cpu_ns : Dict Slots
  pub iowait_ns : Dict Slots
  pub names : Resolver
  pub exits : Ring

abbrev pub budget : ℕ
budget = 4096

unfoldable pub close : Option ℕ → Books → Books
unfolding delete_elem forget
close none b = b
close (some tgid) b = record b {
  cpu_ns = delete_elem tgid b.cpu_ns;
  iowait_ns = delete_elem tgid b.iowait_ns;
  names = forget tgid b.names;
}

-- The loop, with `n` rounds left, over the records that are on the ring.
unfoldable pub reap_rounds : Bool → ℕ → Ring → Books → Books
unfolding close from_bytes
reap_rounds big zero exits b = record b { exits = exits }
reap_rounds big (suc n) [] b = record b { exits = [] }
reap_rounds big (suc n) (bytes ∷ exits) b = reap_rounds big n exits (close (from_bytes big bytes) b)

unfoldable pub reap : Bool → Books → Books
unfolding reap_rounds
reap big b = reap_rounds big budget b.exits b
