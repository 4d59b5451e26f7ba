-- ===== src/Collector/Reaping.antt =====
-- What the reaper drops and what it keeps (truetop/src/reaper.rs).
use truetop.Common.{
  ℕ, zero, suc, ◌/◌, ◌%◌, ◌<◌, ◌≡◌, refl, ap, Bool, true, false, Option, none, some, List, [], ◌∷◌,
  arith, lookup, lookup-remove, take, drop, contains, ◌==◌, if◌then◌else◌, u32_mod, Option-cases,
  inl, inr,
}
use truetop.Collector.Reaper.{Ring, Books, from_bytes, close, reap_rounds, reap, budget}

-- The processes that records announce.
abbrev pub announced : Bool → Ring → List ℕ
announced big [] = []
announced big (bytes ∷ exits) =
    let rest = announced big exits in
    elim (from_bytes big bytes) [ none ↦ rest | some tgid ↦ tgid ∷ rest ]

-- A record as `announce` writes it.
abbrev pub to_ne_bytes : Bool → ℕ → List ℕ
to_ne_bytes true n = n / 16777216 ∷ n / 65536 % 256 ∷ n / 256 % 256 ∷ n % 256 ∷ []
to_ne_bytes false n = n % 256 ∷ n / 256 % 256 ∷ n / 65536 % 256 ∷ n / 16777216 ∷ []

-- A 32-bit process id that is written on the ring in either byte order is read back.
pub from_bytes-to_ne_bytes :
    (big : Bool) (tgid : ℕ) → tgid < u32_mod → from_bytes big (to_ne_bytes big tgid) ≡ some tgid
unfolding from_bytes
from_bytes-to_ne_bytes true tgid h = ap some (omega arith)
from_bytes-to_ne_bytes false tgid h = ap some (omega arith)

abbrev pub without {ℓ} : {V : Type ℓ} → Bool → Option V → Option V
without gone v = if gone then none else v

pub record AreDropped (gone : List ℕ) (k : ℕ) (b b' : Books) : Type 0 where
  pub cpu_ns : lookup k b'.cpu_ns ≡ without (contains k gone) (lookup k b.cpu_ns)
  pub iowait_ns : lookup k b'.iowait_ns ≡ without (contains k gone) (lookup k b.iowait_ns)
  pub comm : lookup k b'.names.comm ≡ without (contains k gone) (lookup k b.names.comm)
  pub seed : lookup k b'.names.seed ≡ without (contains k gone) (lookup k b.names.seed)
  pub users : b'.names.users ≡ b.names.users

without-without {ℓ} :
    {V : Type ℓ} (k tgid : ℕ) (gone : List ℕ) (v v' v'' : Option V)
    → v'' ≡ without (contains k gone) v'
    → v' ≡ (if tgid == k then none else v)
    → v'' ≡ without (contains k (tgid ∷ gone)) v
without-without k tgid gone v v' v'' h e = ground arith

close-AreDropped :
    (tgid k : ℕ) (gone : List ℕ) (b b' : Books)
    → AreDropped gone k (close (some tgid) b) b'
    → AreDropped (tgid ∷ gone) k b b'
unfolding close
close-AreDropped tgid k gone b b' h = record {
  cpu_ns = without-without k tgid gone _ _ _ h.cpu_ns (lookup-remove tgid k b.cpu_ns);
  iowait_ns = without-without k tgid gone _ _ _ h.iowait_ns (lookup-remove tgid k b.iowait_ns);
  comm = without-without k tgid gone _ _ _ h.comm (lookup-remove tgid k b.names.comm);
  seed = without-without k tgid gone _ _ _ h.seed (lookup-remove tgid k b.names.seed);
  users = h.users;
}

nothing_dropped :
    (k : ℕ) (b : Books) (exits : Ring) → AreDropped [] k b (record b { exits = exits })
nothing_dropped k b exits = record {
  cpu_ns = refl;
  iowait_ns = refl;
  comm = refl;
  seed = refl;
  users = refl;
}

reap_rounds_left :
    (big : Bool) (n : ℕ) (exits : Ring) (b : Books)
    → (reap_rounds big n exits b).exits ≡ drop n exits
unfolding reap_rounds
reap_rounds_left big zero exits b = refl
reap_rounds_left big (suc n) [] b = refl
reap_rounds_left big (suc n) (bytes ∷ exits) b = reap_rounds_left big n exits _

reap_rounds_dropped :
    (big : Bool) (n k : ℕ) (exits : Ring) (b : Books)
    → AreDropped (announced big (take n exits)) k b (reap_rounds big n exits b)
unfolding reap_rounds
reap_rounds_dropped big zero k exits b = nothing_dropped k b _
reap_rounds_dropped big (suc n) k [] b = nothing_dropped k b _
reap_rounds_dropped big (suc n) k (bytes ∷ exits) b = elim (Option-cases (from_bytes big bytes)) [
  | inl e ↦ rw (e, close, announced) (reap_rounds_dropped big n k exits b)
  | inr (tgid, e) ↦
      rw (e, announced)
        (close-AreDropped tgid k _ b _ (reap_rounds_dropped big n k exits (close (some tgid) b)))
]

-- A reap takes the oldest records off the ring, up to its budget; the processes that they announce
-- lose both counters and the name, and no other process loses anything.
pub reap_lem :
    (big : Bool) (k : ℕ) (b : Books)
    → AreDropped (announced big (take budget b.exits)) k b (reap big b)
      × ((reap big b).exits ≡ drop budget b.exits)
unfolding reap
reap_lem big k b =
    (reap_rounds_dropped big budget k b.exits b, reap_rounds_left big budget b.exits b)
