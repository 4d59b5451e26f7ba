-- ===== src/Ui/Order.antt =====
-- What a frame shows (truetop/src/ui/table.rs): the matching processes, all of them, in order.
use mathlib.Core.List.{reverse, reverse-cons, reverse_perm, Perm}
use mathlib.Core.List.Perm
use mathlib.Core.Path.{subst}
use truetop.Common.{
  ℕ, ◌≤◌, ◌≡◌, ◌↔◌, ◌⊎◌, refl, ap, sym, Bool, true, false, ◌||◌, Option, none, some, List, [], ◌∷◌,
  ◌++◌, arith, if◌then◌else◌, keep, All, Bool-cases, inl, inr,
}
use truetop.Common.Text.{Text, starts_with, contains_text, print_unsigned}
use truetop.Common.Float.{F64, IsTotalOrder, zero_f}
use truetop.Metrics.Counters.{IoMetrics, MemMetrics, ProcessMetrics}
use truetop.Ui.App.{Sort}
use truetop.Ui.Table.{insert_row, sort_rows, matches_filter, row_le, visible}

module _ {A : Type 0} (le : A → A → Bool) where
  -- Each row ranks no lower than every row behind it.
  abbrev pub Descends : List A → Type 0
  Descends [] = Unit
  Descends (x ∷ xs) = All (λ y. le y x ≡ true) xs × Descends xs

  insert_row-perm : (x : A) (ys : List A) → Perm (insert_row le x ys) (x ∷ ys)
  unfolding insert_row
  insert_row-perm x [] = Perm.refl (x ∷ [])
  insert_row-perm x (y ∷ ys) = elim (Bool-cases (le y x)) [
    | inl e ↦ rw e (Perm.refl (x ∷ y ∷ ys))
    | inr e ↦ rw e (Perm.trans (Perm.cons y (insert_row-perm x ys)) (Perm.swap x y ys))
  ]

  sort_rows-perm : (xs : List A) → Perm (sort_rows le xs) xs
  unfolding sort_rows
  sort_rows-perm [] = Perm.refl []
  sort_rows-perm (x ∷ xs) =
      Perm.trans (insert_row-perm x (sort_rows le xs)) (Perm.cons x (sort_rows-perm xs))

  module _ (total : (x y : A) → le x y ≡ false → le y x ≡ true)
      (trans : (x y z : A) → le x y ≡ true → le y z ≡ true → le x z ≡ true) where
    All-insert_row :
        (P : A → Type 0) (x : A) (ys : List A) → P x → All P ys → All P (insert_row le x ys)
    unfolding insert_row
    All-insert_row P x [] h hs = (h, tt)
    All-insert_row P x (y ∷ ys) h hs = elim (Bool-cases (le y x)) [
      | inl e ↦ rw e (h, hs)
      | inr e ↦ rw e (hs.0, All-insert_row P x ys h hs.1)
    ]

    below-All :
        (x y : A) (ys : List A)
        → le y x ≡ true
        → All (λ z. le z y ≡ true) ys
        → All (λ z. le z x ≡ true) ys
    below-All x y [] h hs = tt
    below-All x y (z ∷ ys) h hs = (trans z y x hs.0 h, below-All x y ys h hs.1)

    insert_row-Descends : (x : A) (ys : List A) → Descends ys → Descends (insert_row le x ys)
    unfolding insert_row
    insert_row-Descends x [] d = (tt, tt)
    insert_row-Descends x (y ∷ ys) d = elim (Bool-cases (le y x)) [
      | inl e ↦ rw e ((e, below-All x y ys e d.0), d)
      | inr e ↦
          rw e (
            All-insert_row (λ z. le z y ≡ true) x ys (total y x e) d.0,
            insert_row-Descends x ys d.1,
          )
    ]

    pub sort_rows-Descends : (xs : List A) → Descends (sort_rows le xs)
    unfolding sort_rows
    sort_rows-Descends [] = tt
    sort_rows-Descends (x ∷ xs) = insert_row-Descends x (sort_rows le xs) (sort_rows-Descends xs)

-- Each element stands in the relation to every one behind it.
module _ {A : Type 0} (R : A → A → Type 0) where
  abbrev pub Ordered : List A → Type 0
  Ordered [] = Unit
  Ordered (x ∷ xs) = All (R x) xs × Ordered xs

module _ {A : Type 0} where
  All-snoc : (P : A → Type 0) (xs : List A) (y : A) → All P xs → P y → All P (xs ++ y ∷ [])
  All-snoc P [] y h p = (p, tt)
  All-snoc P (x ∷ xs) y h p = (h.0, All-snoc P xs y h.1 p)

  All-reverse : (P : A → Type 0) (xs : List A) → All P xs → All P (reverse xs)
  All-reverse P [] h = tt
  All-reverse P (x ∷ xs) h =
      subst (All P) (sym (reverse-cons x xs)) (All-snoc P (reverse xs) x (All-reverse P xs h.1) h.0)

  snoc-Ordered :
      (R : A → A → Type 0) (xs : List A) (y : A)
      → Ordered R xs
      → All (λ x. R x y) xs
      → Ordered R (xs ++ y ∷ [])
  snoc-Ordered R [] y o h = (tt, tt)
  snoc-Ordered R (x ∷ xs) y o h = (All-snoc (R x) xs y o.0 h.0, snoc-Ordered R xs y o.1 h.1)

  -- Backwards, the relation is the other way round.
  reverse-Ordered :
      (R : A → A → Type 0) (xs : List A) → Ordered R xs → Ordered (λ x y. R y x) (reverse xs)
  reverse-Ordered R [] o = tt
  reverse-Ordered R (x ∷ xs) o = subst (Ordered (λ a b. R b a)) (sym (reverse-cons x xs)) (
      snoc-Ordered (λ a b. R b a) (reverse xs) x (reverse-Ordered R xs o.1)
        (All-reverse (R x) xs o.0))

-- One text stands somewhere in another.
abbrev pub Occurs : Text → Text → Type 0
Occurs needle haystack = (before : Text) × (after : Text) × (haystack ≡ before ++ (needle ++ after))

starts_with_iff :
    (needle s : Text) → (starts_with needle s ≡ true) ↔ ((after : Text) × (s ≡ needle ++ after))
unfolding starts_with
starts_with_iff [] s = (λ h. (s, refl), λ h. refl)
starts_with_iff (c ∷ cs) [] = (λ h. absurd (ground (arith, h)), λ h. absurd (ground (arith, h.1)))
starts_with_iff (c ∷ cs) (d ∷ s) =
    let ih = starts_with_iff cs s in
    (
      λ h. let (after, e) = ih.0 (ground (arith, h)) in (after, ground (arith, h, e)),
      λ h. let rest = ih.1 (h.0, ground (arith, h.1)) in ground (arith, h.1, rest),
    )

contains_text_iff :
    (needle haystack : Text) → (contains_text needle haystack ≡ true) ↔ Occurs needle haystack
unfolding contains_text starts_with
contains_text_iff [] [] = (λ h. ([], [], refl), λ h. refl)
contains_text_iff (n ∷ ns) [] = (
  λ h. absurd (ground (arith, h)),
  λ h. let (before, after, e) = h in absurd (nothing before after e),
)
  where
    nothing : (before after : Text) → [] ≡ before ++ ((n ∷ ns) ++ after) → ⊥
    nothing [] after e = ground (arith, e)
    nothing (b ∷ before) after e = ground (arith, e)
contains_text_iff needle (c ∷ s) =
    let here = starts_with_iff needle (c ∷ s) in
    let later = contains_text_iff needle s in
    (
      λ h. elim (Bool-cases (starts_with needle (c ∷ s))) [
        | inl e ↦ let (after, found) = here.0 e in ([], after, found)
        | inr e ↦
            let (before, after, found) = later.0 (rw e at h) in
            (c ∷ before, after, ap (◌∷◌ c) found)
      ],
      λ h. let (before, after, e) = h in either later.1 before after e,
    )
  where
    either :
        (Occurs needle s → contains_text needle s ≡ true)
        → (before after : Text) → c ∷ s ≡ before ++ (needle ++ after)
        → (starts_with needle (c ∷ s) || contains_text needle s) ≡ true
    either behind [] after e = rw ((starts_with_iff needle (c ∷ s)).1 (after, e)) refl
    either behind (b ∷ before) after e =
        let found = behind (before, after, ground (arith, e)) in
        elim (Bool-cases (starts_with needle (c ∷ s))) [
          | inl first ↦ rw first refl
          | inr first ↦ rw first found
        ]

-- A process matches where the filter is empty or stands, in lower case, in its name or its id.
abbrev pub Matches : (Text → Text) → Text → {F : Type 0} → ProcessMetrics F → Type 0
Matches to_lowercase filter p =
    (filter ≡ [])
    ⊎ (Occurs (to_lowercase filter) (to_lowercase p.name)
        ⊎ Occurs (to_lowercase filter) (print_unsigned p.pid))

abbrev rss : Option MemMetrics → ℕ
rss none = 0
rss (some m) = m.rss_bytes

module _ (f64 : F64) where
  open f64 use {F, total_le}

  abbrev waited : Option (IoMetrics F) → F
  waited none = zero_f f64
  waited (some m) = m.io_wait_percent

  -- The first process ranks no higher than the second: by its CPU share, its resident memory or its share
  -- of I/O wait, a figure that is missing being zero.
  abbrev pub Ranks : Sort → ProcessMetrics F → ProcessMetrics F → Type 0
  Ranks Sort.cpu p q = total_le p.cpu.cpu_percent q.cpu.cpu_percent ≡ true
  Ranks Sort.mem p q = rss p.mem ≤ rss q.mem
  Ranks Sort.io p q = total_le (waited p.io) (waited q.io) ≡ true

  -- The greatest first, or the least.
  abbrev pub Ranked : Sort → Bool → List (ProcessMetrics F) → Type 0
  Ranked sort true rows = Ordered (λ x y. Ranks sort y x) rows
  Ranked sort false rows = Ordered (Ranks sort) rows

module _ (f64 : F64) (order : IsTotalOrder f64.total_le) (to_lowercase : Text → Text) where
  open f64 use {F}

  row_le_total :
      (sort : Sort) (p q : ProcessMetrics F)
      → row_le f64 sort p q ≡ false
      → row_le f64 sort q p ≡ true
  unfolding row_le
  row_le_total Sort.cpu p q h = order.total _ _ h
  row_le_total Sort.mem p q h = ground arith
  row_le_total Sort.io p q h = order.total _ _ h

  row_le_trans :
      (sort : Sort) (p q r : ProcessMetrics F)
      → row_le f64 sort p q ≡ true
      → row_le f64 sort q r ≡ true
      → row_le f64 sort p r ≡ true
  unfolding row_le
  row_le_trans Sort.cpu p q r h k = order.trans _ _ _ h k
  row_le_trans Sort.mem p q r h k = ground arith
  row_le_trans Sort.io p q r h k = order.trans _ _ _ h k

  matches_filter_iff :
      (p : ProcessMetrics F) (filter : Text)
      → (matches_filter to_lowercase p filter ≡ true) ↔ Matches to_lowercase filter p
  unfolding matches_filter
  matches_filter_iff p [] = (λ h. inl refl, λ h. refl)
  matches_filter_iff p (c ∷ cs) =
      let needle = to_lowercase (c ∷ cs) in
      let in_name = contains_text_iff needle (to_lowercase p.name) in
      let in_pid = contains_text_iff needle (print_unsigned p.pid) in
      (
        λ h. elim (Bool-cases (contains_text needle (to_lowercase p.name))) [
          | inl e ↦ inr (inl (in_name.0 e))
          | inr e ↦ inr (inr (in_pid.0 (rw e at h)))
        ],
        λ h. elim h [
          | inl e ↦ absurd (ground (arith, e))
          | inr (inl o) ↦ rw (in_name.1 o) refl
          | inr (inr o) ↦ elim (Bool-cases (contains_text needle (to_lowercase p.name))) [
            | inl e ↦ rw e refl
            | inr e ↦ rw e (in_pid.1 o)
          ]
        ],
      )

  row_le-Ranks :
      (sort : Sort) (p q : ProcessMetrics F) → row_le f64 sort p q ≡ true → Ranks f64 sort p q
  unfolding row_le
  row_le-Ranks Sort.cpu p q h = h
  row_le-Ranks Sort.mem p q h = ground arith
  row_le-Ranks Sort.io p q h = h

  All-Ranks :
      (sort : Sort) (x : ProcessMetrics F) (ys : List (ProcessMetrics F))
      → All (λ y. row_le f64 sort y x ≡ true) ys
      → All (λ y. Ranks f64 sort y x) ys
  All-Ranks sort x [] h = tt
  All-Ranks sort x (y ∷ ys) h = (row_le-Ranks sort y x h.0, All-Ranks sort x ys h.1)

  Descends-Ordered :
      (sort : Sort) (xs : List (ProcessMetrics F))
      → Descends (row_le f64 sort) xs
      → Ordered (λ x y. Ranks f64 sort y x) xs
  Descends-Ordered sort [] d = tt
  Descends-Ordered sort (x ∷ xs) d = (All-Ranks sort x xs d.0, Descends-Ordered sort xs d.1)

  -- For a total order on the readings, a frame holds the processes that match the filter, each as
  -- often as the snapshot does, where a process matches if the filter is empty or occurs, in lower
  -- case, in its name or its id; by CPU share, resident memory or I/O wait, as the column is, each
  -- row ranks no lower than those below it, or no higher where the order is reversed.
  pub visible_lem :
      (processes : List (ProcessMetrics F)) (sort : Sort) (descending : Bool) (filter : Text)
      → Perm
          (visible f64 to_lowercase processes sort descending filter)
          (keep (λ p. matches_filter to_lowercase p filter) processes)
        × ((p : ProcessMetrics F)
            → (matches_filter to_lowercase p filter ≡ true) ↔ Matches to_lowercase filter p)
        × Ranked f64 sort descending (visible f64 to_lowercase processes sort descending filter)
  unfolding visible
  visible_lem processes sort descending filter =
      let matching = keep (λ p. matches_filter to_lowercase p filter) processes in
      let ordered =
        Descends-Ordered sort (sort_rows (row_le f64 sort) matching)
          (sort_rows-Descends (row_le f64 sort) (row_le_total sort) (row_le_trans sort) matching) in
      (
        either descending matching,
        λ p. matches_filter_iff p filter,
        ranked descending (sort_rows (row_le f64 sort) matching) ordered,
      )
    where
      either :
          (down : Bool) (matching : List (ProcessMetrics F))
          → Perm
              (if down
                then sort_rows (row_le f64 sort) matching
                else reverse (sort_rows (row_le f64 sort) matching))
              matching
      either true matching = sort_rows-perm (row_le f64 sort) matching
      either false matching =
          Perm.trans (reverse_perm (sort_rows (row_le f64 sort) matching))
            (sort_rows-perm (row_le f64 sort) matching)

      ranked :
          (down : Bool) (rows : List (ProcessMetrics F))
          → Ordered (λ x y. Ranks f64 sort y x) rows
          → Ranked f64 sort down (if down then rows else reverse rows)
      ranked true rows o = o
      ranked false rows o = reverse-Ordered (λ x y. Ranks f64 sort y x) rows o
