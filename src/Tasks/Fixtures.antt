-- ===== src/Tasks/Fixtures.antt =====
-- xtask/src/btf_fixtures.rs: the fixtures that are fetched, checked and written. The network and SHA-256
-- are parameters, the latter as a list of bytes.
use truetop.Common.{
  ℕ, ◌+◌, ◌/◌, ◌%◌, ◌≡◌, refl, inl, inr, ap, Bool, true, false, Option, none, some, List, [], ◌∷◌,
  ◌++◌, ltb, if◌then◌else◌, All, arith, Bool-cases, Option-cases,
}
use truetop.Common.Text.{Text, text_eq, is_empty}
use truetop.Common.Text.Trim.{text_eq→eq}

pub record Fixture : Type 0 where
  pub name : Text
  pub path : Text
  pub sha256 : Text

pub record Written : Type 0 where
  pub name : Text
  pub bytes : List ℕ

-- `{b:02x}`.
abbrev pub digit : ℕ → ℕ
digit n = if ltb n 10 then 48 + n else 87 + n

unfoldable pub hex : List ℕ → Text
hex [] = []
hex (b ∷ bytes) = digit (b / 16) ∷ digit (b % 16) ∷ hex bytes

pub data Updated : Type 0 where
  updated no_fixtures_pinned no_directory : Updated
  fetching sha256_mismatch writing : Text → Updated

-- `fetch` answers a URL's path, `writes` whether a file can be written.
module _ (fetch : Text → Option (List ℕ)) (digest : List ℕ → List ℕ) (writes : Text → Bool) where
  -- An empty checksum is to be recorded; another must be that of the bytes.
  unfoldable pub is_accepted : Text → List ℕ → Bool
  unfolding hex
  is_accepted sha256 bytes = if is_empty sha256 then true else text_eq (hex (digest bytes)) sha256

  -- What the loop writes, in order, and how it ends.
  unfoldable pub update_loop : List Fixture → List Written × Updated
  unfolding is_accepted
  update_loop [] = ([], updated)
  update_loop (f ∷ fixtures) =
      let rest = update_loop fixtures in
      elim (fetch f.path) [
        | none ↦ ([], fetching f.name)
        | some bytes ↦
            if is_accepted f.sha256 bytes
            then (if writes f.name
                then (record { name = f.name; bytes = bytes } ∷ rest.0, rest.1)
                else ([], writing f.name))
            else ([], sha256_mismatch f.name)
      ]

  -- The flag is whether the directory can be made.
  unfoldable pub update : Bool → List Fixture → List Written × Updated
  unfolding update_loop
  update creates [] = ([], no_fixtures_pinned)
  update false (f ∷ fixtures) = ([], no_directory)
  update true (f ∷ fixtures) = update_loop (f ∷ fixtures)

  -- The file stands for a fixture of the list, and its bytes have the checksum that is pinned, if any.
  pub record IsChecked (fixtures : List Fixture) (w : Written) : Type 0 where
    pub fixture : Fixture
    pub before : List Fixture
    pub after : List Fixture
    pub pinned : fixtures ≡ before ++ fixture ∷ after
    pub named : w.name ≡ fixture.name
    pub fetched : fetch fixture.path ≡ some w.bytes
    pub checked : is_empty fixture.sha256 ≡ false → hex (digest w.bytes) ≡ fixture.sha256

  accepted-checked :
      (sha256 : Text) (bytes : List ℕ)
      → is_accepted sha256 bytes ≡ true
      → is_empty sha256 ≡ false
      → hex (digest bytes) ≡ sha256
  unfolding is_accepted
  accepted-checked sha256 bytes h full =
      text_eq→eq (hex (digest bytes)) sha256 (ground (arith, h, full))

  later-IsChecked :
      (f : Fixture) (fixtures : List Fixture) (ws : List Written)
      → All (IsChecked fixtures) ws
      → All (IsChecked (f ∷ fixtures)) ws
  later-IsChecked f fixtures [] h = tt
  later-IsChecked f fixtures (w ∷ ws) h = (
    record {
      fixture = h.0.fixture;
      before = f ∷ h.0.before;
      after = h.0.after;
      pinned = ap (◌∷◌ f) h.0.pinned;
      named = h.0.named;
      fetched = h.0.fetched;
      checked = h.0.checked;
    },
    later-IsChecked f fixtures ws h.1,
  )

  update_loop-IsChecked :
      (fixtures : List Fixture) → All (IsChecked fixtures) (update_loop fixtures).0
  unfolding update_loop
  update_loop-IsChecked [] = tt
  update_loop-IsChecked (f ∷ fixtures) = elim (Option-cases (fetch f.path)) [
    | inl e ↦ rw (e, update_loop) tt
    | inr (bytes, e) ↦ elim (Bool-cases (is_accepted f.sha256 bytes)) [
      | inr no_match ↦ rw (e, update_loop, no_match) tt
      | inl match ↦ elim (Bool-cases (writes f.name)) [
        | inr stuck ↦ rw (e, update_loop, match, stuck) tt
        | inl ok ↦
            rw (e, update_loop, match, ok)
              (
                record {
                  fixture = f;
                  before = [];
                  after = fixtures;
                  pinned = refl;
                  named = refl;
                  fetched = e;
                  checked = accepted-checked f.sha256 bytes match;
                },
                later-IsChecked f fixtures (update_loop fixtures).0
                    (update_loop-IsChecked fixtures),
              )
      ]
    ]
  ]

  -- Whatever the update of the fixtures writes was fetched for a fixture of that name, and has the
  -- checksum that is pinned for it, if one is.
  update-IsChecked :
      (creates : Bool) (fixtures : List Fixture)
      → All (IsChecked fixtures) (update creates fixtures).0
  unfolding update
  update-IsChecked creates [] = tt
  update-IsChecked false (f ∷ fixtures) = tt
  update-IsChecked true (f ∷ fixtures) = update_loop-IsChecked (f ∷ fixtures)
