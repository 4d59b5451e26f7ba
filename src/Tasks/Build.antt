-- ===== src/Tasks/Build.antt =====
-- truetop/build.rs: which toolchain builds the object for the kernel. What
-- cargo's metadata answers is a parameter.
use truetop.Common.{
  Bool, true, false, not, ◌≡◌, refl, Option, Option-cases, none, some, List, [], ◌∷◌, arith,
  if◌then◌else◌, inl, inr,
}
use truetop.Common.Text.{Text, codes, text_eq}

-- `directory` is the parent of its manifest's path, `toolchain` the one that its metadata pins.
pub record Package : Type 0 where
  pub name : Text
  pub directory : Option Text
  pub toolchain : Option Text

pub data BuildError : Type 0 where
  reading_metadata no_member no_directory no_toolchain : BuildError

-- The object is built in a directory with a toolchain, after a warning or without.
pub data Built : Type 0 where
  builds : (root_dir toolchain : Text) → (warned : Bool) → Built
  fails : BuildError → Built

unfoldable pub find_package : Text → List Package → Option Package
find_package name [] = none
find_package name (p ∷ ps) =
    let rest = find_package name ps in if text_eq p.name name then some p else rest

abbrev pub or_pinned : Option Text → Text → Text
or_pinned none pinned = pinned
or_pinned (some toolchain) pinned = toolchain

abbrev pub with_pinned : Option Text → Text → Option Text → Built
with_pinned var root_dir none = fails no_toolchain
with_pinned var root_dir (some pinned) =
    let toolchain = or_pinned var pinned in
    builds root_dir toolchain (not (text_eq toolchain pinned))

abbrev pub in_directory : Option Text → Option Text → Option Text → Built
in_directory var toolchain none = fails no_directory
in_directory var toolchain (some root_dir) = with_pinned var root_dir toolchain

abbrev pub of_member : Option Text → Option Package → Built
of_member var none = fails no_member
of_member var (some ebpf) = in_directory var ebpf.toolchain ebpf.directory

-- `main` of truetop/build.rs; `var` is TRUETOP_EBPF_TOOLCHAIN.
unfoldable pub build : Option (List Package) → Option Text → Built
unfolding find_package
build none var = fails reading_metadata
build (some packages) var = of_member var (find_package (codes "truetop-ebpf") packages)

text_eq_refl : (s : Text) → text_eq s s ≡ true
text_eq_refl [] = refl
text_eq_refl (c ∷ s) = ground (arith, text_eq_refl s)

-- Whatever is built without the variable is built with the toolchain that the package pins, and without a
-- warning.
build-pinned :
    (packages : List Package) (root_dir toolchain : Text) (warned : Bool)
    → build (some packages) none ≡ builds root_dir toolchain warned
    → (warned ≡ false)
      × ((p : Package) × (find_package (codes "truetop-ebpf") packages ≡ some p)
          × (p.toolchain ≡ some toolchain)
          × (p.directory ≡ some root_dir))
unfolding build
build-pinned packages root_dir toolchain warned h =
    elim (Option-cases (find_package (codes "truetop-ebpf") packages)) [
      | inl e ↦ absurd (ground (arith, rw (e, build) at h))
      | inr (p, e) ↦ elim (Option-cases p.directory) [
        | inl e' ↦ absurd (ground (arith, rw (e, e', build) at h))
        | inr (d, e') ↦ elim (Option-cases p.toolchain) [
          | inl e'' ↦ absurd (ground (arith, rw (e, e', e'', build) at h))
          | inr (t, e'') ↦
              let built : builds d t (not (text_eq t t)) ≡ builds root_dir toolchain warned =
                rw (e, e', e'', build) at h in
              (ground (arith, text_eq_refl t), (p, e, ground (arith, e''), ground (arith, e')))
        ]
      ]
    ]
