-- ===== src/Metrics/Names.antt =====
-- Names and users (truetop/src/metrics/identity.rs): where they come from, and that they come back.
use truetop.Common.{
  ℕ, ◌<◌, ◌≡◌, refl, sym, ap, ◌∙◌, ◌≢◌, none, some, List, [], ◌∷◌, ◌++◌, arith, lookup-remove, ◌==◌,
  if◌then◌else◌, All, u32_mod, ==_ne, Bool-cases, inl, inr,
}
use truetop.Common.Text.{Text, trim, print_unsigned}
use truetop.Common.Text.Laws.{split_field, print_unsigned_plain, parse-print_unsigned}
use truetop.Metrics.Identity.{
  Resolver, unknown, before_nul, decode_comm, named, forget, passwd_line, with_name,
}

before_nul_stop :
    (name rest : List ℕ) → All (λ b. b ≢ 0) name → before_nul (name ++ 0 ∷ rest) ≡ name
unfolding before_nul
before_nul_stop [] rest h = refl
before_nul_stop (b ∷ name) rest h = rw (==_ne b 0 h.0) (ap (◌∷◌ b) (before_nul_stop name rest h.1))

before_nul_full : (name : List ℕ) → All (λ b. b ≢ 0) name → before_nul name ≡ name
unfolding before_nul
before_nul_full [] h = refl
before_nul_full (b ∷ name) h = rw (==_ne b 0 h.0) (ap (◌∷◌ b) (before_nul_full name h.1))

module _ (from_utf8_lossy : List ℕ → Text) where
  -- What follows the first NUL of a recorded name does not change how the name is decoded.
  pub decode_comm_nul :
      (name rest : List ℕ)
      → All (λ b. b ≢ 0) name
      → decode_comm from_utf8_lossy (name ++ 0 ∷ rest) ≡ decode_comm from_utf8_lossy name
  unfolding decode_comm
  decode_comm_nul name rest h =
      ap (λ b. trim (from_utf8_lossy b))
        (before_nul_stop name rest h ∙ sym (before_nul_full name h))

  -- A process that is forgotten is unknown, and no other process is renamed.
  named-forget :
      (r : Resolver) (tgid j : ℕ)
      → named from_utf8_lossy (forget tgid r) j
        ≡ (if tgid == j then record { name = unknown; user = none } else named from_utf8_lossy r j)
  unfolding named forget
  named-forget r tgid j = elim (Bool-cases (tgid == j)) [
    | inl e ↦ ground (arith, lookup-remove tgid j r.comm, lookup-remove tgid j r.seed)
    | inr e ↦ ground (arith, lookup-remove tgid j r.comm, lookup-remove tgid j r.seed)
  ]

-- A line of the password file made of a name, a password, a 32-bit uid and a tail is read as that
-- uid and name, where name and password hold no colon.
passwd_line_fields :
    (name passwd tail : Text) (uid : ℕ)
    → All (λ c. c ≢ b':') name
    → All (λ c. c ≢ b':') passwd
    → uid < u32_mod
    → passwd_line (name ++ b':' ∷ (passwd ++ b':' ∷ (print_unsigned uid ++ b':' ∷ tail)))
      ≡ some (uid, name)
unfolding passwd_line
passwd_line_fields name passwd tail uid hn hp hu =
    let digits = print_unsigned_plain b':' uid (omega arith) in
    rw (split_field b':' name (passwd ++ b':' ∷ (print_unsigned uid ++ b':' ∷ tail)) hn) (
      rw (split_field b':' passwd (print_unsigned uid ++ b':' ∷ tail) hp) (
        rw (split_field b':' (print_unsigned uid) tail digits)
          (ap (with_name name) (parse-print_unsigned u32_mod uid hu))))
