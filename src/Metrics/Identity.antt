-- ===== src/Metrics/Identity.antt =====
-- truetop/src/metrics/identity.rs: the name and the user of a process. Files are parameters: their
-- contents, or `none` where a read fails.
use truetop.Common.{
  ℕ, Option, none, some, List, [], ◌∷◌, Dict, lookup, insert, remove, ◌==◌, if◌then◌else◌, u32_mod,
}
use truetop.Common.Text.{
  Text, codes, trim, lines, split, split_whitespace, nth, starts_with, parse_unsigned,
  print_unsigned,
}
use truetop.Kernel.Comm.{Identity}

abbrev pub unknown : Text
unknown = codes "<unknown>"

pub record Seeded : Type 0 where
  pub name : Text
  pub uid : ℕ

pub record Named : Type 0 where
  pub name : Text
  pub user : Option Text

pub record Resolver : Type 0 where
  pub comm : Dict Identity
  pub seed : Dict Seeded
  pub users : Dict Text

-- `raw[..end]` for the position of the first 0, or all of it.
unfoldable pub before_nul : List ℕ → List ℕ
before_nul [] = []
before_nul (b ∷ raw) = let rest = before_nul raw in if b == 0 then [] else b ∷ rest

abbrev pub or_number : ℕ → Option Text → Text
or_number uid none = print_unsigned uid
or_number uid (some name) = name

unfoldable pub passwd_name : Resolver → ℕ → Text
passwd_name r uid = or_number uid (lookup uid r.users)

-- `String::from_utf8_lossy` on the bytes of a `comm`.
module _ (from_utf8_lossy : List ℕ → Text) where
  unfoldable pub decode_comm : List ℕ → Text
  unfolding before_nul
  decode_comm raw = trim (from_utf8_lossy (before_nul raw))

  unfoldable pub named : Resolver → ℕ → Named
  unfolding passwd_name decode_comm
  named r tgid = elim (lookup tgid r.comm) [
    | some identity ↦ record {
      name = decode_comm identity.comm;
      user = some (passwd_name r identity.uid);
    }
    | none ↦ elim (lookup tgid r.seed) [
      | some seeded ↦ record { name = seeded.name; user = some (passwd_name r seeded.uid) }
      | none ↦ record { name = unknown; user = none }
    ]
  ]

unfoldable pub forget : ℕ → Resolver → Resolver
forget tgid r = record r { comm = remove tgid r.comm; seed = remove tgid r.seed }

-- The first line that starts with a prefix.
unfoldable pub find_line : Text → List Text → Option Text
find_line prefix [] = none
find_line prefix (l ∷ ls) =
    let rest = find_line prefix ls in if starts_with prefix l then some l else rest

abbrev pub parse_u32 : Option Text → Option ℕ
parse_u32 none = none
parse_u32 (some word) = parse_unsigned u32_mod word

-- The first of the four `Uid:` fields of a status file.
unfoldable pub proc_uid : Option Text → Option ℕ
unfolding find_line
proc_uid none = none
proc_uid (some status) = elim (find_line (codes "Uid:") (lines status)) [
  | none ↦ none
  | some line ↦ parse_u32 (nth 1 (split_whitespace line))
]

-- One line, `name:passwd:uid:gid:...`; after `next` the `nth(1)` skips the password.
abbrev pub with_name : Text → Option ℕ → Option (ℕ × Text)
with_name name none = none
with_name name (some uid) = some (uid, name)

user_of_fields : List Text → Option (ℕ × Text)
user_of_fields [] = none
user_of_fields (name ∷ []) = none
user_of_fields (name ∷ passwd ∷ []) = none
user_of_fields (name ∷ passwd ∷ uid ∷ rest) = with_name name (parse_unsigned u32_mod uid)

unfoldable pub passwd_line : Text → Option (ℕ × Text)
unfolding user_of_fields
passwd_line line = user_of_fields (split b':' line)

abbrev add_user : Option (ℕ × Text) → Dict Text → Dict Text
add_user none users = users
add_user (some (uid, name)) users = insert uid name users

-- `filter_map(...).collect()`: a uid that comes again takes the later name.
unfoldable pub users_of : List Text → Dict Text → Dict Text
unfolding passwd_line
users_of [] users = users
users_of (l ∷ ls) users = users_of ls (add_user (passwd_line l) users)

-- A file that cannot be read is empty.
unfoldable pub load_passwd : Option Text → Dict Text
unfolding users_of
load_passwd none = []
load_passwd (some content) = users_of (lines content) []

-- A directory entry of /proc: its name (`none` if it is no UTF-8), and its two files.
pub record ProcEntry : Type 0 where
  pub file_name : Option Text
  pub comm : Option Text
  pub status : Option Text

seed_of : Option ℕ → Option Text → Option ℕ → Option (ℕ × Seeded)
seed_of (some pid) (some name) (some uid) = some (pid, record { name = trim name; uid = uid })
seed_of (some pid) (some name) none = none
seed_of (some pid) none uid = none
seed_of none name uid = none

abbrev add_seed : Option (ℕ × Seeded) → Dict Seeded → Dict Seeded
add_seed none seed = seed
add_seed (some (pid, s)) seed = insert pid s seed

seeds_of : List ProcEntry → Dict Seeded → Dict Seeded
unfolding seed_of proc_uid
seeds_of [] seed = seed
seeds_of (e ∷ es) seed =
    seeds_of es (add_seed (seed_of (parse_u32 e.file_name) e.comm (proc_uid e.status)) seed)

unfoldable pub backfill_proc_names : Option (List ProcEntry) → Dict Seeded
unfolding seeds_of
backfill_proc_names none = []
backfill_proc_names (some entries) = seeds_of entries []

unfoldable pub new_resolver : Dict Identity → Option (List ProcEntry) → Option Text → Resolver
unfolding backfill_proc_names load_passwd
new_resolver comm entries passwd = record {
  comm = comm;
  seed = backfill_proc_names entries;
  users = load_passwd passwd;
}
