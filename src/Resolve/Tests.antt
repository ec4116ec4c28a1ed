-- ===== src/Resolve/Tests.antt =====
-- A small database, and the options -u and -g on it.
use sudo_rs.Prelude.{ℕ, none, some, [], ◌∷◌, ◌≡◌, refl, ◌↔◌}
use sudo_rs.Prelude.Tests.{if◌then◌else◌, ◌==◌}
use sudo_rs.Prelude.Text.{Text, codes, text_eq}
use sudo_rs.Accounts.{User}
use sudo_rs.Resolve.{ok, err, user_not_found, Database, id, parse, resolve_target_user_and_group}
use sudo_rs.Resolve.Target.{Resolves, resolve_target_user_and_group_iff}

abbrev account : ℕ → Text → User
account n t = record {
  uid = n;
  gid = n;
  name = t;
  home = codes "/";
  shell = codes "/bin/sh";
  groups = n ∷ [];
}

-- A user `bob` of number 1001, and a group `wheel` of number 10.
abbrev db : Database
db = record {
  user_from_name =
      λ n. if text_eq n (codes "bob") then ok (some (account 1001 (codes "bob"))) else ok none;
  user_from_uid = λ n. if n == 1001 then ok (some (account 1001 (codes "bob"))) else ok none;
  group_from_name = λ n. ok none;
  group_entry = λ n.
      if n == 10 then ok (some (record { gid = 10; name = some (codes "wheel") })) else ok none;
}

abbrev alice : User
alice = account 1000 (codes "alice")

parse_number : parse (codes "#1001") ≡ some (id 1001)
unfolding parse
parse_number = refl

resolve_number :
    resolve_target_user_and_group db (some (codes "#1001")) none alice
    ≡ ok (account 1001 (codes "bob"), record { gid = 1001; name = none })
unfolding resolve_target_user_and_group text_eq
resolve_number = refl

resolve_wheel :
    resolve_target_user_and_group db none (some (codes "#10")) alice
    ≡ ok (alice, record { gid = 10; name = some (codes "wheel") })
unfolding resolve_target_user_and_group text_eq
resolve_wheel = refl

resolve_nobody :
    resolve_target_user_and_group db (some (codes "eve")) none alice
    ≡ err (user_not_found (codes "eve"))
unfolding resolve_target_user_and_group text_eq
resolve_nobody = refl

resolve_target_user_and_group_iff_example :
    (resolve_target_user_and_group db (some (codes "#1001")) none alice
      ≡ ok (account 1001 (codes "bob"), record { gid = 1001; name = none }))
    ↔ Resolves db alice
        (some (codes "#1001"))
        none
        (account 1001 (codes "bob"), record { gid = 1001; name = none })
resolve_target_user_and_group_iff_example =
    resolve_target_user_and_group_iff db alice (some (codes "#1001")) none
      (account 1001 (codes "bob")) (record { gid = 1001; name = none })
