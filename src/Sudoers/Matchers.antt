-- ===== src/Sudoers/Matchers.antt =====
-- The predicates that src/sudoers/mod.rs hands to `find_item`. `World` stands for what they ask of
-- code outside of the program: the group database and the matcher of the glob crate.
use sudo_rs.Prelude.{Bool, true, false, ◌&&◌, Option, none, some, List, [], ◌∷◌}
use sudo_rs.Prelude.Tests.{◌==◌}
use sudo_rs.Prelude.Text.{Text, text_eq}
use sudo_rs.Accounts.{User, Group, has_name, has_uid, in_group_by_gid, in_group_by_name}
use sudo_rs.Sudoers.Ast.{Identifier, name, id, UserSpecifier, user, group, nonunix_group}
use sudo_rs.Sudoers.Ast.{Args, prefix, exact, Command}

-- `group_by_name` is `Group::from_name`; `matches_path pattern path` is
-- `glob::Pattern::matches_path_with` with `require_literal_separator`.
pub record World : Type 0 where
  pub group_by_name : Text → Option Group
  pub matches_path : Text → Text → Bool

unfoldable pub match_identifier : User → Identifier → Bool
match_identifier u (name n) = has_name u n
match_identifier u (id num) = has_uid u num

unfoldable pub match_user : World → User → UserSpecifier → Bool
unfolding match_identifier
match_user w u (user i) = match_identifier u i
match_user w u (group (name n)) = in_group_by_name w.group_by_name u n
match_user w u (group (id num)) = in_group_by_gid u num
match_user w u (nonunix_group g) = false

abbrev pub in_group : User → Group → Bool
in_group u g = in_group_by_gid u g.gid

unfoldable pub match_group : Group → Identifier → Bool
match_group g (id num) = g.gid == num
match_group g (name n) = elim g.name [ none ↦ false | some s ↦ text_eq n s ]

unfoldable pub match_group_alias : Group → UserSpecifier → Bool
unfolding match_group
match_group_alias g (user i) = match_group g i
match_group_alias g (group i) = false
match_group_alias g (nonunix_group i) = false

unfoldable pub match_token : Text → Text → Bool
match_token text token = text_eq token text

-- `args.starts_with(vec)`
unfoldable pub args_start_with : List Text → List Text → Bool
args_start_with args [] = true
args_start_with [] (p ∷ ps) = false
args_start_with (a ∷ args) (p ∷ ps) = text_eq a p && args_start_with args ps

unfoldable pub args_eq : List Text → List Text → Bool
args_eq [] [] = true
args_eq [] (b ∷ bs) = false
args_eq (a ∷ args) [] = false
args_eq (a ∷ args) (b ∷ bs) = text_eq a b && args_eq args bs

unfoldable pub match_args : List Text → Args → Bool
unfolding args_start_with args_eq
match_args args (prefix vec) = args_start_with args vec
match_args args (exact vec) = args_eq args vec

unfoldable pub match_command : World → Text × List Text → Command → Bool
unfolding match_args
match_command w (cmd, args) (cmdpat, argpat) = w.matches_path cmdpat cmd && match_args args argpat
