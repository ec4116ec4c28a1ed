-- ===== src/Sudoers/Permission.antt =====
-- `check_permission` of src/sudoers/mod.rs.
pub mod Sound
pub mod Order
use sudo_rs.Prelude.{Bool, true, false, not, ◌&&◌, ◌||◌, Option, none, some, List, [], ◌∷◌, ◌++◌}
use sudo_rs.Prelude.Tests.{if◌then◌else◌}
use sudo_rs.Prelude.Text.{Text}
use sudo_rs.Accounts.{User, Group, user_eq, is_root}
use sudo_rs.Sudoers.Ast.{RunAs, Spec, Tag, Command}
use sudo_rs.Sudoers.FindItem.{FoundAliases, plain, tagged, is_some, find_item}
use sudo_rs.Sudoers.Aliases.{get_aliases}
use sudo_rs.Sudoers.Matchers.{
  World, match_user, in_group, match_group, match_group_alias, match_command,
}
use sudo_rs.Sudoers.Rules.{Sudoers, MatchedCommand, matching_user_specs}

pub record Request : Type 0 where
  pub user : User
  pub group : Group
  pub command : Text
  pub arguments : List Text

abbrev pub cmdline : Request → Text × List Text
cmdline r = (r.command, r.arguments)

abbrev pub is_empty : {A : Type 0} → List A → Bool
is_empty [] = true
is_empty (x ∷ xs) = false

-- `Iterator::flatten`
unfoldable pub flatten : {A : Type 0} → List (List A) → List A
flatten [] = []
flatten (xs ∷ xss) = xs ++ flatten xss

module _ (w : World) (am_user : User) (request : Request) where
  module _ (runas_user_aliases runas_group_aliases : FoundAliases) where
    -- The tests of the closure that `filter_map` runs: may the command be run as the requested user
    -- and group?
    unfoldable pub runas_admits : Option RunAs → Bool
    runas_admits none = is_root request.user && in_group request.user request.group
    runas_admits (some runas) =
        let stays_in_group = in_group request.user request.group in
        (if not (user_eq request.user am_user) || (stays_in_group && not (is_empty runas.users))
          then is_some (find_item plain (match_user w request.user) runas_user_aliases runas.users)
          else true)
        && (if not stays_in_group
            then is_some
                (find_item plain (match_group request.group) runas_group_aliases runas.groups)
            else true)

    -- The `filter_map`
    unfoldable pub allowed_commands : List MatchedCommand → List (Tag × Spec Command)
    allowed_commands [] = []
    allowed_commands ((runas, cmdspec) ∷ rest) =
        if runas_admits runas then cmdspec ∷ allowed_commands rest else allowed_commands rest

  unfoldable pub check_permission : Sudoers → Text → Option Tag
  check_permission sudoers on_host =
      let cmnd_aliases = get_aliases (match_command w (cmdline request)) sudoers.aliases.cmnd in
      let runas_user_aliases = get_aliases (match_user w request.user) sudoers.aliases.runas in
      let runas_group_aliases =
        get_aliases (match_group_alias request.group) sudoers.aliases.runas in
      find_item tagged (match_command w (cmdline request)) cmnd_aliases (
        allowed_commands runas_user_aliases runas_group_aliases
          (flatten (matching_user_specs w am_user on_host sudoers)))
