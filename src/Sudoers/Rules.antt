-- ===== src/Sudoers/Rules.antt =====
-- `Sudoers`, `matching_user_specs` and `distribute_tags` of src/sudoers/mod.rs.
pub mod Distribution
use sudo_rs.Prelude.{Bool, true, false, Option, none, some, List, [], ◌∷◌, ◌++◌}
use sudo_rs.Prelude.Text.{Text}
use sudo_rs.Defaults.{Settings}
use sudo_rs.Accounts.{User}
use sudo_rs.Sudoers.Ast.{allow, forbid, all, only, alias, Spec, SpecList, EnvironmentControl}
use sudo_rs.Sudoers.Ast.{Tag, default_tag, Modifier, Command, RunAs, RunAsCommand, HostCommands}
use sudo_rs.Sudoers.Ast.{PermissionSpec, SettingsModifier, ConfigScope}
use sudo_rs.Sudoers.FindItem.{FoundAliases, plain, find_item}
use sudo_rs.Sudoers.Aliases.{AliasTable, get_aliases}
use sudo_rs.Sudoers.Matchers.{World, match_user, match_token}

-- A `Defaults` setting that applies to what its scope matches only.
abbrev pub Customiser : Type 0 → Type 0
Customiser Scope = Scope × List SettingsModifier

pub record CustomiserTable : Type 0 where
  pub non_cmnd : List (Customiser ConfigScope)
  pub cmnd : List (Customiser (SpecList Command))

pub record Sudoers : Type 0 where
  pub rules : List PermissionSpec
  pub aliases : AliasTable
  pub settings : Settings
  pub customisers : CustomiserTable

-- A command with the runas specification and the tags that apply to it.
abbrev pub MatchedCommand : Type 0
MatchedCommand = Option RunAs × (Tag × Spec Command)

-- `for f in mods { f(tag) }`
unfoldable pub apply_modifiers : List Modifier → Tag → Tag
apply_modifiers [] t = t
apply_modifiers (f ∷ mods) t = apply_modifiers mods (f t)

-- "ALL" has an implicit "SETENV" that does not distribute.
unfoldable pub this_tag : Spec Command → Tag → Tag
this_tag (allow all) t = elim t.env [
  | EnvironmentControl.nosetenv ↦ t
  | _ ↦ record t { env = EnvironmentControl.setenv }
]
this_tag (allow (only c)) t = t
this_tag (allow (alias a)) t = t
this_tag (forbid m) t = t

-- `runas.as_ref().or(*last_runas)`
abbrev pub or_last : Option RunAs → Option RunAs → Option RunAs
or_last none last = last
or_last (some r) last = some r

-- The `scan`: the runas specification and the tag are its state.
unfoldable pub distribute_from : Option RunAs → Tag → List RunAsCommand → List MatchedCommand
unfolding apply_modifiers this_tag
distribute_from last t [] = []
distribute_from last t ((runas, c) ∷ rest) =
    let last' = or_last runas last in
    let t' = apply_modifiers c.modifiers t in
    (last', (this_tag c.command t', c.command)) ∷ distribute_from last' t' rest

unfoldable pub distribute_tags : List RunAsCommand → List MatchedCommand
unfolding distribute_from
distribute_tags = distribute_from none default_tag

-- The two `filter_map`s, with what each found of the user and of the host.
module _ (w : World) (invoking_user : User) (hostname : Text) where
  module _ (host_aliases : FoundAliases) where
    unfoldable pub host_specs : List HostCommands → List (List MatchedCommand)
    host_specs [] = []
    host_specs ((hosts, runas_cmds) ∷ rest) =
        elim (find_item plain (match_token hostname) host_aliases hosts) [
          | none ↦ host_specs rest
          | some found ↦ distribute_tags runas_cmds ∷ host_specs rest
        ]

  unfoldable pub user_specs :
      FoundAliases → FoundAliases → List PermissionSpec → List (List MatchedCommand)
  unfolding host_specs
  user_specs user_aliases host_aliases [] = []
  user_specs user_aliases host_aliases (sudo ∷ rules) =
      elim (find_item plain (match_user w invoking_user) user_aliases sudo.users) [
        | none ↦ user_specs user_aliases host_aliases rules
        | some found ↦
            host_specs host_aliases sudo.permissions ++ user_specs user_aliases host_aliases rules
      ]

  unfoldable pub matching_user_specs : Sudoers → List (List MatchedCommand)
  unfolding user_specs
  matching_user_specs s =
      user_specs (get_aliases (match_user w invoking_user) s.aliases.user)
        (get_aliases (match_token hostname) s.aliases.host) s.rules
