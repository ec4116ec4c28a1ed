-- ===== src/Sudoers/Check.antt =====
-- `specify_host_user_runas`, `specify_command`, `check`, `check_list_permission` and
-- `check_validate_permission` of src/sudoers/mod.rs. A method on `&mut self` returns the new policy.
pub mod Judgements
pub mod Listing
use sudo_rs.Prelude.{ℕ, Bool, true, false, not, ◌&&◌, ◌||◌, Option, none, some, List, [], ◌∷◌, map}
use sudo_rs.Prelude.Tests.{if◌then◌else◌, ◌>>=◌}
use sudo_rs.Prelude.Text.{Text, codes}
use sudo_rs.Defaults.{Settings}
use sudo_rs.Accounts.{User, Group, user_eq, is_root, primary_group}
use sudo_rs.Sudoers.Ast.{ConfigScope, SpecList, Command, Tag, default_tag, needs_passwd, nopasswd}
use sudo_rs.Sudoers.Ast.{SettingsModifier}
use sudo_rs.Sudoers.FindItem.{FoundAliases, plain, is_some, find_item}
use sudo_rs.Sudoers.Aliases.{AliasTable, get_aliases}
use sudo_rs.Sudoers.Matchers.{World, match_user, match_token, match_command, in_group}
use sudo_rs.Sudoers.Rules.{Customiser, Sudoers, matching_user_specs}
use sudo_rs.Sudoers.Policy.{Judgement, Authorization, allowed, forbidden, to_auth}
use sudo_rs.Sudoers.Permission.{Request, cmdline, flatten, check_permission}

pub record ListRequest : Type 0 where
  pub inspected_user : User
  pub target_user : User
  pub target_group : Group

-- `for modifier in modifiers { modifier(&mut self.settings) }`
unfoldable pub modify : List SettingsModifier → Settings → Settings
modify [] s = s
modify (f ∷ fs) s = modify fs (f s)

-- The loops over the customisers, with the test of a scope.
unfoldable pub customise :
    {Scope : Type 0} → (Scope → Bool) → List (Customiser Scope) → Settings → Settings
unfolding modify
customise applies [] s = s
customise applies ((scope, modifiers) ∷ rest) s =
    customise applies rest (if applies scope then modify modifiers s else s)

module _ (w : World) (hostname : Text) (requesting_user : User) (target_user : Option User) where
  -- `match_scope`. A command scope, `unreachable!` in the source, is never stored in `non_cmnd`.
  unfoldable pub match_scope : AliasTable → ConfigScope → Bool
  match_scope aliases ConfigScope.generic = true
  match_scope aliases (ConfigScope.host list) = is_some (
      find_item plain (match_token hostname) (get_aliases (match_token hostname) aliases.host) list)
  match_scope aliases (ConfigScope.user_scope list) = is_some (
      find_item plain (match_user w requesting_user)
        (get_aliases (match_user w requesting_user) aliases.user) list)
  match_scope aliases (ConfigScope.run_as list) = elim target_user [
    | none ↦ false
    | some target ↦ is_some (
        find_item plain (match_user w target) (get_aliases (match_user w target) aliases.runas)
          list)
  ]
  match_scope aliases (ConfigScope.command list) = false

  unfoldable pub specify_host_user_runas : Sudoers → Sudoers
  unfolding customise match_scope
  specify_host_user_runas s = record s {
    settings = customise (match_scope s.aliases) s.customisers.non_cmnd s.settings;
    customisers = record { non_cmnd = []; cmnd = s.customisers.cmnd };
  }

module _ (w : World) (command : Text) (arguments : List Text) where
  unfoldable pub match_command_scope : AliasTable → SpecList Command → Bool
  match_command_scope aliases scope = is_some (
      find_item plain (match_command w (command, arguments))
        (get_aliases (match_command w (command, arguments)) aliases.cmnd) scope)

  unfoldable pub specify_command : Sudoers → Sudoers
  unfolding customise match_command_scope
  specify_command s = record s {
    settings = customise (match_command_scope s.aliases) s.customisers.cmnd s.settings;
    customisers = record { non_cmnd = s.customisers.non_cmnd; cmnd = [] };
  }

abbrev pub set_nopasswd : Tag → Tag
set_nopasswd t = record t { authenticate = nopasswd }

-- `if let Some(tag) = flags.as_mut() { if skip { tag.authenticate = Nopasswd } }`
unfoldable pub skip_passwd_if : Bool → Option Tag → Option Tag
skip_passwd_if skip none = none
skip_passwd_if skip (some t) = some (if skip then set_nopasswd t else t)

-- `Iterator::max_by_key` with a Boolean key: the last of the greatest elements.
unfoldable pub max_by_key_from : {A : Type 0} → (A → Bool) → A → List A → A
max_by_key_from key best [] = best
max_by_key_from key best (x ∷ xs) =
    max_by_key_from key (if key best && not (key x) then best else x) xs

unfoldable pub max_by_key : {A : Type 0} → (A → Bool) → List A → Option A
unfolding max_by_key_from
max_by_key key [] = none
max_by_key key (x ∷ xs) = some (max_by_key_from key x xs)

module _ (w : World) (am_user : User) (on_host : Text) where
  -- Root needs no password, and neither does one who stays the same user in a group of theirs.
  abbrev pub stays_self : User → Group → Bool
  stays_self u g = is_root am_user || (user_eq u am_user && in_group am_user g)

  -- The policy as `check` has specialised it before it asks `check_permission`.
  abbrev pub specified : Request → Sudoers → Sudoers
  specified request s =
      specify_command w request.command request.arguments
        (specify_host_user_runas w on_host am_user (some request.user) s)

  unfoldable pub check : Request → Sudoers → Sudoers × Judgement
  check request s =
      let s' = specified request s in
      let flags = check_permission w am_user request s' on_host in
      (
        s',
        record {
          flags = skip_passwd_if (stays_self request.user request.group) flags;
          settings = s'.settings;
        },
      )

  -- The tags of all the commands that the user may run on this host in some way.
  abbrev pub matching_tags : Sudoers → List Tag
  matching_tags s = map (λ m. m.1.0) (flatten (matching_user_specs w am_user on_host s))

  abbrev pub list_command : Text
  list_command = codes "list"

  -- The request that `check_list_permission` makes of `check` for another user's privileges.
  abbrev pub list_of : User → Request
  list_of u = record { user = u; group = primary_group u; command = list_command; arguments = [] }

  -- The end of `check_list_permission` and `check_validate_permission`.
  unfoldable pub authorize : Settings → Option Tag → Option (Authorization (Unit {0}))
  authorize settings flags = elim flags [
    | none ↦ some forbidden
    | some t ↦ do a ← to_auth settings t; some (allowed a tt)
  ]

  unfoldable pub check_list_permission :
      ListRequest → Sudoers → Sudoers × Option (Authorization (Unit {0}))
  unfolding authorize
  check_list_permission request s =
      if not (user_eq request.inspected_user am_user)
      then (let (s', judgement) = check (list_of request.inspected_user) s in
          let root = is_root am_user in
          let flags : Option Tag = elim judgement.flags [
            | some t ↦ some t
            | none ↦ if root then some default_tag else none
          ] in
          (s', authorize s'.settings (skip_passwd_if root flags)))
      else (let flags = max_by_key (λ t. not (needs_passwd t)) (matching_tags s) in
          let skip = stays_self request.target_user request.target_group in
          (s, authorize s.settings (skip_passwd_if skip flags)))

  unfoldable pub check_validate_permission : Sudoers → Sudoers × Option (Authorization (Unit {0}))
  unfolding authorize
  check_validate_permission s =
      let s' = specify_host_user_runas w on_host am_user none s in
      let flags = max_by_key needs_passwd (matching_tags s') in
      (s', authorize s'.settings (skip_passwd_if (is_root am_user) flags))
