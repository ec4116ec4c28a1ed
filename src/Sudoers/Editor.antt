-- ===== src/Sudoers/Editor.antt =====
-- The choice of an editor: `select_editor` and `visudo_editor_path` of src/sudoers/mod.rs,
-- `preferred_editor` of src/sudoers/policy.rs, and `is_valid_executable` and `resolve_path` of
-- src/common/resolve.rs. The environment of the process, file metadata and the paths of the
-- standard library are a parameter, `System`.
pub mod Chosen
mod Tests
use sudo_rs.Prelude.{ℕ, ◌/◌, ◌%◌, Bool, true, false, ◌||◌, Option, none, some, List, [], ◌∷◌}
use sudo_rs.Prelude.Tests.{if◌then◌else◌, ◌==◌}
use sudo_rs.Prelude.Lists.{any}
use sudo_rs.Prelude.Text.{Text, codes}
use sudo_rs.Defaults.{Settings}
use sudo_rs.Accounts.{User}
use sudo_rs.Sudoers.Matchers.{World}
use sudo_rs.Sudoers.Rules.{Sudoers}
use sudo_rs.Sudoers.Policy.{Judgement}
use sudo_rs.Sudoers.Check.{specify_host_user_runas}
use sudo_rs.Env.Target.{path_default}

pub record System : Type 0 where
  -- `std::env::var`, where `none` is an error
  pub var : Text → Option Text
  pub is_file : Text → Bool
  pub mode : Text → Option ℕ
  pub is_absolute : Text → Bool
  pub join : Text → Text → Text
  -- equality of paths, by their components
  pub path_eq : Text → Text → Bool

-- `str::split`
unfoldable pub split : ℕ → Text → List Text
split sep [] = [] ∷ []
split sep (c ∷ s) =
    if c == sep
    then [] ∷ split sep s
    else elim (split sep s) [ [] ↦ (c ∷ []) ∷ [] | part ∷ parts ↦ (c ∷ part) ∷ parts ]

-- `mode & 0o111 != 0`
abbrev pub has_executable_bit : ℕ → Bool
has_executable_bit m = (m % 2 == 1) || (m / 8 % 2 == 1) || (m / 64 % 2 == 1)

module _ (sys : System) where
  unfoldable pub is_valid_executable : Text → Bool
  is_valid_executable path =
      if sys.is_file path
      then elim (sys.mode path) [ some m ↦ has_executable_bit m | none ↦ false ]
      else false

  unfoldable pub find_in : Text → List Text → Option Text
  unfolding is_valid_executable
  find_in command [] = none
  find_in command (dir ∷ dirs) =
      let rest = find_in command dirs in
      if sys.is_absolute dir
      then (if is_valid_executable (sys.join dir command)
          then some (sys.join dir command)
          else rest)
      else rest

  unfoldable pub resolve_path : Text → Text → Option Text
  unfolding find_in split
  resolve_path command path = find_in command (split b':' path)

  unfoldable pub locate : Text → Option Text
  unfolding resolve_path
  locate editor =
      if is_valid_executable editor
      then some editor
      else resolve_path editor (elim (sys.var (codes "PATH")) [ some p ↦ p | none ↦ path_default ])

  module _ (settings : Settings) (trusted_env : Bool) where
    unfoldable pub is_whitelisted : Text → Bool
    unfolding split
    is_whitelisted path = trusted_env || any (λ x. sys.path_eq x path) (split b':' settings.editor)

    -- One round of the loop over the variables, `none` if it goes on.
    unfoldable pub from_words : List Text → Option (Text × List Text)
    unfolding locate is_whitelisted
    from_words [] = none
    from_words (editor ∷ arguments) = elim (locate editor) [
      | none ↦ none
      | some e ↦ if is_whitelisted e then some (e, arguments) else none
    ]

    unfoldable pub from_variable : Text → Option (Text × List Text)
    unfolding from_words split
    from_variable key = elim (sys.var key) [
      | none ↦ none
      | some editor_env ↦ from_words (split b' ' editor_env)
    ]

    unfoldable pub first_valid : List Text → Option (Text × List Text)
    unfolding is_valid_executable
    first_valid [] = none
    first_valid (editor ∷ editors) =
        if is_valid_executable editor then some (editor, []) else first_valid editors

    unfoldable pub from_variables : List Text → Option (Text × List Text)
    unfolding from_variable first_valid
    from_variables [] = first_valid (split b':' settings.editor)
    from_variables (key ∷ keys) = elim (from_variable key) [
      | none ↦ from_variables keys
      | some choice ↦ some choice
    ]

    unfoldable pub select_editor : Option (Text × List Text)
    unfolding from_variables
    select_editor = from_variables (codes "SUDO_EDITOR" ∷ codes "VISUAL" ∷ codes "EDITOR" ∷ [])

  unfoldable pub preferred_editor : Judgement → Text × List Text
  unfolding select_editor
  preferred_editor j = elim (select_editor j.settings true) [
    | some choice ↦ choice
    | none ↦ (codes "/usr/bin/vi", [])
  ]

  unfoldable pub visudo_editor_path :
      World → Sudoers → Text → User → User → Option (Text × List Text)
  unfolding select_editor specify_host_user_runas
  visudo_editor_path w s on_host am_user target_user =
      let s' = specify_host_user_runas w on_host am_user (some target_user) s in
      select_editor s'.settings s'.settings.env_editor
