-- ===== src/Sudoers/Ast.antt =====
-- src/sudoers/ast.rs, src/sudoers/tokens.rs: the syntax tree of a sudoers file.
-- A command pattern is the text from which the glob crate compiles it.
use sudo_rs.Prelude.{ℕ, Bool, true, false, Option, none, List, []}
use sudo_rs.Prelude.Text.{Text}
use sudo_rs.Defaults.{Settings}

pub data Qualified (A : Type 0) : Type 0 where
  allow : A → Qualified A
  forbid : A → Qualified A

pub data Meta (A : Type 0) : Type 0 where
  all : Meta A
  only : A → Meta A
  alias : Text → Meta A

abbrev pub Spec : Type 0 → Type 0
Spec A = Qualified (Meta A)

abbrev pub SpecList : Type 0 → Type 0
SpecList A = List (Spec A)

-- `Spec::map`
unfoldable pub spec_map : {A B : Type 0} → (A → B) → Spec A → Spec B
spec_map {A} {B} f (allow m) =
    allow (elim m [ all ↦ all | only x ↦ only (f x) | alias a ↦ alias a ])
spec_map {A} {B} f (forbid m) =
    forbid (elim m [ all ↦ all | only x ↦ only (f x) | alias a ↦ alias a ])

pub data Identifier : Type 0 where
  name : Text → Identifier
  id : ℕ → Identifier

pub data UserSpecifier : Type 0 where
  user : Identifier → UserSpecifier
  group : Identifier → UserSpecifier
  nonunix_group : Identifier → UserSpecifier

pub record RunAs : Type 0 where
  pub users : SpecList UserSpecifier
  pub groups : SpecList Identifier

pub data Authenticate : Type 0 where
  unset passwd nopasswd : Authenticate

pub data EnvironmentControl : Type 0 where
  implicit setenv nosetenv : EnvironmentControl

pub data ExecControl : Type 0 where
  implicit exec noexec : ExecControl

pub data ChDir : Type 0 where
  path : Text → ChDir
  any_dir : ChDir

pub record Span : Type 0 where
  pub start : ℕ × ℕ
  pub end : ℕ × ℕ

pub record Tag : Type 0 where
  pub authenticate : Authenticate
  pub cwd : Option ChDir
  pub env : EnvironmentControl
  pub apparmor_profile : Option Text
  pub noexec : ExecControl
  pub ignored : List Span

-- `Tag::default`
abbrev pub default_tag : Tag
default_tag = record {
  authenticate = unset;
  cwd = none;
  env = EnvironmentControl.implicit;
  apparmor_profile = none;
  noexec = ExecControl.implicit;
  ignored = [];
}

unfoldable pub needs_passwd : Tag → Bool
needs_passwd t = elim t.authenticate [ nopasswd ↦ false | _ ↦ true ]

-- A boxed `Fn(&mut Tag)`.
abbrev pub Modifier : Type 0
Modifier = Tag → Tag

abbrev pub SimpleCommand : Type 0
SimpleCommand = Text

pub data Args : Type 0 where
  prefix : List Text → Args
  exact : List Text → Args

abbrev pub Command : Type 0
Command = SimpleCommand × Args

pub record CommandSpec : Type 0 where
  pub modifiers : List Modifier
  pub command : Spec Command

abbrev pub RunAsCommand : Type 0
RunAsCommand = Option RunAs × CommandSpec

-- One host list of a permission line, with the commands that follow it.
abbrev pub HostCommands : Type 0
HostCommands = SpecList Text × List RunAsCommand

pub record PermissionSpec : Type 0 where
  pub users : SpecList UserSpecifier
  pub permissions : List HostCommands

pub record Def (A : Type 0) : Type 0 where
  pub id : Text
  pub members : SpecList A

abbrev pub SettingsModifier : Type 0
SettingsModifier = Settings → Settings

pub data ConfigScope : Type 0 where
  generic : ConfigScope
  host : SpecList Text → ConfigScope
  user_scope : SpecList UserSpecifier → ConfigScope
  run_as : SpecList UserSpecifier → ConfigScope
  command : SpecList SimpleCommand → ConfigScope

pub data Directive : Type 0 where
  user_alias : List (Def UserSpecifier) → Directive
  host_alias : List (Def Text) → Directive
  cmnd_alias : List (Def Command) → Directive
  runas_alias : List (Def UserSpecifier) → Directive
  defaults : List SettingsModifier → ConfigScope → Directive

pub data Sudo : Type 0 where
  spec : PermissionSpec → Sudo
  decl : Directive → Sudo
  include : Text → Span → Sudo
  include_dir : Text → Span → Sudo
  line_comment : Sudo
