-- ===== src/Sudoers/Analyze.antt =====
-- `analyze` of src/sudoers/mod.rs: from parsed lines to the rules, aliases and settings that the
-- checks use, with the files that the lines include. The feature `unstable-remote-sudoers` is off.
-- Files, directories and the paths of the standard library are a parameter, `Files`. Each file that
-- is opened raises the include counter, so `INCLUDE_LIMIT` bounds the depth of `process`, which
-- runs on one unit of fuel more than that; `none` is a panic.
pub mod Culprits
pub mod Ends
pub mod Total
mod Tests
use sudo_rs.Prelude.{ℕ, zero, suc, ◌+◌, Bool, true, false, not, ◌||◌, Option, none, some}
use sudo_rs.Prelude.{List, [], ◌∷◌, ◌++◌, map}
use sudo_rs.Prelude.Tests.{if◌then◌else◌, ◌==◌, leb, ◌>>=◌}
use sudo_rs.Prelude.Lists.{any}
use sudo_rs.Prelude.Text.{Text, codes}
use sudo_rs.Defaults.{default_settings}
use sudo_rs.Sudoers.Ast.{
  Span, Spec, SpecList, spec_map, SimpleCommand, Args, prefix, Command, Def, Tag, default_tag,
  CommandSpec, RunAsCommand, HostCommands, PermissionSpec, ConfigScope, SettingsModifier, Directive,
  user_alias, host_alias, cmnd_alias, runas_alias, defaults, Sudo,
}
use sudo_rs.Sudoers.Aliases.{VecOrd, empty_vec_ord, AliasTable}
use sudo_rs.Sudoers.AliasOrder.{Complaint, sanitize_alias_table}
use sudo_rs.Sudoers.Rules.{Sudoers, CustomiserTable, apply_modifiers}
use sudo_rs.Sudoers.Permission.{flatten}

-- What `parse_lines` gives for a line.
pub data Parsed : Type 0 where
  line : Sudo → Parsed
  fatal : Span → Text → Parsed
  reject : Parsed

pub data OpenResult : Type 0 where
  opened : List Parsed → OpenResult
  not_found : OpenResult
  failed : Text → OpenResult

-- The file system, and the operations on paths.
pub record Files : Type 0 where
  pub open_sudoers : Text → OpenResult
  -- the paths of a directory's entries, if it can be read
  pub read_dir : Text → Option (List Text)
  -- the final component of a path, if it is valid UTF-8
  pub file_name : Text → Option Text
  pub is_relative : Text → Bool
  pub parent : Text → Option Text
  pub join : Text → Text → Text
  pub sort : List Text → List Text

pub data Message : Type 0 where
  limit_reached : Text → Message
  cannot_open : Text → Message
  open_error : Text → Message
  unsupported_escape : Text → Message
  cannot_read_dir : Text → Message
  ignored_tag : Message
  syntax : Text → Message
  alias_complaint : Complaint → Message

pub record Error : Type 0 where
  pub source : Option Text
  pub location : Option Span
  pub message : Message

pub record State : Type 0 where
  pub cfg : Sudoers
  pub diagnostics : List Error
  pub include_state : ℕ

abbrev pub include_limit : ℕ
include_limit = 128

unfoldable pub report : Text → Span → Message → State → State
report source span m st = record st {
  diagnostics =
      st.diagnostics ++ record { source = some source; location = some span; message = m } ∷ [];
}

-- The spans of the tags of one permission line that have no effect.
unfoldable pub get_ignored_tags : PermissionSpec → List Span
unfolding flatten apply_modifiers
get_ignored_tags p = flatten (
    map (λ (modifier : Tag → Tag). (modifier default_tag).ignored)
      (flatten (
        map (λ (c : RunAsCommand). c.1.modifiers)
          (flatten (map (λ (h : HostCommands). h.1) p.permissions)))))

unfoldable pub add_ignored : Text → List Span → State → State
unfolding report
add_ignored cur_path [] st = st
add_ignored cur_path (span ∷ spans) st =
    add_ignored cur_path spans (report cur_path span ignored_tag st)

unfoldable pub add_permission : PermissionSpec → State → State
add_permission p st = record st { cfg = record st.cfg { rules = st.cfg.rules ++ p ∷ [] } }

abbrev pub append : {A : Type 0} → List A → VecOrd A → VecOrd A
append def table = record table { items = table.items ++ def }

abbrev set_aliases : AliasTable → State → State
set_aliases aliases st = record st { cfg = record st.cfg { aliases = aliases } }

abbrev set_customisers : CustomiserTable → State → State
set_customisers customisers st = record st { cfg = record st.cfg { customisers = customisers } }

-- A command scope becomes a list of commands with any arguments.
unfoldable pub add_defaults :
    List SettingsModifier → ConfigScope → CustomiserTable → CustomiserTable
unfolding spec_map
add_defaults params (ConfigScope.command specs) table = record table {
  cmnd =
      table.cmnd
      ++ (map (spec_map (λ simple_command. (simple_command, prefix []))) specs, params) ∷ [];
}
add_defaults params scope table = record table { non_cmnd = table.non_cmnd ++ (scope, params) ∷ [] }

unfoldable pub declare_directive : Directive → State → State
unfolding add_defaults
declare_directive (user_alias def) st =
    set_aliases (record st.cfg.aliases { user = append def st.cfg.aliases.user }) st
declare_directive (host_alias def) st =
    set_aliases (record st.cfg.aliases { host = append def st.cfg.aliases.host }) st
declare_directive (cmnd_alias def) st =
    set_aliases (record st.cfg.aliases { cmnd = append def st.cfg.aliases.cmnd }) st
declare_directive (runas_alias def) st =
    set_aliases (record st.cfg.aliases { runas = append def st.cfg.aliases.runas }) st
declare_directive (defaults params scope) st =
    set_customisers (add_defaults params scope st.cfg.customisers) st

unfoldable pub ends_with_tilde : Text → Bool
ends_with_tilde [] = false
ends_with_tilde (c ∷ []) = c == 126
ends_with_tilde (c ∷ d ∷ s) = ends_with_tilde (d ∷ s)

-- `path.contains("%h")`
unfoldable pub has_host_escape : Text → Bool
has_host_escape [] = false
has_host_escape (c ∷ []) = false
has_host_escape (c ∷ d ∷ s) =
    let rest = has_host_escape (d ∷ s) in
    if c == 37 then (if d == 104 then true else rest) else rest

abbrev pub sanitized : {A : Type 0} → VecOrd (Def A) → VecOrd (Def A) × List Complaint
sanitized table = let r = sanitize_alias_table table.items in (record table { order = r.0 }, r.1)

abbrev pub complaints : List Complaint → List Error
complaints = map (λ c. record { source = none; location = none; message = alias_complaint c })

-- The four tables are sorted one after the other.
unfoldable pub sanitize : State → Sudoers × List Error
unfolding sanitize_alias_table
sanitize st =
    let user = sanitized st.cfg.aliases.user in
    let host = sanitized st.cfg.aliases.host in
    let cmnd = sanitized st.cfg.aliases.cmnd in
    let runas = sanitized st.cfg.aliases.runas in
    (
      record st.cfg {
        aliases = record { user = user.0; host = host.0; cmnd = cmnd.0; runas = runas.0 };
      },
      st.diagnostics ++ complaints (user.1 ++ host.1 ++ cmnd.1 ++ runas.1),
    )

abbrev pub start : State
start = record {
  cfg = record {
    rules = [];
    aliases = record {
      user = empty_vec_ord;
      host = empty_vec_ord;
      cmnd = empty_vec_ord;
      runas = empty_vec_ord;
    };
    settings = default_settings;
    customisers = record { non_cmnd = []; cmnd = [] };
  };
  diagnostics = [];
  include_state = 0;
}

module _ (files : Files) where
  -- A relative path from a base without a parent is a panic, `expect` in the source.
  unfoldable pub resolve_relative : Text → Text → Option Text
  resolve_relative base path =
      if files.is_relative path
      then (do parent ← files.parent base; some (files.join parent path))
      else some path

  -- Entries such as editor backups and package leftovers are not read.
  unfoldable pub is_safe_file : Text → Bool
  unfolding ends_with_tilde
  is_safe_file path = elim (files.file_name path) [
    | none ↦ false
    | some text ↦ not (ends_with_tilde text || any (λ c. c == 46) text)
  ]

  unfoldable pub safe_files : List Text → List Text
  unfolding is_safe_file
  safe_files [] = []
  safe_files (path ∷ paths) =
      if is_safe_file path then path ∷ safe_files paths else safe_files paths

  -- The operations below take the recursive call of `process`.
  module _ (process : Text → List Parsed → State → Option State) where
    unfoldable pub open_include : Text → Text → Span → State → Option State
    unfolding report
    open_include path parent span st = elim (files.open_sudoers path) [
      | opened subsudoer ↦
          process path subsudoer (record st { include_state = st.include_state + 1 })
      | not_found ↦ some (
          report parent span (cannot_open path)
            (record st { include_state = st.include_state + 1 }))
      | failed e ↦
          some
            (report parent span (open_error e) (record st { include_state = st.include_state + 1 }))
    ]

    unfoldable pub include : Text → Text → Span → State → Option State
    unfolding report open_include
    include path parent span st =
        if leb include_limit st.include_state
        then some (report parent span (limit_reached path) st)
        else open_include path parent span st

    unfoldable pub include_all : Text → Span → List Text → State → Option State
    unfolding include
    include_all parent span [] st = some st
    include_all parent span (path ∷ paths) st =
        include path parent span st >>= include_all parent span paths

    unfoldable pub include_dir : Text → Text → Span → State → Option State
    unfolding report resolve_relative safe_files include_all has_host_escape
    include_dir cur_path path span st =
        if has_host_escape path
        then some (report cur_path span (unsupported_escape path) st)
        else (resolve_relative cur_path path >>= λ full. elim (files.read_dir full) [
          | none ↦ some (report cur_path span (cannot_read_dir full) st)
          | some entries ↦ include_all cur_path span (files.sort (safe_files entries)) st
        ])

    unfoldable pub process_item : Text → Parsed → State → Option State
    unfolding include include_dir resolve_relative declare_directive add_permission add_ignored
        get_ignored_tags report
    process_item cur_path (line Sudo.line_comment) st = some st
    process_item cur_path (line (Sudo.spec p)) st =
        some (add_permission p (add_ignored cur_path (get_ignored_tags p) st))
    process_item cur_path (line (Sudo.decl d)) st = some (declare_directive d st)
    process_item cur_path (line (Sudo.include path span)) st =
        resolve_relative cur_path path >>= λ full. include full cur_path span st
    process_item cur_path (line (Sudo.include_dir path span)) st = include_dir cur_path path span st
    process_item cur_path (fatal span m) st = some (report cur_path span (syntax m) st)
    process_item cur_path reject st = none

    unfoldable pub process_items : Text → List Parsed → State → Option State
    unfolding process_item
    process_items cur_path [] st = some st
    process_items cur_path (item ∷ items) st =
        process_item cur_path item st >>= process_items cur_path items

  unfoldable pub process : ℕ → Text → List Parsed → State → Option State
  unfolding process_items
  process zero cur_path items st = none
  process (suc f) cur_path items st = process_items (process f) cur_path items st

  unfoldable pub analyze : Text → List Parsed → Option (Sudoers × List Error)
  unfolding process sanitize
  analyze path sudoers = process (include_limit + 1) path sudoers start >>= λ st. some (sanitize st)
