-- ===== src/Sudoers/Samples.antt =====
-- A small sudoers file and its users, for the tests.
use sudo_rs.Prelude.{ℕ, Bool, true, false, Option, none, some, [], ◌∷◌}
use sudo_rs.Prelude.Text.{Text, text_eq, codes}
use sudo_rs.Accounts.{User, Group}
use sudo_rs.Defaults.{default_settings}
use sudo_rs.Sudoers.Ast.{
  allow, forbid, all, only, alias, name, user, RunAs, Tag, passwd, default_tag, prefix, Command,
  PermissionSpec, RunAsCommand, Def,
}
use sudo_rs.Sudoers.Aliases.{VecOrd, empty_vec_ord}
use sudo_rs.Sudoers.Matchers.{World}
use sudo_rs.Sudoers.Rules.{Sudoers}
use sudo_rs.Sudoers.Permission.{Request}
use sudo_rs.Sudoers.Policy.{
  Authentication, Restrictions, invoking_user, tty_scope, strict, Umask, Logging,
}
use sudo_rs.Sudoers.Check.{ListRequest, set_nopasswd}

abbrev pub account : ℕ → Text → User
account n t = record {
  uid = n;
  gid = n;
  name = t;
  home = codes "/";
  shell = codes "/bin/sh";
  groups = n ∷ [];
}

abbrev pub alice : User
alice = account 1000 (codes "alice")

abbrev pub bob : User
bob = account 1001 (codes "bob")

abbrev pub bobs_group : Group
bobs_group = record { gid = 1001; name = none }

-- No groups in the database, and patterns that match themselves.
abbrev pub world : World
world = record { group_by_name = λ n. none; matches_path = text_eq }

abbrev pub ls : Command
ls = (codes "/bin/ls", prefix [])

abbrev pub sh : Command
sh = (codes "/bin/sh", prefix [])

abbrev pub run_ls : Request
run_ls = record { user = bob; group = bobs_group; command = codes "/bin/ls"; arguments = [] }

abbrev pub as_bob : Option RunAs
as_bob = some (record { users = allow (only (user (name (codes "bob")))) ∷ []; groups = [] })

abbrev pub set_passwd : Tag → Tag
set_passwd t = record t { authenticate = passwd }

-- `(bob) NOPASSWD: LIST`
abbrev pub nopasswd_list : RunAsCommand
nopasswd_list =
    (as_bob, record { modifiers = set_nopasswd ∷ []; command = allow (alias (codes "LIST")) })

abbrev pub shells : RunAsCommand
shells = (none, record { modifiers = set_passwd ∷ []; command = allow (only sh) })

-- `alice ALL = (bob) NOPASSWD: LIST, PASSWD: /bin/sh`
abbrev pub alices_rule : PermissionSpec
alices_rule = record {
  users = allow (only (user (name (codes "alice")))) ∷ [];
  permissions = (allow all ∷ [], nopasswd_list ∷ shells ∷ []) ∷ [];
}

abbrev pub bobs_rule : PermissionSpec
bobs_rule = record {
  users = allow (only (user (name (codes "bob")))) ∷ [];
  permissions = (allow all ∷ [], nopasswd_list ∷ []) ∷ [];
}

-- `Cmnd_Alias TOOLS = LIST, !/bin/sh`, `Cmnd_Alias LIST = /bin/ls`
abbrev pub tools : Def Command
tools = record {
  id = codes "TOOLS";
  members = allow (alias (codes "LIST")) ∷ forbid (only sh) ∷ [];
}

abbrev pub list : Def Command
list = record { id = codes "LIST"; members = allow (only ls) ∷ [] }

abbrev pub cmnd : VecOrd (Def Command)
cmnd = record { order = 1 ∷ 0 ∷ []; items = tools ∷ list ∷ [] }

abbrev pub policy : Sudoers
policy = record {
  rules = alices_rule ∷ [];
  aliases = record {
    user = empty_vec_ord;
    host = empty_vec_ord;
    cmnd = cmnd;
    runas = empty_vec_ord;
  };
  settings = default_settings;
  customisers = record { non_cmnd = []; cmnd = [] };
}

abbrev pub on_host : Text
on_host = codes "host"

abbrev pub ls_tag : Tag
ls_tag = set_nopasswd default_tag

abbrev pub terms : Bool → Authentication
terms must = record {
  must_authenticate = must;
  credential = invoking_user;
  allowed_attempts = 3;
  prior_validity = 900;
  pwfeedback = true;
  password_timeout = some 300;
  noninteractive_auth = false;
  scope = tty_scope;
}

abbrev pub limits : Restrictions
limits = record {
  use_pty = true;
  trust_environment = false;
  noexec = false;
  env_keep = default_settings.env_keep;
  env_check = default_settings.env_check;
  chdir = strict none;
  path = none;
  umask = Umask.extend 0o022;
  log = Logging.auth;
}

abbrev pub list_own : ListRequest
list_own = record { inspected_user = alice; target_user = bob; target_group = bobs_group }
