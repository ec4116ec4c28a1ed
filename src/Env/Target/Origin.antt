-- ===== src/Env/Target/Origin.antt =====
-- src/sudo/env/environment.rs: where each variable of the final environment comes from.
use sudo_rs.Prelude.{true, false, Option, some, List, [], ◌∷◌}
use sudo_rs.Prelude.{◌≡◌}
use sudo_rs.Prelude.Lists.{any, Any}
use sudo_rs.Prelude.Text.{Text, codes, text_eq, lookup}
use sudo_rs.Sudoers.Policy.{Restrictions}
use sudo_rs.Env.Keep.{should_keep}
use sudo_rs.Env.Target.{Environment, Context, path_default, to_string, format_command, login_vars}

-- The variables that sudo sets by itself, with their values.
abbrev pub fixed_vars : Context → List (Text × Text)
fixed_vars c =
    (codes "SUDO_COMMAND", format_command c)
    ∷ (codes "SUDO_UID", to_string c.current_user.uid)
    ∷ (codes "SUDO_GID", to_string c.current_user.gid)
    ∷ (codes "SUDO_USER", c.current_user.name)
    ∷ (codes "SUDO_HOME", c.current_user.home)
    ∷ (codes "SHELL", c.target_user.shell)
    ∷ (codes "HOME", c.target_user.home)
    ∷ (codes "LOGNAME", c.target_user.name)
    ∷ (codes "USER", c.target_user.name)
    ∷ (codes "PATH", path_default)
    ∷ (codes "TERM", codes "unknown")
    ∷ []

abbrev pub Has : Text → Text → List (Text × Text) → Type 0
Has k v = Any (λ kv. (kv.0 ≡ k) × (kv.1 ≡ v))

module _ (zoneinfo : Option Text) (cfg : Restrictions)
    (current_env additional_env user_override : List (Text × Text)) (c : Context) where
  -- The origins of a variable `k` with the value `v`.
  pub data Origin : Text → Text → Type 0 where
    from_pam : {k v : Text} → Has k v additional_env → Origin k v
    kept :
        {k v : Text}
        → Has k v current_env
        → any (λ name. text_eq name k) (login_vars c.launch) ≡ false
        → should_keep zoneinfo cfg k v ≡ true
        → Origin k v
    overridden :
        {k v : Text} → Has k v user_override → should_keep zoneinfo cfg k v ≡ true → Origin k v
    fixed : {k v : Text} → Has k v (fixed_vars c) → Origin k v
    secure_path : {k v : Text} → codes "PATH" ≡ k → cfg.path ≡ some v → Origin k v
    prompt :
        {k v : Text} → codes "PS1" ≡ k → lookup (codes "SUDO_PS1") current_env ≡ some v → Origin k v
    logname_of_user : {k v : Text} → codes "LOGNAME" ≡ k → Origin (codes "USER") v → Origin k v
    user_of_logname : {k v : Text} → codes "USER" ≡ k → Origin (codes "LOGNAME") v → Origin k v

  Traced : Environment → Type 0
  Traced env = (k v : Text) → lookup k env ≡ some v → Origin k v
