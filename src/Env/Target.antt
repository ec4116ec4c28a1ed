-- ===== src/Env/Target.antt =====
-- src/sudo/env/environment.rs: `add_extra_env` and `get_target_environment`. An `Environment` is a
-- `Dict`; the environment of the invoking user is given as its entries, which have distinct keys.
pub mod Origin
pub mod Path
use sudo_rs.Prelude.{
  ℕ, zero, suc, ◌+◌, ◌/◌, ◌%◌, ◌<◌, Bool, true, false, not, ◌&&◌, Option, none, some, List, [], ◌∷◌,
  ◌++◌,
}
use sudo_rs.Prelude.Tests.{if◌then◌else◌, ltb}
use sudo_rs.Prelude.Lists.{length, any}
use sudo_rs.Prelude.Text.{Text, Dict, codes, text_eq, lookup, insert}
use sudo_rs.Accounts.{User}
use sudo_rs.Sudoers.Policy.{Restrictions}
use sudo_rs.Env.Keep.{should_keep}

abbrev pub Environment : Type 0
Environment = Dict Text

pub data LaunchType : Type 0 where
  direct shell login : LaunchType

-- The fields of `Context` of src/common/context.rs that are read here.
pub record Context : Type 0 where
  pub launch : LaunchType
  pub command : Text
  pub arguments : List Text
  pub current_user : User
  pub target_user : User

-- `u32::to_string`: at most ten digits, so the fuel does not run out.
unfoldable pub digits_from : ℕ → ℕ → Text → Text
digits_from zero n acc = acc
digits_from (suc f) n acc =
    let more = digits_from f (n / 10) ((b'0' + n % 10) ∷ acc) in
    if ltb n 10 then (b'0' + n) ∷ acc else more

unfoldable pub to_string : ℕ → Text
unfolding digits_from
to_string n = digits_from 10 n []

unfoldable pub format_from : Text → List Text → Text
format_from formatted [] = formatted
format_from formatted (arg ∷ args) =
    format_from
      (if ltb (length formatted + length arg) 4096
        then formatted ++ (codes " " ++ arg)
        else formatted)
      args

unfoldable pub format_command : Context → Text
unfolding format_from
format_command c = format_from c.command c.arguments

abbrev pub path_default : Text
path_default = codes "/usr/bin:/bin:/usr/sbin:/sbin"

-- `entry(key).or_insert_with(value)`
unfoldable pub or_insert : Text → Text → Environment → Environment
or_insert key value env = elim (lookup key env) [ none ↦ insert key value env | some v ↦ env ]

-- The `match` on LOGNAME and USER.
unfoldable pub add_login_names : Text → Environment → Environment
add_login_names name env = elim (lookup (codes "LOGNAME") env) [
  | none ↦ elim (lookup (codes "USER") env) [
    | none ↦ insert (codes "USER") name (insert (codes "LOGNAME") name env)
    | some user ↦ insert (codes "LOGNAME") user env
  ]
  | some logname ↦ elim (lookup (codes "USER") env) [
    | none ↦ insert (codes "USER") logname env
    | some user ↦ env
  ]
]

abbrev pub insert_if : Text → Option Text → Environment → Environment
insert_if key none env = env
insert_if key (some value) env = insert key value env

-- The variables that describe the invoking user.
unfoldable pub add_sudo_vars : Context → Environment → Environment
unfolding format_command to_string
add_sudo_vars c env =
    let e₁ = insert (codes "SUDO_COMMAND") (format_command c) env in
    let e₂ = insert (codes "SUDO_UID") (to_string c.current_user.uid) e₁ in
    let e₃ = insert (codes "SUDO_GID") (to_string c.current_user.gid) e₂ in
    let e₄ = insert (codes "SUDO_USER") c.current_user.name e₃ in
    insert (codes "SUDO_HOME") c.current_user.home e₄

unfoldable pub add_extra_env : Context → Restrictions → Option Text → Environment → Environment
unfolding add_sudo_vars or_insert add_login_names
add_extra_env c cfg sudo_ps1 env =
    let e₁ = add_sudo_vars c env in
    let e₂ = or_insert (codes "SHELL") c.target_user.shell e₁ in
    let e₃ = or_insert (codes "HOME") c.target_user.home e₂ in
    let e₄ = add_login_names c.target_user.name e₃ in
    let e₅ = insert_if (codes "PATH") cfg.path e₄ in
    let e₆ = or_insert (codes "PATH") path_default e₅ in
    let e₇ = or_insert (codes "TERM") (codes "unknown") e₆ in insert_if (codes "PS1") sudo_ps1 e₇

unfoldable pub login_vars : LaunchType → List Text
login_vars login = codes "HOME" ∷ codes "SHELL" ∷ codes "USER" ∷ codes "LOGNAME" ∷ []
login_vars direct = []
login_vars shell = []

-- `Extend` for a hash map
unfoldable pub extend : Environment → List (Text × Text) → Environment
extend env [] = env
extend env ((k, v) ∷ kvs) = extend (insert k v env) kvs

pub data Outcome : Type 0 where
  ok : Environment → Outcome
  environment_var : List Text → Outcome

module _ (zoneinfo : Option Text) (cfg : Restrictions) where
  unfoldable pub is_passed_on : LaunchType → Text × Text → Bool
  unfolding login_vars
  is_passed_on launch (k, v) =
      not (any (λ name. text_eq name k) (login_vars launch)) && should_keep zoneinfo cfg k v

  unfoldable pub passed_on : LaunchType → List (Text × Text) → List (Text × Text)
  unfolding is_passed_on
  passed_on launch [] = []
  passed_on launch (kv ∷ kvs) =
      if is_passed_on launch kv then kv ∷ passed_on launch kvs else passed_on launch kvs

  -- The loop over `user_override`: the environment and the rejected keys.
  unfoldable pub override_from :
      List (Text × Text) → Environment → List Text → Environment × List Text
  override_from [] env rejected = (env, rejected)
  override_from ((k, v) ∷ kvs) env rejected =
      let keep = should_keep zoneinfo cfg k v in
      override_from kvs (if keep then insert k v env else env)
        (if keep then rejected else rejected ++ k ∷ [])

  unfoldable pub finish : Environment × List Text → Outcome
  finish (env, []) = ok env
  finish (env, k ∷ ks) = environment_var (k ∷ ks)

  unfoldable pub get_target_environment :
      List (Text × Text) → List (Text × Text) → List (Text × Text) → Context → Outcome
  unfolding passed_on override_from finish extend add_extra_env
  get_target_environment current_env additional_env user_override c =
      let sudo_ps1 = lookup (codes "SUDO_PS1") current_env in
      let e₁ = extend [] additional_env in
      let e₂ = extend e₁ (passed_on c.launch current_env) in
      let e₃ = add_extra_env c cfg sudo_ps1 e₂ in finish (override_from user_override e₃ [])

-- `dangerous_extend`
abbrev pub dangerous_extend : Environment → List (Text × Text) → Environment
dangerous_extend = extend
