-- ===== src/Sudoers/Policy/Fields.antt =====
-- The fields of `to_auth` and of the restrictions of src/sudoers/policy.rs, described apart from the
-- code: the credential, the directory and the mask by relations.
use sudo_rs.Prelude.{ℕ, ◌^◌, ◌<◌, Bool, true, false, Option, none, some}
use sudo_rs.Prelude.{◌≡◌, refl, sym, ◌⊎◌, ◌↔◌, inl, inr, arith}
use mathlib.Core.Path.{subst}
use sudo_rs.Prelude.Tests.{if◌then◌else◌, ◌==◌, lt→ltb, Bool-cases}
use sudo_rs.Prelude.Lists.{any}
use sudo_rs.Prelude.Text.{Text, text_eq, text_eq_iff, codes}
use sudo_rs.Defaults.{Settings, TimestampType}
use sudo_rs.Sudoers.Ast.{
  Tag, Authenticate, unset, passwd, nopasswd, needs_passwd, EnvironmentControl, ExecControl, ChDir,
  path, any_dir,
}
use sudo_rs.Sudoers.Policy.{
  AuthenticatingUser, invoking_user, root_user, target_user, AuthenticationScope, tty_scope,
  ppid_scope, Authentication, DirChange, strict, any_change, auth, disabled, Umask, preserve,
  extend, override, Restrictions, to_auth, restrictions, to_umask, construct_ch_dir, dir_change,
}

-- Whose password is asked for: by `rootpw`, by `targetpw`, and otherwise.
pub data Asks : Bool → Bool → AuthenticatingUser → Type 0 where
  asks_root : {targetpw : Bool} → Asks true targetpw root_user
  asks_target : Asks false true target_user
  asks_invoker : Asks false false invoking_user

-- Where the command starts: by the tag, or else by the setting `runcwd`, where `*` leaves the choice
-- to the user and an ill-formed path is ignored.
pub data Starts : Option ChDir → Option Text → DirChange → Type 0 where
  in_tag : {p : Text} {r : Option Text} → Starts (some (path p)) r (strict (some p))
  tag_any : {r : Option Text} → Starts (some any_dir) r any_change
  in_setting :
      {p : Text}
      → any (λ c. c == b'*') p ≡ false
      → any (λ c. c == 0) p ≡ false
      → Starts none (some p) (strict (some p))
  setting_any : Starts none (some (codes "*")) any_change
  ill_formed :
      {p : Text}
      → ¬ (p ≡ codes "*")
      → (any (λ c. c == b'*') p ≡ true) ⊎ (any (λ c. c == 0) p ≡ true)
      → Starts none (some p) (strict none)
  nowhere : Starts none none (strict none)

-- The mask by `umask` and `umask_override`.
pub data Masks (n : ℕ) : Bool → Umask → Type 0 where
  kept : {b : Bool} → n ≡ 0o777 → Masks n b preserve
  replaced : ¬ (n ≡ 0o777) → Masks n true (override n)
  joined : ¬ (n ≡ 0o777) → Masks n false (extend n)

-- How the user authenticates.
pub record Authenticates (s : Settings) (t : Tag) (a : Authentication) : Type 0 where
  pub asked : (a.must_authenticate ≡ true) ↔ ¬ (t.authenticate ≡ nopasswd)
  pub whose : Asks s.rootpw s.targetpw a.credential
  pub attempts : a.allowed_attempts ≡ s.passwd_tries
  pub validity : a.prior_validity ≡ s.timestamp_timeout
  pub feedback : a.pwfeedback ≡ s.pwfeedback
  pub timeout :
      ((s.passwd_timeout ≡ 0) × (a.password_timeout ≡ none))
      ⊎ (¬ (s.passwd_timeout ≡ 0) × (a.password_timeout ≡ some s.passwd_timeout))
  pub noninteractive : a.noninteractive_auth ≡ s.noninteractive_auth
  pub per_tty : (a.scope ≡ tty_scope) ↔ (s.timestamp_type ≡ TimestampType.tty)

-- What the command is held to.
pub record Restricts (s : Settings) (t : Tag) (r : Restrictions) : Type 0 where
  pub pty : r.use_pty ≡ s.use_pty
  pub trusts : (r.trust_environment ≡ true) ↔ (
      (t.env ≡ EnvironmentControl.setenv)
      ⊎ ((t.env ≡ EnvironmentControl.implicit) × (s.setenv ≡ true)))
  pub confines :
      (r.noexec ≡ true)
      ↔ ((t.noexec ≡ ExecControl.noexec) ⊎ ((t.noexec ≡ ExecControl.implicit) × (s.noexec ≡ true)))
  pub keeps : r.env_keep ≡ s.env_keep
  pub checks : r.env_check ≡ s.env_check
  pub starts : Starts t.cwd s.runcwd r.chdir
  pub secure : r.path ≡ s.secure_path
  pub masks : Masks s.umask s.umask_override r.umask
  pub logs : (r.log ≡ auth) ↔ (s.log_allowed ≡ true)

pub asked_iff : (t : Tag) → (needs_passwd t ≡ true) ↔ ¬ (t.authenticate ≡ nopasswd)
unfolding needs_passwd
asked_iff t = go t.authenticate
  where
    go : (k : Authenticate) → ((elim k [ nopasswd ↦ false | _ ↦ true ]) ≡ true) ↔ ¬ (k ≡ nopasswd)
    go unset = (λ h e. cc, λ h. refl)
    go passwd = (λ h e. cc, λ h. refl)
    go nopasswd = (λ h e. cc, λ h. absurd (h refl))

asks_lem :
    (r t : Bool) → Asks r t (if r then root_user else if t then target_user else invoking_user)
asks_lem true t = asks_root
asks_lem false true = asks_target
asks_lem false false = asks_invoker

timeout_lem :
    (n : ℕ)
    → ((n ≡ 0) × ((if n == 0 then none else some n) ≡ none))
      ⊎ (¬ (n ≡ 0) × ((if n == 0 then none else some n) ≡ some n))
timeout_lem n = elim (Bool-cases (n == 0)) [
  | inl e ↦ inl (ground (arith, e), rw e refl)
  | inr e ↦ inr (ground (arith, e), rw e refl)
]

per_tty_lem :
    (k : TimestampType)
    → ((elim k as (λ _. AuthenticationScope) [
      | TimestampType.tty ↦ tty_scope
      | TimestampType.ppid ↦ ppid_scope
    ])
        ≡ tty_scope)
      ↔ (k ≡ TimestampType.tty)
per_tty_lem TimestampType.tty = (λ h. refl, λ h. refl)
per_tty_lem TimestampType.ppid = (λ h. cc, λ h. cc)

trusts_lem :
    (k : EnvironmentControl) (b : Bool)
    → ((elim k as (λ _. Bool) [
      | EnvironmentControl.implicit ↦ b
      | EnvironmentControl.setenv ↦ true
      | EnvironmentControl.nosetenv ↦ false
    ])
        ≡ true)
      ↔ ((k ≡ EnvironmentControl.setenv) ⊎ ((k ≡ EnvironmentControl.implicit) × (b ≡ true)))
trusts_lem EnvironmentControl.implicit b =
    (λ h. inr (refl, h), λ h. elim h [ inl e ↦ absurd (cc) | inr (_, e) ↦ e ])
trusts_lem EnvironmentControl.setenv b = (λ h. inl refl, λ h. refl)
trusts_lem EnvironmentControl.nosetenv b =
    (λ h. cc, λ h. elim h [ inl e ↦ absurd (cc) | inr (e, _) ↦ absurd (cc) ])

confines_lem :
    (k : ExecControl) (b : Bool)
    → ((elim k as (λ _. Bool) [
      | ExecControl.implicit ↦ b
      | ExecControl.exec ↦ false
      | ExecControl.noexec ↦ true
    ])
        ≡ true)
      ↔ ((k ≡ ExecControl.noexec) ⊎ ((k ≡ ExecControl.implicit) × (b ≡ true)))
confines_lem ExecControl.implicit b =
    (λ h. inr (refl, h), λ h. elim h [ inl e ↦ absurd (cc) | inr (_, e) ↦ e ])
confines_lem ExecControl.exec b =
    (λ h. cc, λ h. elim h [ inl e ↦ absurd (cc) | inr (e, _) ↦ absurd (cc) ])
confines_lem ExecControl.noexec b = (λ h. inl refl, λ h. refl)

logs_lem : (b : Bool) → ((if b then auth else disabled) ≡ auth) ↔ (b ≡ true)
logs_lem true = (λ h. refl, λ h. refl)
logs_lem false = (λ h. cc, λ h. cc)

masks_lem :
    (n : ℕ) (b : Bool)
    → Masks n b (if n == 0o777 then preserve else if b then override n else extend n)
masks_lem n b = elim (Bool-cases (n == 0o777)) [
  | inl e ↦ rw e (kept (ground (arith, e)))
  | inr e ↦ rw e (other b (ground (arith, e)))
]
  where
    other : (b : Bool) → ¬ (n ≡ 0o777) → Masks n b (if b then override n else extend n)
    other true h = replaced h
    other false h = joined h

starts_lem : (cwd : Option ChDir) (runcwd : Option Text) → Starts cwd runcwd (dir_change cwd runcwd)
unfolding dir_change construct_ch_dir
starts_lem (some (path p)) r = in_tag
starts_lem (some any_dir) r = tag_any
starts_lem none none = nowhere
starts_lem none (some p) = elim (Bool-cases (text_eq p (codes "*"))) [
  | inl e ↦
      rw (e, dir_change, construct_ch_dir)
        (subst (λ k. Starts none (some k) any_change) (sym ((text_eq_iff p (codes "*")).0 e))
          setting_any)
  | inr e ↦ elim (Bool-cases (any (λ c. c == b'*') p)) [
    | inl e₂ ↦
        rw (e, e₂, dir_change, construct_ch_dir)
          (ill_formed (λ q. cc ((text_eq_iff p (codes "*")).1 q)) (inl e₂))
    | inr e₂ ↦ elim (Bool-cases (any (λ c. c == 0) p)) [
      | inl e₃ ↦
          rw (e, e₂, e₃, dir_change, construct_ch_dir)
            (ill_formed (λ q. cc ((text_eq_iff p (codes "*")).1 q)) (inr e₃))
      | inr e₃ ↦ rw (e, e₂, e₃, dir_change, construct_ch_dir) (in_setting e₂ e₃)
    ]
  ]
]

pub to_auth-Authenticates :
    (s : Settings) (t : Tag)
    → s.passwd_tries < 2 ^ 16
    → (a : Authentication) × (to_auth s t ≡ some a) × Authenticates s t a
unfolding to_auth
to_auth-Authenticates s t h = rw (lt→ltb s.passwd_tries (2 ^ 16) h) (
  _,
  refl,
  record {
    asked = asked_iff t;
    whose = asks_lem s.rootpw s.targetpw;
    attempts = refl;
    validity = refl;
    feedback = refl;
    timeout = timeout_lem s.passwd_timeout;
    noninteractive = refl;
    per_tty = per_tty_lem s.timestamp_type;
  },
)

pub restrictions-Restricts :
    (s : Settings) (t : Tag)
    → s.umask < 2 ^ 32
    → (r : Restrictions) × (restrictions s t ≡ some r) × Restricts s t r
unfolding restrictions to_umask
restrictions-Restricts s t h = rw (lt→ltb s.umask (2 ^ 32) h) (
  _,
  refl,
  record {
    pty = refl;
    trusts = trusts_lem t.env s.setenv;
    confines = confines_lem t.noexec s.noexec;
    keeps = refl;
    checks = refl;
    starts = starts_lem t.cwd s.runcwd;
    secure = refl;
    masks = masks_lem s.umask s.umask_override;
    logs = logs_lem s.log_allowed;
  },
)
