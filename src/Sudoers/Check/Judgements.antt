-- ===== src/Sudoers/Check/Judgements.antt =====
-- What `check` of src/sudoers/mod.rs does beyond `check_permission`: passwords and repetition.
use sudo_rs.Prelude.{Bool, true, false, not, Option, none, some, arith}
use sudo_rs.Prelude.{◌≡◌, refl, ◌⊎◌, ◌&&◌, ◌↔◌}
use sudo_rs.Defaults.{Settings}
use sudo_rs.Prelude.Tests.{if◌then◌else◌}
use sudo_rs.Prelude.Lists.{Any}
use sudo_rs.Prelude.Text.{Text}
use sudo_rs.Accounts.{User}
use sudo_rs.Sudoers.Ast.{Tag, needs_passwd}
use sudo_rs.Sudoers.Matchers.{World}
use sudo_rs.Sudoers.Rules.{Sudoers}
use sudo_rs.Sudoers.Permission.{Request}
use sudo_rs.Sudoers.Policy.{to_auth, Authentication}
use sudo_rs.Sudoers.Check.{
  check, specify_command, specify_host_user_runas, customise, skip_passwd_if, set_nopasswd,
}

pub skip_passwd_if_iff :
    (skip : Bool) (o : Option Tag) (t : Tag)
    → (skip_passwd_if skip o ≡ some t) ↔ (
        (granted : Tag) × (o ≡ some granted)
        × (t ≡ (if skip then set_nopasswd granted else granted)))
unfolding skip_passwd_if
skip_passwd_if_iff skip none t = (λ h. cc, λ (g, e, k). cc)
skip_passwd_if_iff skip (some g) t = (λ h. (g, refl, cc), λ (g', e, k). cc)

pub needs_passwd_if :
    (skip : Bool) (t : Tag)
    → needs_passwd (if skip then set_nopasswd t else t) ≡ not skip && needs_passwd t
unfolding needs_passwd
needs_passwd_if true t = refl
needs_passwd_if false t = refl

pub must_authenticate-to_auth :
    (s : Settings) (t : Tag) (a : Authentication)
    → to_auth s t ≡ some a
    → a.must_authenticate ≡ needs_passwd t
unfolding to_auth
must_authenticate-to_auth s t a h = ground arith

-- Root, and one who stays the same user in a group that they are a member of.
abbrev pub IsExempt : User → Request → Type 0
IsExempt am_user request =
    (am_user.uid ≡ 0)
    ⊎ ((request.user ≡ am_user) × Any (λ gid. gid ≡ request.group.gid) am_user.groups)

module _ (w : World) (am_user : User) (on_host : Text) where
  -- The settings of a policy are specialised once: a second request that is the same is judged
  -- the same, on the same policy.
  pub check_twice :
      (request : Request) (s : Sudoers)
      → check w am_user on_host request (check w am_user on_host request s).0
        ≡ check w am_user on_host request s
  unfolding check specify_command specify_host_user_runas customise
  check_twice request s = refl
