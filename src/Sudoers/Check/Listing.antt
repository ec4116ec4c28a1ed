-- ===== src/Sudoers/Check/Listing.antt =====
-- When `check_list_permission` and `check_validate_permission` of src/sudoers/mod.rs ask for a
-- password: `sudo -l` unless some matching command needs none, `sudo -v` if any needs one.
use sudo_rs.Prelude.{Bool, not, ◌&&◌, ◌||◌, Option, none, some, List, [], ◌∷◌, arith}
use sudo_rs.Prelude.{◌≡◌, ap, ◌∙◌, inl, inr}
use sudo_rs.Prelude.Tests.{if◌then◌else◌, Option-cases}
use sudo_rs.Prelude.Lists.{any}
use sudo_rs.Prelude.Text.{Text}
use sudo_rs.Defaults.{Settings}
use sudo_rs.Accounts.{User, is_root}
use sudo_rs.Sudoers.Ast.{Tag, needs_passwd}
use sudo_rs.Sudoers.Matchers.{World}
use sudo_rs.Sudoers.Rules.{Sudoers}
use sudo_rs.Sudoers.Policy.{Authentication, allowed, to_auth}
use sudo_rs.Sudoers.Check.{
  specify_host_user_runas, skip_passwd_if, max_by_key_from, max_by_key, matching_tags, authorize,
  check_validate_permission,
}
use sudo_rs.Sudoers.Check.Judgements.{
  skip_passwd_if_iff, needs_passwd_if, must_authenticate-to_auth,
}

-- The key of the greatest element is the greatest key.
max_by_key_from-any :
    {A : Type 0} (key : A → Bool) (best : A) (xs : List A)
    → key (max_by_key_from key best xs) ≡ (key best || any key xs)
unfolding max_by_key_from
max_by_key_from-any key best [] = ground arith
max_by_key_from-any key best (x ∷ xs) =
    max_by_key_from-any key (if key best && not (key x) then best else x) xs ∙ ground arith

max_by_key-any :
    {A : Type 0} (key : A → Bool) (xs : List A) (x : A)
    → max_by_key key xs ≡ some x
    → key x ≡ any key xs
unfolding max_by_key
max_by_key-any key [] x h = cc
max_by_key-any key (y ∷ ys) x h = cc (max_by_key_from-any key y ys)

module _ (w : World) (am_user : User) (on_host : Text) where
  authorize-allowed :
      (s : Settings) (flags : Option Tag) (skip : Bool) (a : Authentication)
      → authorize w am_user on_host s (skip_passwd_if skip flags) ≡ some (allowed a tt)
      → (t : Tag) × (flags ≡ some t) × (a.must_authenticate ≡ (not skip && needs_passwd t))
  unfolding authorize
  authorize-allowed s flags skip a h = elim (Option-cases (skip_passwd_if skip flags)) [
    | inl e ↦ absurd (ground arith)
    | inr (t, e) ↦
        let terms : to_auth s t ≡ some a = ground arith in
        let (granted, e', k) = (skip_passwd_if_iff skip flags t).0 e in
        (
          granted,
          e',
          must_authenticate-to_auth s t a terms ∙ ap needs_passwd k ∙ needs_passwd_if skip granted,
        )
  ]

  -- One who validates their credentials and is allowed to is asked for a password exactly if they
  -- are not root and some command that matches them on this host needs one.
  pub must_authenticate-validate :
      (s : Sudoers) (a : Authentication)
      → (check_validate_permission w am_user on_host s).1 ≡ some (allowed a tt)
      → a.must_authenticate ≡ (
          not (is_root am_user)
          && any needs_passwd
              (matching_tags w am_user on_host (specify_host_user_runas w on_host am_user none s)))
  unfolding check_validate_permission
  must_authenticate-validate s a h =
      let s' = specify_host_user_runas w on_host am_user none s in
      let tags = matching_tags w am_user on_host s' in
      let (t, e, k) =
        authorize-allowed s'.settings (max_by_key needs_passwd tags) (is_root am_user) a h in
      k ∙ ap (λ b. not (is_root am_user) && b) (max_by_key-any needs_passwd tags t e)
