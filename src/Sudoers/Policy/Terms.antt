-- ===== src/Sudoers/Policy/Terms.antt =====
-- When and on which terms `Judgement::authorization` of src/sudoers/policy.rs allows a request.
-- `from_str_radix bits radix` stands for the parser of the unsigned integers of that many bits.
use sudo_rs.Prelude.{ℕ, ◌^◌, ◌<◌, ◌≤◌, Option, none, some, []}
use sudo_rs.Prelude.{◌∷◌, ◌≡◌, ◌⊎◌, inl, inr, arith}
use sudo_rs.Prelude.Tests.{◌==◌, Bool-cases, Option-cases}
use sudo_rs.Prelude.Text.{Text}
use sudo_rs.Defaults.{Settings, octal_mode, integer_in}
use sudo_rs.Sudoers.Ast.{Tag}
use sudo_rs.Sudoers.Policy.{
  Authentication, allowed, forbidden, Restrictions, Judgement, to_auth, restrictions, authorization,
}
use sudo_rs.Sudoers.Policy.Fields.{
  Authenticates, Restricts, to_auth-Authenticates, restrictions-Restricts,
}

-- A value of `n` bits is below 2 ^ n.
abbrev pub Fits : (ℕ → ℕ → Text → Option ℕ) → Type 0
Fits from_str_radix =
    (bits radix : ℕ) (text : Text) (n : ℕ) → from_str_radix bits radix text ≡ some n → n < 2 ^ bits

-- The settings whose checked conversions matter have their initial value, the negated one, or one
-- that the parser of the setting makes of some text.
pub record IsConfigured (from_str_radix : ℕ → ℕ → Text → Option ℕ) (s : Settings) : Type 0 where
  pub tries :
      (s.passwd_tries ≡ 3)
      ⊎ ((text : Text) × (integer_in from_str_radix 0 1000 text ≡ some s.passwd_tries))
  pub mode :
      (s.umask ≡ 0o022)
      ⊎ (s.umask ≡ 0o777)
      ⊎ ((text : Text) × (octal_mode from_str_radix text ≡ some s.umask))

authorization-some :
    (j : Judgement) (t : Tag) (a : Authentication) (r : Restrictions)
    → j.flags ≡ some t
    → to_auth j.settings t ≡ some a
    → restrictions j.settings t ≡ some r
    → authorization j ≡ some (allowed a r)
unfolding authorization
authorization-some j t a r h k l = rw (h, k, l)

module _ (from_str_radix : ℕ → ℕ → Text → Option ℕ) (fits : Fits from_str_radix) where
  integer_in-bounds :
      (first last n : ℕ) (text : Text)
      → integer_in from_str_radix first last text ≡ some n
      → (first ≤ n) × (n ≤ last)
  unfolding integer_in
  integer_in-bounds first last n text h = elim (Option-cases (from_str_radix 64 10 text)) [
    | inl e ↦ absurd (ground (arith, h, e))
    | inr (v, e) ↦ ground (arith, h, e)
  ]

  octal_mode-lt : (n : ℕ) (text : Text) → octal_mode from_str_radix text ≡ some n → n < 2 ^ 32
  unfolding octal_mode
  octal_mode-lt n [] h = absurd (cc)
  octal_mode-lt n (c ∷ input) h = elim (Bool-cases (c == b'0')) [
    | inl e ↦ fits 32 8 input n (rw e at h)
    | inr e ↦ absurd (ground (arith, h, e))
  ]

  tries_bound : (s : Settings) → IsConfigured from_str_radix s → s.passwd_tries < 2 ^ 16
  tries_bound s c = elim c.tries [
    | inl e ↦ omega (arith, e)
    | inr (text, e) ↦ omega (arith, integer_in-bounds 0 1000 s.passwd_tries text e)
  ]

  umask_bound : (s : Settings) → IsConfigured from_str_radix s → s.umask < 2 ^ 32
  umask_bound s c = elim c.mode [
    | inl e ↦ omega (arith, e)
    | inr (inl e) ↦ omega (arith, e)
    | inr (inr (text, e)) ↦ octal_mode-lt s.umask text e
  ]

  -- `authorization` does not panic on settings that come from their initial values and their parsers,
  -- if an unsigned integer of n bits is parsed to a number below 2 ^ n. It forbids a judgement
  -- without a tag, and allows one with a tag; how the user then authenticates and what the command
  -- is held to, field by field, is what the tag and the settings say.
  pub authorization_total :
      (j : Judgement)
      → IsConfigured from_str_radix j.settings
      → ((j.flags ≡ none) × (authorization j ≡ some forbidden))
        ⊎ ((t : Tag) × (a : Authentication) × (r : Restrictions) × (j.flags ≡ some t)
            × (authorization j ≡ some (allowed a r))
            × Authenticates j.settings t a
            × Restricts j.settings t r)
  unfolding authorization
  authorization_total j c = elim (Option-cases j.flags) [
    | inl e ↦ inl (e, rw e)
    | inr (t, e) ↦
        let (a, ea, p) = to_auth-Authenticates j.settings t (tries_bound j.settings c) in
        let (r, er, q) = restrictions-Restricts j.settings t (umask_bound j.settings c) in
        inr (t, a, r, e, authorization-some j t a r e ea er, p, q)
  ]
