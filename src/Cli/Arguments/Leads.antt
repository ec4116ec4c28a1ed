-- ===== src/Cli/Arguments/Leads.antt =====
-- src/sudo/cli/mod.rs: where the command starts among the arguments, told without the parser: which
-- argument is an option, which option takes the next argument, and which argument sets a variable.
use sudo_rs.Prelude.{ℕ, true, false, ◌||◌, none, some, List, [], ◌∷◌, ◌++◌}
use sudo_rs.Prelude.{◌≡◌, refl, ap, ◌∙◌, ◌⊎◌, inl, inr, ◌↔◌, arith}
use sudo_rs.Prelude.Tests.{◌==◌, Bool-cases, Option-cases}
use sudo_rs.Prelude.Lists.{any, all, Any, here, there, drop, any_iff}
use sudo_rs.Prelude.Text.{Text, codes, text_eq, text_eq_iff, starts_with}
use sudo_rs.Env.Keep.{split_once}
use sudo_rs.Env.Keep.Listed.{split_once-inv, split_once-append}
use sudo_rs.Cli.{Std, ok}
use sudo_rs.Cli.Arguments.{takes_argument, takes_argument_short, demand_utf8, try_to_env_var}

-- A letter of an option that takes an argument.
abbrev pub IsLetter : ℕ → Type 0
IsLetter c = Any (λ k. c ≡ k) (codes "DghpRUu")

-- The letters of a short option whose last one, and no other, takes an argument.
pub data TakesShort : Text → Type 0 where
  last_letter : {c : ℕ} → IsLetter c → TakesShort (c ∷ [])
  later_letter : {c : ℕ} {s : Text} → ¬ IsLetter c → TakesShort s → TakesShort (c ∷ s)

-- The name of a long option that takes an argument.
abbrev pub TakesLong : Text → Type 0
TakesLong s =
    Any (λ k. s ≡ k)
      (codes "chdir"
        ∷ codes "group"
        ∷ codes "host"
        ∷ codes "chroot"
        ∷ codes "other-user"
        ∷ codes "user"
        ∷ codes "prompt"
        ∷ [])

module _ (std : Std) where
  -- The value of the option is the next argument.
  abbrev pub Takes : Text → Type 0
  Takes arg =
      ((starts_with arg (codes "--") ≡ true)
        × ((s : Text) × (std.from_utf8 (drop 2 arg) ≡ some s) × TakesLong s))
      ⊎ ((starts_with arg (codes "--") ≡ false)
          × ((s : Text) × (std.from_utf8 (drop 1 arg) ≡ some s) × TakesShort s))

  -- A name of letters, digits and underscores, an equals sign, and anything.
  abbrev pub IsAssignment : Text → Type 0
  IsAssignment arg =
      (any (λ c. c == b'=') arg ≡ true)
      × ((name value : Text) × (std.from_utf8 arg ≡ some (name ++ b'=' ∷ value))
          × (any (λ c. c == b'=') name ≡ false)
          × (all (λ c. std.is_alphanumeric c || (c == b'_')) name ≡ true))

  -- From the arguments to those of the command, its name included.
  pub data Leads : List Text → List Text → Type 0 where
    finished : Leads [] []
    dashes : {arg : Text} {rest : List Text} → arg ≡ codes "--" → Leads (arg ∷ rest) rest
    alone :
        {arg : Text} {args rest : List Text}
        → starts_with arg (codes "-") ≡ true
        → ¬ (arg ≡ codes "--")
        → ¬ Takes arg
        → Leads args rest
        → Leads (arg ∷ args) rest
    valued :
        {arg value : Text} {args rest : List Text}
        → starts_with arg (codes "-") ≡ true
        → ¬ (arg ≡ codes "--")
        → Takes arg
        → Leads args rest
        → Leads (arg ∷ value ∷ args) rest
    bare :
        {arg : Text}
        → starts_with arg (codes "-") ≡ true
        → ¬ (arg ≡ codes "--")
        → Takes arg
        → Leads (arg ∷ []) []
    assignment :
        {arg : Text} {args rest : List Text}
        → starts_with arg (codes "-") ≡ false
        → IsAssignment arg
        → Leads args rest
        → Leads (arg ∷ args) rest
    command :
        {arg : Text} {args : List Text}
        → starts_with arg (codes "-") ≡ false
        → ¬ IsAssignment arg
        → Leads (arg ∷ args) (arg ∷ args)

pub takes_argument_short_iff : (c : ℕ) → (takes_argument_short c ≡ true) ↔ IsLetter c
takes_argument_short_iff c = any_iff {f = λ k. c == k} (codes "DghpRUu") (λ k. ground arith)

pub takes_argument_iff : (s : Text) → (takes_argument s ≡ true) ↔ TakesLong s
takes_argument_iff s = any_iff {f = λ k. text_eq s k} _ (λ k. text_eq_iff s k)

-- None of the names has an equals sign.
pub TakesLong-split_once : (s : Text) → TakesLong s → split_once b'=' s ≡ none
unfolding split_once
TakesLong-split_once s (here p) = rw p refl
TakesLong-split_once s (there (here p)) = rw p refl
TakesLong-split_once s (there (there (here p))) = rw p refl
TakesLong-split_once s (there (there (there (here p)))) = rw p refl
TakesLong-split_once s (there (there (there (there (here p))))) = rw p refl
TakesLong-split_once s (there (there (there (there (there (here p)))))) = rw p refl
TakesLong-split_once s (there (there (there (there (there (there (here p))))))) = rw p refl
TakesLong-split_once s (there (there (there (there (there (there (there h))))))) = elim h [ ]

pub not-TakesShort : {c d : ℕ} {s : Text} → IsLetter c → ¬ TakesShort (c ∷ d ∷ s)
not-TakesShort l (later_letter n t) = n l

pub TakesShort-tail : {c : ℕ} {s : Text} → ¬ IsLetter c → TakesShort (c ∷ s) → TakesShort s
TakesShort-tail n (last_letter l) = absurd (n l)
TakesShort-tail n (later_letter m t) = t

module _ (std : Std) where
  pub some-IsAssignment :
      (arg name value : Text)
      → try_to_env_var std arg ≡ ok (some (name, value))
      → IsAssignment std arg
  unfolding try_to_env_var demand_utf8
  some-IsAssignment arg name value h = elim (Bool-cases (any (λ c. c == b'=') arg)) [
    | inr e ↦ absurd (cc (rw (e, try_to_env_var) at h))
    | inl e ↦ elim (Option-cases (std.from_utf8 arg)) [
      | inl u ↦ absurd (cc (rw (e, u, try_to_env_var, demand_utf8) at h))
      | inr (s, u) ↦ elim (Option-cases (split_once b'=' s)) [
        | inl n ↦ absurd (cc (rw (e, u, n, try_to_env_var, demand_utf8) at h))
        | inr ((a, b), k) ↦ elim (Bool-cases (all (λ c. std.is_alphanumeric c || (c == b'_')) a)) [
          | inl w ↦ let (p, q) = split_once-inv b'=' s a b k in (e, (a, b, u ∙ ap some p, q, w))
          | inr w ↦ absurd (cc (rw (e, u, k, w, try_to_env_var, demand_utf8) at h))
        ]
      ]
    ]
  ]

  pub none-IsAssignment : (arg : Text) → try_to_env_var std arg ≡ ok none → ¬ IsAssignment std arg
  unfolding try_to_env_var demand_utf8
  none-IsAssignment arg h (e, (a, b, u, q, w)) =
      let k = split_once-append b'=' a b q in
      absurd (cc (rw (e, u, k, w, try_to_env_var, demand_utf8) at h))
