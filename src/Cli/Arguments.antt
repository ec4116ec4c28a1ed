-- ===== src/Cli/Arguments.antt =====
-- src/sudo/cli/mod.rs: `SudoArg::normalize_arguments`. An argument is the list of its bytes; a string
-- is the list of its characters. The arguments that are left are processed where the source's
-- iterator would be asked for them: after this one (`rest`), or after the next too (`next`).
pub mod Leads
pub mod Results
pub mod Suffix
use sudo_rs.Prelude.{ℕ, Bool, true, false, not, ◌&&◌, ◌||◌, Option, none, some, List, [], ◌∷◌, ◌++◌}
use sudo_rs.Prelude.Tests.{if◌then◌else◌, ◌==◌}
use sudo_rs.Prelude.Lists.{any, all, drop}
use sudo_rs.Prelude.Text.{Text, codes, text_eq, starts_with}
use sudo_rs.Env.Keep.{split_once}
use sudo_rs.Cli.{
  CliError, not_utf8, takes_no_argument, expects_argument, invalid_equals, CliResult, ok, err,
  panic, and_then, Std,
}

pub data SudoArg : Type 0 where
  flag : Text → SudoArg
  argument : Text → Text → SudoArg
  environment : Text → Text → SudoArg
  rest_of : List Text → SudoArg

abbrev pub takes_argument_short : ℕ → Bool
takes_argument_short c = any (λ k. c == k) (codes "DghpRUu")

abbrev pub takes_argument : Text → Bool
takes_argument s =
    any (λ k. text_eq s k)
      (codes "chdir"
        ∷ codes "group"
        ∷ codes "host"
        ∷ codes "chroot"
        ∷ codes "other-user"
        ∷ codes "user"
        ∷ codes "prompt"
        ∷ [])

abbrev pub push : SudoArg → CliResult (List SudoArg) → CliResult (List SudoArg)
push arg later = and_then later (λ args. ok (arg ∷ args))

module _ (std : Std) where
  unfoldable pub demand_utf8 : {A : Type 0} → Text → (Text → CliResult A) → CliResult A
  demand_utf8 arg f = elim (std.from_utf8 arg) [ none ↦ err (not_utf8 arg) | some s ↦ f s ]

  unfoldable pub try_to_env_var : Text → CliResult (Option (Text × Text))
  try_to_env_var arg =
      if not (any (λ c. c == b'=') arg)
      then ok none
      else demand_utf8 arg (λ s. elim (split_once b'=' s) [
        | none ↦ panic
        | some (name, value) ↦
            if all (λ c. std.is_alphanumeric c || (c == b'_')) name
            then ok (some (name, value))
            else ok none
      ])

  module _ (rest : CliResult (List SudoArg)) (next : Option (Text × CliResult (List SudoArg))) where
    -- The value of an option is the next argument.
    abbrev pub next_as_value : Text → CliResult (List SudoArg) → CliResult (List SudoArg)
    next_as_value option missing = elim next [
      | none ↦ missing
      | some (value, after) ↦ demand_utf8 value (λ s. push (argument option s) after)
    ]

    -- After the two dashes.
    unfoldable pub long_option : Text → CliResult (List SudoArg)
    long_option s = elim (split_once b'=' s) [
      | some (key, value) ↦
          if takes_argument key || text_eq key (codes "preserve-env")
          then push (argument (codes "--" ++ key) value) rest
          else err (takes_no_argument key)
      | none ↦
          if takes_argument s
          then next_as_value (codes "--" ++ s) (err (expects_argument (codes "--" ++ s)))
          else push (flag (codes "--" ++ s)) rest
    ]

    -- A letter that takes an argument, with the characters after it.
    unfoldable pub short_argument : ℕ → Text → CliResult (List SudoArg)
    short_argument curr [] =
        let option = b'-' ∷ curr ∷ [] in
        next_as_value option
          (if curr == b'h' then push (flag option) rest else err (expects_argument option))
    short_argument curr (c ∷ s) =
        if c == b'=' then err invalid_equals else push (argument (b'-' ∷ curr ∷ []) (c ∷ s)) rest

    unfoldable pub short_options : Text → CliResult (List SudoArg)
    short_options [] = rest
    short_options (curr ∷ s) =
        let later = short_options s in
        if takes_argument_short curr
        then short_argument curr s
        else push (flag (b'-' ∷ curr ∷ [])) later

  -- The argument `arg`, which `args` follow.
  unfoldable pub normalize_one :
      Text
      → List Text
      → CliResult (List SudoArg)
      → Option (Text × CliResult (List SudoArg))
      → CliResult (List SudoArg)
  normalize_one arg args rest next =
      if text_eq arg (codes "--")
      then ok (rest_of args ∷ [])
      else if starts_with arg (codes "--")
      then demand_utf8 (drop 2 arg) (long_option rest next)
      else if starts_with arg (codes "-")
      then demand_utf8 (drop 1 arg) (short_options rest next)
      else and_then (try_to_env_var arg) (λ variable. elim variable [
        | some (key, value) ↦ push (environment key value) rest
        | none ↦ ok (rest_of (arg ∷ args) ∷ [])
      ])

  unfoldable pub normalize_arguments : List Text → CliResult (List SudoArg)
  normalize_arguments [] = ok []
  normalize_arguments (arg ∷ []) = normalize_one arg [] (ok []) none
  normalize_arguments (arg ∷ next ∷ args) =
      normalize_one arg (next ∷ args) (normalize_arguments (next ∷ args))
        (some (next, normalize_arguments args))
