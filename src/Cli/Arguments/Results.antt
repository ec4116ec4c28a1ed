-- ===== src/Cli/Arguments/Results.antt =====
-- src/sudo/cli/mod.rs: predicates on what the parser of one option gives, for any predicate that a
-- further argument keeps.
use sudo_rs.Prelude.{ℕ, Bool, true, false, ◌||◌, Option, none, some, List, [], ◌∷◌, ◌++◌}
use sudo_rs.Prelude.{◌≡◌, refl, inl, inr}
use mathlib.Core.Path.{subst}
use sudo_rs.Prelude.Tests.{if◌then◌else◌, ◌==◌, Bool-cases, Option-cases}
use sudo_rs.Prelude.Text.{Text, codes, text_eq}
use sudo_rs.Env.Keep.{split_once}
use sudo_rs.Cli.{
  CliError, not_utf8, takes_no_argument, expects_argument, CliResult, ok, err, and_then-inv, Std,
}
use sudo_rs.Cli.Arguments.{
  SudoArg, flag, argument, environment, rest_of, takes_argument, takes_argument_short, push,
  demand_utf8, next_as_value, long_option, short_argument, short_options,
}
use sudo_rs.Cli.Arguments.Leads.{
  IsLetter, TakesShort, last_letter, later_letter, TakesLong, takes_argument_short_iff,
  takes_argument_iff, TakesLong-split_once, not-TakesShort, TakesShort-tail,
}

abbrev pub is_rest : SudoArg → Bool
is_rest (rest_of rest) = true
is_rest (flag s) = false
is_rest (argument option value) = false
is_rest (environment key value) = false

-- The results of a parser, as far as it gives any.
abbrev pub Good : (List SudoArg → Type 0) → CliResult (List SudoArg) → Type 0
Good P r = (xs : List SudoArg) → r ≡ ok xs → P xs

-- It holds with one more argument that is not the rest.
abbrev pub Grows : (List SudoArg → Type 0) → Type 0
Grows P = (x : SudoArg) (xs : List SudoArg) → is_rest x ≡ false → P xs → P (x ∷ xs)

module _ (P : List SudoArg → Type 0) (grows : Grows P) where
  pub err-Good : (e : CliError) → Good P (err e)
  err-Good e xs h = absurd (cc)

  pub push-Good :
      (x : SudoArg) (r : CliResult (List SudoArg))
      → is_rest x ≡ false
      → Good P r
      → Good P (push x r)
  push-Good x r n g xs h =
      let (ys, e, o) = and_then-inv r (λ ys. ok (x ∷ ys)) xs h in
      let same : x ∷ ys ≡ xs = cc in subst P same (grows x ys n (g ys e))

  -- What is left after the next argument, or without one.
  abbrev pub NextGood : CliResult (List SudoArg) → Option (Text × CliResult (List SudoArg)) → Type 0
  NextGood rest none = Good P rest
  NextGood rest (some (value, r)) = Good P r

  module _ (std : Std) where
    pub demand_utf8-Good :
        (arg : Text) (f : Text → CliResult (List SudoArg))
        → ((s : Text) → std.from_utf8 arg ≡ some s → Good P (f s))
        → Good P (demand_utf8 std arg f)
    unfolding demand_utf8
    demand_utf8-Good arg f g = elim (Option-cases (std.from_utf8 arg)) [
      | inl e ↦ rw (e, demand_utf8) (err-Good (not_utf8 arg))
      | inr (s, e) ↦ rw (e, demand_utf8) (g s e)
    ]

    module _ (rest : CliResult (List SudoArg))
        (next : Option (Text × CliResult (List SudoArg))) where
      pub next_as_value-Good :
          (option : Text) (missing : CliResult (List SudoArg))
          → NextGood rest next
          → (Good P rest → Good P missing)
          → Good P (next_as_value std rest next option missing)
      next_as_value-Good option missing n g = go next n
        where
          go :
              (next : Option (Text × CliResult (List SudoArg)))
              → NextGood rest next
              → Good P (next_as_value std rest next option missing)
          go none n = g n
          go (some (value, after)) n =
              demand_utf8-Good value _ (λ s e. push-Good (argument option s) after refl n)

      pub long_option-Good :
          (s : Text)
          → (¬ TakesLong s → Good P rest)
          → (TakesLong s → NextGood rest next)
          → Good P (long_option std rest next s)
      unfolding long_option
      long_option-Good s a v = elim (Option-cases (split_once b'=' s)) [
        | inr ((key, value), e) ↦
            let a' = a (λ t. absurd (cc (TakesLong-split_once s t))) in
            elim (Bool-cases (takes_argument key || text_eq key (codes "preserve-env"))) [
              | inl k ↦
                  rw (e, k, long_option)
                    (push-Good (argument (codes "--" ++ key) value) rest refl a')
              | inr k ↦ rw (e, k, long_option) (err-Good (takes_no_argument key))
            ]
        | inl e ↦ elim (Bool-cases (takes_argument s)) [
          | inl k ↦
              rw (e, k, long_option)
                (next_as_value-Good (codes "--" ++ s) _ (v ((takes_argument_iff s).0 k))
                  (λ g. err-Good (expects_argument (codes "--" ++ s))))
          | inr k ↦
              rw (e, k, long_option)
                (push-Good (flag (codes "--" ++ s)) rest refl
                  (a (λ t. absurd (cc ((takes_argument_iff s).1 t)))))
        ]
      ]

      pub if_Good :
          (b : Bool) (r r' : CliResult (List SudoArg))
          → Good P r
          → Good P r'
          → Good P (if b then r else r')
      if_Good true r r' g g' = g
      if_Good false r r' g g' = g'

      pub short_argument-Good :
          (curr : ℕ) (s : Text)
          → IsLetter curr
          → (¬ TakesShort (curr ∷ s) → Good P rest)
          → (TakesShort (curr ∷ s) → NextGood rest next)
          → Good P (short_argument std rest next curr s)
      unfolding short_argument
      short_argument-Good curr [] l a v =
          next_as_value-Good (b'-' ∷ curr ∷ []) _ (v (last_letter l)) (λ g.
            if_Good (curr == b'h') _ _ (push-Good (flag (b'-' ∷ curr ∷ [])) rest refl g)
              (err-Good _))
      short_argument-Good curr (c ∷ s) l a v =
          if_Good (c == b'=') _ _ (err-Good _)
            (push-Good (argument (b'-' ∷ curr ∷ []) (c ∷ s)) rest refl (a (not-TakesShort l)))

      pub short_options-Good :
          (s : Text)
          → (¬ TakesShort s → Good P rest)
          → (TakesShort s → NextGood rest next)
          → Good P (short_options std rest next s)
      unfolding short_options
      short_options-Good [] a v = a (λ t. elim t [ ])
      short_options-Good (curr ∷ s) a v = elim (Bool-cases (takes_argument_short curr)) [
        | inl e ↦
            rw (e, short_options)
              (short_argument-Good curr s ((takes_argument_short_iff curr).0 e) a v)
        | inr e ↦
            let n : ¬ IsLetter curr = λ l. cc ((takes_argument_short_iff curr).1 l) in
            rw (e, short_options)
              (push-Good (flag (b'-' ∷ curr ∷ [])) _ refl (
                short_options-Good s (λ m. a (λ t. m (TakesShort-tail n t)))
                  (λ t. v (later_letter n t))))
      ]
