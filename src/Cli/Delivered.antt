-- ===== src/Cli/Delivered.antt =====
-- src/sudo/cli/mod.rs: the arguments that a command gets.
mod Asked
use sudo_rs.Prelude.{Bool, true, false, not, ◌&&◌, ◌↔◌, some, List, [], ◌∷◌, ◌++◌}
use sudo_rs.Prelude.{◌≡◌, refl, sym, ap, ◌∙◌, ◌⊎◌, inl, inr, append-nil, arith}
use mathlib.Core.Path.{subst}
use sudo_rs.Prelude.Tests.{if◌then◌else◌, Bool-cases}
use sudo_rs.Prelude.Lists.{All, Any, here, there, Any-append}
use sudo_rs.Prelude.Text.{Text, codes, text_eq, text_eq_iff}
use sudo_rs.Cli.{SudoOptions, default_options, CliError, CliResult, ok, err, and_then-inv, Std}
use sudo_rs.Cli.Arguments.{SudoArg, flag, argument, environment, rest_of, normalize_arguments}
use sudo_rs.Cli.Arguments.Leads.{Leads}
use sudo_rs.Cli.Arguments.Results.{is_rest}
use sudo_rs.Cli.Arguments.Suffix.{no_rest, suffix, normalize_arguments-Passed}
use sudo_rs.Cli.Parse.{
  is_option, apply_flag, apply_argument, names_sudoedit, apply_rest, apply_arg, apply_args,
  is_sudoedit, parse_with, parse_options,
}
use sudo_rs.Cli.Delivered.Asked.{
  ⊎_map, flag_inj, Any-left, not_at_end, IsEdit, apply_args-before, EditsAs,
}

module _ (std : Std) where
  -- The command's words among the positional arguments: all of them, unless the first names sudoedit
  -- and nothing else asks to edit.
  pub data Delivers (edits : Type 0) : List Text → List Text → Type 0 where
    no_words : Delivers edits [] []
    as_given :
        {cmd : Text} {rest : List Text}
        → edits ⊎ (names_sudoedit std cmd ≡ false)
        → Delivers edits (cmd ∷ rest) (cmd ∷ rest)
    without_name :
        {cmd : Text} {rest : List Text}
        → ¬ edits
        → names_sudoedit std cmd ≡ true
        → Delivers edits (cmd ∷ rest) rest

  apply_rest-Delivers :
      (rest : List Text) (o : SudoOptions) (edits : Type 0)
      → (o.edit ≡ true) ↔ edits
      → Delivers edits rest (apply_rest std rest o).positional_args
  unfolding apply_rest
  apply_rest-Delivers [] o edits i = no_words
  apply_rest-Delivers (cmd ∷ rest) o edits (f, g) = elim (Bool-cases o.edit) [
    | inl e ↦ rw (e, apply_rest) (as_given (inl (f e)))
    | inr e ↦ elim (Bool-cases (names_sudoedit std cmd)) [
      | inl k ↦ rw (e, k, apply_rest) (without_name (λ q. cc (g q)) k)
      | inr k ↦ rw (e, k, apply_rest) (as_given (inr k))
    ]
  ]

  -- The words of the command, and which of them the command gets.
  abbrev pub Delivered : Bool → List Text → SudoOptions → Type 0
  Delivered invoked_as_sudoedit args o =
      (rest : List Text) × Leads std args rest
      × ((xs : List SudoArg) × (normalize_arguments std args ≡ ok xs)
          × Delivers ((invoked_as_sudoedit ≡ true) ⊎ Any IsEdit xs) rest o.positional_args)

  parse_with-Delivered :
      (b : Bool) (args : List Text) (o : SudoOptions)
      → parse_with std b args ≡ ok o
      → Delivered b args o
  unfolding apply_args apply_arg
  parse_with-Delivered b args o h =
      let start : SudoOptions = record default_options { edit = b } in
      let (xs, n, h') =
        and_then-inv (normalize_arguments std args) (λ normal. apply_args std b normal start) o h in
      elim (normalize_arguments-Passed std args xs n) [
        | no_rest a l ↦
            let (o₁, e, p, _) =
              apply_args-before std b xs [] start o a
                (ap (λ k. apply_args std b k start) (append-nil xs) ∙ h') in
            let same : o₁ ≡ o = cc in
            let none_given : o.positional_args ≡ [] = sym (ap (λ k. k.positional_args) same) ∙ p in
            (
              [],
              l,
              (xs, n, subst (Delivers ((b ≡ true) ⊎ Any IsEdit xs) []) (sym none_given) no_words),
            )
        | suffix ys rest e a l ↦
            let (o₁, h₁, p, i) =
              apply_args-before std b ys (rest_of rest ∷ []) start o a
                (ap (λ k. apply_args std b k start) (sym e) ∙ h') in
            let same : apply_rest std rest o₁ ≡ o = cc in
            (
              rest,
              l,
              (
                xs,
                n,
                subst (λ k. Delivers ((b ≡ true) ⊎ Any IsEdit xs) rest k.positional_args) same
                    (apply_rest-Delivers rest o₁ ((b ≡ true) ⊎ Any IsEdit xs) (
                      λ w.
                          ⊎_map (λ k. k) (λ k. subst (Any IsEdit) (sym e) (Any-left ys _ k))
                            (i.0 w),
                      λ w.
                          i.1 (⊎_map (λ k. k) (λ k. not_at_end ys rest (subst (Any IsEdit) e k)) w),
                    )),
              ),
            )
      ]

  -- If the command line is accepted, then the arguments lead over options, with the next argument
  -- where they take it, and over assignments, to the words of the command: those after two dashes,
  -- or from the first argument that is none of these. The positional arguments are exactly these
  -- words, or these without the first one, if it names sudoedit and sudo is neither run by that name
  -- nor given an edit flag.
  pub parse_options-Delivered :
      (command_path : Text) (args : List Text) (o : SudoOptions)
      → parse_options std (command_path ∷ args) ≡ ok o
      → Delivered (is_sudoedit std (some command_path)) args o
  unfolding parse_options
  parse_options-Delivered command_path args o h =
      parse_with-Delivered (is_sudoedit std (some command_path)) args o h
