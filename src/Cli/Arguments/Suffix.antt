-- ===== src/Cli/Arguments/Suffix.antt =====
-- src/sudo/cli/mod.rs: which arguments `normalize_arguments` passes on to the command.
use sudo_rs.Prelude.{true, false, Option, none, some, List, [], ◌∷◌, ◌++◌}
use sudo_rs.Prelude.{◌≡◌, refl, sym, ap, inl, inr, arith}
use mathlib.Core.Path.{subst}
use sudo_rs.Prelude.Tests.{Bool-cases}
use sudo_rs.Prelude.Lists.{All, drop}
use sudo_rs.Prelude.Text.{Text, codes, text_eq, text_eq_iff, starts_with}
use sudo_rs.Cli.{CliResult, ok, and_then-inv, Std}
use sudo_rs.Cli.Arguments.{
  SudoArg, environment, rest_of, push, demand_utf8, try_to_env_var, long_option, short_options,
  normalize_one, normalize_arguments,
}
use sudo_rs.Cli.Arguments.Leads.{
  TakesShort, TakesLong, Takes, Leads, finished, dashes, alone, valued, bare, assignment, command,
  some-IsAssignment, none-IsAssignment,
}
use sudo_rs.Cli.Arguments.Results.{
  is_rest, Good, Grows, NextGood, push-Good, demand_utf8-Good, long_option-Good, short_options-Good,
}

dash : (arg : Text) → starts_with arg (codes "--") ≡ true → starts_with arg (codes "-") ≡ true
unfolding starts_with
dash [] h = absurd (cc)
dash (c ∷ s) h = ground (arith, h)

module _ (std : Std) where
  -- What is passed on, if anything, comes last, and is what the arguments lead to.
  pub data Passed (args : List Text) (xs : List SudoArg) : Type 0 where
    no_rest : All (λ x. is_rest x ≡ false) xs → Leads std args [] → Passed args xs
    suffix :
        (ys : List SudoArg) (rest : List Text)
        → xs ≡ ys ++ (rest_of rest ∷ [])
        → All (λ x. is_rest x ≡ false) ys
        → Leads std args rest
        → Passed args xs

  Passed-Grows : (args : List Text) → Grows (Passed args)
  Passed-Grows args x xs n (no_rest a l) = no_rest (n, a) l
  Passed-Grows args x xs n (suffix ys rest e a l) =
      suffix (x ∷ ys) rest (ap (λ k. x ∷ k) e) (n, a) l

  lead :
      {args args' : List Text} (r : CliResult (List SudoArg))
      → ((rest : List Text) → Leads std args rest → Leads std args' rest)
      → Good (Passed args) r
      → Good (Passed args') r
  lead r f g xs h = elim (g xs h) [
    | no_rest a l ↦ no_rest a (f [] l)
    | suffix ys rest e a l ↦ suffix ys rest e a (f rest l)
  ]

  Leads-nil : (rest : List Text) → Leads std [] rest → rest ≡ []
  Leads-nil rest finished = refl

  -- What is left after the argument that follows, if there is one.
  abbrev After : List Text → Option (Text × CliResult (List SudoArg)) → Type 0
  After args none = args ≡ []
  After args (some (value, r)) =
      (later : List Text) × (args ≡ value ∷ later) × Good (Passed later) r

  module _ (arg : Text) (args : List Text) (rest : CliResult (List SudoArg))
      (next : Option (Text × CliResult (List SudoArg))) (g : Good (Passed args) rest)
      (after : After args next) where
    abbrev Here : CliResult (List SudoArg) → Type 0
    Here = Good (Passed (arg ∷ args))

    option-alone :
        starts_with arg (codes "-") ≡ true → ¬ (arg ≡ codes "--") → ¬ Takes std arg → Here rest
    option-alone o d t = lead rest (λ r l. alone o d t l) g

    option-valued :
        starts_with arg (codes "-") ≡ true
        → ¬ (arg ≡ codes "--")
        → Takes std arg
        → NextGood (Passed (arg ∷ args)) (Passed-Grows (arg ∷ args)) rest next
    option-valued o d t = go next after
      where
        go :
            (next : Option (Text × CliResult (List SudoArg)))
            → After args next
            → NextGood (Passed (arg ∷ args)) (Passed-Grows (arg ∷ args)) rest next
        go none e =
            let last : Leads std (arg ∷ args) [] =
              subst (λ k. Leads std (arg ∷ k) []) (sym e) (bare o d t) in
            lead rest
              (λ r l.
                subst (Leads std (arg ∷ args)) (sym (Leads-nil r (subst (λ k. Leads std k r) e l)))
                  last)
              g
        go (some (value, r)) (later, e, p) =
            lead r (λ k l. subst (λ q. Leads std (arg ∷ q) k) (sym e) (valued o d t l)) p

    long-Good :
        starts_with arg (codes "--") ≡ true
        → starts_with arg (codes "-") ≡ true
        → ¬ (arg ≡ codes "--")
        → Here (demand_utf8 std (drop 2 arg) (long_option std rest next))
    long-Good l o d =
        demand_utf8-Good (Passed (arg ∷ args)) (Passed-Grows (arg ∷ args)) std (drop 2 arg) _
          (λ s u.
            long_option-Good (Passed (arg ∷ args)) (Passed-Grows (arg ∷ args)) std rest next s
              (λ n. option-alone o d (λ t. n (long_text s l u t)))
              (λ t. option-valued o d (inl (l, (s, u, t)))))
      where
        long_text :
            (s : Text)
            → starts_with arg (codes "--") ≡ true
            → std.from_utf8 (drop 2 arg) ≡ some s
            → Takes std arg
            → TakesLong s
        long_text s l u (inl (_, (s', u', t))) = let same : s' ≡ s = cc in subst TakesLong same t
        long_text s l u (inr (n, _)) = absurd (cc)

    short-Good :
        starts_with arg (codes "--") ≡ false
        → starts_with arg (codes "-") ≡ true
        → ¬ (arg ≡ codes "--")
        → Here (demand_utf8 std (drop 1 arg) (short_options std rest next))
    short-Good l o d =
        demand_utf8-Good (Passed (arg ∷ args)) (Passed-Grows (arg ∷ args)) std (drop 1 arg) _
          (λ s u.
            short_options-Good (Passed (arg ∷ args)) (Passed-Grows (arg ∷ args)) std rest next s
              (λ n. option-alone o d (λ t. n (short_text s l u t)))
              (λ t. option-valued o d (inr (l, (s, u, t)))))
      where
        short_text :
            (s : Text)
            → starts_with arg (codes "--") ≡ false
            → std.from_utf8 (drop 1 arg) ≡ some s
            → Takes std arg
            → TakesShort s
        short_text s l u (inr (_, (s', u', t))) = let same : s' ≡ s = cc in subst TakesShort same t
        short_text s l u (inl (n, _)) = absurd (cc)

    positional-Good :
        (variable : Option (Text × Text))
        → starts_with arg (codes "-") ≡ false
        → try_to_env_var std arg ≡ ok variable
        → Here (elim variable [
          | some (key, value) ↦ push (environment key value) rest
          | none ↦ ok (rest_of (arg ∷ args) ∷ [])
        ])
    positional-Good (some (key, value)) o v =
        push-Good (Passed (arg ∷ args)) (Passed-Grows (arg ∷ args)) (environment key value) rest
          refl (lead rest (λ r l. assignment o (some-IsAssignment std arg key value v) l) g)
    positional-Good none o v = λ xs h.
        let same : rest_of (arg ∷ args) ∷ [] ≡ xs = cc in
        suffix [] (arg ∷ args) (sym same) tt (command o (none-IsAssignment std arg v))

    normalize_one-Good : Here (normalize_one std arg args rest next)
    unfolding normalize_one
    normalize_one-Good = elim (Bool-cases (text_eq arg (codes "--"))) [
      | inl e ↦
          rw (e, normalize_one)
            (λ xs h.
              let same : rest_of args ∷ [] ≡ xs = cc in
              suffix [] args (sym same) tt (dashes ((text_eq_iff arg (codes "--")).0 e)))
      | inr e ↦
          let d : ¬ (arg ≡ codes "--") = λ q. cc ((text_eq_iff arg (codes "--")).1 q) in
          elim (Bool-cases (starts_with arg (codes "--"))) [
            | inl l ↦ rw (e, l, normalize_one) (long-Good l (dash arg l) d)
            | inr l ↦ elim (Bool-cases (starts_with arg (codes "-"))) [
              | inl o ↦ rw (e, l, o, normalize_one) (short-Good l o d)
              | inr o ↦
                  rw (e, l, o, normalize_one)
                    (λ xs h.
                      let (variable, v, h') = and_then-inv (try_to_env_var std arg) _ xs h in
                      positional-Good variable o v xs h')
            ]
          ]
    ]

  pub normalize_arguments-Passed :
      (args : List Text) (xs : List SudoArg) → normalize_arguments std args ≡ ok xs → Passed args xs
  unfolding normalize_arguments
  normalize_arguments-Passed [] xs h =
      let same : [] ≡ xs = cc in subst (Passed []) same (no_rest tt finished)
  normalize_arguments-Passed (arg ∷ []) xs h =
      normalize_one-Good arg [] (ok []) none (normalize_arguments-Passed []) refl xs h
  normalize_arguments-Passed (arg ∷ next ∷ args) xs h =
      normalize_one-Good arg (next ∷ args) (normalize_arguments std (next ∷ args))
        (some (next, normalize_arguments std args)) (normalize_arguments-Passed (next ∷ args))
        (args, refl, normalize_arguments-Passed args) xs h
