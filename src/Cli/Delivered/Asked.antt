-- ===== src/Cli/Delivered/Asked.antt =====
-- src/sudo/cli/mod.rs: what the arguments before the command do to the positional arguments and to
-- the edit flag.
use sudo_rs.Prelude.{Bool, true, false, not, ◌&&◌, ◌↔◌, List, [], ◌∷◌, ◌++◌}
use sudo_rs.Prelude.{◌≡◌, refl, sym, ap, ◌∙◌, ◌⊎◌, inl, inr, arith}
use sudo_rs.Prelude.Tests.{if◌then◌else◌, Bool-cases}
use sudo_rs.Prelude.Lists.{All, Any, here, there, Any-append}
use sudo_rs.Prelude.Text.{Text, codes, text_eq, text_eq_iff}
use sudo_rs.Cli.{SudoOptions, CliError, CliResult, ok, err, and_then-inv, Std}
use sudo_rs.Cli.Arguments.{SudoArg, flag, argument, environment, rest_of}
use sudo_rs.Cli.Arguments.Results.{is_rest}
use sudo_rs.Cli.Parse.{is_option, apply_flag, apply_argument, apply_arg, apply_args}

-- What is asked for later: the positional arguments and whether to edit.
abbrev pub Asked : Type 0
Asked = List Text × Bool

abbrev pub asked_of : SudoOptions → Asked
asked_of o = (o.positional_args, o.edit)

-- The result asks for this.
pub record Keeps (ps : Asked) (r : CliResult SudoOptions) : Type 0 where
  pub keeps : (o' : SudoOptions) → r ≡ ok o' → asked_of o' ≡ ps

pub ok-Keeps : {ps : Asked} {o₁ : SudoOptions} → asked_of o₁ ≡ ps → Keeps ps (ok o₁)
ok-Keeps {ps} {o₁} e = record {
  keeps = λ o' h. let same : o₁ ≡ o' = cc in sym (ap asked_of same) ∙ e;
}

pub err-Keeps : {ps : Asked} {e : CliError} → Keeps ps (err e)
err-Keeps = record { keeps = λ o' h. absurd (cc) }

pub if_Keeps :
    {ps : Asked} (b : Bool) {r r' : CliResult SudoOptions}
    → Keeps ps r
    → Keeps ps r'
    → Keeps ps (if b then r else r')
if_Keeps true k k' = k
if_Keeps false k k' = k'

pub unless_Keeps :
    {ps : Asked} (b : Bool) (r r' : CliResult SudoOptions)
    → b ≡ false
    → Keeps ps r'
    → Keeps ps (if b then r else r')
unless_Keeps b r r' e k = rw e k

-- A flag for editing.
abbrev pub is_edit : Text → Bool
is_edit s = is_option (codes "-e") (codes "--edit") s

pub apply_flag-Keeps :
    (b : Bool) (s : Text) (o : SudoOptions)
    → is_edit s ≡ false
    → Keeps (asked_of o) (apply_flag b s o)
unfolding apply_flag
apply_flag-Keeps b s o n = if_Keeps (is_option (codes "-A") (codes "--askpass") s) (ok-Keeps refl) (
    if_Keeps (is_option (codes "-B") (codes "--bell") s) (ok-Keeps refl) (
      if_Keeps (is_option (codes "-b") (codes "--background") s) (ok-Keeps refl) (
        if_Keeps (is_option (codes "-E") (codes "--preserve-env") s) (ok-Keeps refl) (
          unless_Keeps (is_option (codes "-e") (codes "--edit") s && not b) _ _ (ground (arith, n))
            (if_Keeps (is_option (codes "-H") (codes "--set-home") s) (ok-Keeps refl) (
              if_Keeps (is_option (codes "-h") (codes "--help") s) (ok-Keeps refl) (
                if_Keeps (is_option (codes "-i") (codes "--login") s) (ok-Keeps refl) (
                  if_Keeps (is_option (codes "-K") (codes "--remove-timestamp") s) (ok-Keeps refl) (
                    if_Keeps (is_option (codes "-k") (codes "--reset-timestamp") s) (ok-Keeps refl)
                      (if_Keeps (is_option (codes "-l") (codes "--list") s) (ok-Keeps refl) (
                        if_Keeps (is_option (codes "-n") (codes "--non-interactive") s)
                          (ok-Keeps refl)
                          (if_Keeps (is_option (codes "-S") (codes "--stdin") s) (ok-Keeps refl) (
                            if_Keeps (is_option (codes "-s") (codes "--shell") s) (ok-Keeps refl) (
                              if_Keeps (is_option (codes "-V") (codes "--version") s)
                                (ok-Keeps refl)
                                (if_Keeps (is_option (codes "-v") (codes "--validate") s)
                                  (ok-Keeps refl) err-Keeps)))))))))))))))

pub apply_flag-edit :
    (b : Bool) (s : Text) (o : SudoOptions)
    → (s ≡ codes "-e") ⊎ (s ≡ codes "--edit")
    → Keeps (o.positional_args, true) (apply_flag b s o)
unfolding apply_flag text_eq
apply_flag-edit true s o (inl e) = rw e err-Keeps
apply_flag-edit true s o (inr e) = rw e err-Keeps
apply_flag-edit false s o (inl e) = rw e (ok-Keeps refl)
apply_flag-edit false s o (inr e) = rw e (ok-Keeps refl)

pub is_edit_iff : (s : Text) → (is_edit s ≡ true) ↔ ((s ≡ codes "-e") ⊎ (s ≡ codes "--edit"))
is_edit_iff s = ground (arith, text_eq_iff s (codes "-e"), text_eq_iff s (codes "--edit"))

-- A flag that asks to edit, among the others.
abbrev pub IsEdit : SudoArg → Type 0
IsEdit x = (x ≡ flag (codes "-e")) ⊎ (x ≡ flag (codes "--edit"))

pub ⊎_map : {A B C D : Type 0} → (A → C) → (B → D) → A ⊎ B → C ⊎ D
⊎_map f g (inl a) = inl (f a)
⊎_map f g (inr b) = inr (g b)

pub flag_inj : {s s' : Text} → flag s ≡ flag s' → s ≡ s'
flag_inj e = cc

pub Any-left : {A : Type 0} {P : A → Type 0} (xs ys : List A) → Any P xs → Any P (xs ++ ys)
Any-left (x ∷ xs) ys (here p) = here p
Any-left (x ∷ xs) ys (there k) = there (Any-left xs ys k)
Any-left [] ys k = elim k [ ]

pub not_at_end :
    (ys : List SudoArg) (rest : List Text) → Any IsEdit (ys ++ (rest_of rest ∷ [])) → Any IsEdit ys
not_at_end ys rest k = elim (Any-append {P = IsEdit} ys k) [
  | inl l ↦ l
  | inr (here (inl e)) ↦ absurd (cc)
  | inr (here (inr e)) ↦ absurd (cc)
  | inr (there l) ↦ elim l [ ]
]

module _ (std : Std) where
  pub apply_argument-Keeps :
      (s v : Text) (o : SudoOptions) → Keeps (asked_of o) (apply_argument std s v o)
  unfolding apply_argument
  apply_argument-Keeps s v o =
      if_Keeps (is_option (codes "-D") (codes "--chdir") s) (ok-Keeps refl) (
        if_Keeps (is_option (codes "-E") (codes "--preserve-env") s) (ok-Keeps refl) (
          if_Keeps (is_option (codes "-g") (codes "--group") s) (ok-Keeps refl) (
            if_Keeps (is_option (codes "-p") (codes "--prompt") s) (ok-Keeps refl) (
              if_Keeps (is_option (codes "-U") (codes "--other-user") s) (ok-Keeps refl)
                (if_Keeps (is_option (codes "-u") (codes "--user") s) (ok-Keeps refl) err-Keeps)))))

  -- What one argument before the rest does.
  pub apply_arg-Keeps :
      (b : Bool) (x : SudoArg) (o : SudoOptions)
      → is_rest x ≡ false
      → (IsEdit x × Keeps (o.positional_args, true) (apply_arg std b x o))
        ⊎ (¬ IsEdit x × Keeps (asked_of o) (apply_arg std b x o))
  unfolding apply_arg
  apply_arg-Keeps b (flag s) o n = elim (Bool-cases (is_edit s)) [
    | inl e ↦
        let k = (is_edit_iff s).0 e in inl (⊎_map (ap flag) (ap flag) k, apply_flag-edit b s o k)
    | inr e ↦ inr (
      λ k. let same = (is_edit_iff s).1 (⊎_map flag_inj flag_inj k) in cc,
      apply_flag-Keeps b s o e,
    )
  ]
  apply_arg-Keeps b (argument s v) o n =
      inr ((λ k. elim k [ inl e ↦ cc | inr e ↦ cc ]), apply_argument-Keeps s v o)
  apply_arg-Keeps b (environment k v) o n =
      inr ((λ k. elim k [ inl e ↦ cc | inr e ↦ cc ]), ok-Keeps refl)
  apply_arg-Keeps b (rest_of rest) o n = absurd (cc)

  -- Whether the options so far ask to edit.
  abbrev pub EditsAs : SudoOptions → List SudoArg → SudoOptions → Type 0
  EditsAs o ys o₁ = (o₁.edit ≡ true) ↔ ((o.edit ≡ true) ⊎ Any IsEdit ys)

  -- The options before what is passed on leave the positional arguments alone.
  pub apply_args-before :
      (b : Bool) (ys zs : List SudoArg) (o o' : SudoOptions)
      → All (λ x. is_rest x ≡ false) ys
      → apply_args std b (ys ++ zs) o ≡ ok o'
      → (o₁ : SudoOptions) × (apply_args std b zs o₁ ≡ ok o')
        × (o₁.positional_args ≡ o.positional_args)
        × EditsAs o ys o₁
  unfolding apply_args
  apply_args-before b [] zs o o' n h =
      (o, h, refl, (λ e. inl e, λ e. elim e [ inl k ↦ k | inr k ↦ elim k [ ] ]))
  apply_args-before b (y ∷ ys) zs o o' n h =
      let (o₁, e, h') = and_then-inv (apply_arg std b y o) (apply_args std b (ys ++ zs)) o' h in
      let (o₂, h₂, p, (f, g)) = apply_args-before b ys zs o₁ o' n.1 h' in
      elim (apply_arg-Keeps b y o n.0) [
        | inl (y_edits, k) ↦
            let same = k.keeps o₁ e in
            (
              o₂,
              h₂,
              p ∙ ap (λ q. q.0) same,
              (λ w. inr (here y_edits), λ w. g (inl (ap (λ q. q.1) same))),
            )
        | inr (y_keeps, k) ↦
            let same = k.keeps o₁ e in
            let edit : o₁.edit ≡ o.edit = ap (λ q. q.1) same in
            (
              o₂,
              h₂,
              p ∙ ap (λ q. q.0) same,
              (
                λ w. elim (f w) [ inl k ↦ inl (sym edit ∙ k) | inr k ↦ inr (there k) ],
                λ w. g (elim w [
                  | inl k ↦ inl (edit ∙ k)
                  | inr (here k) ↦ absurd (y_keeps k)
                  | inr (there k) ↦ inr k
                ]),
              ),
            )
      ]
