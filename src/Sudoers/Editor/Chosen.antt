-- ===== src/Sudoers/Editor/Chosen.antt =====
-- What is known of the editor that `select_editor` of src/sudoers/mod.rs chooses.
use sudo_rs.Prelude.{Bool, true, some, List, [], ◌∷◌, arith}
use sudo_rs.Prelude.{◌≡◌, ◌∙◌, ◌⊎◌, inl, inr}
use mathlib.Core.Path.{subst}
use sudo_rs.Prelude.Tests.{Bool-cases, Option-cases}
use sudo_rs.Prelude.Lists.{any, Any, here, there}
use sudo_rs.Prelude.Text.{Text, codes}
use sudo_rs.Defaults.{Settings}
use sudo_rs.Sudoers.Editor.{
  System, split, is_valid_executable, find_in, resolve_path, locate, is_whitelisted, from_words,
  from_variable, first_valid, from_variables, select_editor,
}

module _ (sys : System) where
  -- `e` is one of the editors of the `editor` setting.
  abbrev pub IsBlessed : Settings → Text → Type 0
  IsBlessed s e = Any (λ x. sys.path_eq x e ≡ true) (split b':' s.editor)

  any→Any : (f : Text → Bool) (xs : List Text) → any f xs ≡ true → Any (λ x. f x ≡ true) xs
  any→Any f [] h = absurd (cc)
  any→Any f (x ∷ xs) h = elim (Bool-cases (f x)) [
    | inl e ↦ here e
    | inr e ↦ there (any→Any f xs (ground arith))
  ]

  find_in-valid :
      (command : Text) (dirs : List Text) (e : Text)
      → find_in sys command dirs ≡ some e
      → is_valid_executable sys e ≡ true
  unfolding find_in
  find_in-valid command [] e h = absurd (cc)
  find_in-valid command (d ∷ dirs) e h = elim (Bool-cases (sys.is_absolute d)) [
    | inl a ↦ elim (Bool-cases (is_valid_executable sys (sys.join d command))) [
      | inl v ↦ let k : some (sys.join d command) ≡ some e = rw (a, v, find_in) at h in cc
      | inr v ↦ find_in-valid command dirs e (rw (a, v, find_in) at h)
    ]
    | inr a ↦ find_in-valid command dirs e (rw (a, find_in) at h)
  ]

  locate-valid : (editor e : Text) → locate sys editor ≡ some e → is_valid_executable sys e ≡ true
  unfolding locate resolve_path
  locate-valid editor e h = elim (Bool-cases (is_valid_executable sys editor)) [
    | inl v ↦ let k : some editor ≡ some e = rw (v, locate) at h in cc
    | inr v ↦ find_in-valid editor _ e (rw (v, locate) at h)
  ]

  module _ (path_eq_refl : (p : Text) → sys.path_eq p p ≡ true) (settings : Settings)
      (trusted : Bool) where
    IsFit : Text → Type 0
    IsFit e = (is_valid_executable sys e ≡ true) × ((trusted ≡ true) ⊎ IsBlessed settings e)

    whitelisted-IsFit :
        (e : Text)
        → is_valid_executable sys e ≡ true
        → is_whitelisted sys settings trusted e ≡ true
        → IsFit e
    unfolding is_whitelisted IsFit
    whitelisted-IsFit e v h = elim (Bool-cases trusted) [
      | inl t ↦ (v, inl t)
      | inr t ↦ (v, inr (any→Any (λ x. sys.path_eq x e) _ (rw t at h)))
    ]

    from_words-IsFit :
        (words : List Text) (e : Text) (args : List Text)
        → from_words sys settings trusted words ≡ some (e, args)
        → IsFit e
    unfolding from_words
    from_words-IsFit [] e args h = absurd (cc)
    from_words-IsFit (w ∷ ws) e args h = elim (Option-cases (locate sys w)) [
      | inl n ↦ absurd (cc (rw (n, from_words) at h))
      | inr (x, l) ↦ elim (Bool-cases (is_whitelisted sys settings trusted x)) [
        | inl b ↦
            let k : some (x, ws) ≡ some (e, args) = rw (l, b, from_words) at h in
            subst IsFit (cc) (whitelisted-IsFit x (locate-valid w x l) b)
        | inr b ↦ absurd (cc (rw (l, b, from_words) at h))
      ]
    ]

    from_variable-IsFit :
        (key e : Text) (args : List Text)
        → from_variable sys settings trusted key ≡ some (e, args)
        → IsFit e
    unfolding from_variable
    from_variable-IsFit key e args h = elim (Option-cases (sys.var key)) [
      | inl n ↦ absurd (cc (rw (n, from_variable) at h))
      | inr (x, l) ↦ from_words-IsFit (split b' ' x) e args (rw (l, from_variable) at h)
    ]

    first_valid-IsFit :
        (editors : List Text) (e : Text) (args : List Text)
        → first_valid sys settings trusted editors ≡ some (e, args)
        → (is_valid_executable sys e ≡ true) × Any (λ x. sys.path_eq x e ≡ true) editors
    unfolding first_valid
    first_valid-IsFit [] e args h = absurd (cc)
    first_valid-IsFit (x ∷ xs) e args h = elim (Bool-cases (is_valid_executable sys x)) [
      | inl v ↦
          let k : some (x, []) ≡ some (e, args) = rw (v, first_valid) at h in
          let s : x ≡ e = cc in
          (
            subst (λ y. is_valid_executable sys y ≡ true) s v,
            here (subst (λ y. sys.path_eq x y ≡ true) s (path_eq_refl x)),
          )
      | inr v ↦ let (a, b) = first_valid-IsFit xs e args (rw (v, first_valid) at h) in (a, there b)
    ]

    from_variables-IsFit :
        (keys : List Text) (e : Text) (args : List Text)
        → from_variables sys settings trusted keys ≡ some (e, args)
        → IsFit e
    unfolding from_variables IsFit
    from_variables-IsFit [] e args h =
        let (a, b) = first_valid-IsFit (split b':' settings.editor) e args h in (a, inr b)
    from_variables-IsFit (key ∷ keys) e args h =
        elim (Option-cases (from_variable sys settings trusted key)) [
          | inl n ↦ from_variables-IsFit keys e args (rw (n, from_variables) at h)
          | inr (x, l) ↦ from_variable-IsFit key e args (l ∙ (rw (l, from_variables) at h))
        ]

    -- The editor that is selected is an executable regular file and, unless the environment is
    -- trusted, equals as a path one of the editors that the settings name, whatever the variables
    -- say. Each path is supposed to equal itself.
    pub select_editor-IsBlessed :
        (e : Text) (args : List Text)
        → select_editor sys settings trusted ≡ some (e, args)
        → (is_valid_executable sys e ≡ true) × ((trusted ≡ true) ⊎ IsBlessed settings e)
    unfolding select_editor IsFit
    select_editor-IsBlessed e args h =
        from_variables-IsFit (codes "SUDO_EDITOR" ∷ codes "VISUAL" ∷ codes "EDITOR" ∷ []) e args h
