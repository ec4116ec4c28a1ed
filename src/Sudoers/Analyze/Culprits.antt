-- ===== src/Sudoers/Analyze/Culprits.antt =====
-- `analyze` of src/sudoers/mod.rs: the files that are read, and the lines that panic.
use sudo_rs.Prelude.{some, List}
use sudo_rs.Prelude.{◌≡◌, inl, inr, true, none}
use sudo_rs.Prelude.Tests.{Bool-cases, Option-cases}
use sudo_rs.Prelude.Lists.{Any}
use sudo_rs.Prelude.Text.{Text}
use sudo_rs.Sudoers.Ast.{Span, Sudo}
use sudo_rs.Sudoers.Analyze.{Files, Parsed, line, reject, opened, resolve_relative, safe_files}

module _ (files : Files) where
  -- The paths that a line of a file includes.
  pub data Includes (cur : Text) : Parsed → Text → Type 0 where
    by_include :
        {q p : Text} {span : Span}
        → resolve_relative files cur q ≡ some p
        → Includes cur (line (Sudo.include q span)) p
    by_include_dir :
        {q dir p : Text} {span : Span} {entries : List Text}
        → resolve_relative files cur q ≡ some dir
        → files.read_dir dir ≡ some entries
        → Any (λ x. x ≡ p) (files.sort (safe_files files entries))
        → Includes cur (line (Sudo.include_dir q span)) p

  -- The first file, and those that lines of such files include, with their lines.
  pub data Reads (path : Text) (items : List Parsed) : Text → List Parsed → Type 0 where
    first : Reads path items path items
    included :
        {cur p : Text} {its its' : List Parsed} {item : Parsed}
        → Reads path items cur its
        → Any (λ x. x ≡ item) its
        → Includes cur item p
        → files.open_sudoers p ≡ opened its'
        → Reads path items p its'

  -- A line that the parser rejects with an error that is not fatal, and a relative include in a file
  -- whose path has no parent.
  pub data Panics (cur : Text) : Parsed → Type 0 where
    rejected : Panics cur reject
    no_parent :
        {q : Text} {span : Span}
        → files.is_relative q ≡ true
        → files.parent cur ≡ none
        → Panics cur (line (Sudo.include q span))
    no_parent_dir :
        {q : Text} {span : Span}
        → files.is_relative q ≡ true
        → files.parent cur ≡ none
        → Panics cur (line (Sudo.include_dir q span))

  -- A line to blame, of a file that is read.
  abbrev pub Culprit : Text → List Parsed → Type 0
  Culprit path items =
      (cur : Text) × (its : List Parsed) × (item : Parsed) × Reads path items cur its
      × Any (λ x. x ≡ item) its
      × Panics cur item

  pub resolve_relative-none :
      (cur q : Text)
      → resolve_relative files cur q ≡ none
      → (files.is_relative q ≡ true) × (files.parent cur ≡ none)
  unfolding resolve_relative
  resolve_relative-none cur q h = elim (Bool-cases (files.is_relative q)) [
    | inr e ↦ absurd (cc (rw (e, resolve_relative) at h))
    | inl e ↦ elim (Option-cases (files.parent cur)) [
      | inl n ↦ (e, n)
      | inr (x, n) ↦ absurd (cc (rw (e, n, resolve_relative) at h))
    ]
  ]
