-- ===== src/Sudoers/Rules/Distribution.antt =====
-- How `distribute_tags` of src/sudoers/mod.rs spreads runas specifications and tags over a line.
use sudo_rs.Prelude.{Option, none, some, List, [], ◌∷◌, ◌++◌, append-nil, ◌≡◌, refl}
use sudo_rs.Prelude.Lists.{length, get_elem?}
use sudo_rs.Sudoers.Ast.{
  Spec, allow, forbid, all, only, alias, Command, EnvironmentControl, Tag, default_tag, Modifier,
  RunAs, RunAsCommand,
}
use sudo_rs.Sudoers.Rules.{apply_modifiers, this_tag, distribute_from, distribute_tags}

-- The last runas specification that is written in a stretch of the line, or the one before it.
pub last_runas : List RunAsCommand → Option RunAs → Option RunAs
last_runas [] r = r
last_runas ((some r, c) ∷ cs) r' = last_runas cs (some r)
last_runas ((none, c) ∷ cs) r' = last_runas cs r'

-- All the modifiers of a stretch of the line, in the order in which they are written.
pub all_modifiers : List RunAsCommand → List Modifier
all_modifiers [] = []
all_modifiers ((r, c) ∷ cs) = c.modifiers ++ all_modifiers cs

apply_modifiers-append :
    (fs gs : List Modifier) (t : Tag)
    → apply_modifiers (fs ++ gs) t ≡ apply_modifiers gs (apply_modifiers fs t)
unfolding apply_modifiers
apply_modifiers-append [] gs t = refl
apply_modifiers-append (f ∷ fs) gs t = apply_modifiers-append fs gs (f t)

distribute_from_elem :
    (xs : List RunAsCommand) (x : RunAsCommand) (ys : List RunAsCommand) (r : Option RunAs)
    (t : Tag)
    → get_elem? (distribute_from r t (xs ++ x ∷ ys)) (length xs)
      ≡ some (
        last_runas (xs ++ x ∷ []) r,
        (this_tag x.1.command (apply_modifiers (all_modifiers (xs ++ x ∷ [])) t), x.1.command),
      )
unfolding distribute_from last_runas all_modifiers
distribute_from_elem [] (none, c) ys r t = rw append-nil
distribute_from_elem [] (some q, c) ys r t = rw append-nil
distribute_from_elem ((none, d) ∷ xs) x ys r t =
    rw apply_modifiers-append (distribute_from_elem xs x ys r (apply_modifiers d.modifiers t))
distribute_from_elem ((some q, d) ∷ xs) x ys r t =
    rw apply_modifiers-append
      (distribute_from_elem xs x ys (some q) (apply_modifiers d.modifiers t))

-- The tag of a command, from the one that the line has so far: only an allowed ALL changes it, to
-- SETENV unless it is NOSETENV.
pub data Tagged : Spec Command → Tag → Tag → Type 0 where
  setenv_of_all :
      {t : Tag}
      → ¬ (t.env ≡ EnvironmentControl.nosetenv)
      → Tagged (allow all) t (record t { env = EnvironmentControl.setenv })
  nosetenv_kept : {t : Tag} → t.env ≡ EnvironmentControl.nosetenv → Tagged (allow all) t t
  unchanged : {c : Spec Command} {t : Tag} → ¬ (c ≡ allow all) → Tagged c t t

all_tag :
    (t : Tag) (k : EnvironmentControl)
    → t.env ≡ k
    → Tagged (allow all) t (elim k as (λ _. Tag) [
      | EnvironmentControl.nosetenv ↦ t
      | _ ↦ record t { env = EnvironmentControl.setenv }
    ])
all_tag t EnvironmentControl.implicit e = setenv_of_all (λ q. cc)
all_tag t EnvironmentControl.setenv e = setenv_of_all (λ q. cc)
all_tag t EnvironmentControl.nosetenv e = nosetenv_kept e

this_tag-Tagged : (c : Spec Command) (t : Tag) → Tagged c t (this_tag c t)
unfolding this_tag
this_tag-Tagged (allow all) t = all_tag t t.env refl
this_tag-Tagged (allow (only c)) t = unchanged (λ q. cc)
this_tag-Tagged (allow (alias a)) t = unchanged (λ q. cc)
this_tag-Tagged (forbid m) t = unchanged (λ q. cc)

-- On a line `xs, x, ys` the command `x` gets the last runas specification written up to and with
-- it, if there is one, and the tag that all the modifiers written up to and with it make of the
-- default one; nothing written after `x` counts. Only an allowed ALL adds to this, its own SETENV,
-- and only if that tag is not NOSETENV.
pub distribute_tags_elem :
    (xs : List RunAsCommand) (x : RunAsCommand) (ys : List RunAsCommand)
    → (t : Tag) × (get_elem? (distribute_tags (xs ++ x ∷ ys)) (length xs)
        ≡ some (last_runas (xs ++ x ∷ []) none, (t, x.1.command)))
      × Tagged x.1.command (apply_modifiers (all_modifiers (xs ++ x ∷ [])) default_tag) t
unfolding distribute_tags
distribute_tags_elem xs x ys = (
  _,
  distribute_from_elem xs x ys none default_tag,
  this_tag-Tagged x.1.command (apply_modifiers (all_modifiers (xs ++ x ∷ [])) default_tag),
)
