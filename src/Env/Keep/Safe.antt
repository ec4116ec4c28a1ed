-- ===== src/Env/Keep/Safe.antt =====
-- src/sudo/env/environment.rs: what is known of a variable that `should_keep` lets through.
use sudo_rs.Prelude.{ℕ, true, false, not, ◌&&◌, ◌||◌, Option, [], ◌∷◌, ◌++◌, arith, ◌<◌}
use sudo_rs.Prelude.{◌≡◌, ◌≢◌, refl, ap, sym, ◌∙◌, ◌⊎◌, inl, inr}
use sudo_rs.Prelude.Tests.{◌==◌, Bool-cases}
use sudo_rs.Prelude.Lists.{length, take, any, length-append}
use sudo_rs.Prelude.Text.{Text, codes, text_eq, text_eq_iff, text_eq_refl, starts_with}
use mathlib.Core.Bool.{false≢true}
use sudo_rs.Sudoers.FindItem.{is_some}
use sudo_rs.Sudoers.Policy.{Restrictions}
use sudo_rs.Env.Keep.Listed.{Listed, in_table_iff}
use sudo_rs.Env.Keep.{
  windows, contains_subsequence, is_printable, path_max, colon_less, in_zoneinfo, is_safe_tz,
  in_table, should_keep,
}

-- What is asked of a variable, by its kind: the time zone, one of `env_check`, or any other.
pub data IsSafe (zoneinfo : Option Text) (cfg : Restrictions) (key value : Text) : Type 0 where
  time_zone :
      key ≡ codes "TZ"
      → Listed key value cfg.env_keep
        ⊎ (Listed key value cfg.env_check × (is_safe_tz zoneinfo value ≡ true))
      → IsSafe zoneinfo cfg key value
  checked :
      key ≢ codes "TZ"
      → Listed key value cfg.env_check
      → any (λ c. c == b'%' || c == b'/') value ≡ false
      → IsSafe zoneinfo cfg key value
  listed :
      key ≢ codes "TZ"
      → ¬ Listed key value cfg.env_check
      → Listed key value cfg.env_keep
      → IsSafe zoneinfo cfg key value

-- A variable that is kept has no function definition as its value, is not PATH under a secure
-- path, and is listed: for TZ in `env_keep`, or in `env_check` with a safe value; for another of
-- `env_check` with neither % nor / in its value; for the rest in `env_keep`. It is listed in a table
-- by a pattern for its name, or by one with an equals sign for its name and its value.
pub should_keep-IsSafe :
    (zoneinfo : Option Text) (cfg : Restrictions) (key value : Text)
    → should_keep zoneinfo cfg key value ≡ true
    → (starts_with value (codes "()") ≡ false)
      × ((is_some cfg.path && text_eq key (codes "PATH")) ≡ false)
      × IsSafe zoneinfo cfg key value
unfolding should_keep
should_keep-IsSafe zoneinfo cfg key value h = (
  ground arith,
  ground arith,
  elim (Bool-cases (text_eq key (codes "TZ"))) [
    | inl e ↦
        time_zone ((text_eq_iff key (codes "TZ")).0 e)
          (elim (Bool-cases (in_table key value cfg.env_keep)) [
            | inl k ↦ inl ((in_table_iff key value cfg.env_keep).0 k)
            | inr k ↦ inr ((in_table_iff key value cfg.env_check).0 (ground arith), ground arith)
          ])
    | inr e ↦
        let other : key ≢ codes "TZ" = λ q. cc ((text_eq_iff key (codes "TZ")).1 q) in
        elim (Bool-cases (in_table key value cfg.env_check)) [
          | inl e₂ ↦ checked other ((in_table_iff key value cfg.env_check).0 e₂) (ground arith)
          | inr e₂ ↦
              listed other (λ l. cc ((in_table_iff key value cfg.env_check).1 l))
                ((in_table_iff key value cfg.env_keep).0 (ground arith))
        ]
  ],
)

take-append_self : (xs ys : Text) → take (length xs) (xs ++ ys) ≡ xs
take-append_self [] ys = refl
take-append_self (x ∷ xs) ys = ap (λ k. x ∷ k) (take-append_self xs ys)

-- The windows of a text find every place at which the needle stands.
windows_complete :
    (before : Text) (y : ℕ) (ys after : Text)
    → any
        (λ window. text_eq window (y ∷ ys))
        (windows (length (y ∷ ys)) (before ++ ((y ∷ ys) ++ after)))
      ≡ true
unfolding windows
windows_complete [] y ys after = ground (
  arith,
  length-append ys after,
  take-append_self ys after,
  text_eq_iff (y ∷ ys) (y ∷ ys),
  text_eq_refl (y ∷ ys),
)
windows_complete (b ∷ bs) y ys after = ground (
  arith,
  length-append bs ((y ∷ ys) ++ after),
  length-append ys after,
  windows_complete bs y ys after,
)

no_dots :
    {text : Text} (before after : Text)
    → contains_subsequence text (codes "..") ≡ false
    → text ≢ before ++ (codes ".." ++ after)
unfolding contains_subsequence
no_dots before after h e =
    let found = windows_complete before b'.' (codes ".") after in false≢true (sym h ∙ (rw e found))

-- A time zone from `env_check` that is kept has, behind an optional colon, no two dots in a row
-- anywhere, printable characters only and fewer than PATH_MAX of them, and is no absolute path
-- outside of the directory of the zone files.
pub is_safe_tz-bounds :
    (zoneinfo : Option Text) (value : Text)
    → is_safe_tz zoneinfo value ≡ true
    → ((before after : Text) → colon_less value ≢ before ++ (codes ".." ++ after))
      × (is_printable (colon_less value) ≡ true)
      × (length (colon_less value) < path_max)
      × ((starts_with (colon_less value) (codes "/")
            && not (in_zoneinfo zoneinfo (colon_less value)))
          ≡ false)
unfolding is_safe_tz
is_safe_tz-bounds zoneinfo value h =
    (λ before after. no_dots before after (ground arith), ground arith, ground arith, ground arith)
