-- ===== src/Env/Keep.antt =====
-- src/sudo/env/environment.rs: which variables of the invoking user are kept.
pub mod Listed
pub mod Safe
use sudo_rs.Prelude.{
  ℕ, suc, Bool, true, false, not, ◌&&◌, ◌||◌, Option, none, some, List, [], ◌∷◌, ◌<◌,
}
use sudo_rs.Prelude.Tests.{if◌then◌else◌, ◌==◌, leb, ltb}
use sudo_rs.Prelude.Lists.{length, get_elem?, take, drop, any, all}
use sudo_rs.Prelude.Text.{Text, codes, text_eq, starts_with}
use sudo_rs.Env.Wildcard.{wildcard_match}
use sudo_rs.Sudoers.FindItem.{is_some}
use sudo_rs.Sudoers.Policy.{Restrictions}

-- `[u8]::windows`, for a window of at least one byte
unfoldable pub windows : ℕ → Text → List Text
windows n [] = []
windows n (x ∷ xs) =
    let rest = windows n xs in if leb n (length (x ∷ xs)) then take n (x ∷ xs) ∷ rest else []

unfoldable pub contains_subsequence : Text → Text → Bool
unfolding windows
contains_subsequence haystack needle =
    any (λ window. text_eq window needle) (windows (length needle) haystack)

abbrev pub within : ℕ → ℕ → ℕ → Bool
within lo hi c = leb lo c && leb c hi

unfoldable pub is_ascii_alphanumeric : ℕ → Bool
is_ascii_alphanumeric c = within b'0' b'9' c || within b'A' b'Z' c || within b'a' b'z' c

unfoldable pub is_ascii_punctuation : ℕ → Bool
is_ascii_punctuation c = within 33 47 c || within 58 64 c || within 91 96 c || within 123 126 c

unfoldable pub is_printable : Text → Bool
unfolding is_ascii_alphanumeric is_ascii_punctuation
is_printable input = all (λ c. is_ascii_alphanumeric c || is_ascii_punctuation c) input

-- `libc::PATH_MAX` on Linux
abbrev pub path_max : ℕ
path_max = 4096

abbrev pub colon_less : Text → Text
colon_less value = if starts_with value (codes ":") then drop 1 value else value

-- The check of a fully qualified path against the directory that `zoneinfo_path()` returns.
unfoldable pub in_zoneinfo : Option Text → Text → Bool
in_zoneinfo none value = false
in_zoneinfo (some dir) value =
    starts_with value dir
    && (elim (get_elem? value (length dir)) [ none ↦ false | some c ↦ c == b'/' ])

unfoldable pub is_safe_tz : Option Text → Text → Bool
unfolding in_zoneinfo contains_subsequence is_printable
is_safe_tz zoneinfo value =
    let check_value = colon_less value in
    (if starts_with check_value (codes "/") then in_zoneinfo zoneinfo check_value else true)
    && not (contains_subsequence check_value (codes ".."))
    && is_printable check_value
    && ltb (length check_value) path_max

-- `str::split_once`
unfoldable pub split_once : ℕ → Text → Option (Text × Text)
split_once sep [] = none
split_once sep (c ∷ s) =
    let later : Option (Text × Text) = elim (split_once sep s) [
      | none ↦ none
      | some (a, b) ↦ some (c ∷ a, b)
    ] in
    if c == sep then some ([], s) else later

unfoldable pub matches_pattern : Text → Text → Text → Bool
unfolding split_once
matches_pattern key value pattern = elim (split_once b'=' pattern) [
  | some (k, v) ↦ wildcard_match key k && wildcard_match value v
  | none ↦ wildcard_match key pattern
]

unfoldable pub in_table : Text → Text → List Text → Bool
unfolding matches_pattern
in_table key value haystack = any (matches_pattern key value) haystack

-- `zoneinfo` is the answer of `zoneinfo_path()`, which asks the file system.
unfoldable pub should_keep : Option Text → Restrictions → Text → Text → Bool
unfolding is_safe_tz
should_keep zoneinfo cfg key value =
    if starts_with value (codes "()")
    then false
    else if is_some cfg.path && text_eq key (codes "PATH")
    then false
    else if text_eq key (codes "TZ")
    then in_table key value cfg.env_keep
      || (in_table key value cfg.env_check && is_safe_tz zoneinfo value)
    else if in_table key value cfg.env_check
    then not (any (λ c. c == b'%' || c == b'/') value)
    else in_table key value cfg.env_keep
