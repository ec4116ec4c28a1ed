-- ===== src/Sudoers/Tests.antt =====
-- Runs of the policy on the sample sudoers file, and instances of the theorems about it.
use sudo_rs.Prelude.{
  ℕ, ◌+◌, ◌*◌, ◌-◌, ◌^◌, Option, inl, inr, Bool, true, false, not, ◌&&◌, none, some, [], ◌∷◌,
}
use sudo_rs.Prelude.{◌≡◌, refl, ◌↔◌, ◌⊎◌, arith}
use sudo_rs.Prelude.Tests.{if◌then◌else◌, leb, ltb}
use sudo_rs.Prelude.Lists.{get_elem?, All, any, all as every}
use sudo_rs.Prelude.Text.{Text, text_eq, codes, lookup, insert}
use sudo_rs.Accounts.{user_eq, ids_eq, is_root}
use sudo_rs.Defaults.{default_settings, octal_mode}
use sudo_rs.Sudoers.Ast.{
  allow, forbid, all, only, SpecList, Tag, default_tag, needs_passwd, Command,
}
use sudo_rs.Sudoers.FindItem.{plain, tagged, then_some, find_item, find_from, judge_item, judge}
use sudo_rs.Sudoers.FindItem.Last.{LastSays, last, later, positive, direct, find_item-some_iff}
use sudo_rs.Sudoers.Aliases.{iter, pick, add_alias, get_aliases, get_aliases_from}
use sudo_rs.Sudoers.Aliases.Meaning.{IsOrdered, reference, get_aliases-LastSays}
use sudo_rs.Sudoers.AliasOrder.{sanitize_alias_table}
use sudo_rs.Sudoers.AliasOrder.Built.{Built, Covers, sanitize_alias_table-Built}
use sudo_rs.Sudoers.Matchers.{
  match_user, match_command, match_identifier, match_token, match_group, match_group_alias,
  match_args, args_eq, args_start_with,
}
use sudo_rs.Sudoers.Rules.{
  this_tag, apply_modifiers, distribute_tags, distribute_from, host_specs, user_specs,
  matching_user_specs,
}
use sudo_rs.Sudoers.Rules.Distribution.{Tagged, last_runas, all_modifiers, distribute_tags_elem}
use sudo_rs.Sudoers.Permission.{cmdline, check_permission, allowed_commands, flatten, runas_admits}
use sudo_rs.Sudoers.Permission.Sound.{IsGranted, check_permission-IsGranted}
use sudo_rs.Sudoers.Permission.Order.{
  candidates, cmnd_aliases, check_permission-later, check_permission-unlisted,
}
use sudo_rs.Sudoers.Policy.{
  Authentication, allowed, forbidden, Restrictions, Judgement, to_auth, restrictions, authorization,
  to_umask, dir_change,
}
use sudo_rs.Sudoers.Policy.Fields.{Authenticates, Restricts}
use sudo_rs.Sudoers.Policy.Terms.{Fits, authorization_total}
use sudo_rs.Sudoers.Check.{
  check, check_list_permission, check_validate_permission, matching_tags, specify_host_user_runas,
  authorize, skip_passwd_if, max_by_key, max_by_key_from, specify_command, customise,
}
use sudo_rs.Sudoers.Check.Judgements.{check_twice}
use sudo_rs.Sudoers.Check.Listing.{must_authenticate-validate}
use sudo_rs.Sudoers.Samples.{
  alice, world, ls, sh, run_ls, nopasswd_list, shells, alices_rule, bobs_rule, cmnd, policy,
  on_host, ls_tag, terms, limits, list_own,
}

-- Runs for `alice`, who may run `/bin/ls` as `bob` without a password, and `/bin/sh` with one.
runs_of_alice :
    (check_permission world alice run_ls policy on_host ≡ some ls_tag)
    × (find_item tagged
          (match_command world (cmdline run_ls))
          (cmnd_aliases world alice run_ls on_host policy)
          (candidates world alice run_ls on_host policy (alices_rule ∷ []))
        ≡ some ls_tag)
    × (authorization (check world alice on_host run_ls policy).1
        ≡ some (allowed (terms false) limits))
    × ((check_list_permission world alice on_host list_own policy).1
        ≡ some (allowed (terms false) tt))
    × ((check_validate_permission world alice on_host policy).1 ≡ some (allowed (terms true) tt))
    × (user_eq alice alice ≡ true)
    × (find_item plain
          (match_user world alice)
          (get_aliases (match_user world alice) policy.aliases.user)
          bobs_rule.users
        ≡ none)
unfolding check_permission find_item find_from allowed_commands flatten matching_user_specs
    judge_item match_user text_eq distribute_tags runas_admits user_eq match_command lookup
    get_aliases get_aliases_from pick add_alias ids_eq insert judge args_eq args_start_with
    match_args match_group match_group_alias cmnd_aliases match_identifier match_token
    apply_modifiers distribute_from host_specs this_tag user_specs candidates check
    check_list_permission check_validate_permission authorize skip_passwd_if max_by_key
    max_by_key_from specify_command specify_host_user_runas customise authorization to_auth
    restrictions to_umask dir_change needs_passwd
runs_of_alice = (refl, refl, refl, refl, refl, refl, refl)

check_permission-IsGranted_example : IsGranted world alice run_ls policy on_host ls_tag
check_permission-IsGranted_example =
    check_permission-IsGranted world alice run_ls policy on_host ls_tag runs_of_alice.0

ls_matches : match_command world (codes "/bin/ls", []) ls ≡ true
unfolding match_command text_eq
ls_matches = refl

abbrev allow_ls : SpecList Command
allow_ls = forbid all ∷ allow (only ls) ∷ []

ls_LastSays : LastSays plain (match_command world (codes "/bin/ls", [])) [] allow_ls tt true
ls_LastSays = later (last (positive (direct ls_matches)) tt refl)

find_item-some_iff_example :
    (find_item plain (match_command world (codes "/bin/ls", [])) [] allow_ls ≡ some tt)
    ↔ LastSays plain (match_command world (codes "/bin/ls", [])) [] allow_ls tt true
find_item-some_iff_example =
    find_item-some_iff plain (match_command world (codes "/bin/ls", [])) [] allow_ls tt

cmnd-IsOrdered : IsOrdered (iter cmnd)
unfolding pick text_eq reference
cmnd-IsOrdered =
    ((λ e. cc, tt), ((λ e. cc, tt), tt), (refl, tt), ((λ e. cc, (λ e. cc, tt)), tt, tt, tt))

get_aliases-LastSays_example :
    All
      (λ d.
        (b : Bool)
        → (lookup d.id (get_aliases (match_command world (codes "/bin/ls", [])) cmnd) ≡ some b)
          ↔ LastSays plain
              (match_command world (codes "/bin/ls", []))
              (get_aliases (match_command world (codes "/bin/ls", [])) cmnd)
              d.members
              tt
              b)
      (iter cmnd)
get_aliases-LastSays_example =
    get_aliases-LastSays (match_command world (codes "/bin/ls", [])) cmnd cmnd-IsOrdered

distribute_tags_elem_example :
    (t : Tag) × (get_elem? (distribute_tags (nopasswd_list ∷ shells ∷ [])) 1
      ≡ some (last_runas (nopasswd_list ∷ shells ∷ []) none, (t, allow (only sh))))
    × Tagged
        (allow (only sh))
        (apply_modifiers (all_modifiers (nopasswd_list ∷ shells ∷ [])) default_tag)
        t
distribute_tags_elem_example = distribute_tags_elem (nopasswd_list ∷ []) shells []

check_permission-later_example :
    check_permission world alice run_ls
      (record policy { rules = bobs_rule ∷ alices_rule ∷ [] })
      on_host
    ≡ then_some true ls_tag
check_permission-later_example =
    check_permission-later world alice run_ls on_host policy (bobs_rule ∷ []) (alices_rule ∷ [])
      ls_tag true
      ((find_item-some_iff tagged (match_command world (cmdline run_ls))
          (cmnd_aliases world alice run_ls on_host policy)
          (candidates world alice run_ls on_host policy (alices_rule ∷ [])) ls_tag).0
        runs_of_alice.1)

check_permission-unlisted_example :
    check_permission world alice run_ls
      (record policy { rules = bobs_rule ∷ alices_rule ∷ [] })
      on_host
    ≡ check_permission world alice run_ls (record policy { rules = alices_rule ∷ [] }) on_host
check_permission-unlisted_example =
    check_permission-unlisted world alice run_ls on_host policy [] bobs_rule (alices_rule ∷ [])
      runs_of_alice.6

abbrev judgement : Judgement
judgement = record { flags = some ls_tag; settings = record default_settings { umask = 0o027 } }

-- A parser of unsigned integers.
abbrev value : ℕ → ℕ → Text → ℕ
value radix n [] = n
value radix n (c ∷ text) = value radix (n * radix + (c - 48)) text

abbrev from_str_radix : ℕ → ℕ → Text → Option ℕ
from_str_radix bits radix text =
    if every (λ c. leb 48 c && ltb c (48 + radix)) text && ltb (value radix 0 text) (2 ^ bits)
    then some (value radix 0 text)
    else none

from_str_radix-Fits : Fits from_str_radix
from_str_radix-Fits bits radix text n e = ground (arith, e)

octal_mode_0027 : octal_mode from_str_radix (codes "0027") ≡ some 0o027
unfolding octal_mode
octal_mode_0027 = refl

authorization_total_example :
    ((judgement.flags ≡ none) × (authorization judgement ≡ some forbidden))
    ⊎ ((t : Tag) × (a : Authentication) × (r : Restrictions) × (judgement.flags ≡ some t)
        × (authorization judgement ≡ some (allowed a r))
        × Authenticates judgement.settings t a
        × Restricts judgement.settings t r)
authorization_total_example =
    authorization_total from_str_radix from_str_radix-Fits judgement
      (record { tries = inl refl; mode = inr (inr (codes "0027", octal_mode_0027)) })

check_twice_example :
    check world alice on_host run_ls (check world alice on_host run_ls policy).0
    ≡ check world alice on_host run_ls policy
check_twice_example = check_twice world alice on_host run_ls policy

must_authenticate-validate_example : true ≡ (
    not (is_root alice)
    && any needs_passwd (
        matching_tags world alice on_host
          (specify_host_user_runas world on_host alice none policy)))
must_authenticate-validate_example =
    must_authenticate-validate world alice on_host policy (terms true) runs_of_alice.4

sanitize_tools : sanitize_alias_table cmnd.items ≡ (1 ∷ 0 ∷ [], [])
unfolding sanitize_alias_table text_eq
sanitize_tools = refl

sanitize_alias_table-Built_example :
    Built cmnd.items (1 ∷ 0 ∷ []) × Covers cmnd.items (1 ∷ 0 ∷ []) 0 cmnd.items
sanitize_alias_table-Built_example =
    sanitize_alias_table-Built cmnd.items (1 ∷ 0 ∷ []) sanitize_tools
