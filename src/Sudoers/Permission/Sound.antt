-- ===== src/Sudoers/Permission/Sound.antt =====
-- What stands behind a permission that `check_permission` of src/sudoers/mod.rs gives.
use sudo_rs.Prelude.{Bool, true, false, Option, none, some, List, [], ◌∷◌, ◌++◌}
use sudo_rs.Prelude.{◌≡◌, refl}
use mathlib.Core.Logic.{⊎_elim}
use sudo_rs.Prelude.Tests.{if◌then◌else◌}
use sudo_rs.Prelude.Lists.{Any, here, there, Any-append}
use sudo_rs.Prelude.Text.{Text}
use sudo_rs.Accounts.{User}
use sudo_rs.Sudoers.Ast.{Spec, Tag, Command, HostCommands, PermissionSpec}
use sudo_rs.Sudoers.FindItem.{WithInfo, FoundAliases, plain, tagged, find_item}
use sudo_rs.Sudoers.FindItem.Last.{Says, LastSays, last, later, find_item-some_iff}
use sudo_rs.Sudoers.Aliases.{get_aliases}
use sudo_rs.Sudoers.Matchers.{World, match_user, match_group_alias, match_token, match_command}
use sudo_rs.Sudoers.Rules.{
  Sudoers, MatchedCommand, distribute_tags, host_specs, user_specs, matching_user_specs,
}
use sudo_rs.Sudoers.Permission.{
  Request, cmdline, flatten, runas_admits, allowed_commands, check_permission,
}

LastSays→Any :
    {I A B : Type 0} (w : WithInfo I A B) (matches : A → Bool) (aliases : FoundAliases)
    {xs : List I} {i : B} {b : Bool}
    → LastSays w matches aliases xs i b
    → Any (λ x. Says matches aliases (w.as_inner x) b × (w.into_info x ≡ i)) xs
LastSays→Any w matches aliases (last s h e) = here (s, e)
LastSays→Any w matches aliases (later h) = there (LastSays→Any w matches aliases h)

Any-flatten {κ} :
    {A : Type 0} {P : A → Type κ} (xss : List (List A)) → Any P (flatten xss) → Any (Any P) xss
unfolding flatten
Any-flatten [] h = elim h [ ]
Any-flatten (xs ∷ xss) h = ⊎_elim here (λ r. there (Any-flatten xss r)) (Any-append xs h)

module _ (w : World) (am_user : User) (request : Request) where
  Any-allowed_commands {κ} :
      {P : Tag × Spec Command → Type κ} (us gs : FoundAliases) (ms : List MatchedCommand)
      → Any P (allowed_commands w am_user request us gs ms)
      → Any (λ m. (runas_admits w am_user request us gs m.0 ≡ true) × P m.1) ms
  unfolding allowed_commands
  Any-allowed_commands us gs [] h = elim h [ ]
  Any-allowed_commands {P} us gs ((r, c) ∷ ms) h =
      go (runas_admits w am_user request us gs r) refl h (Any-allowed_commands us gs ms)
    where
      go :
          (b : Bool)
          → runas_admits w am_user request us gs r ≡ b
          → Any P (
              if b
              then c ∷ allowed_commands w am_user request us gs ms
              else allowed_commands w am_user request us gs ms)
          → (Any P (allowed_commands w am_user request us gs ms)
              → Any (λ m. (runas_admits w am_user request us gs m.0 ≡ true) × P m.1) ms)
          → Any (λ m. (runas_admits w am_user request us gs m.0 ≡ true) × P m.1) ((r, c) ∷ ms)
      go true e (here p) ih = here (e, p)
      go true e (there k) ih = there (ih k)
      go false e k ih = there (ih k)

module _ (w : World) (am_user : User) (on_host : Text) where
  Any-host_specs {κ} :
      {P : List MatchedCommand → Type κ} (hs : FoundAliases) (ps : List HostCommands)
      → Any P (host_specs w am_user on_host hs ps)
      → Any (λ p. LastSays plain (match_token on_host) hs p.0 tt true × P (distribute_tags p.1)) ps
  unfolding host_specs
  Any-host_specs hs [] h = elim h [ ]
  Any-host_specs {P} hs ((hosts, cs) ∷ ps) h =
      go (find_item plain (match_token on_host) hs hosts) refl h (Any-host_specs hs ps)
    where
      go :
          (o : Option (Unit {0}))
          → find_item plain (match_token on_host) hs hosts ≡ o
          → Any P (elim o as (λ _. List (List MatchedCommand)) [
            | none ↦ host_specs w am_user on_host hs ps
            | some x ↦ distribute_tags cs ∷ host_specs w am_user on_host hs ps
          ])
          → (Any P (host_specs w am_user on_host hs ps)
              → Any
                  (λ p.
                    LastSays plain (match_token on_host) hs p.0 tt true × P (distribute_tags p.1))
                  ps)
          → Any
              (λ p. LastSays plain (match_token on_host) hs p.0 tt true × P (distribute_tags p.1))
              ((hosts, cs) ∷ ps)
      go none e k ih = there (ih k)
      go (some x) e (here p) ih =
          here ((find_item-some_iff plain (match_token on_host) hs hosts tt).0 e, p)
      go (some x) e (there k) ih = there (ih k)

  Any-user_specs {κ} :
      {P : List MatchedCommand → Type κ} (us hs : FoundAliases) (rules : List PermissionSpec)
      → Any P (user_specs w am_user on_host us hs rules)
      → Any
          (λ r.
            LastSays plain (match_user w am_user) us r.users tt true
            × Any
                (λ p. LastSays plain (match_token on_host) hs p.0 tt true × P (distribute_tags p.1))
                r.permissions)
          rules
  unfolding user_specs
  Any-user_specs us hs [] h = elim h [ ]
  Any-user_specs {P} us hs (r ∷ rules) h =
      go (find_item plain (match_user w am_user) us r.users) refl h (Any-user_specs us hs rules)
    where
      Goal : List PermissionSpec → Type κ
      Goal = Any (λ r.
          LastSays plain (match_user w am_user) us r.users tt true
          × Any (λ p. LastSays plain (match_token on_host) hs p.0 tt true × P (distribute_tags p.1))
              r.permissions)

      go :
          (o : Option (Unit {0}))
          → find_item plain (match_user w am_user) us r.users ≡ o
          → Any P (elim o as (λ _. List (List MatchedCommand)) [
            | none ↦ user_specs w am_user on_host us hs rules
            | some x ↦
                host_specs w am_user on_host hs r.permissions
                ++ user_specs w am_user on_host us hs rules
          ])
          → (Any P (user_specs w am_user on_host us hs rules) → Goal rules)
          → Goal (r ∷ rules)
      go none e k ih = there (ih k)
      go (some x) e k ih =
          ⊎_elim
            (λ l. here (
              (find_item-some_iff plain (match_user w am_user) us r.users tt).0 e,
              Any-host_specs hs r.permissions l,
            ))
            (λ l. there (ih l)) (Any-append (host_specs w am_user on_host hs r.permissions) k)

-- Some line of the policy names the user, some host list of it names the host, and some command
-- behind that list may be run as the requested user and group, says yes to the command line, and
-- has the tag `t`.
pub IsGranted : World → User → Request → Sudoers → Text → Tag → Type 0
IsGranted w am_user request s on_host t =
    Any
      (λ rule.
        LastSays plain (match_user w am_user) (get_aliases (match_user w am_user) s.aliases.user)
          rule.users tt true
        × Any
            (λ p.
              LastSays plain (match_token on_host)
                (get_aliases (match_token on_host) s.aliases.host) p.0 tt true
              × Any
                  (λ m.
                    (runas_admits w am_user request
                        (get_aliases (match_user w request.user) s.aliases.runas)
                        (get_aliases (match_group_alias request.group) s.aliases.runas) m.0
                      ≡ true)
                    × (Says (match_command w (cmdline request))
                          (get_aliases (match_command w (cmdline request)) s.aliases.cmnd) m.1.1
                          true
                        × (m.1.0 ≡ t)))
                  (distribute_tags p.1))
            rule.permissions)
      s.rules

-- `check_permission` gives a tag only if some rule of the policy grants the request with that tag:
-- a request that no rule names is refused.
pub check_permission-IsGranted :
    (w : World) (am_user : User) (request : Request) (s : Sudoers) (on_host : Text) (t : Tag)
    → check_permission w am_user request s on_host ≡ some t
    → IsGranted w am_user request s on_host t
unfolding check_permission matching_user_specs IsGranted
check_permission-IsGranted w am_user request s on_host t e =
    let cmnd = get_aliases (match_command w (cmdline request)) s.aliases.cmnd in
    let us = get_aliases (match_user w request.user) s.aliases.runas in
    let gs = get_aliases (match_group_alias request.group) s.aliases.runas in
    Any-user_specs w am_user on_host (get_aliases (match_user w am_user) s.aliases.user)
      (get_aliases (match_token on_host) s.aliases.host) s.rules
      (Any-flatten (matching_user_specs w am_user on_host s) (
        Any-allowed_commands w am_user request us gs
          (flatten (matching_user_specs w am_user on_host s))
          (LastSays→Any tagged (match_command w (cmdline request)) cmnd
            ((find_item-some_iff tagged (match_command w (cmdline request)) cmnd _ t).0 e))))
