-- ===== src/Sudoers/Permission/Order.antt =====
-- How the order of the rules matters to `check_permission` of src/sudoers/mod.rs.
use sudo_rs.Prelude.{Bool, Option, none, List, [], ◌∷◌, ◌++◌, append_assoc}
use sudo_rs.Prelude.{◌≡◌, refl, ap, sym, ◌∙◌, arith}
use sudo_rs.Prelude.Text.{Text}
use sudo_rs.Accounts.{User}
use sudo_rs.Sudoers.Ast.{Spec, Tag, Command, PermissionSpec}
use sudo_rs.Sudoers.FindItem.{FoundAliases, plain, tagged, then_some, find_item, find_from}
use sudo_rs.Sudoers.FindItem.Last.{LastSays, find_from-append, find_from-LastSays}
use sudo_rs.Sudoers.Aliases.{get_aliases}
use sudo_rs.Sudoers.Matchers.{World, match_user, match_group_alias, match_token, match_command}
use sudo_rs.Sudoers.Rules.{Sudoers, MatchedCommand, host_specs, user_specs, matching_user_specs}
use sudo_rs.Sudoers.Permission.{Request, cmdline, flatten, allowed_commands, check_permission}

flatten-append :
    {A : Type 0} (xs ys : List (List A)) → flatten (xs ++ ys) ≡ flatten xs ++ flatten ys
unfolding flatten
flatten-append [] ys = refl
flatten-append (x ∷ xs) ys =
    ap (λ k. x ++ k) (flatten-append xs ys) ∙ sym (append_assoc x (flatten xs) (flatten ys))

module _ (w : World) (am_user : User) where
  module _ (request : Request) (us gs : FoundAliases) where
    allowed_commands-append :
        (xs ys : List MatchedCommand)
        → allowed_commands w am_user request us gs (xs ++ ys)
          ≡ allowed_commands w am_user request us gs xs
            ++ allowed_commands w am_user request us gs ys
    unfolding allowed_commands
    allowed_commands-append [] ys = refl
    allowed_commands-append (x ∷ xs) ys = ground (arith, allowed_commands-append xs ys)

  module _ (on_host : Text) (us hs : FoundAliases) where
    user_specs-append :
        (xs ys : List PermissionSpec)
        → user_specs w am_user on_host us hs (xs ++ ys)
          ≡ user_specs w am_user on_host us hs xs ++ user_specs w am_user on_host us hs ys
    unfolding user_specs
    user_specs-append [] ys = refl
    user_specs-append (x ∷ xs) ys = ground (
      arith,
      user_specs-append xs ys,
      append_assoc (host_specs w am_user on_host hs x.permissions)
          (user_specs w am_user on_host us hs xs) (user_specs w am_user on_host us hs ys),
    )

  module _ (request : Request) (on_host : Text) (s : Sudoers) where
    -- The commands among which `find_item` looks, for a stretch of the rules.
    unfoldable pub candidates : List PermissionSpec → List (Tag × Spec Command)
    candidates rules =
        allowed_commands w am_user request (get_aliases (match_user w request.user) s.aliases.runas)
          (get_aliases (match_group_alias request.group) s.aliases.runas)
          (flatten (
            user_specs w am_user on_host (get_aliases (match_user w am_user) s.aliases.user)
              (get_aliases (match_token on_host) s.aliases.host) rules))

    candidates-append :
        (xs ys : List PermissionSpec) → candidates (xs ++ ys) ≡ candidates xs ++ candidates ys
    unfolding candidates
    candidates-append xs ys = rw (user_specs-append, flatten-append, allowed_commands-append)

    unfoldable pub cmnd_aliases : FoundAliases
    cmnd_aliases = get_aliases (match_command w (cmdline request)) s.aliases.cmnd

    find_candidates : Option Tag → List PermissionSpec → Option Tag
    find_candidates r rules =
        find_from tagged (match_command w (cmdline request)) cmnd_aliases r (candidates rules)

    check_permission-candidates :
        (rules : List PermissionSpec)
        → check_permission w am_user request (record s { rules = rules }) on_host
          ≡ find_candidates none rules
    unfolding check_permission matching_user_specs find_item find_candidates candidates cmnd_aliases
    check_permission-candidates rules = refl

    find_candidates-append :
        (xs ys : List PermissionSpec) (r : Option Tag)
        → find_candidates r (xs ++ ys) ≡ find_candidates (find_candidates r xs) ys
    unfolding find_candidates
    find_candidates-append xs ys r = rw candidates-append (
        find_from-append tagged (match_command w (cmdline request)) cmnd_aliases (candidates xs)
          (candidates ys) r)

    -- If the commands of the later rules say anything of the request, the last of them that does
    -- decides, whatever the rules before say: yes gives its tag, no refuses the request.
    pub check_permission-later :
        (earlier later : List PermissionSpec) (t : Tag) (b : Bool)
        → LastSays tagged (match_command w (cmdline request)) cmnd_aliases (candidates later) t b
        → check_permission w am_user request (record s { rules = earlier ++ later }) on_host
          ≡ then_some b t
    unfolding find_candidates
    check_permission-later earlier later t b h =
        check_permission-candidates (earlier ++ later)
        ∙ find_candidates-append earlier later none
        ∙ find_from-LastSays tagged (match_command w (cmdline request)) cmnd_aliases
            (find_candidates none earlier) h

    candidates_unlisted :
        (r : PermissionSpec)
        → find_item plain
            (match_user w am_user)
            (get_aliases (match_user w am_user) s.aliases.user)
            r.users
          ≡ none
        → candidates (r ∷ []) ≡ []
    unfolding candidates user_specs flatten allowed_commands
    candidates_unlisted r h = rw (h, user_specs)

    -- A rule whose user list does not admit the user changes nothing, wherever it stands.
    pub check_permission-unlisted :
        (xs : List PermissionSpec) (r : PermissionSpec) (ys : List PermissionSpec)
        → find_item plain
            (match_user w am_user)
            (get_aliases (match_user w am_user) s.aliases.user)
            r.users
          ≡ none
        → check_permission w am_user request (record s { rules = xs ++ r ∷ ys }) on_host
          ≡ check_permission w am_user request (record s { rules = xs ++ ys }) on_host
    unfolding find_candidates find_from
    check_permission-unlisted xs r ys h =
        check_permission-candidates (xs ++ r ∷ ys)
        ∙ find_candidates-append xs (r ∷ ys) none
        ∙ find_candidates-append (r ∷ []) ys (find_candidates none xs)
        ∙ ap (λ k. find_candidates k ys) (rw (candidates_unlisted r h, find_candidates) (refl))
        ∙ sym (find_candidates-append xs ys none)
        ∙ sym (check_permission-candidates (xs ++ ys))
