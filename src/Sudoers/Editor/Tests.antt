-- ===== src/Sudoers/Editor/Tests.antt =====
-- The choice of an editor by a user who asks for one that is not among the blessed ones.
use sudo_rs.Prelude.{true, false, some, [], ◌∷◌, ◌≡◌, refl, ◌⊎◌}
use sudo_rs.Prelude.Text.{codes, text_eq, text_eq_refl}
use sudo_rs.Defaults.{Settings, default_settings}
use sudo_rs.Sudoers.Editor.{System, is_valid_executable, select_editor}
use sudo_rs.Sudoers.Editor.Chosen.{IsBlessed, select_editor-IsBlessed}

-- Every file is an executable, and each variable is `/tmp/evil -x`.
abbrev sys : System
sys = record {
  var = λ key. some (codes "/tmp/evil -x");
  is_file = λ path. true;
  mode = λ path. some 0o755;
  is_absolute = λ path. false;
  join = λ dir path. path;
  path_eq = text_eq;
}

abbrev nano_only : Settings
nano_only = record default_settings { editor = codes "/usr/bin/nano" }

select_nano : select_editor sys nano_only false ≡ some (codes "/usr/bin/nano", [])
unfolding select_editor text_eq
select_nano = refl

select_evil : select_editor sys nano_only true ≡ some (codes "/tmp/evil", codes "-x" ∷ [])
unfolding select_editor
select_evil = refl

select_editor-IsBlessed_example :
    (is_valid_executable sys (codes "/usr/bin/nano") ≡ true)
    × ((false ≡ true) ⊎ IsBlessed sys nano_only (codes "/usr/bin/nano"))
select_editor-IsBlessed_example =
    select_editor-IsBlessed sys text_eq_refl nano_only false (codes "/usr/bin/nano") [] select_nano
