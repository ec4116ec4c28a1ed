-- ===== src/Sudoers/Analyze/Tests.antt =====
-- The analysis of a file that includes itself.
use sudo_rs.Prelude.{false, none, some, List, [], ◌∷◌}
use sudo_rs.Prelude.{◌≡◌, ◌++◌, ◌⊎◌}
use sudo_rs.Prelude.Text.{codes}
use sudo_rs.Sudoers.Ast.{allow, only, ConfigScope, Sudo, defaults}
use sudo_rs.Sudoers.Rules.{Sudoers}
use sudo_rs.Sudoers.Analyze.{Files, Parsed, line, opened, Error, analyze}
use sudo_rs.Sudoers.Analyze.Ends.{AreAnswered}
use sudo_rs.Sudoers.Analyze.Culprits.{Culprit}
use sudo_rs.Sudoers.Analyze.Total.{analyze_total}
use sudo_rs.Sudoers.Samples.{alices_rule}

-- Every file includes itself, before a rule and a setting for one command.
abbrev lines : List Parsed
lines =
    line (Sudo.include (codes "/etc/sudoers") (record { start = (1, 1); end = (1, 9) }))
    ∷ line (Sudo.spec alices_rule)
    ∷ line (Sudo.decl (defaults [] (ConfigScope.command (allow (only (codes "/bin/ls")) ∷ []))))
    ∷ []

abbrev files : Files
files = record {
  open_sudoers = λ path. opened lines;
  read_dir = λ path. none;
  file_name = λ path. none;
  is_relative = λ path. false;
  parent = λ path. some (codes "/etc");
  join = λ base path. base ++ b'/' ∷ path;
  sort = λ paths. paths;
}

analyze_total_example :
    ((r : Sudoers × List Error) × (analyze files (codes "/etc/sudoers") lines ≡ some r)
      × AreAnswered r.0.customisers.non_cmnd)
    ⊎ ((analyze files (codes "/etc/sudoers") lines ≡ none)
        × Culprit files (codes "/etc/sudoers") lines)
analyze_total_example = analyze_total files (codes "/etc/sudoers") lines
