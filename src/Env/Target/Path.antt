-- ===== src/Env/Target/Path.antt =====
-- src/sudo/env/environment.rs: what the final environment holds whatever the user asks for.
use sudo_rs.Prelude.{Option, List, [], ◌∷◌}
use sudo_rs.Prelude.Tests.{if◌then◌else◌}
use sudo_rs.Prelude.Text.{Text}
use sudo_rs.Sudoers.Policy.{Restrictions}
use sudo_rs.Env.Keep.{should_keep}

module _ (zoneinfo : Option Text) (cfg : Restrictions) where
  -- The keys of the overrides that `should_keep` rejects, in the order in which they are given.
  pub rejected_keys : List (Text × Text) → List Text
  rejected_keys [] = []
  rejected_keys ((k, v) ∷ kvs) =
      if should_keep zoneinfo cfg k v then rejected_keys kvs else k ∷ rejected_keys kvs
