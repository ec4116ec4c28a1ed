-- ===== src/Sudoers/AliasOrder/Tests.antt =====
-- A sort of aliases of which two use each other.
use sudo_rs.Prelude.{List, [], ◌∷◌, ◌≡◌, refl}
use sudo_rs.Prelude.Lists.{All}
use sudo_rs.Prelude.Text.{Text, codes, text_eq}
use sudo_rs.Sudoers.Ast.{allow, alias, Def}
use sudo_rs.Sudoers.AliasOrder.{recursive_alias, sanitize_alias_table}
use sudo_rs.Sudoers.AliasOrder.Fuel.{IsGenuine, sanitize_alias_table-IsGenuine}

abbrev ping_pong : List (Def Text)
ping_pong =
    record { id = codes "PING"; members = allow (alias (codes "PONG")) ∷ [] }
    ∷ record { id = codes "PONG"; members = allow (alias (codes "PING")) ∷ [] }
    ∷ []

sanitize_ping_pong :
    sanitize_alias_table ping_pong ≡ (1 ∷ 0 ∷ [], recursive_alias (codes "PING") ∷ [])
unfolding sanitize_alias_table text_eq
sanitize_ping_pong = refl

sanitize_alias_table-IsGenuine_example : All IsGenuine (sanitize_alias_table ping_pong).1
sanitize_alias_table-IsGenuine_example = sanitize_alias_table-IsGenuine ping_pong
