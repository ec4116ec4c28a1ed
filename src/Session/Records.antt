-- ===== src/Session/Records.antt =====
-- src/system/timestamp.rs: what `touch`, `create` and `disable` do to the list of records that a
-- file holds.
use sudo_rs.Prelude.{ℕ, Bool, true, false, ◌&&◌, Option, none, some, List, [], ◌∷◌, ◌++◌, map}
use sudo_rs.Prelude.{◌≡◌, refl, ap, inl, inr}
use sudo_rs.Prelude.Tests.{if◌then◌else◌, Bool-cases}
use sudo_rs.Prelude.Lists.{All}
use sudo_rs.Session.Time.{SystemTime, Duration, checked_sub}
use sudo_rs.Session.Record.{RecordScope, SessionRecord, scope_eq, matches, written_between}
use sudo_rs.Session.Store.{Outcome, returned, panicked}
use sudo_rs.Session.Operations.{
  TouchResult, updated, outdated, not_found, CreateResult, refreshed, created,
}

-- The first record that is chosen, with those before and after it.
unfoldable pub divide :
    (SessionRecord → Bool)
    → List SessionRecord
    → Option (List SessionRecord × SessionRecord × List SessionRecord)
divide choose [] = none
divide choose (r ∷ rs) =
    let rest = divide choose rs in
    if choose r
    then some ([], r, rs)
    else elim rest [ none ↦ none | some (before, s, after) ↦ some (r ∷ before, s, after) ]

abbrev pub Rejected : (SessionRecord → Bool) → List SessionRecord → Type 0
Rejected choose rs = All (λ r. choose r ≡ false) rs

pub data Divide (choose : SessionRecord → Bool) (rs : List SessionRecord) : Type 0 where
  absent : divide choose rs ≡ none → Rejected choose rs → Divide choose rs
  present :
      (before : List SessionRecord) (r : SessionRecord) (after : List SessionRecord)
      → divide choose rs ≡ some (before, r, after)
      → rs ≡ before ++ (r ∷ after)
      → Rejected choose before
      → choose r ≡ true
      → Divide choose rs

pub Divide-cases : (choose : SessionRecord → Bool) (rs : List SessionRecord) → Divide choose rs
unfolding divide
Divide-cases choose [] = absent refl tt
Divide-cases choose (r ∷ rs) = elim (Bool-cases (choose r)) [
  | inl y ↦ present [] r rs (rw y refl) refl tt y
  | inr n ↦ elim (Divide-cases choose rs) [
    | absent e w ↦ absent (rw (n, e) refl) (n, w)
    | present b s a e p w c ↦ present (r ∷ b) s a (rw (n, e) refl) (ap (λ k. r ∷ k) p) (n, w) c
  ]
]

abbrev pub chosen_by_touch : RecordScope → ℕ → SessionRecord → Bool
chosen_by_touch scope auth_user r = r.enabled && matches r scope auth_user

abbrev pub with_time : SystemTime → SessionRecord → SessionRecord
with_time new_time r = record r { timestamp = new_time }

-- The record of the scope and the user that is enabled gets the new time if it is recent enough.
unfoldable pub touched :
    SystemTime
    → SystemTime
    → Duration
    → RecordScope
    → ℕ
    → List SessionRecord
    → List SessionRecord × Outcome TouchResult
touched now new_time timeout scope auth_user rs =
    elim (divide (chosen_by_touch scope auth_user) rs) [
      | none ↦ (rs, returned not_found)
      | some (before, r, after) ↦ elim (checked_sub now timeout) [
        | none ↦ (rs, panicked)
        | some early ↦
            if written_between r early now
            then (before ++ (with_time new_time r ∷ after), returned (updated r.timestamp new_time))
            else (rs, returned (outdated r.timestamp))
      ]
    ]

-- The record of the scope and the user gets the new time and is enabled, or a new one is added at
-- the end.
unfoldable pub created_in :
    SystemTime → RecordScope → ℕ → List SessionRecord → List SessionRecord × Outcome CreateResult
created_in new_time scope auth_user rs = elim (divide (λ r. matches r scope auth_user) rs) [
  | none ↦ (
    rs
        ++ (record { scope = scope; auth_user = auth_user; timestamp = new_time; enabled = true }
            ∷ []),
    returned (created new_time),
  )
  | some (before, r, after) ↦ (
    before ++ (record r { timestamp = new_time; enabled = true } ∷ after),
    returned (refreshed r.timestamp new_time),
  )
]

unfoldable pub disabled_one : RecordScope → SessionRecord → SessionRecord
disabled_one scope r = if scope_eq r.scope scope then record r { enabled = false } else r

abbrev pub disabled : RecordScope → List SessionRecord → List SessionRecord
disabled scope rs = map (disabled_one scope) rs
