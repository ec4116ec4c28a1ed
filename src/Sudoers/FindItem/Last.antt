-- ===== src/Sudoers/FindItem/Last.antt =====
-- `find_item` of src/sudoers/mod.rs against its meaning, in terms of what single items say.
use sudo_rs.Prelude.{Bool, true, false, not, Option, none, some, List, [], ◌∷◌, ◌++◌, arith}
use sudo_rs.Prelude.{◌≡◌, refl, ap, ◌∙◌, ◌↔◌, ◌⊎◌, inl, inr}
use mathlib.Core.Path.{subst}
use mathlib.Core.Logic.{⊎_elim}
use sudo_rs.Prelude.Tests.{if◌then◌else◌, Option-cases}
use sudo_rs.Prelude.Lists.{All}
use sudo_rs.Prelude.Text.{Text, lookup}
use sudo_rs.Sudoers.Ast.{allow, forbid, Meta, all, only, alias, Spec}
use sudo_rs.Sudoers.FindItem.{FoundAliases, WithInfo, then_some, judge_item, find_from, find_item}

-- What one entry of a list says of an object: nothing, or that it is in or out.
module _ {A : Type 0} (matches : A → Bool) (aliases : FoundAliases) where
  pub data SaysMeta : Meta A → Bool → Type 0 where
    everything : SaysMeta all true
    direct : {x : A} → matches x ≡ true → SaysMeta (only x) true
    through : {name : Text} {b : Bool} → lookup name aliases ≡ some b → SaysMeta (alias name) b

  pub data Says : Spec A → Bool → Type 0 where
    positive : {m : Meta A} {b : Bool} → SaysMeta m b → Says (allow m) b
    negative : {m : Meta A} {b c : Bool} → SaysMeta m b → c ≡ not b → Says (forbid m) c

  abbrev pub IsSilent : Spec A → Type 0
  IsSilent s = (b : Bool) → ¬ Says s b

-- The last item of the list that says anything says `b`, and has the satellite data `i`.
module _ {I A B : Type 0} (w : WithInfo I A B) (matches : A → Bool) (aliases : FoundAliases) where
  pub data LastSays : List I → B → Bool → Type 0 where
    last :
        {x : I} {xs : List I} {i : B} {b : Bool}
        → Says matches aliases (w.as_inner x) b
        → All (λ y. IsSilent matches aliases (w.as_inner y)) xs
        → w.into_info x ≡ i
        → LastSays (x ∷ xs) i b
    later : {x : I} {xs : List I} {i : B} {b : Bool} → LastSays xs i b → LastSays (x ∷ xs) i b

  abbrev pub NoneSays : List I → Type 0
  NoneSays = All (λ y. IsSilent matches aliases (w.as_inner y))

-- What an entry says, computed.
module _ {A : Type 0} (matches : A → Bool) (aliases : FoundAliases) where
  meta_opinion : Meta A → Option Bool
  meta_opinion all = some true
  meta_opinion (only x) = if matches x then some true else none
  meta_opinion (alias name) = lookup name aliases

  opinion : Spec A → Option Bool
  unfolding meta_opinion
  opinion (allow m) = meta_opinion m
  opinion (forbid m) = elim (meta_opinion m) [ none ↦ none | some b ↦ some (not b) ]

  SaysMeta→opinion :
      {m : Meta A} {b : Bool} → SaysMeta matches aliases m b → meta_opinion m ≡ some b
  unfolding meta_opinion
  SaysMeta→opinion everything = refl
  SaysMeta→opinion (direct h) = rw h
  SaysMeta→opinion (through h) = h

  opinion→SaysMeta :
      (m : Meta A) (b : Bool) → meta_opinion m ≡ some b → SaysMeta matches aliases m b
  unfolding meta_opinion
  opinion→SaysMeta all true h = everything
  opinion→SaysMeta all false h = cc
  opinion→SaysMeta (only x) true h = direct (ground arith)
  opinion→SaysMeta (only x) false h = absurd (ground arith)
  opinion→SaysMeta (alias n) b h = through h

  Says→opinion : {s : Spec A} {b : Bool} → Says matches aliases s b → opinion s ≡ some b
  unfolding opinion
  Says→opinion (positive h) = SaysMeta→opinion h
  Says→opinion (negative h e) = ground (arith, SaysMeta→opinion h)

  opinion→Says : (s : Spec A) (b : Bool) → opinion s ≡ some b → Says matches aliases s b
  unfolding opinion
  opinion→Says (allow m) b h = positive (opinion→SaysMeta m b h)
  opinion→Says (forbid m) b h = go (meta_opinion m) refl h
    where
      go :
          (o : Option Bool)
          → meta_opinion m ≡ o
          → (elim o as (λ _. Option Bool) [ none ↦ none | some c ↦ some (not c) ]) ≡ some b
          → Says matches aliases (forbid m) b
      go none e k = cc
      go (some c) e k = negative (opinion→SaysMeta m c e) (cc)

  opinion→IsSilent : (s : Spec A) → opinion s ≡ none → IsSilent matches aliases s
  opinion→IsSilent s h b says = cc (Says→opinion says)

  IsSilent→opinion : (s : Spec A) → IsSilent matches aliases s → opinion s ≡ none
  IsSilent→opinion s h = go (opinion s) refl
    where
      go : (o : Option Bool) → opinion s ≡ o → o ≡ none
      go none e = refl
      go (some b) e = absurd (h b (opinion→Says s b e))

module _ {I A B : Type 0} (w : WithInfo I A B) (matches : A → Bool) (aliases : FoundAliases) where
  abbrev spoken : I → Option Bool
  spoken x = opinion matches aliases (w.as_inner x)

  -- The new result after one item, by what the item says.
  abbrev outcome : Option Bool → B → Option B → Option B
  outcome none info result = result
  outcome (some b) info result = then_some b info

  judge_item-outcome :
      (x : I) (r : Option B)
      → judge_item w matches aliases x r ≡ outcome (spoken x) (w.into_info x) r
  unfolding judge_item opinion meta_opinion
  judge_item-outcome x r = ground arith

  judge_item_silent :
      (x : I) (r : Option B)
      → IsSilent matches aliases (w.as_inner x)
      → judge_item w matches aliases x r ≡ r
  judge_item_silent x r h =
      cc (judge_item-outcome x r, IsSilent→opinion matches aliases (w.as_inner x) h)

  judge_item-Says :
      (x : I) (b : Bool) (r : Option B)
      → Says matches aliases (w.as_inner x) b
      → judge_item w matches aliases x r ≡ then_some b (w.into_info x)
  judge_item-Says x b r h = cc (judge_item-outcome x r, Says→opinion matches aliases h)

  pub find_from_silent :
      (xs : List I) (r : Option B)
      → NoneSays w matches aliases xs
      → find_from w matches aliases r xs ≡ r
  unfolding find_from
  find_from_silent [] r h = refl
  find_from_silent (x ∷ xs) r h =
      find_from_silent xs (judge_item w matches aliases x r) h.1 ∙ judge_item_silent x r h.0

  pub find_from-append :
      (xs ys : List I) (r : Option B)
      → find_from w matches aliases r (xs ++ ys)
        ≡ find_from w matches aliases (find_from w matches aliases r xs) ys
  unfolding find_from
  find_from-append [] ys r = refl
  find_from-append (x ∷ xs) ys r = find_from-append xs ys (judge_item w matches aliases x r)

  pub find_from-LastSays :
      {xs : List I} {i : B} {b : Bool} (r : Option B)
      → LastSays w matches aliases xs i b
      → find_from w matches aliases r xs ≡ then_some b i
  unfolding find_from
  find_from-LastSays r (last {x} {xs} {i} {b} s h e) =
      find_from_silent xs (judge_item w matches aliases x r) h
      ∙ judge_item-Says x b r s
      ∙ ap (then_some b) e
  find_from-LastSays r (later {x} h) = find_from-LastSays (judge_item w matches aliases x r) h

  -- Either nothing in the list speaks, or some item is the last that does.
  pub speakers :
      (xs : List I)
      → NoneSays w matches aliases xs ⊎ ((i : B) × (b : Bool) × LastSays w matches aliases xs i b)
  speakers [] = inl tt
  speakers (x ∷ xs) = elim (speakers xs) [
    | inr (i, b, h) ↦ inr (i, b, later h)
    | inl quiet ↦ elim (Option-cases (spoken x)) [
      | inl e ↦ inl (opinion→IsSilent matches aliases (w.as_inner x) e, quiet)
      | inr (b, e) ↦
          inr (w.into_info x, b, last (opinion→Says matches aliases (w.as_inner x) b e) quiet refl)
    ]
  ]

  -- `find_item` returns the data of an item exactly if that item is the last of the list that says
  -- anything of the object, and it says yes.
  pub find_item-some_iff :
      (xs : List I) (i : B)
      → (find_item w matches aliases xs ≡ some i) ↔ LastSays w matches aliases xs i true
  unfolding find_item
  find_item-some_iff xs i = (forth, λ h. find_from-LastSays none h)
    where
      forth : find_from w matches aliases none xs ≡ some i → LastSays w matches aliases xs i true
      forth e = elim (speakers xs) [
        | inl quiet ↦ absurd (cc (find_from_silent xs none quiet))
        | inr (j, true, h) ↦
            let p : j ≡ i = cc (find_from-LastSays none h) in
            subst (λ k. LastSays w matches aliases xs k true) p h
        | inr (j, false, h) ↦ absurd (cc (find_from-LastSays none h))
      ]

  -- `find_item` returns nothing exactly if no item says anything, or the last that does says no.
  pub find_item-none_iff :
      (xs : List I)
      → (find_item w matches aliases xs ≡ none)
        ↔ (NoneSays w matches aliases xs ⊎ ((i : B) × LastSays w matches aliases xs i false))
  unfolding find_item
  find_item-none_iff xs =
      (forth, ⊎_elim (find_from_silent xs none) λ (i, h). find_from-LastSays none h)
    where
      forth :
          find_from w matches aliases none xs ≡ none
          → NoneSays w matches aliases xs ⊎ ((i : B) × LastSays w matches aliases xs i false)
      forth e = elim (speakers xs) [
        | inl quiet ↦ inl quiet
        | inr (j, true, h) ↦ absurd (cc (find_from-LastSays none h))
        | inr (j, false, h) ↦ inr (j, h)
      ]
