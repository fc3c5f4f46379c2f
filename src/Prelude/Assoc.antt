-- ===== src/Prelude/Assoc.antt =====
-- Maps from strings: association lists with one entry for a key.
use mathlib.Core.Path.{◌≡◌, refl, ap, sym, ◌∙◌}
use mathlib.Core.Logic.{inl, inr}
use mathlib.Core.Bool.{true, false}
use mathlib.Core.Option.{Option, none, some, none-ne-some}
use mathlib.Core.List.{List, [], ◌∷◌}
use native.Mathlib.Omega.{arith}
use twitch_bot.Prelude.Tests.{if◌then◌else◌, Bool-cases}
use twitch_bot.Prelude.Bytes.{Bytes, equal, equal_iff, equal_refl}

pub equal_trans : (a b c : Bytes) → equal a b ≡ true → equal a c ≡ equal b c
equal_trans a b c h = ap (λ k. equal k c) ((equal_iff a b).0 h)

pub equal_comm : (a b : Bytes) → equal a b ≡ equal b a
unfolding equal
equal_comm [] [] = refl
equal_comm [] (y ∷ b) = refl
equal_comm (x ∷ a) [] = refl
equal_comm (x ∷ a) (y ∷ b) = ground (arith, equal_comm a b)

module _ {H : Type 0} where
  -- `m.find(key)`
  unfoldable pub lookup : Bytes → List (Bytes × H) → Option H
  lookup key [] = none
  lookup key (c ∷ m) = if equal c.0 key then some c.1 else lookup key m

  -- `m.erase(key)`
  unfoldable pub erase : Bytes → List (Bytes × H) → List (Bytes × H)
  erase key [] = []
  erase key (c ∷ m) = if equal c.0 key then erase key m else c ∷ erase key m

  -- `m[key] = v` for a key that is there.
  unfoldable pub replace : Bytes → H → List (Bytes × H) → List (Bytes × H)
  replace key v [] = []
  replace key v (c ∷ m) = if equal c.0 key then (c.0, v) ∷ m else c ∷ replace key v m

  -- `m.emplace(key, v)`, which leaves a key that is there as it is.
  unfoldable pub emplace : Bytes → H → List (Bytes × H) → List (Bytes × H)
  emplace key v m = elim (lookup key m) [ none ↦ (key, v) ∷ m | some _ ↦ m ]

  -- No key has two entries.
  abbrev pub IsMap : List (Bytes × H) → Type 0
  IsMap [] = Unit {0}
  IsMap (c ∷ m) = (lookup c.0 m ≡ none) × IsMap m

  pub lookup_same :
      (a b : Bytes) (m : List (Bytes × H)) → equal a b ≡ true → lookup a m ≡ lookup b m
  lookup_same a b m h = ap (λ k. lookup k m) ((equal_iff a b).0 h)

  pub lookup-erase_self : (key : Bytes) (m : List (Bytes × H)) → lookup key (erase key m) ≡ none
  unfolding lookup erase
  lookup-erase_self key [] = refl
  lookup-erase_self key (c ∷ m) = ground (arith, lookup-erase_self key m)

  pub lookup-erase_other :
      (key other : Bytes) (m : List (Bytes × H))
      → equal key other ≡ false
      → lookup other (erase key m) ≡ lookup other m
  unfolding lookup erase
  lookup-erase_other key other [] ne = refl
  lookup-erase_other key other (c ∷ m) ne = elim (Bool-cases (equal c.0 key)) [
    | inl same ↦
        ground (arith, same, lookup-erase_other key other m ne, equal_trans c.0 key other same)
    | inr differs ↦ ground (arith, differs, lookup-erase_other key other m ne)
  ]

  pub lookup-erase-none :
      (key other : Bytes) (m : List (Bytes × H))
      → lookup other m ≡ none
      → lookup other (erase key m) ≡ none
  unfolding lookup erase
  lookup-erase-none key other [] h = refl
  lookup-erase-none key other (c ∷ m) h = ground (arith, h, lookup-erase-none key other m)

  pub erase-IsMap : (key : Bytes) (m : List (Bytes × H)) → IsMap m → IsMap (erase key m)
  unfolding erase
  erase-IsMap key [] w = tt
  erase-IsMap key (c ∷ m) w = elim (Bool-cases (equal c.0 key)) [
    | inl same ↦ rw (same, if◌then◌else◌) (erase-IsMap key m w.1)
    | inr differs ↦
        rw (differs, if◌then◌else◌) (lookup-erase-none key c.0 m w.0, erase-IsMap key m w.1)
  ]

  pub erase_absent : (key : Bytes) (m : List (Bytes × H)) → lookup key m ≡ none → erase key m ≡ m
  unfolding lookup erase
  erase_absent key [] h = refl
  erase_absent key (c ∷ m) h = ground (arith, h, erase_absent key m)

  pub lookup-replace_self :
      (key : Bytes) (v u : H) (m : List (Bytes × H))
      → lookup key m ≡ some u
      → lookup key (replace key v m) ≡ some v
  unfolding lookup replace
  lookup-replace_self key v u [] h = ground arith
  lookup-replace_self key v u (c ∷ m) h = ground (arith, h, lookup-replace_self key v u m)

  pub lookup-replace_other :
      (key other : Bytes) (v : H) (m : List (Bytes × H))
      → equal key other ≡ false
      → lookup other (replace key v m) ≡ lookup other m
  unfolding lookup replace
  lookup-replace_other key other v [] ne = refl
  lookup-replace_other key other v (c ∷ m) ne = elim (Bool-cases (equal c.0 key)) [
    | inl same ↦ ground (arith, same, equal_trans c.0 key other same)
    | inr differs ↦ ground (arith, differs, lookup-replace_other key other v m ne)
  ]

  pub lookup-replace-none :
      (key other : Bytes) (v : H) (m : List (Bytes × H))
      → lookup other m ≡ none
      → lookup other (replace key v m) ≡ none
  unfolding lookup replace
  lookup-replace-none key other v [] h = refl
  lookup-replace-none key other v (c ∷ m) h = ground (arith, h, lookup-replace-none key other v m)

  pub replace-IsMap :
      (key : Bytes) (v : H) (m : List (Bytes × H)) → IsMap m → IsMap (replace key v m)
  unfolding replace
  replace-IsMap key v [] w = tt
  replace-IsMap key v (c ∷ m) w = elim (Bool-cases (equal c.0 key)) [
    | inl same ↦ rw (same, if◌then◌else◌) w
    | inr differs ↦
        rw (differs, if◌then◌else◌) (lookup-replace-none key c.0 v m w.0, replace-IsMap key v m w.1)
  ]

  pub emplace-IsMap :
      (key : Bytes) (v : H) (m : List (Bytes × H)) → IsMap m → IsMap (emplace key v m)
  unfolding emplace
  emplace-IsMap key v m w = go (lookup key m) refl
    where
      go : (o : Option H) → lookup key m ≡ o → IsMap (elim o [ none ↦ (key, v) ∷ m | some _ ↦ m ])
      go none e = (e, w)
      go (some u) e = w

  pub emplace_absent :
      (key : Bytes) (v : H) (m : List (Bytes × H))
      → lookup key m ≡ none
      → emplace key v m ≡ (key, v) ∷ m
  unfolding emplace
  emplace_absent key v m h = rw (emplace, h) refl

  pub emplace_present :
      (key : Bytes) (v u : H) (m : List (Bytes × H)) → lookup key m ≡ some u → emplace key v m ≡ m
  unfolding emplace
  emplace_present key v u m h = rw (emplace, h) refl

  pub lookup_head :
      (key : Bytes) (v : H) (m : List (Bytes × H)) → lookup key ((key, v) ∷ m) ≡ some v
  unfolding lookup
  lookup_head key v m = ground (arith, equal_refl key)

  -- An entry behind one with another key.
  pub lookup_tail :
      (key other : Bytes) (v u : H) (m : List (Bytes × H))
      → lookup key m ≡ none
      → lookup other m ≡ some u
      → lookup other ((key, v) ∷ m) ≡ some u
  unfolding lookup
  lookup_tail key other v u m absent h = elim (Bool-cases (equal key other)) [
    | inl same ↦ absurd (none-ne-some u (sym absent ∙ lookup_same key other m same ∙ h))
    | inr differs ↦ ground (arith, differs, h)
  ]

  pub lookup_cons :
      (key other : Bytes) (v : H) (m : List (Bytes × H))
      → lookup other ((key, v) ∷ m) ≡ (if equal key other then some v else lookup other m)
  unfolding lookup
  lookup_cons key other v m = refl

  pub lookup-erase_if :
      (key other : Bytes) (m : List (Bytes × H))
      → lookup other (erase key m) ≡ (if equal key other then none else lookup other m)
  lookup-erase_if key other m = elim (Bool-cases (equal key other)) [
    | inl same ↦
        rw (same, if◌then◌else◌, sym (lookup_same key other (erase key m) same))
          (lookup-erase_self key m)
    | inr differs ↦ rw (differs, if◌then◌else◌) (lookup-erase_other key other m differs)
  ]

  pub lookup-replace_if :
      (key other : Bytes) (v u : H) (m : List (Bytes × H))
      → lookup key m ≡ some u
      → lookup other (replace key v m) ≡ (if equal key other then some v else lookup other m)
  lookup-replace_if key other v u m h = elim (Bool-cases (equal key other)) [
    | inl same ↦
        rw (same, if◌then◌else◌, sym (lookup_same key other (replace key v m) same))
          (lookup-replace_self key v u m h)
    | inr differs ↦ rw (differs, if◌then◌else◌) (lookup-replace_other key other v m differs)
  ]
