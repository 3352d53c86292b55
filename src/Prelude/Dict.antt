-- ===== src/Prelude/Dict.antt =====
-- Go's `map[string]V`, as an association list in which a key stands once. The program reads, writes
-- and deletes single keys and takes the number of keys, so the order of the entries shows nowhere.
use Prim.Native.String.{String}
use mathlib.Core.Path.{◌≡◌, refl}
use mathlib.Core.Logic.{◌⊎◌}
use mathlib.Core.Option.{Option, none, some}
use mathlib.Core.List.{List, [], ◌∷◌}
use native.Mathlib.Omega.{arith}
use text.Mathlib.Text.{◌==◌}
use text.Mathlib.TextEquality.{eq_iff}
use text.Mathlib.TextPositions.{eq_refl}
use eve_industry_planner_sta.Prelude.Tests.{if◌then◌else◌}

abbrev pub Dict {ℓ} : Type ℓ → Type ℓ
Dict V = List (String × V)

module _ {ℓ} {V : Type ℓ} where
  -- v, ok := m[key]
  unfoldable pub lookup : String → Dict V → Option V
  lookup key [] = none
  lookup key (entry ∷ rest) = if key == entry.0 then some entry.1 else lookup key rest

  -- m[key] = value
  unfoldable pub insert : String → V → Dict V → Dict V
  insert key value [] = (key, value) ∷ []
  insert key value (entry ∷ rest) =
      let later = insert key value rest in
      if key == entry.0 then (key, value) ∷ rest else entry ∷ later

  -- delete(m, key)
  unfoldable pub delete : String → Dict V → Dict V
  delete key [] = []
  delete key (entry ∷ rest) =
      let later = delete key rest in if key == entry.0 then later else entry ∷ later

  pub lookup-insert :
      (m : Dict V) (at key : String) (value : V)
      → lookup at (insert key value m) ≡ (if at == key then some value else lookup at m)
  unfolding lookup insert
  lookup-insert [] at key value = refl
  lookup-insert (entry ∷ rest) at key value =
      ground (
        arith,
        lookup-insert rest at key value,
        eq_iff key entry.0,
        eq_iff at key,
        eq_iff at entry.0,
      )

  pub lookup-delete :
      (m : Dict V) (at key : String)
      → lookup at (delete key m) ≡ (if at == key then none else lookup at m)
  unfolding lookup delete
  lookup-delete [] at key = ground arith
  lookup-delete (entry ∷ rest) at key =
      ground
        (arith, lookup-delete rest at key, eq_iff key entry.0, eq_iff at key, eq_iff at entry.0)

  pub lookup-insert_self :
      (key : String) (value : V) (m : Dict V) → lookup key (insert key value m) ≡ some value
  lookup-insert_self key value m = rw (lookup-insert m key key value, eq_refl)

module _ {ℓ} {V : Type ℓ} where
  -- What a key of the written map holds: the new value, or what it held.
  pub insert_cases :
      (key at : String) (value old : V) (m : Dict V)
      → lookup at (insert key value m) ≡ some old
      → ((key ≡ at) × (value ≡ old)) ⊎ (lookup at m ≡ some old)
  insert_cases key at value old m e = ground (arith, eq_iff at key, lookup-insert m at key value)

  -- A write removes no key.
  pub insert-some :
      (key at : String) (value old : V) (m : Dict V)
      → lookup at m ≡ some old
      → (found : V) × (lookup at (insert key value m) ≡ some found)
  insert-some key at value old m e =
      ((if at == key then value else old), rw (lookup-insert m at key value) (ground arith))

pub ruleset dict_laws = (lookup-insert, lookup-delete)
