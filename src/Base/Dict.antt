-- ===== src/Base/Dict.antt =====
-- Plain objects used as dictionaries: association lists in insertion order. A write to a present
-- key keeps its place; a write to a new key goes to the end.
use Prim.Native.String.{String}
use mathlib.Core.Path.{◌≡◌, refl}
use mathlib.Core.Logic.{◌≢◌}
use mathlib.Core.List.{List, [], ◌∷◌, map}
use mathlib.Core.Option.{Option, none, some}
use native.Mathlib.Omega.{arith}
use labrastro_vscode_extensi.Base.Tests.{if◌then◌else◌}
use labrastro_vscode_extensi.Base.Text.{same, ◌==◌}

abbrev pub Dict {ℓ} : Type ℓ → Type ℓ
Dict V = List (String × V)

module _ {ℓ} {V : Type ℓ} where
  -- `d[name]`
  unfoldable pub lookup : String → Dict V → Option V
  lookup name [] = none
  lookup name ((own, held) ∷ rest) = elim (same own name) [
    | yes _ ↦ some held
    | no _ ↦ lookup name rest
  ]

  -- `{ ...d, [name]: value }`
  unfoldable pub insert : String → V → Dict V → Dict V
  insert name value [] = (name, value) ∷ []
  insert name value ((own, held) ∷ rest) = elim (same own name) [
    | yes _ ↦ (own, value) ∷ rest
    | no _ ↦ (own, held) ∷ insert name value rest
  ]

  -- `delete d[name]`
  unfoldable pub erase : String → Dict V → Dict V
  erase name [] = []
  erase name ((own, held) ∷ rest) = elim (same own name) [
    | yes _ ↦ erase name rest
    | no _ ↦ (own, held) ∷ erase name rest
  ]

  -- `Object.values(d)`
  abbrev pub values : Dict V → List V
  values = map (λ e. e.1)

  -- `{ ...d, ...e }`
  unfoldable pub spread : Dict V → Dict V → Dict V
  spread d [] = d
  spread d ((k, v) ∷ e) = spread (insert k v d) e

  pub lookup-insert :
      (name other : String) (value : V) (dict : Dict V)
      → lookup other (insert name value dict)
        ≡ (if name == other then some value else lookup other dict)
  unfolding lookup insert
  lookup-insert name other value [] = ground arith
  lookup-insert name other value ((own, new) ∷ dict) =
      ground (arith, lookup-insert name other value dict)

  pub lookup-erase :
      (name other : String) (dict : Dict V)
      → lookup other (erase name dict) ≡ (if name == other then none else lookup other dict)
  unfolding lookup erase
  lookup-erase name other [] = ground arith
  lookup-erase name other ((own, new) ∷ dict) = ground (arith, lookup-erase name other dict)

  pub lookup-insert_self :
      (name : String) (value : V) (dict : Dict V)
      → lookup name (insert name value dict) ≡ some value
  lookup-insert_self name value dict = ground (arith, lookup-insert name name value dict)

  pub lookup-insert_ne :
      (name other : String) (value : V) (dict : Dict V)
      → name ≢ other
      → lookup other (insert name value dict) ≡ lookup other dict
  lookup-insert_ne name other value dict h = ground (arith, lookup-insert name other value dict)

  pub lookup-erase_self : (name : String) (dict : Dict V) → lookup name (erase name dict) ≡ none
  lookup-erase_self name dict = ground (arith, lookup-erase name name dict)

  pub lookup-erase_ne :
      (name other : String) (dict : Dict V)
      → name ≢ other
      → lookup other (erase name dict) ≡ lookup other dict
  lookup-erase_ne name other dict h = ground (arith, lookup-erase name other dict)

  -- A fresh key that is written and deleted leaves no trace, in order too.
  pub erase_fresh :
      (name : String) (dict : Dict V) → lookup name dict ≡ none → erase name dict ≡ dict
  unfolding lookup erase
  erase_fresh name [] h = refl
  erase_fresh name ((own, new) ∷ dict) h = ground (arith, erase_fresh name dict)

  pub erase-insert_fresh :
      (name : String) (value : V) (dict : Dict V)
      → lookup name dict ≡ none
      → erase name (insert name value dict) ≡ dict
  unfolding lookup insert erase
  erase-insert_fresh name value [] h = ground arith
  erase-insert_fresh name value ((own, new) ∷ dict) h =
      ground (arith, erase-insert_fresh name value dict)

  -- A second write to the same key replaces the first.
  pub insert-insert :
      (name : String) (value new : V) (dict : Dict V)
      → insert name new (insert name value dict) ≡ insert name new dict
  unfolding insert
  insert-insert name value new [] = ground arith
  insert-insert name value new ((own, held) ∷ dict) =
      ground (arith, insert-insert name value new dict)

  pub insert_same :
      (name : String) (value : V) (dict : Dict V)
      → lookup name dict ≡ some value
      → insert name value dict ≡ dict
  unfolding lookup insert
  insert_same name value [] h = cc
  insert_same name value ((own, held) ∷ dict) h = ground (arith, insert_same name value dict)
