-- ===== src/Prelude/Maps.antt =====
-- A JavaScript `Map` with strings for keys, as a list of entries.
use Prim.Native.String.{String}
use mathlib.Core.Path.{◌≡◌, refl}
use mathlib.Core.Logic.{◌≢◌}
use mathlib.Core.List.{List, [], ◌∷◌}
use mathlib.Core.Option.{Option, none, some}
use native.Mathlib.Omega.{arith}
use text.Mathlib.Text.{◌==◌ as str_eq}
use text.Mathlib.TextEquality.{eq_iff}
use text.Mathlib.TextPositions.{eq_refl}
use stellar_kraal_backend.Prelude.Tests.{if◌then◌else◌}

abbrev pub Map {ℓ} : Type ℓ → Type ℓ
Map A = List (String × A)

module _ {ℓ} {A : Type ℓ} where
  unfoldable pub lookup : String → Map A → Option A
  lookup k [] = none
  lookup k ((k', a) ∷ rest) = if str_eq k' k then some a else lookup k rest

  unfoldable pub remove : String → Map A → Map A
  remove k [] = []
  remove k ((k', a) ∷ rest) =
      let others = remove k rest in if str_eq k' k then others else (k', a) ∷ others

  unfoldable pub assign : String → A → Map A → Map A
  unfolding remove
  assign k a m = (k, a) ∷ remove k m

  pub lookup-remove_same : (k : String) (m : Map A) → lookup k (remove k m) ≡ none
  unfolding lookup remove
  lookup-remove_same k [] = refl
  lookup-remove_same k ((k', a) ∷ rest) = ground (arith, lookup-remove_same k rest)

  pub lookup-remove_other :
      (k k' : String) (m : Map A) → k ≢ k' → lookup k' (remove k m) ≡ lookup k' m
  unfolding lookup remove
  lookup-remove_other k k' [] ne = refl
  lookup-remove_other k k' ((j, a) ∷ rest) ne =
      ground (arith, lookup-remove_other k k' rest, eq_iff j k, eq_iff j k')

  pub lookup-assign_same : (k : String) (a : A) (m : Map A) → lookup k (assign k a m) ≡ some a
  unfolding lookup assign
  lookup-assign_same k a m = rw (eq_refl k) refl

  pub lookup-assign_other :
      (k k' : String) (a : A) (m : Map A) → k ≢ k' → lookup k' (assign k a m) ≡ lookup k' m
  unfolding lookup assign
  lookup-assign_other k k' a m ne = ground (arith, lookup-remove_other k k' m, eq_iff k k')
