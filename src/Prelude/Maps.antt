-- ===== src/Prelude/Maps.antt =====
-- Go's maps as association lists. `delete` takes every entry of a key, and a range loop is a walk
-- over the entries, so the order in which Go visits them plays no part in the laws.
use Prim.Native.Nat.{ℕ}
use Prim.Native.String.{String}
use mathlib.Core.Path.{◌≡◌, refl}
use mathlib.Core.Logic.{◌↔◌}
use mathlib.Core.Bool.{Bool, true}
use mathlib.Core.Option.{Option, none, some}
use mathlib.Core.List.{List, [], ◌∷◌}
use native.Mathlib.Omega.{arith}
use text.Mathlib.Text.{◌==◌ as str_eq}
use text.Mathlib.TextEquality.{eq_iff}
use share_bridge.Prelude.Tests.{◌==◌ as nat_eq, ==_iff, if◌then◌else◌}

-- Types that Go compares by `==`.
pub record Key {ℓ} (K : Type ℓ) : Type ℓ where
  pub same : K → K → Bool
  pub same_iff : (a b : K) → (same a b ≡ true) ↔ (a ≡ b)

instance abbrev pub nat_key : Key ℕ
nat_key = record { same = nat_eq; same_iff = ==_iff }

instance abbrev pub string_key : Key String
string_key = record { same = str_eq; same_iff = eq_iff }

infix 50 ◌=?◌
abbrev pub ◌=?◌ {ℓ} : {K : Type ℓ} ⦃k : Key K⦄ → K → K → Bool
◌=?◌ ⦃k⦄ = k.same

abbrev pub Map {ℓ κ} : Type ℓ → Type κ → Type (ℓ ⊔ κ)
Map K V = List (K × V)

abbrev pub on_value {ℓ} : {V : Type ℓ} → (V → V) → Option V → Option V
on_value f none = none
on_value f (some v) = some (f v)

module _ {ℓ κ} {K : Type ℓ} {V : Type κ} ⦃e : Key K⦄ where
  -- v, ok := m[k]
  unfoldable pub lookup : K → Map K V → Option V
  lookup k [] = none
  lookup k ((j, v) ∷ m) = if j =? k then some v else lookup k m

  -- m[k] = v
  unfoldable pub insert : K → V → Map K V → Map K V
  insert k v [] = (k, v) ∷ []
  insert k v ((j, w) ∷ m) = if j =? k then (k, v) ∷ m else (j, w) ∷ insert k v m

  -- delete(m, k)
  unfoldable pub delete : K → Map K V → Map K V
  delete k [] = []
  delete k ((j, v) ∷ m) = let rest = delete k m in if j =? k then rest else (j, v) ∷ rest

  -- for k, v := range m { m[k] = f(k, v) }
  unfoldable pub update : (K → V → V) → Map K V → Map K V
  update f [] = []
  update f ((j, v) ∷ m) = (j, f j v) ∷ update f m

  -- m[k], with what a missing key reads as
  abbrev pub index : V → K → Map K V → V
  index d k m = elim (lookup k m) [ none ↦ d | some v ↦ v ]

  pub lookup-empty : (k : K) → lookup k [] ≡ none
  unfolding lookup
  lookup-empty k = refl

  pub lookup-insert :
      (k : K) (v : V) (m : Map K V) (j : K)
      → lookup j (insert k v m) ≡ (if k =? j then some v else lookup j m)
  unfolding lookup insert
  lookup-insert k v [] j = refl
  lookup-insert k v ((i, w) ∷ m) j =
      ground (arith, e.same_iff k j, e.same_iff i k, e.same_iff i j, lookup-insert k v m j)

  pub lookup-delete :
      (k : K) (m : Map K V) (j : K) → lookup j (delete k m) ≡ (if k =? j then none else lookup j m)
  unfolding lookup delete
  lookup-delete k [] j = ground arith
  lookup-delete k ((i, w) ∷ m) j =
      ground (arith, e.same_iff k j, e.same_iff i k, e.same_iff i j, lookup-delete k m j)

  pub lookup-update :
      (f : K → V → V) (m : Map K V) (j : K) → lookup j (update f m) ≡ on_value (f j) (lookup j m)
  unfolding lookup update
  lookup-update f [] j = refl
  lookup-update f ((i, w) ∷ m) j = ground (arith, e.same_iff i j, lookup-update f m j)

  -- No key has two entries.
  abbrev pub IsDistinct : Map K V → Type κ
  IsDistinct [] = Unit
  IsDistinct ((j, v) ∷ m) = (lookup j m ≡ none) × IsDistinct m

  pub insert-IsDistinct : (k : K) (v : V) (m : Map K V) → IsDistinct m → IsDistinct (insert k v m)
  unfolding insert
  insert-IsDistinct k v [] d = (lookup-empty k, tt)
  insert-IsDistinct k v ((j, w) ∷ m) d =
      ground
        (arith, e.same_iff j k, e.same_iff k j, insert-IsDistinct k v m d.1, lookup-insert k v m j)

  pub delete-IsDistinct : (k : K) (m : Map K V) → IsDistinct m → IsDistinct (delete k m)
  unfolding delete
  delete-IsDistinct k [] d = tt
  delete-IsDistinct k ((j, w) ∷ m) d =
      ground (arith, delete-IsDistinct k m d.1, lookup-delete k m j)

  pub update-IsDistinct : (f : K → V → V) (m : Map K V) → IsDistinct m → IsDistinct (update f m)
  unfolding update
  update-IsDistinct f [] d = tt
  update-IsDistinct f ((j, w) ∷ m) d =
      ground (arith, update-IsDistinct f m d.1, lookup-update f m j)

pub same_refl {ℓ} : {K : Type ℓ} ⦃e : Key K⦄ (k : K) → (k =? k) ≡ true
same_refl ⦃e⦄ k = (e.same_iff k k).1 refl

pub ruleset map_laws = (lookup-empty, lookup-insert, lookup-delete, lookup-update, same_refl)
