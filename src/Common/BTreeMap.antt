-- ===== src/Common/BTreeMap.antt =====
-- The part of Rust's `BTreeMap` that the crates use: an association list in key order.
pub mod Sorted
pub mod Counting
use Prim.Native.Nat.{◌+◌}
use mathlib.Core.Path.{◌≡◌, refl}
use mathlib.Core.Bool.{Bool, true, false}
use mathlib.Core.List.{List, [], ◌∷◌}
use mathlib.Core.Option.{Option, none, some}
use native.Mathlib.Omega.{arith}
use ghost_pages.Common.Tests.{if◌then◌else◌}
use ghost_pages.Common.Lists.{length}
use ghost_pages.Common.Order.{Ord}

abbrev pub BTreeMap {ℓ κ} : Type ℓ → Type κ → Type (ℓ ⊔ κ)
BTreeMap K V = List (K × V)

pub eqb_refl {ℓ} : {K : Type ℓ} ⦃o : Ord K⦄ (k : K) → o.eqb k k ≡ true
eqb_refl ⦃o⦄ k = (o.eqb_iff k k).1 refl

module _ {ℓ κ} {K : Type ℓ} {V : Type κ} ⦃o : Ord K⦄ where
  unfoldable pub get : K → BTreeMap K V → Option V
  get k [] = none
  get k ((j, v) ∷ m) = if o.eqb k j then some v else get k m

  unfoldable pub insert : K → V → BTreeMap K V → BTreeMap K V
  insert k v [] = (k, v) ∷ []
  insert k v ((j, w) ∷ m) =
      if o.eqb k j
      then (k, v) ∷ m
      else if o.lt k j
      then (k, v) ∷ (j, w) ∷ m
      else (j, w) ∷ insert k v m

  unfoldable pub remove : K → BTreeMap K V → BTreeMap K V
  remove k [] = []
  remove k ((j, w) ∷ m) = let rest = remove k m in if o.eqb k j then rest else (j, w) ∷ rest

  unfoldable pub contains_key : K → BTreeMap K V → Bool
  contains_key k m = elim (get k m) [ none ↦ false | some _ ↦ true ]

  pub get-insert :
      (k j : K) (v : V) (m : BTreeMap K V)
      → get j (insert k v m) ≡ (if o.eqb j k then some v else get j m)
  unfolding get insert
  get-insert k j v [] = refl
  get-insert k j v ((i, w) ∷ m) =
      ground (arith, o.eqb_iff k i, o.eqb_iff j i, o.eqb_iff j k, get-insert k j v m)

  pub get-insert_self : (k : K) (v : V) (m : BTreeMap K V) → get k (insert k v m) ≡ some v
  get-insert_self k v m = rw (get-insert, eqb_refl)

  pub get-remove :
      (k j : K) (m : BTreeMap K V) → get j (remove k m) ≡ (if o.eqb j k then none else get j m)
  unfolding get remove
  get-remove k j [] = ground arith
  get-remove k j ((i, w) ∷ m) =
      ground (arith, o.eqb_iff k i, o.eqb_iff j i, o.eqb_iff j k, get-remove k j m)

  pub get-remove_self : (k : K) (m : BTreeMap K V) → get k (remove k m) ≡ none
  get-remove_self k m = rw (get-remove, eqb_refl) refl

  pub length-insert_new :
      (k : K) (v : V) (m : BTreeMap K V) → get k m ≡ none → length (insert k v m) ≡ length m + 1
  unfolding get insert
  length-insert_new k v [] h = omega arith
  length-insert_new k v ((i, w) ∷ m) h = ground (arith, length-insert_new k v m)

  pub contains_key-insert :
      (k j : K) (v : V) (m : BTreeMap K V)
      → contains_key j (insert k v m) ≡ (if o.eqb j k then true else contains_key j m)
  unfolding contains_key
  contains_key-insert k j v m =
      rw (get-insert k j v m, contains_key) (on_test (o.eqb j k) (some v) (get j m) refl)
    where
      on_test :
          (b : Bool) (x y : Option V)
          → x ≡ some v
          → elim (if b then x else y) as (λ _. Bool) [ none ↦ false | some _ ↦ true ]
            ≡ (if b then true else elim y as (λ _. Bool) [ none ↦ false | some _ ↦ true ])
      on_test true x y e = rw e
      on_test false x y e = refl

  pub contains_key-remove :
      (k j : K) (m : BTreeMap K V)
      → contains_key j (remove k m) ≡ (if o.eqb j k then false else contains_key j m)
  unfolding contains_key
  contains_key-remove k j m = rw (get-remove k j m, contains_key) (on_test (o.eqb j k) (get j m))
    where
      on_test :
          (b : Bool) (y : Option V)
          → elim (if b then none else y) as (λ _. Bool) [ none ↦ false | some _ ↦ true ]
            ≡ (if b then false else elim y as (λ _. Bool) [ none ↦ false | some _ ↦ true ])
      on_test true y = refl
      on_test false y = refl
