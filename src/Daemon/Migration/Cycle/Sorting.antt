-- ===== src/Daemon/Migration/Cycle/Sorting.antt =====
-- The order of the chosen migrations.
use ghost_pages.Common.{
  ℕ, ◌≤◌, ◌≡◌, refl, ap, ◌∙◌, length, true, false, List, [], ◌∷◌, All, arith, Bool-cases, inl, inr,
}
use Prim.Native.Nat.{suc}
use mathlib.Core.List.{Perm}
use mathlib.Core.List.Perm
use ghost_pages.Core.Pressure.{Float}
use ghost_pages.Core.Transfer.{value}
use ghost_pages.Daemon.Migration.{PendingMigration}
use ghost_pages.Daemon.Migration.Cycle.{before, insert_sorted, sort}

abbrev pub rank : {F : Type 0} → PendingMigration F → ℕ
rank m = value m.priority

module _ {F : Type 0} where
  -- No migration stands behind one of lower priority.
  abbrev pub Ranked : List (PendingMigration F) → Type 0
  Ranked [] = Unit {0}
  Ranked (m ∷ ms) = All (λ x. rank x ≤ rank m) ms × Ranked ms

  All-weaken :
      (m n : ℕ) (xs : List (PendingMigration F))
      → m ≤ n
      → All (λ x. rank x ≤ m) xs
      → All (λ x. rank x ≤ n) xs
  All-weaken m n [] h a = tt
  All-weaken m n (x ∷ xs) h a = (omega arith, All-weaken m n xs h a.1)

module _ (f32 : Float) where
  open f32 use {F}

  before-rank :
      (a b : PendingMigration F)
      → (before f32 a b ≡ true → rank b ≤ rank a) × (before f32 a b ≡ false → rank a ≤ rank b)
  unfolding before
  before-rank a b = (λ h. ground arith, λ h. ground arith)

  insert_sorted-perm :
      (m : PendingMigration F) (xs : List (PendingMigration F))
      → Perm (insert_sorted f32 m xs) (m ∷ xs)
  unfolding insert_sorted
  insert_sorted-perm m [] = Perm.refl _
  insert_sorted-perm m (x ∷ xs) = elim (Bool-cases (before f32 x m)) [
    | inl e ↦
        rw (e, insert_sorted)
          (Perm.trans (Perm.cons x (insert_sorted-perm m xs)) (Perm.swap m x xs))
    | inr e ↦ rw (e, insert_sorted) (Perm.refl _)
  ]

  insert_sorted-below :
      (n : ℕ) (m : PendingMigration F) (xs : List (PendingMigration F))
      → rank m ≤ n
      → All (λ x. rank x ≤ n) xs
      → All (λ x. rank x ≤ n) (insert_sorted f32 m xs)
  unfolding insert_sorted
  insert_sorted-below n m [] h a = (h, tt)
  insert_sorted-below n m (x ∷ xs) h a = elim (Bool-cases (before f32 x m)) [
    | inl e ↦ rw (e, insert_sorted) (a.0, insert_sorted-below n m xs h a.1)
    | inr e ↦ rw (e, insert_sorted) (h, a)
  ]

  insert_sorted-Ranked :
      (m : PendingMigration F) (xs : List (PendingMigration F))
      → Ranked xs
      → Ranked (insert_sorted f32 m xs)
  unfolding insert_sorted
  insert_sorted-Ranked m [] r = (tt, tt)
  insert_sorted-Ranked m (x ∷ xs) r = elim (Bool-cases (before f32 x m)) [
    | inl e ↦
        rw (e, insert_sorted)
          (insert_sorted-below _ m xs ((before-rank x m).0 e) r.0, insert_sorted-Ranked m xs r.1)
    | inr e ↦
        let le = (before-rank x m).1 e in
        rw (e, insert_sorted) ((le, All-weaken (rank x) (rank m) xs le r.0), r)
  ]

  pub sort-perm : (xs : List (PendingMigration F)) → Perm (sort f32 xs) xs
  unfolding sort
  sort-perm [] = Perm.refl []
  sort-perm (x ∷ xs) = Perm.trans (insert_sorted-perm x (sort f32 xs)) (Perm.cons x (sort-perm xs))

  pub sort-Ranked : (xs : List (PendingMigration F)) → Ranked (sort f32 xs)
  unfolding sort
  sort-Ranked [] = tt
  sort-Ranked (x ∷ xs) = insert_sorted-Ranked x (sort f32 xs) (sort-Ranked xs)

  length-insert_sorted :
      (m : PendingMigration F) (xs : List (PendingMigration F))
      → length (insert_sorted f32 m xs) ≡ length (m ∷ xs)
  unfolding insert_sorted
  length-insert_sorted m [] = refl
  length-insert_sorted m (x ∷ xs) = elim (Bool-cases (before f32 x m)) [
    | inl e ↦ rw (e, insert_sorted) (ap suc (length-insert_sorted m xs))
    | inr e ↦ rw (e, insert_sorted) refl
  ]

  pub length-sort : (xs : List (PendingMigration F)) → length (sort f32 xs) ≡ length xs
  unfolding sort
  length-sort [] = refl
  length-sort (x ∷ xs) = length-insert_sorted x (sort f32 xs) ∙ ap suc (length-sort xs)
