-- ===== src/Common/BTreeMap/Counting.antt =====
-- The keys of a map as a collection.
use Prim.Native.Nat.{ℕ, ◌+◌, ◌≤◌}
use mathlib.Core.Path.{◌≡◌, refl, sym, ap, subst, ◌∙◌}
use mathlib.Core.Logic.{inl, inr}
use mathlib.Core.Bool.{true, not}
use mathlib.Core.List.{[], ◌∷◌, Perm}
use mathlib.Core.List.Perm
use mathlib.Core.Option.{Option, none, some}
use native.Mathlib.Omega.{arith}
use ghost_pages.Common.Tests.{Bool-cases}
use ghost_pages.Common.Lists.{All, filter, length}
use ghost_pages.Common.Order.{Ord}
use ghost_pages.Common.BTreeMap.{BTreeMap, get, insert, remove}
use ghost_pages.Common.BTreeMap.Sorted.{
  Sorted, Above-trans, keys, values, get-Above, remove_absent, remove_each, remove_each-filter,
}

some-injective {κ} : {V : Type κ} (v w : V) → some v ≡ some w → v ≡ w
some-injective v w e = cc

clash {κ} : {V : Type κ} (x : Option V) (v : V) → x ≡ some v → x ≡ none → ⊥
clash x v e h = cc

module _ {ℓ κ} {K : Type ℓ} {V : Type κ} ⦃o : Ord K⦄ where
  pub insert-keys :
      (k : K) (v : V) (m : BTreeMap K V) → get k m ≡ none → Perm (keys (insert k v m)) (k ∷ keys m)
  unfolding get insert
  insert-keys k v [] h = Perm.refl (k ∷ [])
  insert-keys k v ((i, w) ∷ m) h = elim (Bool-cases (o.eqb k i)) [
    | inl e ↦ ground arith
    | inr e ↦ elim (Bool-cases (o.lt k i)) [
      | inl f ↦ rw (e, f, insert) (Perm.refl _)
      | inr f ↦
          rw (e, f, insert)
            (Perm.trans (Perm.cons i (insert-keys k v m (ground arith))) (Perm.swap k i (keys m)))
    ]
  ]

  pub remove-keys :
      (k : K) (v : V) (m : BTreeMap K V)
      → Sorted m
      → get k m ≡ some v
      → Perm (keys m) (k ∷ keys (remove k m))
  unfolding get remove
  remove-keys k v [] s h = cc
  remove-keys k v ((i, w) ∷ m) s h = elim (Bool-cases (o.eqb k i)) [
    | inl e ↦
        rw
          (
            e,
            remove,
            remove_absent k m
                (subst (λ x. get x m ≡ none) (sym ((o.eqb_iff k i).0 e)) (get-Above i m s.0)),
            (o.eqb_iff k i).0 e,
          )
          (Perm.refl _)
    | inr e ↦
        rw (e, remove)
          (Perm.trans (Perm.cons i (remove-keys k v m s.1 (ground arith)))
            (Perm.swap k i (keys (remove k m))))
  ]

  filter-true : (m : BTreeMap K V) → filter (λ e. true) m ≡ m
  filter-true [] = refl
  filter-true (e ∷ m) = ap (◌∷◌ e) (filter-true m)

  filter-false : (m : BTreeMap K V) → filter (λ e. not true) m ≡ []
  filter-false [] = refl
  filter-false (e ∷ m) = filter-false m

  -- Taking out every key empties the map.
  pub remove_each-all : (m : BTreeMap K V) → Sorted m → remove_each (keys m) m ≡ ([], values m)
  remove_each-all m s =
      ap (λ x. remove_each (keys x) m) (sym (filter-true m))
      ∙ remove_each-filter (λ e. true) m s
      ∙ ap (λ x. (x, values (filter (λ e. true) m))) (filter-false m)
      ∙ ap (λ x. ([], values x)) (filter-true m)

  pub length-remove_le : (k : K) (m : BTreeMap K V) → length (remove k m) ≤ length m
  unfolding remove
  length-remove_le k [] = omega arith
  length-remove_le k ((i, w) ∷ m) = ground (arith, length-remove_le k m)

  pub length-remove :
      (k : K) (v : V) (m : BTreeMap K V)
      → Sorted m
      → get k m ≡ some v
      → length (remove k m) + 1 ≡ length m
  unfolding get remove
  length-remove k v [] s h = cc
  length-remove k v ((i, w) ∷ m) s h = elim (Bool-cases (o.eqb k i)) [
    | inl e ↦
        rw
          (
            e,
            remove,
            remove_absent k m
                (subst (λ x. get x m ≡ none) (sym ((o.eqb_iff k i).0 e)) (get-Above i m s.0)),
          )
          (omega arith)
    | inr e ↦ rw (e, remove) (omega (arith, length-remove k v m s.1 (ground arith)))
  ]

  pub All-insert {ρ} :
      (P : K × V → Type ρ) (k : K) (v : V) (m : BTreeMap K V)
      → P (k, v)
      → All P m
      → All P (insert k v m)
  unfolding insert
  All-insert P k v [] p a = (p, tt)
  All-insert P k v ((i, w) ∷ m) p a = elim (Bool-cases (o.eqb k i)) [
    | inl e ↦ rw (e, insert) (p, a.1)
    | inr e ↦ elim (Bool-cases (o.lt k i)) [
      | inl f ↦ rw (e, f, insert) (p, a)
      | inr f ↦ rw (e, f, insert) (a.0, All-insert P k v m p a.1)
    ]
  ]

  pub All-remove {ρ} :
      (P : K × V → Type ρ) (k : K) (m : BTreeMap K V) → All P m → All P (remove k m)
  unfolding remove
  All-remove P k [] a = tt
  All-remove P k ((i, w) ∷ m) a = elim (Bool-cases (o.eqb k i)) [
    | inl e ↦ rw (e, remove) (All-remove P k m a.1)
    | inr e ↦ rw (e, remove) (a.0, All-remove P k m a.1)
  ]

  pub All-get {ρ} :
      (P : K × V → Type ρ) (k : K) (v : V) (m : BTreeMap K V)
      → All P m
      → get k m ≡ some v
      → P (k, v)
  unfolding get
  All-get P k v [] a h = cc
  All-get P k v ((i, w) ∷ m) a h = elim (Bool-cases (o.eqb k i)) [
    | inl e ↦
        subst (λ x. P (x, v)) (sym ((o.eqb_iff k i).0 e))
          (subst (λ x. P (i, x)) (some-injective w v (ground arith)) a.0)
    | inr e ↦ All-get P k v m a.1 (ground arith)
  ]

  abbrev pub sum : (V → ℕ) → BTreeMap K V → ℕ
  sum f [] = 0
  sum f ((_, v) ∷ m) = f v + sum f m

  pub sum-insert_new :
      (f : V → ℕ) (k : K) (v : V) (m : BTreeMap K V)
      → get k m ≡ none
      → sum f (insert k v m) ≡ f v + sum f m
  unfolding get insert
  sum-insert_new f k v [] h = refl
  sum-insert_new f k v ((i, w) ∷ m) h = elim (Bool-cases (o.eqb k i)) [
    | inl e ↦ ground arith
    | inr e ↦ elim (Bool-cases (o.lt k i)) [
      | inl g ↦ rw (e, g, insert) refl
      | inr g ↦ rw (e, g, insert) (omega (arith, sum-insert_new f k v m (ground arith)))
    ]
  ]

  pub sum-insert_old :
      (f : V → ℕ) (k : K) (v old : V) (m : BTreeMap K V)
      → Sorted m
      → get k m ≡ some old
      → sum f (insert k v m) + f old ≡ f v + sum f m
  unfolding get insert
  sum-insert_old f k v old [] s h = cc
  sum-insert_old f k v old ((i, w) ∷ m) s h = elim (Bool-cases (o.eqb k i)) [
    | inl e ↦
        let q : f w ≡ f old = ap f (some-injective w old (ground arith)) in
        rw (e, insert) (omega (arith, q))
    | inr e ↦ elim (Bool-cases (o.lt k i)) [
      | inl g ↦
          let n = get-Above k m (Above-trans k i m g s.0) in
          let y : get k m ≡ some old = ground arith in absurd (clash (get k m) old y n)
      | inr g ↦ rw (e, g, insert) (omega (arith, sum-insert_old f k v old m s.1 (ground arith)))
    ]
  ]
