-- ===== src/Common/BTreeMap/Sorted.antt =====
-- Maps whose keys increase, as those of a `BTreeMap` do.
use mathlib.Core.Path.{◌≡◌, refl, sym, ap, subst, ◌∙◌}
use mathlib.Core.Logic.{inl, inr}
use mathlib.Core.Bool.{Bool, true, false, not, false≢true}
use mathlib.Core.List.{List, [], ◌∷◌, map}
use mathlib.Core.Option.{Option, none, some}
use native.Mathlib.Omega.{arith}
use ghost_pages.Common.Tests.{if◌then◌else◌, Bool-cases, Option-cases}
use ghost_pages.Common.Lists.{All, filter}
use ghost_pages.Common.Order.{Ord}
use ghost_pages.Common.BTreeMap.{BTreeMap, get, insert, remove, eqb_refl}

module _ {ℓ} {K : Type ℓ} ⦃o : Ord K⦄ where
  lt_eqb : (a b c : K) → o.eqb a b ≡ true → o.lt b c ≡ true → o.lt a c ≡ true
  lt_eqb a b c e h = rw ((o.eqb_iff a b).0 e) h

  lt-eqb_false : (a b : K) → o.lt a b ≡ true → o.eqb a b ≡ false
  lt-eqb_false a b h = elim (Bool-cases (o.eqb a b)) [
    | inl e ↦
        absurd
          (false≢true (sym (o.lt_irrefl b) ∙ sym (ap (λ x. o.lt x b) ((o.eqb_iff a b).0 e)) ∙ h))
    | inr e ↦ e
  ]

module _ {ℓ κ} {K : Type ℓ} {V : Type κ} ⦃o : Ord K⦄ where
  abbrev pub Above : K → BTreeMap K V → Type 0
  Above k = All (λ e. o.lt k e.0 ≡ true)

  abbrev pub Sorted : BTreeMap K V → Type 0
  Sorted [] = Unit {0}
  Sorted ((k, _) ∷ m) = Above k m × Sorted m

  abbrev pub keys : BTreeMap K V → List K
  keys = map (λ e. e.0)

  abbrev pub values : BTreeMap K V → List V
  values = map (λ e. e.1)

  -- The keys in turn: each one that is there is taken out of the map.
  unfoldable pub remove_each : List K → BTreeMap K V → BTreeMap K V × List V
  remove_each [] m = (m, [])
  remove_each (k ∷ ks) m = elim (get k m) [
    | none ↦ remove_each ks m
    | some v ↦ let (m', vs) = remove_each ks (remove k m) in (m', v ∷ vs)
  ]

  pub Above-trans : (a b : K) (m : BTreeMap K V) → o.lt a b ≡ true → Above b m → Above a m
  Above-trans a b [] h v = tt
  Above-trans a b ((k, _) ∷ m) h v = (o.lt_trans a b k h v.0, Above-trans a b m h v.1)

  Above-insert :
      (j k : K) (v : V) (m : BTreeMap K V) → o.lt j k ≡ true → Above j m → Above j (insert k v m)
  unfolding insert
  Above-insert j k v [] h a = (h, tt)
  Above-insert j k v ((i, w) ∷ m) h a = elim (Bool-cases (o.eqb k i)) [
    | inl e ↦ rw (e, insert) (h, a.1)
    | inr e ↦ elim (Bool-cases (o.lt k i)) [
      | inl f ↦ rw (e, f, insert) (h, a)
      | inr f ↦ rw (e, f, insert) (a.0, Above-insert j k v m h a.1)
    ]
  ]

  Above-eqb : (a b : K) (m : BTreeMap K V) → o.eqb a b ≡ true → Above b m → Above a m
  Above-eqb a b [] e v = tt
  Above-eqb a b ((k, _) ∷ m) e v = (lt_eqb a b k e v.0, Above-eqb a b m e v.1)

  pub insert-Sorted : (k : K) (v : V) (m : BTreeMap K V) → Sorted m → Sorted (insert k v m)
  unfolding insert
  insert-Sorted k v [] s = (tt, tt)
  insert-Sorted k v ((i, w) ∷ m) s = elim (Bool-cases (o.eqb k i)) [
    | inl e ↦ rw (e, insert) (Above-eqb k i m e s.0, s.1)
    | inr e ↦ elim (Bool-cases (o.lt k i)) [
      | inl f ↦ rw (e, f, insert) ((f, Above-trans k i m f s.0), s)
      | inr f ↦
          rw (e, f, insert) (Above-insert i k v m (o.lt_total k i f e) s.0, insert-Sorted k v m s.1)
    ]
  ]

  Above-remove : (j k : K) (m : BTreeMap K V) → Above j m → Above j (remove k m)
  unfolding remove
  Above-remove j k [] a = tt
  Above-remove j k ((i, w) ∷ m) a = elim (Bool-cases (o.eqb k i)) [
    | inl e ↦ rw (e, remove) (Above-remove j k m a.1)
    | inr e ↦ rw (e, remove) (a.0, Above-remove j k m a.1)
  ]

  pub remove-Sorted : (k : K) (m : BTreeMap K V) → Sorted m → Sorted (remove k m)
  unfolding remove
  remove-Sorted k [] s = tt
  remove-Sorted k ((i, w) ∷ m) s = elim (Bool-cases (o.eqb k i)) [
    | inl e ↦ rw (e, remove) (remove-Sorted k m s.1)
    | inr e ↦ rw (e, remove) (Above-remove i k m s.0, remove-Sorted k m s.1)
  ]

  Above-filter : (p : K × V → Bool) (j : K) (m : BTreeMap K V) → Above j m → Above j (filter p m)
  Above-filter p j [] a = tt
  Above-filter p j (e ∷ m) a = elim (Bool-cases (p e)) [
    | inl x ↦ rw x (a.0, Above-filter p j m a.1)
    | inr x ↦ rw x (Above-filter p j m a.1)
  ]

  pub filter-Sorted : (p : K × V → Bool) (m : BTreeMap K V) → Sorted m → Sorted (filter p m)
  filter-Sorted p [] s = tt
  filter-Sorted p ((k, v) ∷ m) s = elim (Bool-cases (p (k, v))) [
    | inl x ↦ rw x (Above-filter p k m s.0, filter-Sorted p m s.1)
    | inr x ↦ rw x (filter-Sorted p m s.1)
  ]

  pub get-Above : (k : K) (m : BTreeMap K V) → Above k m → get k m ≡ none
  unfolding get
  get-Above k [] a = refl
  get-Above k ((i, w) ∷ m) a = rw (lt-eqb_false k i a.0, get) (get-Above k m a.1)

  pub remove_absent : (k : K) (m : BTreeMap K V) → get k m ≡ none → remove k m ≡ m
  unfolding get remove
  remove_absent k [] h = refl
  remove_absent k ((i, w) ∷ m) h = elim (Bool-cases (o.eqb k i)) [
    | inl e ↦ ground (arith)
    | inr e ↦ rw (e, remove) (ap (◌∷◌ (i, w)) (remove_absent k m (ground arith)))
  ]

  pub get-filter :
      (p : K × V → Bool) (k : K) (m : BTreeMap K V)
      → Sorted m
      → get k (filter p m) ≡ elim (get k m) as (λ _. Option V) [
        | none ↦ none
        | some v ↦ if p (k, v) then some v else none
      ]
  unfolding get
  get-filter p k [] s = refl
  get-filter p k ((i, w) ∷ m) s = elim (Bool-cases (o.eqb k i)) [
    | inl e ↦
        rw (e, get)
          (subst (λ x. get x (filter p ((i, w) ∷ m)) ≡ (if p (x, w) then some w else none))
            (sym ((o.eqb_iff k i).0 e)) (first (p (i, w)) refl))
    | inr e ↦ elim (Bool-cases (p (i, w))) [
      | inl x ↦ rw (x, e, get) (get-filter p k m s.1)
      | inr x ↦ rw (x, e, get) (get-filter p k m s.1)
    ]
  ]
    where
      first :
          (b : Bool)
          → p (i, w) ≡ b
          → get i (if b then (i, w) ∷ filter p m else filter p m) ≡ (if b then some w else none)
      first true x = rw (eqb_refl, get) refl
      first false x = get-Above i (filter p m) (Above-filter p i m s.0)

  absent_keys :
      (p : K × V → Bool) (k : K) (m : BTreeMap K V)
      → get k m ≡ none
      → All (λ j. o.eqb j k ≡ false) (keys (filter p m))
  unfolding get
  absent_keys p k [] h = tt
  absent_keys p k ((i, w) ∷ m) h = elim (Bool-cases (o.eqb k i)) [
    | inl e ↦ ground (arith)
    | inr e ↦ elim (Bool-cases (p (i, w))) [
      | inl x ↦
          rw x (ground (arith, o.eqb_iff k i, o.eqb_iff i k), absent_keys p k m (ground arith))
      | inr x ↦ rw x (absent_keys p k m (ground arith))
    ]
  ]

  get-cons_self : (k : K) (v : V) (m : BTreeMap K V) → get k ((k, v) ∷ m) ≡ some v
  unfolding get
  get-cons_self k v m = rw eqb_refl

  get-cons_other :
      (j k : K) (v : V) (m : BTreeMap K V) → o.eqb j k ≡ false → get j ((k, v) ∷ m) ≡ get j m
  unfolding get
  get-cons_other j k v m e = rw e

  remove-cons_self : (k : K) (v : V) (m : BTreeMap K V) → get k m ≡ none → remove k ((k, v) ∷ m) ≡ m
  unfolding remove
  remove-cons_self k v m h = rw eqb_refl (remove_absent k m h)

  remove-cons_other :
      (j k : K) (v : V) (m : BTreeMap K V)
      → o.eqb j k ≡ false
      → remove j ((k, v) ∷ m) ≡ (k, v) ∷ remove j m
  unfolding remove
  remove-cons_other j k v m e = rw e

  abbrev before : V → BTreeMap K V × List V → BTreeMap K V × List V
  before v r = (r.0, v ∷ r.1)

  remove_each-none :
      (k : K) (ks : List K) (m : BTreeMap K V)
      → get k m ≡ none
      → remove_each (k ∷ ks) m ≡ remove_each ks m
  unfolding remove_each
  remove_each-none k ks m h = rw (h, remove_each)

  remove_each-some :
      (k : K) (ks : List K) (v : V) (m : BTreeMap K V)
      → get k m ≡ some v
      → remove_each (k ∷ ks) m ≡ before v (remove_each ks (remove k m))
  unfolding remove_each
  remove_each-some k ks v m h = rw (h, remove_each)

  -- Keys that are not the first one pass it over.
  remove_each-skip :
      (ks : List K) (k : K) (v : V) (m : BTreeMap K V)
      → All (λ j. o.eqb j k ≡ false) ks
      → remove_each ks ((k, v) ∷ m) ≡ ((k, v) ∷ (remove_each ks m).0, (remove_each ks m).1)
  unfolding remove_each
  remove_each-skip [] k v m a = refl
  remove_each-skip (j ∷ ks) k v m a = elim (Option-cases (get j m)) [
    | inl e ↦
        remove_each-none j ks ((k, v) ∷ m) (get-cons_other j k v m a.0 ∙ e)
        ∙ remove_each-skip ks k v m a.1
        ∙ ap (λ r. ((k, v) ∷ r.0, r.1)) (sym (remove_each-none j ks m e))
    | inr (w, e) ↦
        remove_each-some j ks w ((k, v) ∷ m) (get-cons_other j k v m a.0 ∙ e)
        ∙ ap (λ x. before w (remove_each ks x)) (remove-cons_other j k v m a.0)
        ∙ ap (before w) (remove_each-skip ks k v (remove j m) a.1)
        ∙ ap (λ r. ((k, v) ∷ r.0, r.1)) (sym (remove_each-some j ks w m e))
  ]

  -- Taking out the keys of the entries that a test accepts, one by one, splits the map in two.
  pub remove_each-filter :
      (p : K × V → Bool) (m : BTreeMap K V)
      → Sorted m
      → remove_each (keys (filter p m)) m ≡ (filter (λ e. not (p e)) m, values (filter p m))
  unfolding remove_each
  remove_each-filter p [] s = refl
  remove_each-filter p ((k, v) ∷ m) s =
      let absent = get-Above k m s.0 in
      elim (Bool-cases (p (k, v))) [
        | inl x ↦ rw x (
            remove_each-some k (keys (filter p m)) v ((k, v) ∷ m) (get-cons_self k v m)
            ∙ ap (λ r. before v (remove_each (keys (filter p m)) r)) (remove-cons_self k v m absent)
            ∙ ap (before v) (remove_each-filter p m s.1))
        | inr x ↦ rw x (
            remove_each-skip (keys (filter p m)) k v m (absent_keys p k m absent)
            ∙ ap (λ r. ((k, v) ∷ r.0, r.1)) (remove_each-filter p m s.1))
      ]
