-- ===== src/Policy/Choice.antt =====
-- `max_by` and `min_by` of the standard library, as the policies use them: a walk that keeps the
-- better of two.
use mathlib.Core.List.{Memᴰ}
use mathlib.Core.List.Memᴰ
use ghost_pages.Common.{
  ◌≡◌, ◌≢◌, refl, sym, subst, ◌⊎◌, inl, inr, List, [], ◌∷◌, All, Bool, true, false, filter,
  if◌then◌else◌, Bool-cases,
}

module _ {ℓ} {A : Type ℓ} where
  unfoldable pub reduce : (A → A → A) → A → List A → A
  reduce step a [] = a
  reduce step a (b ∷ bs) = reduce step (step a b) bs

  -- Of two, one that is at least as good as the other.
  abbrev pub Kept {κ} : (A → A → Type κ) → A → A → A → Type (ℓ ⊔ κ)
  Kept R a b x = ((x ≡ a) × R a b) ⊎ ((x ≡ b) × R b a)

  pub All-map {κ ρ} :
      (P : A → Type κ) (Q : A → Type ρ) (xs : List A) → ((a : A) → P a → Q a) → All P xs → All Q xs
  All-map P Q [] f a = tt
  All-map P Q (x ∷ xs) f a = (f x a.0, All-map P Q xs f a.1)

  pub Memᴰ-filter :
      (p : A → Bool) (a : A) (xs : List A) → Memᴰ a (filter p xs) → Memᴰ a xs × (p a ≡ true)
  Memᴰ-filter p a [] m = absurd (Memᴰ.not-nil m)
  Memᴰ-filter p a (x ∷ xs) m =
      let rest = filter p xs in
      let put = λ (b : Bool). if b then x ∷ rest else rest in
      let descend : Memᴰ a rest → Memᴰ a (x ∷ xs) × (p a ≡ true) =
        λ n. (let r = Memᴰ-filter p a xs n in (Memᴰ.tail r.0, r.1)) in
      elim (Bool-cases (p x)) [
        | inl e ↦ elim (Memᴰ.cases_cons (subst (λ b. Memᴰ a (put b)) e m)) [
          | inl q ↦ (Memᴰ.head q, subst (λ y. p y ≡ true) (sym q) e)
          | inr n ↦ descend n
        ]
        | inr e ↦ descend (subst (λ b. Memᴰ a (put b)) e m)
      ]

  -- What holds of the elements that pass a filter.
  pub All-filter {κ} :
      (p : A → Bool) (P : A → Type κ) (xs : List A)
      → All P (filter p xs)
      → All (λ x. (p x ≡ false) ⊎ P x) xs
  All-filter p P [] a = tt
  All-filter p P (x ∷ xs) a =
      let rest = filter p xs in
      let put = λ (b : Bool). if b then x ∷ rest else rest in
      elim (Bool-cases (p x)) [
        | inl e ↦ let b = subst (λ y. All P (put y)) e a in (inr b.0, All-filter p P xs b.1)
        | inr e ↦ (inl e, All-filter p P xs (subst (λ y. All P (put y)) e a))
      ]

  pub filter-nil : (p : A → Bool) (xs : List A) → filter p xs ≡ [] → All (λ x. p x ≡ false) xs
  filter-nil p [] e = tt
  filter-nil p (x ∷ xs) e =
      let rest = filter p xs in
      let put = λ (b : Bool). if b then x ∷ rest else rest in
      elim (Bool-cases (p x)) [
        | inl q ↦ absurd (cons-not-nil x rest (subst (λ y. put y ≡ []) q e))
        | inr q ↦ (q, filter-nil p xs (subst (λ y. put y ≡ []) q e))
      ]
    where
      cons-not-nil : (y : A) (ys : List A) → y ∷ ys ≢ []
      cons-not-nil y ys h = cc

  module _ {κ} (R : A → A → Type κ) (R_refl : (a : A) → R a a)
      (R_trans : (a b c : A) → R a b → R b c → R a c) (step : A → A → A)
      (keeps : (a b : A) → Kept R a b (step a b)) where
    kept-both : (a b x : A) → Kept R a b x → R x a × R x b
    kept-both a b x (inl (e, r)) = subst (λ y. R y a × R y b) (sym e) (R_refl a, r)
    kept-both a b x (inr (e, r)) = subst (λ y. R y a × R y b) (sym e) (r, R_refl b)

    kept-member : (a b x : A) (bs : List A) → Kept R a b x → Memᴰ x (a ∷ b ∷ bs)
    kept-member a b x bs (inl (e, _)) = Memᴰ.head e
    kept-member a b x bs (inr (e, _)) = Memᴰ.tail (Memᴰ.head e)

    -- What is kept is one of the elements, and at least as good as each.
    pub reduce-best :
        (a : A) (bs : List A)
        → Memᴰ (reduce step a bs) (a ∷ bs) × All (λ x. R (reduce step a bs) x) (a ∷ bs)
    unfolding reduce
    reduce-best a [] = (Memᴰ.head refl, (R_refl a, tt))
    reduce-best a (b ∷ bs) =
        let x = step a b in
        let y = reduce step x bs in
        let (m, (r, rs)) = reduce-best x bs in
        let (ra, rb) = kept-both a b x (keeps a b) in
        (
          elim (Memᴰ.cases_cons m) [
            | inl e ↦ Memᴰ.cast e (kept-member a b x bs (keeps a b))
            | inr n ↦ Memᴰ.tail (Memᴰ.tail n)
          ],
          (R_trans y x a r ra, (R_trans y x b r rb, rs)),
        )
