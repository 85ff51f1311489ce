-- ===== src/Common/Suffix.antt =====
-- The last elements of a list.
use Prim.Native.Nat.{ℕ, zero, suc, ◌+◌, ◌-◌, ◌≤◌}
use native.Mathlib.Nat.{suc-add}
use mathlib.Core.Path.{◌≡◌, refl, sym, ap, ◌∙◌}
use mathlib.Core.List.{List, [], ◌∷◌, ◌++◌}
use native.Mathlib.Omega.{arith}
use ghost_pages.Common.Lists.{length, drop, length-append, length-drop}

module _ {ℓ} {E : Type ℓ} where
  -- The last `n` of a list.
  abbrev pub last_n : ℕ → List E → List E
  last_n n xs = drop (length xs - n) xs

  drop-append : (k : ℕ) (xs ys : List E) → k ≤ length xs → drop k (xs ++ ys) ≡ drop k xs ++ ys
  drop-append zero xs ys h = refl
  drop-append (suc k) [] ys h = absurd (omega arith)
  drop-append (suc k) (x ∷ xs) ys h = drop-append k xs ys (omega arith)

  drop-nil : (j : ℕ) → drop {A = E} j [] ≡ []
  drop-nil zero = refl
  drop-nil (suc j) = refl

  pub drop-drop : (j k : ℕ) (xs : List E) → drop j (drop k xs) ≡ drop (k + j) xs
  drop-drop j zero xs = ap (λ n. drop n xs) (omega arith)
  drop-drop j (suc k) [] = rw suc-add (drop-nil j)
  drop-drop j (suc k) (x ∷ xs) = rw suc-add (drop-drop j k xs)

  pub last_n-at : (n k : ℕ) (xs : List E) → length xs - n ≡ k → last_n n xs ≡ drop k xs
  last_n-at n k xs e = ap (λ i. drop i xs) e

  pub last_n-append : (n : ℕ) (xs ys : List E) → last_n n (last_n n xs ++ ys) ≡ last_n n (xs ++ ys)
  last_n-append n xs ys =
      let k = length xs - n in
      let j = length (drop k xs ++ ys) - n in
      ap (drop j) (sym (drop-append k xs ys (omega arith)))
      ∙ drop-drop j k (xs ++ ys)
      ∙ ap (λ i. drop i (xs ++ ys))
          (omega (arith, length-append (drop k xs) ys, length-append xs ys, length-drop k xs))
