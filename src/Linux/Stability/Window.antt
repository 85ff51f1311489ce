-- ===== src/Linux/Stability/Window.antt =====
-- The checker remembers the most recent temperatures, and judges the latest of them.
use ghost_pages.Common.{
  ℕ, suc, ◌-◌, ◌*◌, ◌≤◌, ◌<◌, ◌≡◌, ◌↔◌, refl, sym, ap, subst, ◌∙◌, Bool, true, false, List, [], ◌∷◌,
  ◌++◌, All, Option, none, some, length, drop, all, length-append, length-drop, ltb, if◌then◌else◌,
  arith, Bool-cases, Option-cases, inl, inr, ◌≢◌,
}
use mathlib.Core.List.{append_assoc, append-nil}
use ghost_pages.Common.Suffix.{last_n, last_n-at, last_n-append, drop-drop}
use ghost_pages.Common.Order.{Ord}
use ghost_pages.Common.BTreeMap.{get, get-insert, eqb_refl}
use ghost_pages.Linux.Temperature.{Temperature, temperature_eqb, StabilityConfig}
use ghost_pages.Linux.Stability.{
  StabilityChecker, trim, entry, all_same, new, record_temperature, is_stable, record_all,
}

trim_lem : (n : ℕ) (ts : List Temperature) → trim n ts ≡ last_n n ts
unfolding trim
trim_lem n [] = sym (last_n-at n 0 [] (omega arith))
trim_lem n (t ∷ ts) = elim (Bool-cases (ltb n (length (t ∷ ts)))) [
  | inl e ↦
      let k : length (t ∷ ts) - n ≡ suc (length ts - n) = ground arith in
      rw (e, trim) (trim_lem n ts ∙ sym (last_n-at n (suc (length ts - n)) (t ∷ ts) k))
  | inr e ↦
      let k : length (t ∷ ts) - n ≡ 0 = ground arith in
      rw (e, trim) (sym (last_n-at n 0 (t ∷ ts) k))
]

last_n-short : (n : ℕ) (ts : List Temperature) → length ts ≤ n → last_n n ts ≡ ts
last_n-short n ts h = last_n-at n 0 ts (omega arith)

length-last_n : (n : ℕ) (ts : List Temperature) → length (last_n n ts) ≤ n
length-last_n n ts = omega (arith, length-drop (length ts - n) ts)

last_n-last_n : (m n : ℕ) (ts : List Temperature) → m ≤ n → last_n m (last_n n ts) ≡ last_n m ts
last_n-last_n m n ts h =
    let k = length ts - n in
    drop-drop (length (drop k ts) - m) k ts ∙ ap (λ i. drop i ts) (omega (arith, length-drop k ts))

temperature_eqb_iff : (a b : Temperature) → (temperature_eqb a b ≡ true) ↔ (a ≡ b)
temperature_eqb_iff a b = (λ h. ground arith, λ h. ground arith)

all-All :
    (t : Temperature) (ts : List Temperature)
    → (all (λ u. temperature_eqb u t) ts ≡ true) ↔ All (λ u. u ≡ t) ts
all-All t [] = (λ _. tt, λ _. refl)
all-All t (u ∷ ts) =
    let (f, g) = temperature_eqb_iff u t in
    let (h, k) = all-All t ts in
    ((λ e. (f (ground arith), h (ground arith))), (λ e. rw (g e.0, k e.1) refl))

-- Every temperature of the list is the same one.
abbrev pub Constant : List Temperature → Type 0
Constant ts = (t : Temperature) × All (λ u. u ≡ t) ts

some-true : (b : Bool) → some b ≡ some true → b ≡ true
some-true true h = refl
some-true false h = cc

all_same_iff : (ts : List Temperature) → 0 < length ts → (all_same ts ≡ some true) ↔ Constant ts
unfolding all_same
all_same_iff [] h = absurd (omega arith)
all_same_iff (t ∷ ts) h = (
  (λ e. (t, (all-All t (t ∷ ts)).0 (some-true _ e))),
  (λ c. ap some ((all-All t (t ∷ ts)).1 (subst (λ x. All (λ u. u ≡ x) (t ∷ ts)) (sym c.1.0) c.1))),
)

module _ {K F : Type 0} ⦃o : Ord K⦄ where
  abbrev window : StabilityChecker K F → ℕ
  window c = c.config.temperature_stability_window

  abbrev past : StabilityChecker K F → K → List Temperature
  past c k = entry (get k c.history)

  past-record :
      (c : StabilityChecker K F) (k j : K) (t : Temperature)
      → past (record_temperature c k t) j
        ≡ (if o.eqb j k then last_n (window c * 2) (past c k ++ t ∷ []) else past c j)
  unfolding record_temperature entry
  past-record c k j t = elim (Bool-cases (o.eqb j k)) [
    | inl e ↦ rw (get-insert, e, entry) (trim_lem (window c * 2) (past c k ++ t ∷ []))
    | inr e ↦ rw (get-insert, e, entry) refl
  ]

  record_all-past :
      (c : StabilityChecker K F) (k : K) (ts : List Temperature)
      → length (past c k) ≤ window c * 2
      → past (record_all c k ts) k ≡ last_n (window c * 2) (past c k ++ ts)
  unfolding record_all record_temperature
  record_all-past c k [] h = sym (
      last_n-short (window c * 2) (past c k ++ []) (omega (arith, length-append (past c k) []))
      ∙ append-nil (past c k))
  record_all-past c k (t ∷ ts) h =
      let n = window c * 2 in
      let xs = past c k ++ t ∷ [] in
      let first : past (record_temperature c k t) k ≡ last_n n xs =
        past-record c k k t ∙ rw eqb_refl refl in
      record_all-past (record_temperature c k t) k ts
        (omega (arith, ap length first, length-last_n n xs))
      ∙ ap (λ x. last_n n (x ++ ts)) first
      ∙ last_n-append n xs ts
      ∙ ap (last_n n) (append_assoc (past c k) (t ∷ []) ts)

  record_all-window :
      (c : StabilityChecker K F) (k : K) (ts : List Temperature)
      → window (record_all c k ts) ≡ window c
  unfolding record_all record_temperature
  record_all-window c k [] = refl
  record_all-window c k (t ∷ ts) = record_all-window (record_temperature c k t) k ts

  is_stable-past :
      (c : StabilityChecker K F) (k : K)
      → 0 < window c
      → is_stable c k ≡ (
          if ltb (length (past c k)) (window c)
          then some false
          else all_same (last_n (window c) (past c k)))
  unfolding is_stable entry
  is_stable-past c k h = elim (Option-cases (get k c.history)) [
    | inl e ↦
        let short : ltb 0 (window c) ≡ true = ground arith in rw (e, is_stable, entry, short) refl
    | inr (ts, e) ↦ rw (e, is_stable, entry) refl
  ]

abbrev Latest : ℕ → List Temperature → Option Bool → Type 0
Latest w ts r = ((r ≡ some true) ↔ ((w ≤ length ts) × Constant (last_n w ts))) × (r ≢ none)

all_same_some : (ts : List Temperature) → 0 < length ts → all_same ts ≢ none
unfolding all_same
all_same_some [] h = absurd (omega arith)
all_same_some (t ∷ ts) h = λ e. cc

judged :
    (w : ℕ) (ts : List Temperature)
    → 0 < w
    → Latest w ts
        (if ltb (length (last_n (w * 2) ts)) w then some false else all_same (last_n w ts))
judged w ts h = elim (Bool-cases (ltb (length (last_n (w * 2) ts)) w)) [
  | inl e ↦
      let few : length ts < w = ground (arith, length-drop (length ts - w * 2) ts) in
      rw e (((λ q. cc), (λ q. absurd (omega (arith, q.0)))), (λ q. cc))
  | inr e ↦
      let many : w ≤ length ts = ground (arith, length-drop (length ts - w * 2) ts) in
      let full : 0 < length (last_n w ts) = omega (arith, length-drop (length ts - w) ts) in
      let (f, g) = all_same_iff (last_n w ts) full in
      rw e (((λ q. (many, f q)), (λ q. g q.1)), all_same_some (last_n w ts) full)
]

new-past :
    {K F : Type 0} ⦃o : Ord K⦄ (cfg : StabilityConfig F) (k : K)
    → entry (get k (new cfg).history) ≡ []
unfolding new get entry
new-past cfg k = refl

module _ {K F : Type 0} ⦃o : Ord K⦄ where
  -- With a window of one at least, a region is stable exactly when at least as many temperatures
  -- were recorded for it as the window holds and the latest of them, as many as that, are all the
  -- same; and the check never panics, however many temperatures were recorded.
  pub is_stable_iff :
      (cfg : StabilityConfig F) (k : K) (ts : List Temperature)
      → 0 < cfg.temperature_stability_window
      → let c = record_all (new cfg) k ts in
        let w = cfg.temperature_stability_window in
        ((is_stable c k ≡ some true) ↔ ((w ≤ length ts) × Constant (last_n w ts)))
        × (is_stable c k ≢ none)
  unfolding new
  is_stable_iff cfg k ts h =
      let w = cfg.temperature_stability_window in
      let c = record_all (new cfg) k ts in
      let p : entry (get k c.history) ≡ last_n (w * 2) ts =
        record_all-past (new cfg) k ts (omega (arith, ap length (new-past cfg k)))
        ∙ ap (λ x. last_n (w * 2) (x ++ ts)) (new-past cfg k) in
      let e : is_stable c k
          ≡ (if ltb (length (last_n (w * 2) ts)) w then some false else all_same (last_n w ts)) =
        is_stable-past c k (omega (arith, record_all-window (new cfg) k ts))
        ∙ ap
            (λ n.
              if ltb (length (entry (get k c.history))) n
              then some false
              else all_same (last_n n (entry (get k c.history))))
            (record_all-window (new cfg) k ts)
        ∙ ap (λ x. if ltb (length x) w then some false else all_same (last_n w x)) p
        ∙ ap (λ x. if ltb (length (last_n (w * 2) ts)) w then some false else all_same x)
            (last_n-last_n w (w * 2) ts (omega arith)) in
      rw e (judged w ts h)
