-- ===== src/Policy/Lru/Victims.antt =====
-- Which chunk is evicted.
use mathlib.Core.List.{Memᴰ}
use ghost_pages.Common.{
  ℕ, ◌≤◌, ◌≡◌, refl, sym, subst, ◌⊎◌, inl, inr, Bool, true, false, List, [], ◌∷◌, some, All, filter,
  ltb, Bool-cases, arith,
}
use ghost_pages.Core.Types.{ChunkId}
use ghost_pages.Core.Meta.{ChunkMeta}
use ghost_pages.Policy.Choice.{reduce, Kept, Memᴰ-filter, All-filter, filter-nil, reduce-best}
use ghost_pages.Policy.Lru.{LruConfig, older, oldest, among, is_resident, select_viction}

abbrev Candidate : Type 0
Candidate = ChunkId × ChunkMeta

-- Not accessed later.
abbrev pub NotLater : Candidate → Candidate → Type 0
NotLater c d = c.1.last_accessed ≤ d.1.last_accessed

older-Kept : (c d : Candidate) → Kept NotLater c d (older c d)
unfolding older
older-Kept c d = elim (Bool-cases (ltb d.1.last_accessed c.1.last_accessed)) [
  | inl e ↦ inr (rw (e, older) refl, ground arith)
  | inr e ↦ inl (rw (e, older) refl, ground arith)
]

-- The chunk that is found is one of the list, and none of the list was accessed before it.
oldest-best :
    (c : Candidate) (cs : List Candidate)
    → (v : Candidate) × (oldest (c ∷ cs) ≡ some v.0) × Memᴰ v (c ∷ cs) × All (NotLater v) (c ∷ cs)
unfolding oldest
oldest-best c cs =
    let r =
      reduce-best NotLater (λ a. omega arith) (λ a b d p q. omega arith) older older-Kept c cs in
    (reduce older c cs, refl, r.0, r.1)

module _ (cfg : LruConfig) (wall : ℕ) where
  abbrev resident : Candidate → Bool
  resident d = is_resident cfg wall d.1

  -- Either the chunk is not resident, or it was not accessed before the victim.
  abbrev pub Spares : Candidate → Candidate → Type 0
  Spares v d = (resident d ≡ false) ⊎ NotLater v d

  -- What the policy promises of a victim among the candidates.
  pub record IsVictim (candidates : List Candidate) (v : Candidate) : Type 0 where
    pub candidate : Memᴰ v candidates
    pub oldest_resident : All (Spares v) candidates
    pub eligible :
        (resident v ≡ true)
        ⊎ (All (λ d. resident d ≡ false) candidates × All (NotLater v) candidates)

  on_residents :
      (c : Candidate) (cs residents : List Candidate)
      → filter resident (c ∷ cs) ≡ residents
      → (v : Candidate) × (among cfg wall (c ∷ cs) residents ≡ some v.0) × IsVictim (c ∷ cs) v
  unfolding among
  on_residents c cs [] e =
      let (v, q, m, a) = oldest-best c cs in
      let none_of = filter-nil resident (c ∷ cs) e in
      (
        v,
        q,
        record {
          candidate = m;
          oldest_resident = All-filter resident (NotLater v) (c ∷ cs) (rw e tt);
          eligible = inr (none_of, a);
        },
      )
  on_residents c cs (d ∷ ds) e =
      let (v, q, m, a) = oldest-best d ds in
      let f = Memᴰ-filter resident v (c ∷ cs) (subst (Memᴰ v) (sym e) m) in
      (
        v,
        q,
        record {
          candidate = f.0;
          oldest_resident =
              All-filter resident (NotLater v) (c ∷ cs) (subst (All (NotLater v)) (sym e) a);
          eligible = inl f.1;
        },
      )

  -- Where there is a candidate, one is evicted: it has been resident for the configured time and no
  -- other candidate that has was accessed before it; only where none has been resident for so long
  -- is it one that is not, and then no candidate at all was accessed before it.
  pub select_viction-IsVictim :
      (c : Candidate) (cs : List Candidate)
      → (v : Candidate) × (select_viction cfg wall (c ∷ cs) ≡ some v.0) × IsVictim (c ∷ cs) v
  unfolding select_viction
  select_viction-IsVictim c cs = on_residents c cs (filter resident (c ∷ cs)) refl
