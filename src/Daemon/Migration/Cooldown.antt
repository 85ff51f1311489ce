-- ===== src/Daemon/Migration/Cooldown.antt =====
-- When a chunk may be evicted.
use ghost_pages.Common.{
  ℕ, ◌-◌, ◌≤◌, ◌≡◌, refl, ◌↔◌, true, false, if◌then◌else◌, Bool-cases, inl, inr, leb, Option, none,
  some, ◌==◌, arith, nat_ord,
}
use ghost_pages.Common.BTreeMap.{get, get-insert}
use ghost_pages.Core.Types.{ChunkId}
use ghost_pages.Daemon.Migration.{
  EvictionCooldown, recent, can_evict, record_promotion, MigrationEngine, mark_complete,
}

-- The cooldown has passed since the time that is recorded, if there is one.
abbrev pub Quiet : ℕ → ℕ → Option ℕ → Type 0
Quiet cooldown now none = Unit {0}
Quiet cooldown now (some last) = cooldown ≤ now - last

recent-Quiet : (c now : ℕ) (o : Option ℕ) → (recent c now o ≡ false) ↔ Quiet c now o
unfolding recent
recent-Quiet c now none = (λ _. tt, λ _. refl)
recent-Quiet c now (some last) = (λ h. ground arith, λ h. ground arith)

-- A chunk may be evicted exactly when the cooldown has passed both since its last eviction and
-- since its last promotion.
pub can_evict_iff :
    (c : EvictionCooldown) (id : ChunkId) (now : ℕ)
    → (can_evict c id now ≡ true) ↔ (
        Quiet c.cooldown_us now (get id c.last_eviction)
        × Quiet c.cooldown_us now (get id c.last_promotion))
unfolding can_evict
can_evict_iff c id now =
    let e = recent-Quiet c.cooldown_us now (get id c.last_eviction) in
    let p = recent-Quiet c.cooldown_us now (get id c.last_promotion) in
    (λ h. (e.0 (ground arith), p.0 (ground arith)), λ h. rw (e.1 h.0, p.1 h.1))

-- After a successful migration its chunk may be evicted exactly when the cooldown has passed both
-- since its last eviction and since the migration, and the other chunks as before; a failed migration
-- changes nothing for any chunk.
pub mark_complete-can_evict :
    (t t' : ℕ) (e : MigrationEngine) (id j : ChunkId) (bytes now : ℕ)
    → let c = e.eviction_cooldown in
      (can_evict (mark_complete t t' e id bytes true).eviction_cooldown j now ≡ (
        if j == id
        then (if recent c.cooldown_us now (get j c.last_eviction)
            then false
            else leb c.cooldown_us (now - t'))
        else can_evict c j now))
      × (can_evict (mark_complete t t' e id bytes false).eviction_cooldown j now
          ≡ can_evict c j now)
unfolding mark_complete record_promotion can_evict recent
mark_complete-can_evict t t' e id j bytes now = (
  elim (Bool-cases (j == id)) [
    | inl h ↦ rw (get-insert, h) (ground arith)
    | inr h ↦ rw (get-insert, h) refl
  ],
  refl,
)
