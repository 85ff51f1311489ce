-- ===== src/Common/Order.antt =====
-- Keys of an ordered map: a Boolean equality and a Boolean strict order (Rust's `Ord`).
use Prim.Native.Nat.{ℕ}
use mathlib.Core.Path.{◌≡◌}
use mathlib.Core.Logic.{◌↔◌}
use mathlib.Core.Bool.{Bool, true, false}
use native.Mathlib.Omega.{arith}
use ghost_pages.Common.Tests.{ltb, ◌==◌}

pub record Ord {ℓ} (K : Type ℓ) : Type ℓ where
  pub eqb : K → K → Bool
  pub lt : K → K → Bool
  pub eqb_iff : (a b : K) → (eqb a b ≡ true) ↔ (a ≡ b)
  pub lt_irrefl : (a : K) → lt a a ≡ false
  pub lt_trans : (a b c : K) → lt a b ≡ true → lt b c ≡ true → lt a c ≡ true
  pub lt_total : (a b : K) → lt a b ≡ false → eqb a b ≡ false → lt b a ≡ true

pub nat_eqb_iff : (a b : ℕ) → ((a == b) ≡ true) ↔ (a ≡ b)
nat_eqb_iff a b = ground arith

pub nat_irrefl : (a : ℕ) → ltb a a ≡ false
nat_irrefl a = ground arith

pub nat_trans : (a b c : ℕ) → ltb a b ≡ true → ltb b c ≡ true → ltb a c ≡ true
nat_trans a b c p q = ground arith

pub nat_total : (a b : ℕ) → ltb a b ≡ false → (a == b) ≡ false → ltb b a ≡ true
nat_total a b p q = ground arith

instance abbrev pub nat_ord : Ord ℕ
nat_ord = record {
  eqb = ◌==◌;
  lt = ltb;
  eqb_iff = nat_eqb_iff;
  lt_irrefl = nat_irrefl;
  lt_trans = nat_trans;
  lt_total = nat_total;
}
