-- ===== src/Policy/Unlock/Early.antt =====
-- main/start_policy.c: `detect_attackers` reads the clock again, after the round has. If the second
-- changes in between, the lock is dated later than the sweep of the same round.
use anti_dos.Base.{
  ℕ, zero, suc, ◌^◌, ◌<◌, ◌≡◌, ◌≢◌, true, false, List, [], ◌∷◌, some, arith, get_elem?,
}
use anti_dos.Maps.Kernel.{Sys, Text}
use anti_dos.Policy.{World}
use anti_dos.Policy.BlackList.{ServesBlackList}
use anti_dos.Policy.Unlock.{sweep}
use anti_dos.Policy.Unlock.Expiry.{is_expired, expires, sweep_lem}

early-is_expired : (a t now : ℕ) → a ≢ 0 → now < t → t < 2 ^ 32 → is_expired now (a, t) ≡ true
early-is_expired a t now n early small = ground arith

expires-get_elem? :
    (now a t i : ℕ) (rows : List (ℕ × ℕ))
    → get_elem? rows i ≡ some (a, t)
    → is_expired now (a, t) ≡ true
    → expires now a rows ≡ true
unfolding expires
expires-get_elem? now a t i [] e x = cc
expires-get_elem? now a t zero (row ∷ rows) e x = ground (arith, e, x)
expires-get_elem? now a t (suc i) (row ∷ rows) e x =
    ground (arith, expires-get_elem? now a t i rows e x)

-- A sweep ends each lock that is dated later than the time it runs at, in whatever row it stands:
-- the age wraps around, and the address is unblocked.
pub sweep_early :
    (sys : Sys) (dir : Text) (serves : ServesBlackList sys dir) (now a t i : ℕ)
    (rows : List (ℕ × ℕ)) (w : World sys)
    → a ≢ 0
    → now < t
    → t < 2 ^ 32
    → get_elem? rows i ≡ some (a, t)
    → serves.holds (sweep sys dir now rows w).1.store a ≡ false
sweep_early sys dir serves now a t i rows w n early small e = ground (
  arith,
  (sweep_lem sys dir serves now rows w).1 a,
  expires-get_elem? now a t i rows e (early-is_expired a t now n early small),
)
