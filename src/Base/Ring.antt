-- ===== src/Base/Ring.antt =====
-- The neighbours in a ring of n nodes.
use Prim.Native.Nat.{ℕ, zero, suc, ◌+◌, ◌-◌, ◌%◌, ◌<◌, ◌≤◌}
use mathlib.Core.Path.{◌≡◌}
use mathlib.Core.Logic.{◌≢◌}
use native.Mathlib.Omega.{arith}
use velox_dfs.Base.Tests.{◌==◌, if◌then◌else◌}

pub succ_mod : (n k : ℕ) → k < n → (k + 1) % n ≡ (if k + 1 == n then 0 else k + 1)
succ_mod n k h = grind arith

pub pred_mod : (n k : ℕ) → k < n → (k + n - 1) % n ≡ (if k == 0 then n - 1 else k - 1)
pred_mod n zero h = grind arith
pred_mod n (suc k) h = let e : (suc k + n - 1) % n ≡ k = grind arith in rw e (ground arith)

pub ring_facts :
    (n k : ℕ)
    → 3 ≤ n
    → k < n
    → ((k + 1) % n ≢ k)
      × ((k + n - 1) % n ≢ k)
      × (((k + n - 1) % n + 1) % n ≡ k)
      × (((k + 1) % n + 1) % n ≢ k)
      × ((k + n - 1) % n < n)
      × ((k + 1) % n < n)
      × ((k + 1) % n ≢ (k + n - 1) % n)
ring_facts n k h f =
    let a = succ_mod n k f in
    let b = pred_mod n k f in
    let c : (k + 1) % n < n = ground arith in
    let d : (k + n - 1) % n < n = ground arith in
    ground (arith, succ_mod n ((k + 1) % n) c, succ_mod n ((k + n - 1) % n) d)
