-- ===== src/Controller/Timeout.antt =====
-- getReconcileTimeOut of resourcegroup_controller.go. A duration is an int64 of nanoseconds, here
-- its bit pattern below 2 ^ 64; the product is cut to 64 bits as Go cuts it.
use Prim.Native.Nat.{min}
use kpt_resource_group.Base.{ℕ, ◌+◌, ◌*◌, ◌/◌, ◌%◌, ◌<◌, ◌≡◌, Bool, ◌&&◌, arith, ltb, if◌then◌else◌}

abbrev pub second : ℕ
second = 1000000000

abbrev pub max_timeout : ℕ
max_timeout = 5 * 60 * second

-- a > b as int64, for a b that is not negative
abbrev signed_gt : ℕ → ℕ → Bool
signed_gt a b = ltb b a && ltb a 0x8000000000000000

unfoldable pub reconcile_timeout : ℕ → ℕ
reconcile_timeout count =
    let q = count / 500 + 1 in
    let timeout = q * 30 * second % 0x10000000000000000 in
    if signed_gt timeout max_timeout then max_timeout else timeout

-- For fewer than 10 ^ 11 resources the timeout is 30 seconds for each begun block of 500, and at
-- most five minutes.
pub reconcile_timeout_lem :
    (count : ℕ)
    → count < 100000000000
    → reconcile_timeout count ≡ min ((count / 500 + 1) * 30 * second) max_timeout
unfolding reconcile_timeout
reconcile_timeout_lem count h = ground arith
