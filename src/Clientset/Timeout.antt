-- ===== src/Clientset/Timeout.antt =====
-- The timeout that `List`, `Watch` and `DeleteCollection` take from the list options.
use vihara.Prelude.{ℕ, ◌*◌, ◌-◌, ◌≤◌, ◌≡◌, some, leb, pos, negsuc, arith, if◌then◌else◌}
use vihara.Clientset.{ListOptions, wrap_int64, of_seconds, list_timeout}

-- A timeout of up to 9223372036 seconds is taken as it is, in nanoseconds. From there on, up to
-- 18446744073 seconds, the product wraps around to a negative duration.
pub list_timeout_exact :
    (opts : ListOptions) (n : ℕ)
    → opts.timeout_seconds ≡ some (pos n)
    → n ≤ 18_446_744_073
    → list_timeout opts ≡ (
        if leb n 9_223_372_036
        then pos (n * 1_000_000_000)
        else negsuc (18_446_744_073_709_551_615 - n * 1_000_000_000))
unfolding list_timeout of_seconds wrap_int64
list_timeout_exact opts n given small = ground arith
