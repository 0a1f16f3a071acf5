-- ===== src/Clock.antt =====
-- The clock that the loops hand to `ikcp_update` and the pause between their rounds
-- (code/kcp/kcp_socket.h). The time of `gettimeofday` is an argument.
use kcp_fake_tcp.Base.{ℕ, ◌+◌, ◌-◌, ◌*◌, ◌/◌, ◌%◌, ◌<◌, ◌≡◌, u32, arith}

-- `itimeofday` on a POSIX system passes seconds and microseconds on; `iclock64` is their count of
-- milliseconds.
unfoldable pub iclock64 : ℕ → ℕ → ℕ
iclock64 sec usec = sec * 1000 + usec / 1000

unfoldable pub iclock : ℕ → ℕ → ℕ
unfolding iclock64
iclock sec usec = u32 (iclock64 sec usec)

-- A difference of `unsigned long`s.
unfoldable pub sub64 : ℕ → ℕ → ℕ
sub64 a b = (a + (18446744073709551616 - b)) % 18446744073709551616

-- A shift of an `unsigned long` to the left, by the power of 2 that it multiplies with.
unfoldable pub shl64 : ℕ → ℕ → ℕ
shl64 a power = (a * power) % 18446744073709551616

-- The argument of `usleep` in `isleep`, whose type has 32 bits.
unfoldable pub isleep_usec : ℕ → ℕ
unfolding sub64 shl64
isleep_usec millisecond =
    u32 (sub64 (sub64 (shl64 millisecond 1024) (shl64 millisecond 16)) (shl64 millisecond 8))

-- When `millis` milliseconds pass, over any change of the second, `iclock` has grown by as many
-- modulo 2 ^ 32.
pub iclock-elapsed :
    (sec usec sec' usec' millis : ℕ)
    → usec < 1000000
    → usec' < 1000000
    → sec' * 1000000 + usec' ≡ sec * 1000000 + usec + millis * 1000
    → iclock sec' usec' ≡ u32 (iclock sec usec + millis)
unfolding iclock iclock64
iclock-elapsed sec usec sec' usec' millis h h' e = omega arith

-- `isleep` asks `usleep` for a thousand times its argument, modulo 2 ^ 32.
pub isleep_usec_lem : (millisecond : ℕ) → isleep_usec millisecond ≡ u32 (1000 * millisecond)
unfolding isleep_usec sub64 shl64
isleep_usec_lem millisecond = omega arith
