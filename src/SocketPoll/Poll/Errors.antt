-- ===== src/SocketPoll/Poll/Errors.antt =====
-- The results of `poll` in src/unix/gepriv/aio/SocketServicePoll.cpp are joined with the flag of an
-- error, not tested for it.
use libge.Base.{ℕ, zero, suc, ◌/◌, ◌≤◌, ◌<◌, ◌≡◌, refl, false, ◌==◌, ==_iff, bit_or, arith}
use libge.Base.Bits.{bit_or_digit}
use libge.SocketPoll.{Platform, is_busy, SockData}
use libge.SocketPoll.Poll.{fail_read, fail_write, handle_result}

or_zero : (n a b : ℕ) → b ≤ n → bit_or a b ≡ 0 → b ≡ 0
or_zero zero a b h e = omega (arith, h)
or_zero (suc n) a b h e = ground (arith, bit_or_digit a b, or_zero n (a / 2) (b / 2))

-- Whatever events a result of `poll` has, if the flag of an error is not 0, it is handled as a dead
-- socket: each operation of the socket that is in progress has the error of the socket, and its entry
-- is put in the queue.
pub handle_result_lem :
    (c : Platform) (err_val ebadf revents : ℕ) (d : SockData)
    → 0 < c.pollerr
    → handle_result c err_val ebadf revents d
      ≡ (fail_write err_val (fail_read err_val d), is_busy d.read_oper, is_busy d.write_oper)
unfolding handle_result
handle_result_lem c err_val ebadf revents d h =
    let set : (bit_or revents c.pollerr == 0) ≡ false =
      ground (arith, ==_iff (bit_or revents c.pollerr) 0, or_zero c.pollerr revents c.pollerr, h) in
    rw set refl
