-- ===== src/SocketPoll/Poll.antt =====
-- What `poll` of src/unix/gepriv/aio/SocketServicePoll.cpp asks for a socket, and what it makes of the
-- answer.
pub mod Errors
use libge.Base.{
  ℕ, ◌+◌, Bool, true, false, not, ◌&&◌, ◌||◌, Option, none, some, ◌==◌, if◌then◌else◌, bit_or,
}
use libge.SocketPoll.{Platform, Oper, is_busy, SockData}

-- the events that are asked for
unfoldable pub events_of : Platform → SockData → ℕ
events_of c d =
    let input = if is_busy d.read_oper && not d.read_complete then bit_or 0 c.pollin else 0 in
    if is_busy d.write_oper && not d.write_complete then bit_or input c.pollout else input

abbrev pub fail_read : ℕ → SockData → SockData
fail_read err d = if is_busy d.read_oper then record d { read_error = some err } else d

abbrev pub fail_write : ℕ → SockData → SockData
fail_write err d = if is_busy d.write_oper then record d { write_error = some err } else d

-- The data, and whether its read and its write entry are put in the queue. err_val is the error of
-- the socket, and ebadf EBADF.
unfoldable pub handle_result : Platform → ℕ → ℕ → ℕ → SockData → SockData × Bool × Bool
handle_result c err_val ebadf revents d =
    if not (bit_or revents c.pollerr == 0)
    then (fail_write err_val (fail_read err_val d), is_busy d.read_oper, is_busy d.write_oper)
    else if not (bit_or revents c.pollnval == 0)
    then (fail_write ebadf (fail_read ebadf d), is_busy d.read_oper, is_busy d.write_oper)
    else if not (bit_or revents c.pollhup == 0)
    then (record d { write_error = some ebadf }, not (bit_or revents c.pollin == 0), true)
    else (d, not (bit_or revents c.pollin == 0), not (bit_or revents c.pollout == 0))
