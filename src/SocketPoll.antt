-- ===== src/SocketPoll.antt =====
-- The service for sockets of src/unix/gepriv/aio/SocketServicePoll.cpp. The calls of the operating
-- system and its constants are parameters. A callback and its user data are one number; the bytes that
-- are received and sent are not part of the model, only how many they are.
pub mod Submit
pub mod Queue
pub mod Poll
pub mod Process
use libge.Base.{
  ℕ, zero, suc, ◌+◌, ◌-◌, ◌%◌, ◌^◌, min, Bool, true, false, not, ◌&&◌, ◌||◌, List, [], ◌∷◌, Option,
  none, some, ◌==◌, if◌then◌else◌, Run, stuck, fault, null_pointer, ok, ◌>>=◌,
}

-- what a call of the operating system returns: a number, or -1 with errno
pub data Sys : Type 0 where
  returned : ℕ → Sys
  failed : ℕ → Sys

-- EINTR, EAGAIN, EWOULDBLOCK, EINPROGRESS, INT_MAX and the flags of poll
pub record Platform : Type 0 where
  pub eintr : ℕ
  pub eagain : ℕ
  pub ewouldblock : ℕ
  pub einprogress : ℕ
  pub int_max : ℕ
  pub pollin : ℕ
  pub pollout : ℕ
  pub pollerr : ℕ
  pub pollnval : ℕ
  pub pollhup : ℕ

-- the calls that a socket's file descriptor is passed to
pub record SocketOs (S : Type 0) : Type 0 where
  pub os_accept : S → ℕ → Sys × S
  pub os_connect : S → ℕ → Sys × S
  pub os_recv : S → ℕ → ℕ → Sys × S
  pub os_send : S → ℕ → ℕ → ℕ → Sys × S

-- the FLAG_ constants
pub data Oper : Type 0 where
  no_oper flag_accept flag_connect flag_read flag_write flag_sendfile : Oper

abbrev pub is_busy : Oper → Bool
is_busy no_oper = false
is_busy _ = true

-- acceptSocket is none where it is NULL, and else its file descriptor, which is none for -1.
pub record SockData : Type 0 where
  pub fd : ℕ
  pub read_oper : Oper
  pub read_callback : Option ℕ
  pub read_buffer_pos : ℕ
  pub read_buffer_len : ℕ
  pub read_error : Option ℕ
  pub read_complete : Bool
  pub accept_socket : Option (Option ℕ)
  pub write_oper : Oper
  pub write_callback : Option ℕ
  pub write_buffer_pos : ℕ
  pub write_buffer_len : ℕ
  pub write_error : Option ℕ
  pub write_complete : Bool

-- the constructor, with the socket that is set first in each use of it
abbrev pub new_data : ℕ → SockData
new_data fd = record {
  fd = fd;
  read_oper = no_oper;
  read_callback = none;
  read_buffer_pos = 0;
  read_buffer_len = 0;
  read_error = none;
  read_complete = false;
  accept_socket = none;
  write_oper = no_oper;
  write_callback = none;
  write_buffer_pos = 0;
  write_buffer_len = 0;
  write_error = none;
  write_complete = false;
}

module _ {S : Type 0} where
  -- a call that is done again while it is interrupted
  unfoldable pub retry : ℕ → Platform → (S → Sys × S) → S → Run (Sys × S)
  retry zero c call s = stuck
  retry (suc fuel) c call s =
      let r = call s in
      elim r.0 as (λ _. Run (Sys × S)) [
        | returned n ↦ ok (returned n, r.1)
        | failed err ↦
            let again = retry fuel c call r.1 in
            if err == c.eintr then again else ok (failed err, r.1)
      ]

abbrev pub would_block : Platform → ℕ → Bool
would_block c err = not (not (err == c.eagain) && not (err == c.ewouldblock))

-- the file descriptor written through acceptSocket
abbrev pub accepted : SockData → ℕ → Run SockData
accepted d n = elim d.accept_socket as (λ _. Run SockData) [
  | none ↦ fault null_pointer
  | some old ↦ ok (record d { accept_socket = some (some n); read_complete = true })
]

abbrev pub end_accept : Platform → SockData → Sys → Run SockData
end_accept c d (returned n) = accepted d n
end_accept c d (failed err) =
    if not (err == c.eagain) || not (err == c.ewouldblock)
    then ok (record d { read_error = some err; read_complete = true })
    else ok d

abbrev pub end_recv : Platform → SockData → Sys → SockData
end_recv c d (returned n) = record d { read_buffer_pos = n; read_complete = true }
end_recv c d (failed err) =
    if would_block c err then d else record d { read_error = some err; read_complete = true }

abbrev pub end_send : Platform → SockData → Sys → SockData
end_send c d (returned n) = record d {
  write_buffer_pos = (d.write_buffer_pos + n) % 2 ^ 32;
  write_complete = true;
}
end_send c d (failed err) =
    if would_block c err then d else record d { write_error = some err; write_complete = true }

abbrev pub end_connect : Platform → SockData → Sys → SockData
end_connect c d (returned n) = record d { write_complete = true }
end_connect c d (failed err) =
    if err == c.einprogress then d else record d { write_error = some err; write_complete = true }

module _ {S : Type 0} where
  unfoldable pub do_accept : ℕ → Platform → SocketOs S → SockData → S → Run (SockData × S)
  do_accept fuel c os d s = retry fuel c (λ t. os.os_accept t d.fd) s >>= λ (r : Sys × S).
      (end_accept c d r.0 >>= λ (d' : SockData). ok (d', r.1))

  unfoldable pub do_recv : ℕ → Platform → SocketOs S → SockData → S → Run (SockData × S)
  do_recv fuel c os d s =
      retry fuel c (λ t. os.os_recv t d.fd (min d.read_buffer_len c.int_max)) s >>= λ (r : Sys × S).
      ok (end_recv c d r.0, r.1)

  unfoldable pub do_send : ℕ → Platform → SocketOs S → SockData → S → Run (SockData × S)
  do_send fuel c os d s =
      retry fuel c
        (λ t.
          os.os_send t d.fd d.write_buffer_pos
            (min (d.write_buffer_len - d.write_buffer_pos) c.int_max))
        s
      >>= λ (r : Sys × S). ok (end_send c d r.0, r.1)

  unfoldable pub do_connect : ℕ → Platform → SocketOs S → SockData → S → Run (SockData × S)
  do_connect fuel c os d s =
      retry fuel c (λ t. os.os_connect t d.fd) s >>= λ (r : Sys × S). ok (end_connect c d r.0, r.1)
