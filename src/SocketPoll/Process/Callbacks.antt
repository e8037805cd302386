-- ===== src/SocketPoll/Process/Callbacks.antt =====
-- Which callbacks `process` of src/unix/gepriv/aio/SocketServicePoll.cpp calls.
use libge.Base.{ℕ, ◌≡◌, false, none, some, Run, fault, null_pointer, ok}
use libge.SocketPoll.{Sys, returned, failed, flag_connect, SockData, new_data}
use libge.SocketPoll.Process.{Processed}

-- the data of a new connect
abbrev pub new_connect : ℕ → ℕ → SockData
new_connect fd callback = record (new_data fd) {
  write_oper = flag_connect;
  write_callback = some callback;
}

-- A run that calls no callback, after an answer of `accept`: it has written through a null pointer if
-- a socket was accepted, and else has not completed the operation of writing.
abbrev pub CallsNone : {S : Type 0} → Sys → S → Run (Processed S) → Type 0
CallsNone (returned n) s run = run ≡ fault null_pointer
CallsNone (failed err) s run = (d : SockData) × (run ≡ ok (none, d, s)) × (d.write_complete ≡ false)
