-- ===== src/SocketPoll/Process.antt =====
-- What `process` of src/unix/gepriv/aio/SocketServicePoll.cpp does with an entry that it has taken.
pub mod Callbacks
use libge.Base.{
  ℕ, Bool, true, false, Option, none, some, if◌then◌else◌, Run, fault, null_pointer, ok, ◌>>=◌,
}
use libge.SocketPoll.{
  Platform, SocketOs, Oper, no_oper, flag_accept, flag_connect, flag_read, flag_write,
  flag_sendfile, SockData, do_accept, do_recv, do_send,
}

-- a callback as the type that it is called at, with the number of bytes where there is one
pub data Called : Type 0 where
  accept_called : ℕ → Called
  connect_called : ℕ → Called
  socket_called : ℕ → ℕ → Called

-- what an entry comes to: a callback that is called or none, the data and the system
abbrev pub Processed : Type 0 → Type 0
Processed S = Option Called × SockData × S

abbrev pub call_if :
    {S : Type 0} → Bool → Option ℕ → (ℕ → Called) → SockData × S → Run (Processed S)
call_if {S} complete callback called (d, s) = elim complete as (λ _. Run (Processed S)) [
  | false ↦ ok (none, d, s)
  | true ↦ elim callback as (λ _. Run (Processed S)) [
    | none ↦ fault null_pointer
    | some f ↦ ok (some (called f), d, s)
  ]
]

module _ {S : Type 0} where
  unfoldable pub process_entry : ℕ → Platform → SocketOs S → SockData → Bool → S → Run (Processed S)
  process_entry fuel c os d true s = elim d.read_oper as (λ _. Run (Processed S)) [
    | flag_accept ↦ do_accept fuel c os d s >>= λ (r : SockData × S).
        call_if r.0.read_complete r.0.read_callback (λ f. accept_called f) r
    | flag_read ↦ do_recv fuel c os d s >>= λ (r : SockData × S).
        call_if r.0.read_complete r.0.read_callback (λ f. socket_called f r.0.read_buffer_pos) r
    | no_oper ↦ ok (none, d, s)
    | flag_connect ↦ ok (none, d, s)
    | flag_write ↦ ok (none, d, s)
    | flag_sendfile ↦ ok (none, d, s)
  ]
  process_entry fuel c os d false s = elim d.write_oper as (λ _. Run (Processed S)) [
    | flag_connect ↦ do_accept fuel c os d s >>= λ (r : SockData × S).
        call_if r.0.write_complete r.0.read_callback (λ f. accept_called f) r
    | flag_write ↦ do_send fuel c os d s >>= λ (r : SockData × S).
        call_if r.0.write_complete r.0.read_callback (λ f. connect_called f) r
    | flag_sendfile ↦ ok (none, d, s)
    | no_oper ↦ ok (none, d, s)
    | flag_accept ↦ ok (none, d, s)
    | flag_read ↦ ok (none, d, s)
  ]
