-- ===== src/SocketPoll/Submit.antt =====
-- `socketRead`, `socketWrite` and `socketConnect` of src/unix/gepriv/aio/SocketServicePoll.cpp, over
-- the hash table of inc/ge/data/HashMap.h. What hashes a file descriptor is a parameter.
pub mod Lost
use libge.Base.{
  ℕ, suc, ◌+◌, Bool, true, false, not, ◌&&◌, ◌||◌, get_elem?, Option, none, some, if◌then◌else◌,
  Run, fault, null_pointer, ok, ◌>>=◌,
}
use libge.HashTable.{Keys, TableVal, Chain, HashMap, Iterator, no_table, chains, bucket, put, get}
use libge.SocketPoll.{
  Platform, SocketOs, Oper, no_oper, flag_connect, flag_read, flag_write, is_busy, SockData,
  new_data, do_recv, do_send, do_connect,
}

-- the data of the sockets, and how often the thread that polls was woken
pub record Service : Type 0 where
  pub data_map : HashMap ℕ SockData
  pub wakeups : ℕ

-- a service that is constructed: its map has no table
abbrev pub new_service : Service
new_service = record { data_map = no_table; wakeups = 0 }

-- What a call comes to: an IOException, or a return, with the service and the system after it.
pub data Submitted (S : Type 0) : Type 0 where
  refused : Submitted S
  submitted : Service → S → Submitted S

-- the entry that an iterator stands on, or none where it is not valid
abbrev pub entry_at : HashMap ℕ SockData → Iterator → Run (Option SockData)
entry_at m iter = elim iter.place as (λ _. Run (Option SockData)) [
  | none ↦ ok none
  | some place ↦ bucket (chains m) iter.table_index >>= λ (chain : Chain ℕ SockData).
      elim (get_elem? chain place) as (λ _. Run (Option SockData)) [
        | none ↦ fault null_pointer
        | some v ↦ ok (some v.value)
      ]
]

-- `_dataMap.get`, and the entry that it finds
unfoldable pub entry_of : Keys ℕ → ℕ → HashMap ℕ SockData → ℕ → Run (Option SockData)
entry_of keys fuel m fd = get keys fuel m fd >>= λ (iter : Iterator). entry_at m iter

-- `_dataMap.put` of the data, and `wakeup`
abbrev pub with_entry : Keys ℕ → Service → SockData → Run Service
with_entry keys service d = put keys service.data_map d.fd d >>= λ (m : HashMap ℕ SockData).
    ok (record { data_map = m; wakeups = suc service.wakeups })

-- the end of each call: the data is kept only if it is new and the operation is not complete
abbrev pub kept : Keys ℕ → Service → Bool → Bool → SockData → Run Service
kept keys service is_new complete d =
    if not complete && is_new then with_entry keys service d else ok service

abbrev pub is_valid : Option SockData → Bool
is_valid none = false
is_valid (some d) = true

-- the data of a socket whose entry is copied, as `socketRead` does
abbrev pub copied : ℕ → Option SockData → SockData
copied fd none = new_data fd
copied fd (some d) = d

abbrev pub reads : Option SockData → Bool
reads none = false
reads (some d) = is_busy d.read_oper

abbrev pub writes : Option SockData → Bool
writes none = false
writes (some d) = is_busy d.write_oper

module _ {S : Type 0} where
  unfoldable pub socket_read :
      ℕ → Keys ℕ → Platform → SocketOs S → ℕ → ℕ → ℕ → Service → S → Run (Submitted S)
  socket_read fuel keys c os fd callback buffer_len service s =
      entry_of keys fuel service.data_map fd >>= λ (found : Option SockData).
      (if reads found
        then ok refused
        else (do_recv fuel c os
              (record (copied fd found) {
                fd = fd;
                read_oper = flag_read;
                read_callback = some callback;
                read_buffer_pos = 0;
                read_buffer_len = buffer_len;
              })
              s
            >>= λ (r : SockData × S).
                (kept keys service (not (is_valid found)) r.0.read_complete r.0
                  >>= λ (after : Service). ok (submitted after r.1))))

  -- The reference to the entry ends with the block that declares it: the data that is written is
  -- always new.
  unfoldable pub socket_write :
      ℕ → Keys ℕ → Platform → SocketOs S → ℕ → ℕ → ℕ → Service → S → Run (Submitted S)
  socket_write fuel keys c os fd callback buffer_len service s =
      entry_of keys fuel service.data_map fd >>= λ (found : Option SockData).
      (if writes found
        then ok refused
        else (do_send fuel c os
              (record (new_data fd) {
                write_oper = flag_write;
                write_callback = some callback;
                write_buffer_pos = 0;
                write_buffer_len = buffer_len;
              })
              s
            >>= λ (r : SockData × S).
                (kept keys service (not (is_valid found)) r.0.write_complete r.0
                  >>= λ (after : Service). ok (submitted after r.1))))

  unfoldable pub socket_connect :
      ℕ → Keys ℕ → Platform → SocketOs S → ℕ → ℕ → Service → S → Run (Submitted S)
  socket_connect fuel keys c os fd callback service s =
      entry_of keys fuel service.data_map fd >>= λ (found : Option SockData).
      (if is_valid found
        then ok refused
        else (do_connect fuel c os
              (record (new_data fd) { write_oper = flag_connect; write_callback = some callback }) s
            >>= λ (r : SockData × S).
                (kept keys service true r.0.write_complete r.0 >>= λ (after : Service).
                ok (submitted after r.1))))
