-- ===== src/Examples/Sockets.antt =====
-- The statements about the service for sockets, on a system whose calls have fixed answers.
use libge.Base.{◌==◌, ==_iff, ℕ, ◌≡◌, refl, [], ◌∷◌, none, some, ok}
use libge.SocketPoll.{Platform, returned, SocketOs}
use libge.HashTable.{Keys, hash_map, table_val}
use libge.SocketPoll.Submit.{Service}
use libge.SocketPoll.Submit.Lost.{new_write}
use libge.SocketPoll.Queue.{Ready, pop_entry}
use libge.SocketPoll.Queue.Order.{enque_all, enque_all-pop_entry}

abbrev linux : Platform
linux = record {
  eintr = 4;
  eagain = 11;
  ewouldblock = 11;
  einprogress = 115;
  int_max = 2147483647;
  pollin = 1;
  pollout = 4;
  pollerr = 8;
  pollnval = 32;
  pollhup = 16;
}

-- three bytes are received and sent, and one socket is accepted
abbrev moving : SocketOs ℕ
moving = record {
  os_accept = λ s fd. (returned 9, s);
  os_connect = λ s fd. (returned 0, s);
  os_recv = λ s fd len. (returned 3, s);
  os_send = λ s fd pos len. (returned 3, s);
}

-- a file descriptor is its own hash
abbrev same_number : Keys ℕ
same_number = record { equals = λ a b. a == b; hasher = λ a. a; equals_iff = ==_iff }

-- a write is in progress on the socket 5, and the chain of the socket 6 is empty
abbrev two_chains : Service
two_chains = record {
  data_map = hash_map (some ([] ∷ (table_val 5 (new_write 5 1 10) 5 ∷ []) ∷ [])) 1;
  wakeups = 1;
}

abbrev no_entries : Ready
no_entries = record {
  next_of = λ e. none;
  prev_of = λ e. none;
  queue_head = none;
  queue_tail = none;
}

enque_all-pop_entry_example :
    (q : Ready) × (r : Ready) × (r' : Ready) × (enque_all no_entries (1 ∷ 2 ∷ 3 ∷ []) ≡ ok q)
    × (pop_entry q ≡ (some 1, r))
    × (pop_entry r ≡ (some 3, r'))
    × (r'.queue_head ≡ none)
enque_all-pop_entry_example =
    enque_all-pop_entry no_entries 1 2 (3 ∷ []) refl (refl, refl, (refl, refl, refl))
