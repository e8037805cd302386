-- ===== src/SocketPoll/Submit/Lost.antt =====
-- Which operations src/unix/gepriv/aio/SocketServicePoll.cpp keeps to be gone on with.
use libge.Base.{ℕ, suc, ◌≡◌, refl, Bool, true, false, not, some, ◌==◌, ok}
use libge.SocketPoll.{
  Platform, Sys, returned, failed, flag_read, flag_write, SockData, new_data, retry, would_block,
}

-- the call was not interrupted
abbrev pub Answers : Platform → Sys → Type 0
Answers c (returned n) = ◌≡◌ {A = ℕ} 0 0
Answers c (failed err) = (err == c.eintr) ≡ false

-- the call did not tell that it would block
abbrev pub completes : Platform → Sys → Bool
completes c (returned n) = true
completes c (failed err) = not (would_block c err)

pub retry-Answers :
    {S : Type 0} (fuel : ℕ) (c : Platform) (call : S → Sys × S) (s s' : S) (r : Sys)
    → call s ≡ (r, s')
    → Answers c r
    → retry (suc fuel) c call s ≡ ok (r, s')
unfolding retry
retry-Answers fuel c call s s' (returned n) e a = rw (e, retry, e) refl
retry-Answers fuel c call s s' (failed err) e a = rw (e, retry, a, e) refl

-- the data of a new read and of a new write
abbrev pub new_read : ℕ → ℕ → ℕ → SockData
new_read fd callback buffer_len = record (new_data fd) {
  read_oper = flag_read;
  read_callback = some callback;
  read_buffer_len = buffer_len;
}

abbrev pub new_write : ℕ → ℕ → ℕ → SockData
new_write fd callback buffer_len = record (new_data fd) {
  write_oper = flag_write;
  write_callback = some callback;
  write_buffer_len = buffer_len;
}
