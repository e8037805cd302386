-- ===== src/RaFile.antt =====
-- Reads and writes of RAFile in src/unix/ge/io/RAFile.cpp and src/win/ge/io/RAFile.cpp, over the calls
-- of src/unix/gepriv/UnixUtil.cpp. The operating system is a parameter: what its calls return, and the
-- state of the file after them.
pub mod Bytes
pub mod Reads
pub mod Writes
pub mod Whole
pub mod RoundTrip
use libge.Base.{
  overlay, ℕ, zero, suc, ◌+◌, ◌-◌, Bool, true, false, List, [], ◌∷◌, ◌++◌, length, take, drop,
  replicate, map, Option, none, some, ltb, if◌then◌else◌, Run, stuck, fault, uninitialized, ok,
  ◌>>=◌,
}

-- what `read` returns: bytes, of which there may be none, or -1 with EINTR or with another error
pub data Got : Type 0 where
  got : List ℕ → Got
  read_interrupted : Got
  read_failed : Got

-- what `write` returns: how many bytes it wrote, or -1 with EINTR or with another error
pub data Put : Type 0 where
  put_bytes : ℕ → Put
  put_interrupted : Put
  put_failed : Put

-- the calls of the operating system on one open file
pub record Os {ℓ} (F : Type ℓ) : Type ℓ where
  pub os_read : F → ℕ → Got × F
  pub os_write : F → List ℕ → Put × F

-- What a method comes to: a result, or an IOException that it throws, and the file after it.
pub data Io {ℓ} (F : Type ℓ) (A : Type 0) : Type ℓ where
  done : A → F → Io F A
  throws : F → Io F A

abbrev pub Call {ℓ} : Type ℓ → Type 0 → Type ℓ
Call F A = F → Run (Io F A)

abbrev pub then_call {ℓ} :
    {F : Type ℓ} {A B : Type 0} → Run (Io F A) → (A → Call F B) → Run (Io F B)
then_call stuck next = stuck
then_call (fault what) next = fault what
then_call (ok (throws f)) next = ok (throws f)
then_call (ok (done a f)) next = next a f

-- what the methods for numbers use: `readFully` of a fresh buffer of so many bytes, and `write`
pub record ByteFile {ℓ} (F : Type ℓ) : Type ℓ where
  pub read_buffer : ℕ → Call F (List (Option ℕ))
  pub write_buffer : List ℕ → Call F ℕ

module _ {ℓ} {F : Type ℓ} where
  -- UnixUtil::sys_read and UnixUtil::sys_write
  unfoldable pub sys_read : ℕ → Os F → F → ℕ → Run (Got × F)
  sys_read zero os f n = stuck
  sys_read (suc fuel) os f n =
      let r = os.os_read f n in
      elim r.0 as (λ _. Run (Got × F)) [
        | got bytes ↦ ok (got bytes, r.1)
        | read_interrupted ↦ sys_read fuel os r.1 n
        | read_failed ↦ ok (read_failed, r.1)
      ]

  unfoldable pub sys_write : ℕ → Os F → F → List ℕ → Run (Put × F)
  sys_write zero os f bytes = stuck
  sys_write (suc fuel) os f bytes =
      let r = os.os_write f bytes in
      elim r.0 as (λ _. Run (Put × F)) [
        | put_bytes n ↦ ok (put_bytes n, r.1)
        | put_interrupted ↦ sys_write fuel os r.1 bytes
        | put_failed ↦ ok (put_failed, r.1)
      ]

  -- RAFile::readFully for Unix: each read is put at the start of the buffer and asks for all of it.
  unfoldable pub read_fully : ℕ → Os F → ℕ → ℕ → List (Option ℕ) → Call F (List (Option ℕ))
  read_fully zero os buffer_len total_read buffer f = stuck
  read_fully (suc fuel) os buffer_len total_read buffer f =
      if ltb total_read buffer_len
      then (sys_read (suc fuel) os f buffer_len >>= λ (r : Got × F).
          elim r.0 as (λ _. Run (Io F (List (Option ℕ)))) [
            | got bytes ↦
                read_fully fuel os buffer_len (total_read + length bytes) (overlay buffer 0 bytes)
                  r.1
            | read_interrupted ↦ ok (throws r.1)
            | read_failed ↦ ok (throws r.1)
          ])
      else ok (done buffer f)

  -- RAFile::readFully for Windows, where `os_read` is ReadFile
  unfoldable pub win_read_fully : ℕ → Os F → ℕ → ℕ → List (Option ℕ) → Call F (List (Option ℕ))
  win_read_fully zero os buffer_len total_read buffer f = stuck
  win_read_fully (suc fuel) os buffer_len total_read buffer f =
      if ltb total_read buffer_len
      then (let r = os.os_read f (buffer_len - total_read) in
          elim r.0 as (λ _. Run (Io F (List (Option ℕ)))) [
            | got bytes ↦
                win_read_fully fuel os buffer_len (total_read + length bytes)
                  (overlay buffer total_read bytes) r.1
            | read_interrupted ↦ ok (throws r.1)
            | read_failed ↦ ok (throws r.1)
          ])
      else ok (done buffer f)

  -- RAFile::write for Unix and for Windows, with how many bytes were written, which neither tests
  unfoldable pub write : ℕ → Os F → List ℕ → Call F ℕ
  write fuel os buffer f = sys_write fuel os f buffer >>= λ (r : Put × F).
      elim r.0 as (λ _. Run (Io F ℕ)) [
        | put_bytes n ↦ ok (done n r.1)
        | put_interrupted ↦ ok (throws r.1)
        | put_failed ↦ ok (throws r.1)
      ]

  unfoldable pub win_write : Os F → List ℕ → Call F ℕ
  win_write os buffer f =
      let r = os.os_write f buffer in
      elim r.0 as (λ _. Run (Io F ℕ)) [
        | put_bytes n ↦ ok (done n r.1)
        | put_interrupted ↦ ok (throws r.1)
        | put_failed ↦ ok (throws r.1)
      ]

  abbrev pub unix_file : ℕ → Os F → ByteFile F
  unix_file fuel os = record {
    read_buffer = λ n. read_fully fuel os n 0 (replicate n none);
    write_buffer = write fuel os;
  }

  abbrev pub windows_file : ℕ → Os F → ByteFile F
  windows_file fuel os = record {
    read_buffer = λ n. win_read_fully fuel os n 0 (replicate n none);
    write_buffer = win_write os;
  }
