-- ===== src/Messages.antt =====
-- The records that cross the network, of src/rewofs/messages/messages.fbs and messages.hpp. Every
-- field is held as its bit pattern, so that a signed `st_size` or time is the number of its bits.
use rewofs.Base.{ℕ}

-- `struct timespec`, and `messages::Time`.
pub record Timespec : Type 0 where
  pub tv_nsec : ℕ
  pub tv_sec : ℕ

-- The fields of `struct stat` that the program fills; all others are 0 everywhere.
pub record Stat : Type 0 where
  pub st_mode : ℕ
  pub st_size : ℕ
  pub st_ctim : Timespec
  pub st_mtim : Timespec

-- `struct stat st{}`
abbrev pub no_time : Timespec
no_time = record { tv_nsec = 0; tv_sec = 0 }

abbrev pub no_stat : Stat
no_stat = record { st_mode = 0; st_size = 0; st_ctim = no_time; st_mtim = no_time }
