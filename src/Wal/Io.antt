-- ===== src/Wal/Io.antt =====
-- What one call of `::read`, `::write` or `::fdatasync` does is chosen by the system. A list of such
-- outcomes is the script of a run; a run whose script is used up stops there, as a process does that
-- is killed before the call has an effect.
use mizu.Base.{ℕ}

pub data IoOutcome : Type 0 where
  -- the call moves bytes, as many as the number says at most
  transferred : ℕ → IoOutcome
  -- EINTR
  interrupted : IoOutcome
  -- any other errno
  failed : ℕ → IoOutcome
  -- the process is killed inside the call, once it has moved bytes, as many as the number says at
  -- most, or has had its effect
  killed : ℕ → IoOutcome
