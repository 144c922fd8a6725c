-- ===== src/Common/Disk.antt =====
-- The file system, as the front ends use it: os.Stat, for the size of a file, and os.ReadFile, which
-- may both fail.
use normalization_confluence.Common.{ℕ, Option}
use normalization_confluence.Common.Text.{Bytes}

pub record Disk : Type 0 where
  pub stat : Bytes → Option ℕ
  pub read_file : Bytes → Option Bytes
