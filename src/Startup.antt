-- ===== src/Startup.antt =====
-- The loggers and pools that the program sets up in front of its work: `create_default_logger`
-- (src/xpipe.c) and `sys_modules_prepare` (src/mod_manager.c).
pub mod Loggers
pub mod Daemon
use xpipe.Base.{
  ℕ, Bool, true, false, not, List, [], ◌∷◌, Option, none, some, Bytes, Ptr, null, ◌==◌,
  if◌then◌else◌,
}
use xpipe.Allocator.{Allocator}
use xpipe.Conf.Settings.{Logger, file_size, logger_size}

-- of `xpipe_resource_t`, its loggers
pub record Resource : Type 0 where
  pub main_logger : Option Logger
  pub default_logger : Option Logger

-- of `system_module_t`, its pool and logger
pub record SystemModule (Pool : Type 0) : Type 0 where
  pub pool : Option Pool
  pub logger : Option Logger

module _ (al : Allocator) where
  open al use {Pool, alloc}

  -- the end of `create_default_logger`: the logger is created and goes nowhere
  abbrev with_file : Resource → Option ℕ → Pool → Bool × Resource × Pool
  with_file r none p = (false, r, p)
  with_file r (some fd) p = let (l, p') = alloc logger_size p in (not (l == null), r, p')

  abbrev without_main : Resource → Option ℕ → Pool → Bool × Resource × Pool
  without_main r fd p =
      let (f, p') = alloc file_size p in if f == null then (false, r, p') else with_file r fd p'

  -- `create_default_logger`, with what `open` gives for the default file; true for XPE_OK
  unfoldable pub create_default_logger : Resource → Option ℕ → Pool → Bool × Resource × Pool
  create_default_logger r fd p = elim r.main_logger [
    | none ↦ without_main r fd p
    | some l ↦ (true, record r { default_logger = some l }, p)
  ]

  abbrev pub or_default : Option Logger → Option Logger → Option Logger
  or_default none d = d
  or_default (some l) d = some l

  abbrev with_logger : SystemModule Pool → Option Logger → SystemModule Pool
  with_logger m d = record m { logger = or_default m.logger d }

  -- The loop of `sys_modules_prepare`, with the default logger and what `mem_pool_create` gives, in
  -- turn; true for MOD_OK. There is no memory behind the last answer.
  unfoldable pub sys_modules_prepare :
      Option Logger
      → List (Option Pool)
      → List (SystemModule Pool)
      → Bool × List (SystemModule Pool)
  sys_modules_prepare d pools [] = (true, [])
  sys_modules_prepare d [] (m ∷ ms) = (false, with_logger m d ∷ ms)
  sys_modules_prepare d (none ∷ ps) (m ∷ ms) = (false, with_logger m d ∷ ms)
  sys_modules_prepare d (some p ∷ ps) (m ∷ ms) =
      let (ok, ms') = sys_modules_prepare d ps ms in
      (ok, record (with_logger m d) { pool = some p } ∷ ms')
