-- ===== src/Startup/Loggers.antt =====
-- Which loggers and pools the modules work with (src/xpipe.c, src/mod_manager.c).
use xpipe.Base.{◌≡◌, Bool, true, false, List, [], ◌∷◌, Option, some, ◌⊎◌}
use xpipe.Allocator.{Allocator}
use xpipe.Conf.Settings.{Logger}
use xpipe.Startup.{SystemModule, or_default}

module _ (al : Allocator) where
  open al use {Pool}

  -- the modules up to the first without a pool are prepared, and that one has its logger
  abbrev pub Prepared :
      Option Logger → Bool → List (SystemModule Pool) → List (SystemModule Pool) → Type 0
  Prepared d ok [] [] = ok ≡ true
  Prepared d ok [] (m' ∷ ms') = ⊥
  Prepared d ok (m ∷ ms) [] = ⊥
  Prepared d ok (m ∷ ms) (m' ∷ ms') =
      (m'.logger ≡ or_default al m.logger d)
      × (((p : Pool) × (m'.pool ≡ some p) × Prepared d ok ms ms')
          ⊎ ((ok ≡ false) × (m'.pool ≡ m.pool) × (ms' ≡ ms)))
