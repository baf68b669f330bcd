-- ===== src/MainProgram/Faulted.antt =====
-- Where `main` (src/xpipe.c) follows a NULL.
use xpipe.Conf.Settings.{Settings}
use xpipe.Conf.Parser.{Parser}
