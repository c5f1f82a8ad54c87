-- ===== src/NativeServer/Runs.antt =====
-- The theorem at a concrete input.
use emserver.Base.{done, pos, ℤ, Run}
use emserver.Api.{Global}

abbrev at_once : Global → Run (ℤ × Global)
at_once g = done (pos 0, g)
