-- ===== src/Apps/Init/Examples.antt =====
-- An instance for the registration of the applications.
use xerock.Base.{ℕ}
use xerock.Core.Message.{App}

abbrev handlers : App → ℕ
handlers a = 0
