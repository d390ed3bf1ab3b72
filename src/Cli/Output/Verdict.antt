-- ===== src/Cli/Output/Verdict.antt =====
-- The verdict that src/cli/commands.c prints.
use http_runtime.Base.{Option, some, ◌≡◌, Bytes}
use http_runtime.Assertion.{Assertion}

abbrev Printed : Option Bytes → Type 0
Printed o = (out : Bytes) × (o ≡ some out)
