-- ===== src/Controllers/Ports/Kept.antt =====
-- What `SyncForwardingPorts` does with every port that was forwarded and with every port that is wanted.
use mathlib.Core.List.{Perm}
use mathlib.Core.List.Perm
use kertical.Prelude.{List, ◌++◌}
use kertical.Controllers.Ports.{ForwardedPort, Sync}

-- The three lists that hold what was forwarded.
pool : Sync → List ForwardedPort
pool s = s.deletions ++ (s.unchanged ++ s.forwarded)
