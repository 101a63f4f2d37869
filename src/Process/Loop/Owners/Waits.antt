-- ===== src/Process/Loop/Owners/Waits.antt =====
-- `client waits` in a process that has come from the start of the server.
use kuro_net.Prelude.{nat_eq}
use kuro_net.Logger.{Logger}
use kuro_net.Logger
use kuro_net.Platform.{Platform}
use kuro_net.World.{World}
