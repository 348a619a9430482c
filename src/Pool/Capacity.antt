-- ===== src/Pool/Capacity.antt =====
-- What a reconcile destroys, leaves and asks for (internal/pool/manager.go).

use browser_use.Base.{List}
use browser_use.Pool.Manager.{Manager}
