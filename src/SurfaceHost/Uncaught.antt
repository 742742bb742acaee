-- ===== src/SurfaceHost/Uncaught.antt =====
-- www/surface-host.js, `applyOps`: a drawing that throws.
use Prim.Native.String.{String}
use agent_mobile.Common.{string_eq}
