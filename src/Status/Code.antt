-- ===== src/Status/Code.antt =====
-- `StatusCode` of engine/lsmtree/include/lsmtree/db.h.
pub data StatusCode : Type 0 where
  ok not_found already_exists invalid_argument io_error corruption busy not_supported : StatusCode
