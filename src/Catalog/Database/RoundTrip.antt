-- ===== src/Catalog/Database/RoundTrip.antt =====
-- A database comes back from its protobuf message.
use quickstep_streaming.Prelude.{List}
use quickstep_streaming.Utility.PtrVector.{PtrVector}
use quickstep_streaming.Catalog.Database.{Database}
