-- ===== src/Snapshotter/Fresh.antt =====
-- What a client gets after a round of `snapshot_loop`.
use openseafeed.Base.Map.{Map, nat_eq}
