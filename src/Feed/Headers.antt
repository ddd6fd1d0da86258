-- ===== src/Feed/Headers.antt =====
-- crates/feed/src/lib.rs: the names of the headers of a message.
use openseafeed.Base.{Bytes, codes}

abbrev pub mmsi : Bytes
mmsi = codes "Osf-Mmsi"

abbrev pub msg_type : Bytes
msg_type = codes "Osf-Type"

abbrev pub lat : Bytes
lat = codes "Osf-Lat"

abbrev pub lon : Bytes
lon = codes "Osf-Lon"

abbrev pub station : Bytes
station = codes "Osf-Station"
