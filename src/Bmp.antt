-- ===== src/Bmp.antt =====
-- internal/ingest/bmp.go: the ingester of bgpd's BMP stream. `Bmp.Wire` has the decoders of single
-- fields, `Bmp.Writes` the calls on the shared objects, `Bmp.Updates` the BGP UPDATE, `Bmp.Peers` the
-- peer state and `Bmp.Stream` the framing.
pub mod Wire
pub mod Writes
pub mod Updates
pub mod Peers
pub mod Stream
