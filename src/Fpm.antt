-- ===== src/Fpm.antt =====
-- internal/ingest/fpm.go: the ingester of zebra's netlink stream. The attributes and labels are in
-- `Fpm.Attrs`, the nexthop objects in `Fpm.Nexthops`, the routes in `Fpm.Routes` and the
-- framing of the stream in `Fpm.Stream`.
pub mod Attrs
pub mod Nexthops
pub mod Routes
pub mod Stream
pub mod Total
