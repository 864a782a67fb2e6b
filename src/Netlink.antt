-- ===== src/Netlink.antt =====
-- internal/ingest/netlink.go: the ingester of the kernel's netlink groups. `Netlink.Paths` has the
-- paths, `Netlink.Routes` the kernel's route table, `Netlink.Links` the interfaces and their counters,
-- `Netlink.Fdb` the bridges' MAC tables and `Netlink.Labels` the label table and the addresses. What
-- the netlink library decodes is data; what it answers to a call is an argument.
pub mod Paths
pub mod Routes
pub mod Links
pub mod Fdb
pub mod Labels
pub mod Snapshot
