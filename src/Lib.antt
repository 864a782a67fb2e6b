-- ===== src/Lib.antt =====
-- A verification library for frr-visible: the daemon that turns what FRR's planes say of a router
-- into gNMI state, convergence traces and route lineage, the exporter that walks a flow through a
-- network of such routers, the exporter that draws their topology, and the aggregator that stitches
-- the traces of all of them.
--
-- Parts. The ingesters read one plane each: FPM (routes that zebra pushes, a stream of netlink
-- messages in frames), BMP (what BGP peers send), OSPF and LLDP (snapshots of the neighbors), and
-- the cgroup's files. Each turns its input into calls on three shared objects: the gNMI cache, the
-- correlator (events that it folds into traces) and the lineage tracker (which plane holds which
-- prefix). The VRF resolver names routing tables for the FPM and the BMP ingester. The netlink
-- ingester reports what the kernel has installed: routes, which are the third stage of the tracker,
-- interfaces, whose events open traces, MAC addresses and the label table. The path-trace exporter
-- asks the nodes' gNMI servers for routes and labels, and the topology exporter for neighbors,
-- sessions and labels; the trace aggregator fetches the correlators' traces and groups them by time.
--
-- Files.
--   Base            lists, maps, Go strings as byte lists, big- and little-endian reads, and `Outcome`,
--                   the result of code that may panic
--   State           internal/state/cache.go: `update` is Update
--   GnmiServer      internal/gnmiserver/server.go: `get` is Get, `recv` is Recv, `capabilities` is Capabilities
--   Daemon          cmd/frr-visible/main.go: `perform` hands a handler's calls to the shared objects,
--                   `lineage_round` is a tick of the tracker with the hook to the correlator, and a
--                   connection of zebra or bgpd kicks OSPF
--   Lineage         internal/lineage/lineage.go: `observe` is Observe, `reconcile` is reconcile with its
--                   calls of the hook as a list, `snapshot` is Snapshot
--   Correlate       internal/correlate/correlate.go: `emit` is Emit, `receive` and `tick` are the two
--                   cases of Run's select, `flush` is flush, `recent` is what ServeHTTP copies
--   Net             what the ingesters use of Go's net.IP
--   Gnmi            the messages that the ingesters build, and their calls as the data type `Effect`
--   Vrf             internal/ingest/vrf.go: `refresh`, `name` and `non_default_names`
--   Fpm             internal/ingest/fpm.go: Attrs (forEachAttr and label stacks), Nexthops (nexthop
--                   objects and resolveNH), Routes (handleRoute and the dispatch), Stream (handle)
--   Bmp             internal/ingest/bmp.go: Wire (perPeer, formatRD, parseVPNNLRI), Writes (writeVPNRoute,
--                   writeEVPN, handleEVPN), Updates (parseUpdate, handleMP; Loops and Evpn compare its
--                   NLRI loops with the wire form of the routes), Peers (peerState), Stream (handle)
--   Ospf            internal/ingest/ospf.go: `reconcile` is reconcile, `parse_ospf_nbrs` is parseOSPFNbrs
--                   behind the JSON decoder
--                   Triggers has the trigger channel and its worker as a step relation
--   Netlink         internal/ingest/netlink.go: Paths (the path builders), Routes (routeLoop), Links
--                   (linkLoop and the counters), Fdb (neighLoop, snapshotFDB), Labels (snapshotMPLS and
--                   snapshotAddrs), Snapshot (snapshot and counterLoop's round)
--   Lldp            internal/ingest/lldp.go: `reconcile` is reconcile, `parse_lldp` is parseLLDP behind the
--                   JSON decoder, whose values are the data type `Json`
--   Cgroup          internal/ingest/cgroup.go: `sample` is sample, `read_kv` is readKV, over the files' texts
--   Topology        cmd/topology-exporter/main.go: `edges_of` is the graph that render builds, `Offer`
--                   a call of its addEdge or addPseudo, Lines its text, role and title
--   Aggregator      cmd/trace-aggregator/main.go: Cluster and Merge (build and merge), Link (linkKey),
--                   Txns (fetchTxns, pollTxns, matchTxn, urlQuery and loop's stitching), Export
--                   (pushZipkin)
--   PathTrace       cmd/pathtrace-exporter/main.go: `trace` is trace, `node_of` is nodeOf; Lookups has
--                   routeLookup, mplsLookup, buildIP2Node and parseInventory over what `get` returns;
--                   Client has get and client, with the connections that it keeps; Report has
--                   parseFlows and render
--   Subtest         cmd/subtest/main.go: `request` is the request that main sends, `print` its loop over
--                   the responses, with parsePath, pathStr and valStr
--   Tests           runs on concrete inputs
--
-- State is passed explicitly: a handler takes the ingester's record and returns it with the list of its
-- calls, in the order in which it makes them. The mutexes make each operation of a shared object one
-- step, and `Correlate.Run.Step` orders such steps freely. A byte slice is a list of numbers; bytes are
-- taken to be below 256 only where a statement says so. Times are nanoseconds, and a difference of two
-- times that is negative in Go is 0 here, which every test in the source treats alike. A Go map is an
-- association list; a range loop visits it in the list's order, which is arbitrary.
-- Errors that the source ignores are not modelled; a slice expression that is out of range is `panic`.
--
-- Fuel. The loops over attributes, frames, messages, TLVs and NLRIs run on fuel, which is the number of
-- bytes left and one more; every round takes at least one byte. Where fuel runs out the model's result
-- is `stuck`, which is no result of the code. `resolve_nh` has the source's own bound of
-- five rounds and `trace_loop` the source's 24.
--
-- Parameters. What grpc.NewClient returns for an address and a node's answer to a Get. What
-- GnmiUpdate, Query and CompletePath of the openconfig libraries do, what LinkList, AddrList,
-- NeighList, RouteList and LinkByIndex of the netlink library return, time.Duration's String, the
-- text of a walk's wall time, net.ParseCIDR with IPNet.Contains, net.ParseIP, strings.TrimSpace,
-- fmt's %q, its %v on a gNMI value, the constants of the gNMI modes, and what the exporter's `get`
-- returns for a node and a path, which stands still during a walk. For the aggregator, the answers
-- of HTTP servers behind json.Unmarshal, the format of a time, SHA-256 in hexadecimal, and the sorts
-- of the standard library, of which `Base.Sort` has what they promise: the same items, in order,
-- with equal ones in any order.
--
-- Not modelled. Sockets, timers, goroutine start, flags, the HTTP handlers, logging, running vtysh and
-- lldpcli, JSON decoding, the storage of the cache, which is the openconfig library's, and its handling
-- of subscriptions.
pub mod Base
pub mod State
pub mod GnmiServer
pub mod Daemon
pub mod Subtest
pub mod Lineage
pub mod Correlate
pub mod Net
pub mod Gnmi
pub mod Vrf
pub mod Fpm
pub mod Bmp
pub mod Ospf
pub mod Netlink
pub mod Lldp
pub mod Cgroup
pub mod Topology
pub mod Aggregator
pub mod PathTrace
pub mod Tests
