-- ===== src/Lib.antt =====
-- lanet: a virtual network of groups of peers. A control plane gives each group a subnet and each
-- member an address; a node without a server derives them; packets between members run through
-- libp2p streams into a virtual network card, behind a firewall.
--
-- The files and the parts that they model, with paths from the repository's root:
-- - Base and its children: numbers, lists, texts as bytes, Go maps as association lists, results.
--   Base/Strings has the functions of Go's strings and strconv that the firewall uses, for ASCII
--   white space.
-- - Netip: Go's net/netip. Addresses and prefixes are bytes; the text forms are an interface, a
--   record of functions and the round trips that the package documents.
-- - Protocol: pkg/protocol/protocol.go and pkg/protocol/vaddr6.go.
-- - Firewall: pkg/firewall/firewall.go. Go's net package, which matches CIDR sources, enters as
--   three functions.
-- - Tun/Framer and Tun/Inbound: pkg/tundevice/framer.go and pkg/tundevice/firewall.go. `feed` runs
--   its loop on fuel, the length of the buffer: each round takes at least twenty bytes. Every
--   read of the firewall's check is one that can fail, with the result `none`: an index against the
--   bytes of the slice, a reslicing against its capacity, whose spare bytes a slice carries.
-- - Serverless/Quarantine: pkg/serverless/member_quarantine.go.
-- - Serverless/Scheduler: pkg/serverless/scheduler.go. `submit_mode`, `take_call` and `finish_call`
--   are what a submission and a worker do to the shared tables; the jitter is a function.
-- - Serverless/VirtualIps: pkg/serverless/vaddr_conflict.go and two functions of keys.go. `decide` is
--   decideVirtualIPs, over a derivation of addresses, of which `derive_salted` is the one in use;
--   the three things that the loop over the groups writes are three functions. Go visits a map in
--   any order: `decide_in_order` takes the order, `Reordered` says which orders there are, and
--   `decide_sorted` is the run in the order of the first members. An update of `out`
--   changes nothing at a key that is absent, where the source would panic; the keys updated are
--   the ids of the table. Table is the index with `sync_locked`, Claims writes the member table,
--   of whose members it keeps the field VirtualIP, and Conflicts is the list shown.
-- - Serverless/Hostnames: pkg/serverless/vaddr.go, with ResolveTarget in Targets. The loop that looks
--   for a free label runs on fuel, the number of labels taken: each round meets another one. A
--   panic has the result `none`. Lower case is that of ASCII.
-- - Serverless/Dns: pkg/serverless/dns.go, from a message to its answer. The loop over the labels
--   counts down from sixteen, more than which the source refuses; it reads the bytes from the offset
--   on. The callback for the member table is its result, or `none` where there is none.
-- - Gatewayproto: pkg/gatewayproto/gatewayproto.go.
-- - Invitecode: pkg/invitecode/invitecode.go; the reading is in Decode.
-- - Selfupdate: pkg/selfupdate/selfupdate.go, the comparison of versions.
-- - Ctl/Node: app/ctl/internal/logic/node/registry.go, the members of one group. `enroll`,
--   `restore_node` and `remove_node` are Enroll, RestoreNode and RemoveNode.
-- - Ctl/Group: app/ctl/internal/logic/group/registry.go and the statements of store.go beside it.
--   `create`, `join`, `reset_invite`, `kick`, `announce` and `net_map_for` are the methods of those
--   names. They run in a monad of a state and an error, in which what was changed before a failure
--   stays changed, as in the source. Ctl/Group/Restore has `restore` and `rebuild_group`, with the
--   rows that the database returns as an argument.
-- - Ctl/Relays: app/ctl/internal/logic/relaydir/relaydir.go; `sort.Slice` is a parameter with the
--   two properties that its documentation gives.
-- - Tests: concrete runs, a concrete text form for Netip, and the theorems at those runs.
--
-- The group registry holds one node registry for each group and calls it for its members; the
-- store is called between a change of the node registry and the change of the indexes.
--
-- What stands for what: a method holds its lock from start to end, so that a call is one step;
-- locks and contexts are left out. The clock and the random strings are arguments of a call. A
-- `*Group` that several maps share is the group's ID, under which one map keeps its fields. The
-- statements of the store are values that a parameter executes; a registry may have no store.
-- Instants are integers without bound; the duration of an invite code is a product of int64 and
-- wraps, and a version counts modulo 2 ^ 64.
-- Invite codes are assumed fresh where a theorem says so. `Reliable` in Ctl/Group/Rules is a
-- store on which no statement fails, such as a registry's that has none; the SQLite store is not
-- of this kind, as it refuses a second row for a peer.
--
-- Not modelled: the migrations of the database; the discovery and trust parts of pkg/serverless,
-- and the listeners of its name server; the TUN router; tunnels; the download of updates; the
-- store of peers. The agents, the gateway, the HTTP interface and the SDK are input and output
-- around these parts.
pub mod Base
pub mod Netip
pub mod Protocol
pub mod Firewall
pub mod Tun
pub mod Serverless
pub mod Ctl
pub mod Invitecode
pub mod Gatewayproto
pub mod Selfupdate
pub mod Tests
