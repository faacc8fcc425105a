-- ===== src/Lib.antt =====
-- Verification of frridge, which runs labs of FRR routers in containers from a topology file.
--
-- The program reads a topology (internal/config/config.go), validates it, and lets the runtime manager
-- (internal/runtime/runtime.go) create containers, host bridges and interfaces; a snapshot of what it
-- made (internal/state/state.go) is the inventory from which a lab is later removed. The runtime calls
-- netlink (internal/netlink/netlink.go) for links and addresses, and internal/frr/files.go for the files
-- that a router mounts. On hosts without Linux, internal/multipass brings up a guest and runs the same
-- program in it.
--
-- Parts and files:
-- Base: the values shared by all parts: Go's (value, error) pairs as Result, maps with string keys as
-- association lists (the order of the list is the order in which one `range` meets the keys), int as
-- ℤ over native numbers with uint64 conversions written out, and what is used of packages strings and
-- filepath, over code points.
-- Config (internal/config/config.go): Config/Topology has the structs, Config/Errors one constructor
-- for each message, Config/Claims and Config/Linux validateLinux with its maps of devices, masters and
-- namespaces, Config/Validate the method Validate, Config/Resolve ResolveRouter and copyLinux,
-- Config/Paths isPathComponent and the path methods.
-- State (internal/state/state.go): LabState, BridgeName and Validate. A nil map is `none`.
-- Runtime (internal/runtime/runtime.go): Runtime/Host has the outside and the effect of a method;
-- Runtime/Env readLabState, Runtime/Cleanup cleanupRuntime and Down, Runtime/Up up and its deferred
-- rollback, Runtime/Links configureLinks and configureLoopbacks, Runtime/Dataplane configureLinux,
-- Runtime/Commands runRouterCommands and waitForVTYSH, Runtime/Console MigrateState, Console and Ping,
-- Runtime/Ping the texts and selections of ping and vtysh, Runtime/Names the generated names.
-- Files (internal/state/state.go, internal/frr/files.go): Files/Disk is a disk whose every operation may
-- fail; Files/Snapshots has Read, Write, Remove and ScanWorkDir, Files/Atomic the steps of Write, and
-- Files/Frr PrepareRouterFiles, MarkSeeded and the generated texts.
-- Netlink (internal/netlink/netlink.go): Netlink/Kernel has the calls of the netlink library, Netlink/Links
-- configureLink and what it uses, Netlink/Host the methods on the host's links, Netlink/Guest those in a
-- namespace, and Netlink/Manager which method answers which call of Runtime/Host.
-- Multipass (internal/multipass): Multipass/Shell has the quoting, the script and parseShellOutput of
-- system.go, Multipass/Client the methods of systemCLI, Multipass/Request resolveRequest,
-- Multipass/Manager the steps of ensure, with ensureGuestImage in Multipass/Manager/Image and Shell, Exec
-- and Frridge in Multipass/Manager/Commands, Multipass/Image the identities of image_builder.go, and
-- Multipass/Archive its Cached and Build.
-- Docker (internal/docker/docker.go): Docker has the methods on containers and ensureImage,
-- Docker/Interactive Exec and ExecInteractive, Docker/Resources what their calls acquire and release.
-- Base/Program is the effect that Files, Netlink, Multipass and Docker share: a state, and a value or an
-- error.
-- Tests: the theorems at concrete topologies, snapshots and outsides.
--
-- Parameters: Net tells which texts are CIDRs, MACs and IPs; Hashing stands for SHA-1 in hexadecimal and
-- hex decoding; Host answers every call of Docker, netlink, the file system and the state file as a
-- function of all calls before it, so an arbitrary environment; Env adds the value of
-- FRRIDGE_WORKDIR_OVERRIDE and the digest of a topology. A method of the runtime is a function of the
-- calls made so far and of the snapshot it fills, and gives a result or an error. Netlink's Kernel and
-- Multipass's System, Outside and HostTools and Docker's Sdk answer in the same way; Faults tells which
-- operations of the disk fail and what a failed write leaves; Codec is the JSON of a snapshot, Decimal
-- strconv, and Sources the digest of a checkout and SHA-256.
--
-- Bounds: waitForVTYSH is bounded by the ticks of 500 ms that come before its deadline of 20 s, at most
-- 40; a tick after those stands for the deadline. All other loops are over lists.
--
-- Not modelled: the decoding of YAML and JSON and the digest (libraries), the privilege check of the
-- entry points, the bodies of goroutines, file modes, the walk of detectRepoDir, the collection of the
-- files of a checkout, the binary builder, the cloud-init template and the command lines.
pub mod Base
pub mod Config
pub mod State
pub mod Runtime
pub mod Files
pub mod Netlink
pub mod Multipass
pub mod Docker
pub mod Tests
