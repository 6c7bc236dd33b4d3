-- ===== src/Lib.antt =====
-- asterkube, a Kubernetes node whose init process, cmd/asterkube-init, is one Go program: it mounts
-- the filesystems, configures the network, runs a container runtime and joins a cluster.
--
-- The parts, and the files that model them:
-- * The RTNETLINK client, cmd/asterkube-init/netlink_linux.go, is Netlink. Netlink/Attr has the attribute
--   encoding (nlAlign, nlAttr, nlAttrStr, nlAttrU32, concat, trimNul), Netlink/Message the frame that
--   `send` builds, the library's parsers, and the receive loops; Netlink/Socket the socket with its
--   sequence number; Netlink/Requests the five requests (createVethPeerNetns, createBridge,
--   createVethOnBridge, addAddrV4, addDefaultRouteV4), and Netlink/Dump the three lookups
--   (defaultRouteGateway, linkIndexByName, linkByName). A request is an exchange: the socket before it,
--   what the kernel answers, and the socket, the datagrams sent and the result after it.
-- * The DHCP client, cmd/asterkube-init/dhcp_linux.go, is Dhcp. Dhcp/Packet has buildDHCP, Dhcp/Options
--   parseOptions, Dhcp/Receive the poll loop recvDHCP, Dhcp/Client dhcpAcquire and dhcpRenew, Dhcp/Loop
--   dhcpRenewLoop, one round at a time, with the actions that a round takes (waits, packets, leases
--   applied) in their order, and Dhcp/Configure dhcpFirst and applyLeaseDelta, which use both
--   clients. What arrives, and when, is an argument: a list of polls.
-- * Mounting is Mount: Mount/Options has applyMountOpts and the flags, Mount/Applet the mount and umount
--   commands (runMount, runUmount) of cmd/asterkube-init/mount_applet_linux.go, Mount/Boot the table of
--   the boot (defaultMounts, mountOne, mountAll) of mount_linux.go, on a record of what the kernel
--   offers, and Mount/Fstab parseFstab of fstab_linux.go, which uses the options and makes entries for
--   mountAll.
-- * The container runtime, cmd/asterkube-init/ociruntime_linux.go and runc_exec_linux.go, is Oci.
--   Oci/Spec has the configuration, cloneFlagsFor and joinNamespaces, Oci/Containers the state
--   directories, Oci/Create the commands create and start, Oci/Controls state, kill, delete and ps, Oci/Cgroup applyCgroup,
--   Oci/Signals parseSignal, Oci/Rootfs mountOptions and setupRootfs, Oci/Init runcInit, Oci/Programs the
--   search for a program, Oci/Exec cmdExec, and Oci/Commands runOCIRuntime, which dispatches to them.
--   Oci/Paths is the library's `filepath`. A command takes the store of state directories and what the
--   system answers, and gives the store, the calls it made and how it ended.
-- * The node agent, cmd/asterkube-init/node.go and tenant_adapter_linux.go, is Node: the pods of the
--   manifests and the calls to the kernel stand in Node itself, Node/Start has startPodContainer, Node/Wait
--   waitPod, Node/Tenants the labels of tenants, Node/Bridged runBridgedPods with addServiceDNAT of
--   service_linux.go and addMasqUplink of masq_linux.go, and Node/Agent runNodeAgent, runPod,
--   hostSetupVeth and loadPodManifests. The netlink requests that it makes are calls here; Netlink has the
--   messages of them.
-- * Joining a cluster is Join: Join/Bundle has findJoinBundle of join_bundle_linux.go, Join/Trust
--   writeBootstrapKubeconfig and fetchAndVerifyClusterCA of boot_args_join_linux.go, Join/Files the files that a
--   node gets (cni_setup_linux.go, ca_bundle_linux.go), Join/Kubelet containerd, the kubelet and the watch for its
--   registration, Join/Paths joinFromBundle and bootArgsJoin, and Join/Persist keepAlive, nodeIsLive and
--   gracefulShutdown of persist_linux.go.
-- * Entry is cmd/asterkube-init/main.go: what a process of the one binary becomes, and the end of runAsInit, which
--   joins by Join and stays up or powers off.
-- * Seccomp is buildFilter of cmd/asterkube-init/seccomp_probe_linux.go. The machine that runs a filter is the
--   kernel's: a parameter, with the laws that the kernel documents of the three instructions.
-- * Node/Container is the process of a pod, runContainer and the tests that it makes over its network
--   (containerVethTest, containerPeerTest, containerCrossPingTest, containerMasqTest of masq_linux.go and the clients of
--   containerServiceTest of service_linux.go): Node/Container/Veth, Peers, Masquerade and Service. Its echo requests,
--   icmpPingTest of cmd/asterkube-init/probe_linux.go, are Icmp; for the tests a ping is one call, and so is the half of a
--   service's backend.
-- * Inet has the few operations on `net.IP` that the network clients use, net.ParseIP with its IPv6 addresses among them.
--
-- The node agent, the process of a pod and the join are programs of calls (Prelude/Prog): a call goes on with whatever is
-- answered, a run takes a system that answers by the history of calls, and pods that run at the same time are
-- programs whose calls interleave in any order. An index panic of the node agent is a call behind which nothing comes, of
-- any pod: it ends the process.
--
-- Numbers: a Go integer is a native natural number with its wrap-around written out; `time.Duration`
-- is an int64 that wraps (Prelude/Int). Byte slices are lists of numbers below 256.
--
-- Loops: the walks over options and attributes run on fuel, the length of the input, which every step
-- shortens; that it is enough is part of what is proved of them. The receive loops are recursions on
-- the list of what arrives. The renewal loop never ends in the code: here it runs for a given list of
-- rounds. The carries of a checksum are added back in two rounds, and
-- a third finds none. The watch for the registration of a kubelet looks at the log 26 times at most: 75 seconds in pauses
-- of 3, and the look that finds the time over; the wait for the socket of containerd has its 100 tries.
--
-- The Go library's parsers of netlink messages and attributes are written out as they are documented
-- (`syscall.ParseNetlinkMessage`, `syscall.ParseNetlinkRouteAttr`). System calls are arguments: what
-- they return is given, and what is passed to them is in the result. A container's id is taken as one
-- path element, as its callers give it, and a state file as the library reads back what it wrote. Texts are ASCII, so their
-- characters are their bytes. HTTP, regular expressions, PEM, X.509 and SHA-256 of the Go
-- library, and the parsing of the JSON of a manifest, are parameters. Not modelled are the code that only prints, the backends of
-- the test of a service, which serve several sockets at a time, and the parts of cmd/asterkube-init
-- that only start other programs and report: the tests of containerd and the kubelet, and the probes of the kernel.
pub mod Prelude
pub mod Inet
pub mod Netlink
pub mod Dhcp
pub mod Mount
pub mod Oci
pub mod Node
pub mod Join
pub mod Entry
pub mod Seccomp
pub mod Icmp
