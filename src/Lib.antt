-- ===== src/Lib.antt =====
-- Auto XDP keeps the packet filter of a host in step with the sockets that are open on it. A round
-- observes the open ports, resolves what is wanted for them, compares it with what is in place and
-- writes the differences into the maps of an XDP program.
--
-- The parts of the program and the files that model them:
--   * State: auto_xdp/state.py. The four records, and `compute_reconcile_plan`; State/Plan and
--     State/Reached say what it means to carry out a plan.
--   * Config: the globals of auto_xdp/config.py as one record, and the lookup of
--     auto_xdp/services.py, with the parser of its file in Config/ServicesFile. A float is only
--     scaled, inverted and compared with zero: `Float` is a parameter.
--   * ConfigFile: the parser of auto_xdp/config.py, from the values of a TOML file to the globals, by
--     section. Every step may raise; what Python and ipaddress do with texts and floats is the
--     parameter `Python`. A value that the records cannot hold, such as a negative limit, is
--     `beyond` the model. A parser that raises leaves the globals as they were.
--   * Policy: auto_xdp/policy.py, from the limit of one port to `resolve_desired_state`.
--   * Bpf: the map classes of auto_xdp/bpf/maps.py, a module to each. An object is the state of the
--     kernel's map with the local cache. The kernel is the parameter `KernelMap` of Bpf/Kernel:
--     every command returns a reply, which may be a failure, and the laws are those of bpf(2).
--   * Backend: auto_xdp/backends/base.py and backends/xdp.py. Backend/Phases has the loops of
--     `apply_reconcile_plan`, Backend/Apply puts them in its order. A map that could not be opened
--     is `none`. The ValueError for the key of a tracked flow with a wrong length makes the result
--     `none`.
--   * Syncer: one turn of the loop of `watch` in auto_xdp/syncer.py, over the interface `Port` of a
--     backend: opening, events and debounce, reload, periodic reconcile, garbage collection, drift.
--     A sync and a drain of the connector may end it by an exception that it does not catch.
--   * AbuseIpdb: the blocklist of auto_xdp/abuseipdb.py and its replacement with a roll-back.
--   * InstallState: the selection of the host's interfaces of auto_xdp/install_state.py. A link is what
--     the selection reads of it, its texts in the case that the code gives them.
--     InstallState/Machine has the states that `select` and `record` leave for the next run, and
--     InstallState/Machine/Arguments reads what the launcher tells of an interface.
--   * Nft: the fallback of auto_xdp/backends/nftables.py. Nft/Rules and Nft/Render write the script as
--     text, line by line; Nft/Signature is the tuple by which a round sees that nothing changed, and
--     Nft/Apply a round. The kernel holds the last script that nft has committed.
--   * Relay: the daemon of pkt_relay.py. Relay/RingBuf reads the kernel's ring buffer, Relay/Events
--     decodes its records, also those of auto_xdp/sock_state.py, and Relay/Server has the history,
--     the queue and the clients. The two threads share only the queue, so what they do is a list of
--     actions in any order.
--   * ProcEvents: auto_xdp/proc_events.py. The loops over the messages of the process connector, on
--     the bytes of each read; an `unpack_from` beyond the bytes is `struct_error`.
--   * Discovery: auto_xdp/discovery.py, the pass over the socket dumps of the host in
--     Discovery/Netlink, the exposure of an address and the key of a flow.
--     Discovery/Netlink/Messages is the loop over the messages of one dump. The dumps, /proc,
--     systemctl and ipaddress are the parameters `Host` and `Addresses`.
--   * Samples and Examples: a backend over plain dicts, and the theorems at concrete inputs.
--
-- Conventions: a Python set is a list of which only membership is used, a dict the list of its
-- entries; loops over them go in the order of the list, and `sorted` is insertion sort. `bytes` is
-- a list of numbers. The loops are structural recursion, but for the ring reader, a round of which
-- moves on by eight bytes at least, so its fuel is the distance of the two positions, which are
-- below 2 ^ 64, and the loops over the messages of a buffer: a round moves on by sixteen bytes at
-- least, and the fuel is one more than the bytes. An endless loop is modelled by its body or by its
-- actions. A 64-bit value of the conntrack maps keeps its reduction modulo 2 ^ 64. Log lines are
-- left out.
--
-- Not modelled: the struct.error of a limit beyond 32 bits or an ACL port beyond 16, and the
-- ValueError of an ACL network that ipaddress does not read, which end a round and the daemon: the
-- theorems on rounds are about numbers and texts that can be packed. Further bpf(2), netlink, nft
-- and ctypes; reading the maps back from the kernel, but for the port whitelists of Bpf/Readback;
-- the sockets of the daemons, their PID files and tracepoints; discovery by psutil; how the nftables
-- backend starts; the command line; C and shell.
pub mod Base
pub mod State
pub mod Config
pub mod ConfigFile
pub mod Policy
pub mod Bpf
pub mod Backend
pub mod Syncer
pub mod AbuseIpdb
pub mod InstallState
pub mod Discovery
pub mod Nft
pub mod Relay
pub mod ProcEvents
pub mod Samples
pub mod Examples
