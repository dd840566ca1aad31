-- ===== src/Relay.antt =====
-- pkt_relay.py and auto_xdp/sock_state.py: the daemon that reads the kernel's ring buffers and
-- sends their events to its clients.
pub mod RingBuf
pub mod Events
pub mod Server
