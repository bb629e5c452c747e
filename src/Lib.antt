-- ===== src/Lib.antt =====
-- gecit: a tool that sends a fake TLS ClientHello before the real one, so that deep packet
-- inspection reads a harmless server name. This library models the program's decisions and its
-- bytes, and proves what makes them right.
--
-- The parts and how they interact. A connection is noticed in one of two ways: by the sock_ops
-- program in the kernel (pkg/ebpf), which also shrinks the MSS so that the ClientHello is split,
-- and tells the manager by an event; or by the router mode (pkg/router), which gets packets from
-- an nftables queue. On macOS and Windows the connections come from a TUN device (pkg/tun), which
-- dials the server itself and learns the sequence numbers from the SYN-ACK that pkg/capture sees and
-- pkg/seqtrack keeps. All take a payload from pkg/fake and send it through pkg/rawsock with a low
-- TTL. The DNS server (pkg/dns) answers over DoH and remembers the names of addresses; the
-- command (cmd/gecit/app) starts and stops it around the manager.
--
-- Fake: pkg/fake. Wire and Hello are clienthello.go (fill_bytes is fillBytes, build_client_hello
--   buildClientHello, random_tls_client_hello RandomTLSClientHello, with its counter as an argument
--   and a result), Sni is sni.go (parse_sni is ParseSNI, cut where the code returns). Total,
--   Layout, Names, RoundTrip and Shipped hold proofs.
-- Rawsock: pkg/rawsock/rawsock.go, ipheader_*.go and rawsock_windows_pcap.go, which is Windows.
--   Checksum and Packet are the code (checksum is
--   Checksum, build_packet BuildPacket); Sums, Verify, Headers, Segment, Fields and Devices hold proofs.
-- Ebpf: pkg/ebpf. Sockops is bpf/src/sockops.go: a callback takes the maps and gives the maps and
--   the list of helper calls. Manager is the defaults and pushes of manager.go and config.go,
--   Lifecycle its Start and Stop (attach and detach here), Reader readEvents and injectFake. Established, Restore, Threshold,
--   Excluded, Pushed, Events and Switch hold proofs.
-- Router: pkg/router. Config is config.go, Packet packet.go, Flows and Processor processor.go (the
--   processor's state is its configuration, its flow table and the counter of hellos), Nftables
--   nftables.go, Engine engine.go, Runner runner_linux.go, Probe the package probe. Sane, Validate, Once, HelloCheck,
--   Target, Decision, Gate, Batch and Lifecycle hold proofs.
-- Capture: pkg/capture and pkg/seqtrack, as the macOS files have them (the Windows files repeat them).
--   Packet is the filter and processPacket, Tracker the map of events with WaitForSeqAck and
--   GetSeqAck over the rounds of its loop, Interfaces the choice of the interface. Fresh, Polls,
--   Delivery and Physical hold proofs.
-- Tun: pkg/tun. Handler is handler.go (a connection comes to the list of what is done to both
--   sides, in order), Pipe its copying loops over the rounds of reads and writes, Deadlines the two
--   goroutines of pipe as a step relation, Manager is manager.go over the answers of the system.
--   Fakes, Closing, Stream and Lifecycle hold proofs.
-- Dns: pkg/dns. Server is server.go, Resolver doh.go, System system_linux.go, Darwin
--   system_darwin.go and Windows system_windows.go, the last two over what the system's tools print.
--   Queue, Fallback, Lines, Restore, Cycle, MacCycle and WinCycle hold proofs.
-- App: cmd/gecit/app. Engines is Start and Stop of run_linux.go and run_tun.go, with the managers
--   of Ebpf.Lifecycle and Tun.Manager as a part of the engines' state, Flags the list
--   flags of router.go and run.go, RouterRun the commands of router.go, Cleanup cleanup_darwin.go and
--   cleanup_windows.go. Lifecycle and CleanupCases hold proofs.
-- Base: what the others share. An index or a slice out of range is the outcome `panic`; a Go int
--   that may be negative is an integer of Base.Int.
--
-- Bounds and fuel. The loops of ParseSNI have the length of what they scan as fuel, and each round
-- takes at least three bytes off it; the folding loop of Checksum has three rounds, which a 32-bit
-- sum never uses up (Rawsock.Sums). A loop of ParseSNI without fuel left is the outcome `stuck`,
-- which Fake.Total excludes. Numbers wrap where the Go types do. Times are nanoseconds.
--
-- GetSeqAck waits 500 ms with a millisecond of sleep in each round, so 501 rounds are enough
-- (Capture.Polls); with fewer it is `stuck`, as is a copying loop whose connection has not ended.
--
-- Parameters: crypto/rand, gopacket's decoding, the constants and the byte order of package bpf,
-- cilium's map updates, strconv.Quote, package dns, the HTTP exchanges, package net's ParseIP, ParseMAC and
-- IP.String, strings.ToLower, in the engine the answers
-- of the runner and of nft, and for the TUN device those of the connections, the dialer, the raw
-- socket, the clock and the system's interfaces.
--
-- Not modelled: the rest of the command line (registering and printing, glue of cobra), the opening
-- of sockets, queues, pcap handles and kernel programs, the HTTP exchange of DoH, and logging.
-- Mutexes make each operation one step; starts that overlap are left out.
pub mod App
pub mod Base
pub mod Capture
pub mod Dns
pub mod Ebpf
pub mod Fake
pub mod Rawsock
pub mod Router
pub mod Tun
