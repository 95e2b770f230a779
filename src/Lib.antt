-- ===== src/Lib.antt =====
-- The anti-DoS filter: an XDP program that drops packets by their headers and by two address lists,
-- and user-space programs that load it, read its counters, fill the lists, and block the sources
-- that send more packets than a policy allows.
--
-- The parts, and how they act together. The XDP program (main/xdp_prog_kern.c with the headers of
-- main/common/) parses a packet, looks its source up in the maps `white_list` and `black_list`,
-- applies the fragment and size rules, counts the packet in `xdp_stats_map`, and sends a `pkt_meta`
-- record of each passed packet through `perf_map`. The policy daemon (main/start_policy.c) receives
-- these records, counts them by policy and source once per second, puts the sources above the
-- threshold into `black_list`, and takes them out when their lock is over. The programs share the
-- files of common/.
--
-- The modules:
-- - Base: Boolean tests, C arrays as lists, C results as signed numbers, masks as remainders.
-- - Packet: packet memory and the header structs, on a little-endian host. A read of a struct that
--   is not whole in the packet is a fault (`none`).
-- - Filter.Parse: main/common/parsing.h. Filter.Rules: main/common/check_rules.h. Filter.Stats:
--   main/common/xdp_stats_kern.h, and Filter.Stats.Plain common/xdp_stats_kern.h. Filter.Prog:
--   `xdp_parser_func`, one definition for each case of its `switch` statements; Prog.Runs follows
--   it over a sequence of packets. Filter.Spec: what it is to decide, in network byte order, with
--   no cursor.
-- - Maps: `check_map_fd_info` and `open_bpf_map_file` of common/common_user_bpf_xdp.c over the
--   record `Sys` of the calls into libbpf and the kernel. `Serves` states what bpf(2) documents of
--   a hash map.
-- - Policy: main/start_policy.c. Policy.BlackList: `policy_change_black_list`. Policy.Table: the
--   first half of `detect_attackers`, which counts. Its Rows and Noted are the lists that the
--   tables are to hold; Fills compares them for one policy, and Single, Clean, Several and Every
--   for any number, where a table also counts rows of its uninitialised memory as used.
--   Policy.Detect: the second half, which blocks; Detect.Senders bounds the rows by the senders,
--   and Detect.Registers follows `count_down`. Policy.Unlock: the sweep over `count_down`.
--   Policy.Poll: `policy_stats`, `event_received` and `event_poller`, whose arrays have 128
--   entries; Poll.Second, Whole and Cycle follow them through a second and the lock behind it,
--   Safe, Paced and Stall through any number of rounds, and Ticks a round in which the second ends.
--   Policy.Load: `load_policy`, over the calls of `fscanf`. Policy.Start: `setup_perf_poller` and
--   `main`, which ends in the loop of Policy.Poll.
-- - Vlan: the VLAN, IPv6 and ICMPv6 parsers of common/parsing_helpers.h; Vlan.Headers: its others.
--   Vlan.Rewrite: common/rewrite_helpers.h, over the kernel's `bpf_xdp_adjust_head`.
-- - Report: main/xdp_stats.c, which prints the counters and their rates; Report.Main: its `main`.
-- - Link: `xdp_link_attach` and `xdp_link_detach` of common/common_user_bpf_xdp.c, over the two
--   calls that change what an interface carries. UpdateList: main/update_list.c. Params: the option
--   loop of common/common_params.c, and Params.Options the array for `getopt_long`. Loader:
--   `reuse_maps` of common/common_user_bpf_xdp.c and `pin_maps_in_bpf_object` of main/xdp_loader.c.
--   Loader.Attach: the functions of common/common_user_bpf_xdp.c that load an object and attach its
--   program. Loader.Main: `main` of main/xdp_loader.c, which parses the options and runs these.
-- - Pinned: common/common_libbpf.c. Pinned.Files states what the calls do to pinned files;
--   Pinned.Taken follows one request through the loop before loading, Pinned.Made through the loop
--   behind it.
-- - TraceRead: main/trace_read.c, with `strtok_r` and `sscanf("%s")` written out. Each round of its
--   loop takes characters off the line, so fuel of one more than the length is enough
--   (TraceRead.Ends).
-- - Host: the packet program and the daemon together, as a step relation: a packet arrives and
--   `xdp_parser_func` runs on the black list that the daemon has made, or `poll_round` runs, with
--   samples that the program has sent. Host.Gathered and Wire follow the packets of a second to the
--   drops behind it; Policy.Poll.Locks, Floods and Quiet and Policy.Unlock.Seconds follow one lock
--   through the rounds.
-- - Tests: packets and a system at which the theorems are applied.
--
-- State is passed explicitly: `Kern` holds the maps as the XDP program on one CPU sees them,
-- `Guard` the globals of the daemon, `World` what it reaches through the kernel. Counters keep
-- their 64-bit and 32-bit wrap-around. Loops are recursions on the lists that they walk, on the
-- CPUs or array entries left, or on the rounds given; `poll_rounds` is any number of rounds of the
-- endless loop. A round has a time for itself and one for each row at which `detect_attackers`
-- reads the clock. Only the loop over the tokens of TraceRead has fuel.
--
-- Not modelled: libbpf/ and headers/ (copies of other projects; what the code takes from the
-- byte-order macros is `htons`), the text that is printed, the floating-point division of its
-- rates, `meta_print`, which is not called, and the release of memory. The options that
-- `getopt_long` returns, the clock, the content of uninitialised memory and the records that libbpf
-- hands over are arguments.
pub mod Base
pub mod Packet
pub mod Filter
pub mod Maps
pub mod Policy
pub mod Host
pub mod Vlan
pub mod Report
pub mod Link
pub mod UpdateList
pub mod Params
pub mod Loader
pub mod TraceRead
mod Tests
pub mod Pinned
