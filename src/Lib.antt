-- ===== src/Lib.antt =====
-- A kernel module that filters packets on a bridge under the control of a netlink client
-- (src/main.c, src/netLink.c, src/netFilter.c, src/dealConf.c).
--
-- When the module is loaded, `init` opens the netlink channel, reads the configuration file and
-- takes its eight settings out of it, and registers the hook if the direction is "=>". A client
-- connects, disconnects, or sends a command that says whether packets are to be dropped. The hook
-- looks at every IP packet from the one configured address to the other: it logs it to the client,
-- a UDP packet only if its message is "B", and drops such a UDP packet if the operator chose so.
--
-- Which file models what:
-- - Base: shared names, lists over the native numbers, `Result` for code that can touch memory out
--   of its bounds, and decimals as `%d` prints them.
-- - Memory: a `char *` is the list of the bytes from it to the end of its array, and the functions
--   of linux/string.h are programs on such lists. A read or write behind the end is a fault.
--   Memory/Text, Memory/Search and Memory/Copy say what they do on texts, byte lists without a
--   zero. Memory/Receive is about arrays that a system call fills and the program then ends with a
--   zero.
-- - Kernel: what the module calls of the kernel, as a record of parameters, and the fields of
--   headers.
-- - DealConf: src/dealConf.c. DealConf/Extract is `extract`, the globals of which are its
--   arguments: `newcontent` and `dest` come in and go out. DealConf/Config is `readConf` and
--   `parseConf`, DealConf/Address is `char2string` and `in_ntoa`, and DealConf/Legal is `isLegal`,
--   which nothing calls, with DealConf/Legal/Checks on it and DealConf/Legal/Notes on the notes
--   that it accepts. DealConf/Spec says what `extract` is to find, DealConf/Content and
--   DealConf/Refine relate the two, DealConf/Settings does so for `parseConf`, and
--   DealConf/Address/Quad for `in_ntoa`, which DealConf/Address/Read reads back. DealConf/LongNames
--   is about the guard of `extract`.
-- - NetLink: src/netLink.c. `Netlink` has the globals `nl_sk`, `user_proc.pid` and `operatorflag`,
--   the messages sent so far and the number of buffers not yet freed. `sendMsgNetlink` is
--   `send_begin`, up to the second time it takes the lock, and `send_end`; one call without
--   interruption is `send_msg_netlink`. `recvMsgNetlink`, `createNetlink` and `deleteNetlink` keep
--   their names. Children: NetLink/Deliver on sending, NetLink/Wire on the bytes of a header,
--   NetLink/Receive on requests, NetLink/Interleave on calls of several threads, and
--   NetLink/Disconnect on a disconnect in the middle of a call. The steps of NetLink/Interleave let
--   the globals change without the messages that a request sends with it; those are calls of their
--   own, so that every real order of events is a run.
-- - NetFilter: src/netFilter.c. `Module` is the state of the whole module. NetFilter/Hook is
--   `hook_func` with every case of its switch; NetFilter/Header and NetFilter/Datagram are packets
--   as bytes; NetFilter/Frames, NetFilter/Drop and NetFilter/Reasons follow any run of the hook,
--   and NetFilter/Log, NetFilter/Udp, NetFilter/Tcp and NetFilter/Packet say what it does on whole
--   packets; NetFilter/Tcp also on those whose lengths are too small. NetFilter/Labels is a table
--   of the labels of log lines by the number of the protocol.
-- - Main: src/main.c, with Main/Lifecycle on `init` and `fini`, and Main/Unload on the time between
--   the two steps of `fini`.
-- - Session: the module in use, as a sequence of requests and packets.
-- - Gate: what the module promises, as a machine that knows only a client and a choice, and the
--   program on requests and whole packets. Gate/Sent and Gate/Arrivals take one request and one
--   packet, and Gate/Refine relates the two on sequences; NetFilter/Sizes, NetFilter/SizedHook and
--   DealConf/Kept say that the buffers keep their sizes.
-- - Client: client/netlink_client.c, the user-space side of the channel: `main` up to the loop is
--   `start`, a round of the loop is `receive`, and the handler of SIGINT is `quit`. Client/Dialogue
--   puts it together with NetLink, by what Client/Lines says of the loop: what one side sends is
--   what the other receives. Client/Parting is about its end, with NetLink and the hook.
-- - EventSender: udpTest_dhy/uclient.c, with its functions under their names. EventSender/Packets
--   is about one packet, EventSender/Rounds about the loop, EventSender/Filtered about one packet
--   in the hook, EventSender/Stream about the hook on all of them in turn, and EventSender/Legal
--   about the packets and `isLegal`.
-- - EventReceiver: udpTest_dhy/udpserver.c, with EventReceiver/Served on its loop.
-- - Letters, TcpTest, UdpTest: tcpTest/tcpclient.c and udpTest/udpclient.c with the texts that both
--   send, tcpTest/tcpserver.c, and udpTest/udpserver.c with UdpTest/Served; UdpTest/Exchange is
--   about the two udpTest programs.
-- - Samples: concrete inputs, the tests and the examples.
--
-- The machine is little-endian with a `size_t` of 64 bits, whose wrap-around is written out. There
-- is no fuel: every loop is recursion on a list, or on the rounds of a `for`. The endless loops of
-- the user-space programs are recursion on what the system calls return, one after another, or on a
-- number of rounds; the theorems hold for every such list and number. What their calls return, and
-- the start content of their local arrays, are arguments; an `int` that counts past 2 ^ 31 - 1 is a
-- fault. The `int` sizes of `sendMsgNetlink` are plain numbers, as no caller has a text of 2 ^ 31
-- bytes. A file is what one `vfs_read` delivers, and the read buffer keeps what it held behind
-- that. `in_aton`, the netlink functions, `alloc_skb` and the file are parameters; where a theorem
-- needs the room behind a fresh buffer's header to have the size that was asked for, it says so.
--
-- Not modelled: the messages of `printk`, except that they read a buffer; the locks themselves (a
-- step of NetLink/Interleave is what happens under one hold, and each event of Session runs to its
-- end); the kernel's own code; the client in Python (client/pyclient); addresses, socket options,
-- clocks, pauses and fixed messages of the user-space programs, and the closing of their sockets;
-- and the unused locals and the counter of src/netFilter.c.
pub mod Base
pub mod Memory
pub mod Kernel
pub mod DealConf
pub mod NetLink
pub mod NetFilter
pub mod Main
pub mod Session
pub mod Gate
pub mod Client
pub mod EventSender
pub mod EventReceiver
pub mod Letters
pub mod UdpTest
pub mod TcpTest
pub mod Samples
