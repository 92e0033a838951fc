-- ===== src/Lib.antt =====
-- Hut Karish maps network traffic to processes: a kernel module reports the TCP and UDP packets that
-- it sees to a daemon, which keeps a map from ports to process ids, and to the packet hunter, which
-- asks the daemon for the process of each packet and keeps the packets by process.
--
-- Packet: shared/config/NetLinkConfig.h, the packet information.
-- Kernel: kernel_module/sniffer.c. State holds the static variables and what the module has done;
--   Messages are create_message, send_packet_info_to_user and send_stop_msg; Commands is
--   nl_recv_msg; Hook is packet_sniffer_hook; Load is sniffer_init and sniffer_exit. The kernel's
--   services are an environment, `Env`, that answers each call by its number; the theorems hold for
--   every one, or for those of which they say that they work. A read through NULL is `none`. The
--   other modules are proofs: Sending, Reporting, Delivery and Telling on what clients are told,
--   Registry and Stop on commands, Run and Total on histories, Parsing on what the hook reads,
--   Widths and Range on the widths of what is sent, Growing on what a step of the module keeps.
--   Clients names the variables of each client. Concurrent is nl_recv_msg and the hook as they run
--   beside each other on several processors, a step for each access to the static variables; Known
--   and Addressed are about whom it sends to, Deaf and Lost about a subscription that is lost, Alone
--   and Sequential about an operation whose steps no other comes between.
-- NetLink: shared/netlink_client/NetLinkClient.cpp. Socket is its construction and destruction, Send
--   is sendMessage and what the kernel reads of it, Wire is receivePacketInfo on the bytes that the
--   kernel sends; Text has the strings in buffers. Sockets and Heap are the descriptors and the
--   packets that a process holds.
-- Queue: shared/message_queue. Receiver: the receiver thread and the cleaning of the queue in
--   shared/config/UserSpaceConfig.h, which the daemon and the packet hunter run; Taking is what the
--   receiver takes of what it receives. A thread is a function of its rounds, each with the flag
--   `running` and with what the system gives in it; a run of the thread is a list of rounds of any
--   length. cleanMessageQueue takes fuel, of which one more than the length of the queue is enough.
-- Exit: how the two programs end.
-- SafeMap: shared/thread_safe_unordered_map.
-- Scan: daemon/src/ScanFiles.cpp. Chars and Regex are the regular expression, Numbers the
--   conversions, Lines is parseListeningSockets, Links and Processes are findPidBySockInode, Ports
--   is initializePortPidMap and scanForPidByPort. The contents of /proc are inputs, and every walk
--   over the processes may see others. An exception that nobody catches is `none`. LineFormat, Words
--   and RoundTrip are about the lines that the kernel prints, LinkFormat about links, Owners, Finding
--   and Priority about the pids that are found.
-- Daemon: daemon/src. PortToPidMap, with its Calls over time; Server (UnixSocketServer.cpp), Pids
--   (the bytes on its socket), and of main.cpp Clients (clientConnectionThread and
--   handleClientConnection), Loop (the main loop, step by step between the steps of the receiver)
--   and Main (`main` with them, its joins, the cleaning with fuel one above the length of the queue,
--   and the closing of the server); Memory, Ending, Arrivals and Mapping are about the packets that
--   the two threads share, and about the end of `main`.
--   Shutdown is the end of main.cpp: `main` and the client thread as programs whose steps
--   interleave, a step for each access to what they share, and its modules are about the last join.
--   Daemonize is the function of that name, which the program does not call.
-- Hunter: packet_hunter/src. PacketMap (PidToPacketsInfoMap.cpp), Client (UnixSocketClient.cpp) and
--   of main.cpp Loop (the main loop), Save (the lines that are printed and saved, with decimal
--   numbers of at most ten digits, and the freeing of what is saved), Freeing (of a map that is not
--   saved) and Threads (`main`, with the receiver beside the main loop, and its join); Unique, Filing,
--   Interleaving, Hunted and Arrived are about what is received, printed and filed, Memory and
--   Shutdown about the memory, Saved about the file. Order and Reordered are about the order of the
--   entries of the map, which is a list here and an unordered_map there.
-- Flow: the parts together. Watch, Reception, Session, Arrival and Prefix follow packets from the
--   kernel module to the queue of a client, Recording to the map of the daemon and Hunting to that
--   of the packet hunter; Query is a question of the packet hunter to the daemon and back, Joint,
--   Answering and Pids are the packet hunter while the daemon answers it; Refused is a process that subscribes
--   while another one is subscribed. Commanding takes a program's commands from its sendMessage to
--   the kernel module. Joining is the end of a receiver thread: the thread, `main` of its program and
--   the kernel module, whose steps interleave, with the handler of the signal as a step; its modules
--   Waiting, Invariant, Steps, Returning, Settling and Blocked are about the join.
-- Prelude holds what all of them share: lists and numbers over the native naturals, bytes, integers,
--   and maps as association lists. Tests holds the theorems at concrete inputs.
--
-- Where methods hold a mutex to their end, threads see sequences of whole operations, and the
-- theorems range over all sequences. Not modelled: logging, the installing of signal handlers,
-- sleeping and the console; the scripts and the service file. That the write of a pid to the
-- client's socket does not block is taken for granted. What the system and the kernel answer
-- is always an input, never fixed.
mod Prelude
pub mod Packet
pub mod Kernel
pub mod Sockets
pub mod Heap
pub mod Queue
pub mod NetLink
pub mod Receiver
pub mod Exit
pub mod Scan
pub mod Daemon
pub mod Hunter
pub mod Flow
pub mod SafeMap
mod Tests
