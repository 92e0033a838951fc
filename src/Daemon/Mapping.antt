-- ===== src/Daemon/Mapping.antt =====
-- daemon/src/main.cpp: what the main loop does with the packets that are received.
use hut_karish.Daemon.Loop.{Daemon}
