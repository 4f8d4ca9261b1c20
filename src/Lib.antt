-- ===== src/Lib.antt =====
-- Verification of bf, a packet filter for Linux: a kernel module with rule chains, and the programs
-- that control it over netlink.
--
-- The program. bf-ko is the kernel module: netfilter hooks judge each packet by the rules of its
-- direction, requests over netlink change the rules and the policies, a thread lists the rules, and a
-- work queue reports the packets that a rule matched. common holds the structures that both sides
-- share. bf-link is the client's side of the connection, and bfctl a command-line program on it.
--
-- The files, with the code that they model:
--   Base                  lists, tests and byte images that the rest shares
--   Rule, Names, Message  common/trx_data.h: rules, the names of values, netlink messages
--   Hash, HashTable       bf-ko/base/hash_function.h, bf-ko/base/hash_table.h
--   Store                 bf-ko/bf_module.c: the rule lists, add_rule, delete_rule, find_rule and others
--   Kernel                bf-ko/bf_config.h, the state of the module, its policies
--   Hook                  bf-ko/bf_module.c: hook_func; Hook.Log: work_handler
--   Netlink               bf-ko/nl_int.c: nl_rcv_msg
--   Listing               bf-ko/bf_module.c: list_rules
--   SendList              bf-ko/nl_int.c: nl_send_lst
--   System                the module as a whole: events in any order; System.Interleaved: a listing
--                         thread with other events in between
--   Lifetime              bf-ko/bf_module.c: init_module and cleanup_module as wholes
--   Client                bf-link/bfcontrol.cpp, bf-link/qwaitfordone.cpp, bf-link/errorreceiver.h
--   Stream                common/trx_data.h: rules in a QDataStream
--   RulesFile             bf-service/bfrules.cpp: the service's rules and their file
--   Link                  a client joined to the kernel module
--   Frames                the messages on a local socket, and the slots that read them
--   Local                 common/trx_data.h: commands; bf-link/bflocalcontrolprivate.cpp
--   LocalServer           bf-link/bflocalserver.cpp; LocalServer.Session: addRule and sendRulesSync of
--                         bf-link/bflocalcontrolprivate.cpp over it
--   Service               bf-service/bfserviceprivate.cpp: the service's start and stop
--   ServiceConfig         bf-service/bfconfig.cpp, bf-service/utils.cpp: the settings, isReboot
--   FileLogger            bf-service/filelogger.cpp: the log files and their rotation
--   Daemon                bf-service/bfservice.cpp
--   SignalCatcher         bf-service/signalcatcher.cpp
--   Cli                   bfctl/utils.cpp, bfctl/utils.h: parse_cmd_args
--   Bfctl                 bfctl/cmds.cpp, bfctl/main.cpp: what the commands do and print
--   NetlinkSocket         bf-link/netlinksocket.cpp
--   CommandTool           bf-ko/bf_cmd.c: the command line and main of the tool before bfctl
--   RulesTable            tests/bfctl_gui/rulestablemodel.cpp: the edits in the GUI's table
--   RulesView             tests/bfctl_gui/rulestablemodel.cpp: what the view asks for;
--                         RulesView.Delegate: tests/bfctl_gui/ruledelegate.cpp
--   MainWindow            tests/bfctl_gui/mainwindow.cpp; MainWindow.AddDialog:
--                         tests/bfctl_gui/adddialog.cpp
--   Examples              concrete data, and the theorems at it
-- A definition has the name of the function that it models. The state of the module is the record
-- Kernel; its rule lists are the record Store, where a node is its address in a heap that the lists and
-- the hash table share. A handler maps a state to a state and to the messages that it sends. The
-- client's functions take the messages that arrive while they wait. bf-service keeps the rules in a file
-- over restarts, and serves programs over a local socket with its own connection to the module.
--
-- Bounds and assumptions. Numbers are natural numbers, and machine words keep their wrap-around where
-- the code computes with them: the hash in 32 bits with the signed `char` of x86, the ports of bfctl in
-- 16 bits. Words are little-endian. Memory allocation succeeds, the counter of added rules does not
-- overflow, requests run one at a time under their mutex. Listing and the events of System run a
-- listing in one step; System/Interleaved runs it turn by turn, a turn for each access to the lists.
-- Writes to a local socket of the server succeed, and its slots are not called again while it waits for
-- the module. The window of the GUI talks to a service that answers. bf-link is built without
-- NL_THREAD, as bf-link/bf-link.pro has it. The loops over lists need no fuel; those that read a file
-- or a socket, destroySocket and the removal of rows have as much as there are bytes or entries, of
-- which every round takes one at least. A listing that the old tool waits for forever is an end of its
-- own.
--
-- Parameters: whether each send of a listing succeeds, what the socket's send returns, the order and
-- the contents of the messages that arrive, the options that getopt_long finds, inet_pton and atoi,
-- libnl's view of the headers in a buffer, what QDomDocument finds in a file, the files of the log, the
-- bytes of QDataStream and QVariant, what memory holds that a constructor leaves unset, the filter of
-- QSortFilterProxyModel, the rows that are selected in a view, what the fields of a dialog hold, the
-- numbers of qrand, and whether work is pending when the module is unloaded.
--
-- Not modelled: locks and RCU beyond the grace period, debug output, /proc reads; the system
-- log of the service, texts and positions of the GUI, the test programs; exts, which are other
-- libraries.
pub mod Base
pub mod Rule
pub mod Hash
pub mod HashTable
pub mod Store
pub mod Kernel
pub mod Hook
pub mod Message
pub mod Netlink
pub mod Listing
pub mod System
pub mod Names
pub mod Cli
pub mod Client
pub mod Bfctl
pub mod RulesTable
pub mod Examples
pub mod Stream
pub mod RulesFile
pub mod Link
pub mod Service
pub mod Frames
pub mod Local
pub mod LocalServer
pub mod CommandTool
pub mod NetlinkSocket
pub mod FileLogger
pub mod ServiceConfig
pub mod SendList
pub mod MainWindow
pub mod RulesView
pub mod SignalCatcher
pub mod Lifetime
pub mod Daemon
