-- ===== src/Lib.antt =====
-- ModbusThings: an agent that reads Modbus devices, publishes what it read over MQTT, and spools it
-- to files that it uploads in bulk when the real-time way is blocked.
--
-- The parts and how they interact. The core thread (src/core/src/MBT_core.c) scans the configured
-- registers (src/core/src/MBT_scan.c), merges them into a document and pushes it to the real-time
-- service (src/core/src/MBT_realtime.c), whose port (src/port/src/mqttclient/portMqtt.c) keeps it in
-- a message queue (src/utils/src/MBT_queue.c) that a sending thread empties. If that queue is full,
-- the cached messages are handed over to the spool (src/core/src/MBT_bulk.c), which writes files
-- (src/os/Linux/src/MBT_osFs.c) and numbers them by indices that it keeps as attributes
-- (src/core/src/MBT_attributes.c); check_do_bulk_service of the core thread uploads them with an
-- HTTP client (src/port/src/libcurl/portHttpClient.c). The attributes stand in a store of the port: a
-- table in a file (src/core/src/MBT_simpleDb.c) or EasyFlash (src/port/src/easyflash/portDB.c). All
-- parts log through a ring of bytes and two files (src/utils/src/MBT_log.c).
--
-- The files:
--   Base         tests, lists, numbers, decimal text, and commands on a state, which end with a
--                value and a state, in undefined behaviour (fault), or wait for ever (blocked)
--   Queue        MBT_queue.c: a heap of nodes by their addresses, with head, tail, count and lock;
--                Chain is the list that the nodes form; Fifo, Receive and Dump are on MBT_mqSend,
--                MBT_mqRecv and MBT_mqDumpLimit; History is on all calls since MBT_mqCreate
--   Mqtt         portMqtt.c: Sending is on mqtt_push_data and the sending thread, Dumping on
--                mqtt_dump_cached_data, whose buffer Bytes models, Client is the start, and Incoming
--                the callback for a message that comes in
--   Mymqtt       src/port/src/mymqtt/portMqtt.c: Starting is on the client, Sending on its thread over a
--                queue of RT-Thread, Lines on do_dump, and
--                Incoming on mqtt_sub_callback
--   Disk         MBT_osFs.c: m_write over the answers of write(2), and a disk of named files; Old is
--                m_removeOldLogFiles, and Old.Names is on the names that a rotation gives
--   Attributes   MBT_attributes.c: the cache over the key-value store of a port, with its laws; Setup
--                is modbus_attributes_init, and Boot what a start leaves behind
--   Network      MBT_osNetwork.c of src/os/Linux and of src/os/RT-Thread: the state of the network and the
--                wait for it
--   Bulk         MBT_bulk.c: Names are the file names, Saving and Uploading the two ends of the spool
--   Realtime     MBT_realtime.c: Handover is on dump_cached_data with any port, Client with portMqtt.c
--   Server       src/port/src/ThingsBoard/portServer.c: Requests is on what it sends
--   Core         MBT_core.c: BulkService is check_do_bulk_service, Draining is what its calls achieve,
--                Loop is a turn of mdc_loop and the handlers of messages, Loop.Turns what a turn does,
--                Loop.Publishing the push of a result over portMqtt.c; Start is modbus_core_start,
--                Unconfigured (with Loop.Blank and Loop.Unconfigured) is a start without a
--                configuration and what comes of it, FirstTurn a start with one, Restart is on the head
--                index of the spool, and Ota is the address of a new firmware
--   Scan         MBT_scan.c: Config, Rounds, Hex and Merge are on its four steps, Reconfigure on
--                further configurations, Reads on what a scan makes of each node, and OutOfMemory on what
--                happens without memory for the nodes
--   Master       src/port/src/libmodbus/portMaster.c and src/port/src/RT-libmodbus/portMaster.c over
--                libmodbus; Unconnected is on scans without a connection
--   Log          MBT_log.c: Tabulate is memory as text, Ring is the ring, Push is on pushLogBuffer,
--                Flush on doWriteLog, History on any sequence of the two, and Lost on the reports of lost
--                lines; Rotation is the log files,
--                with Opening on openLogFile and Turn on threadToOpenNewFile; Printing is
--                MBT_printLog and MBT_closeLog, Start MBT_initLog, and Life is on a log in use; Thread
--                is asyncOutputLog, with Sleeps on what comes in while it sleeps and Latency on how
--                long a line waits
--   SimpleDb     src/core/src/MBT_simpleDb.c: Saving is on MBT_simpleDbPut, Bytes on what it writes, Loading on parse_load and
--                the start, Port is src/port/src/simpledb/portDB.c
--   EasyFlash    src/port/src/easyflash/portDB.c: Keys is on its table of names, Ints on its numbers, and Store
--                on the port as a store of the attributes
--   HttpClient   src/port/src/libcurl/portHttpClient.c: Answers is on the buffer for an answer,
--                Provisioning on service_dev_provision and Uploads on the bulk uploads over it
-- Each Tests module has runs at small inputs.
--
-- Bounds and fuel. The nodes of a scan are numbered from 1 in the order of their allocation, so that
-- their number is below the next address, which is the fuel of the loops over them. The loop of
-- doWriteLog has fuel 2: its first turn takes all that waits. The loop of MBT_mqDumpLimit takes one
-- from the count in each round, which is its fuel. A decimal text has fewer digits than its number
-- plus one. An int is 32 bits and wraps where the code adds to it; a size_t is 64 bits.
--
-- Not modelled: cJSON, the MQTT, Modbus and HTTP libraries and the C library, which are parameters
-- (a parser, a read of registers, the answer to a post, what a wait leaves behind); threads, as far
-- as a lock makes a call one step; allocation that fails, except where an argument says so (in MBT_scan.c
-- it is there but for the nodes); and the memory that is never freed. src/port/src/mymqtt does not build as it is, and its hand-over is a
-- call of a function that RT-Thread does not document, which is a parameter. The HTTP port over
-- webclient, and the functions of src/os other than those of MBT_osFs.c and MBT_osNetwork.c, pass a
-- call on to a library or the system and have nothing of their own.
pub mod Base
pub mod Queue
pub mod Mqtt
pub mod Mymqtt
pub mod Disk
pub mod Attributes
pub mod Network
pub mod Bulk
pub mod Realtime
pub mod Scan
pub mod Master
pub mod Server
pub mod SimpleDb
pub mod EasyFlash
pub mod HttpClient
pub mod Log
pub mod Core
