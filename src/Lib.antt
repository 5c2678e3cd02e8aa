-- ===== src/Lib.antt =====
-- st-dns: a DNS server that asks several remote servers and answers from a cache.
--
-- A session reads a request (src/core/protocol/request.cpp), its record is looked up or fetched, and a
-- response (src/core/protocol/response.cpp) is built from the record's addresses and sent back. The
-- client builds requests and reads responses with the same classes.
--
-- Which file models what:
--   Base             shared names: tests, lists, bits, texts, byte buffers and their errors
--   Utils/Bytes      src/common/main/utils/byte.h: read, write, to_bytes
--   Utils/Ipv4       src/common/main/utils/ipv4.h
--   Utils/AreaIp     src/common/main/utils/area_ip.h and the look-ups of area_ip.cpp
--   Utils/Strings    src/common/main/utils/string_utils.h: split and join
--   Utils/AreaIp/Sync  the file of addresses of area_ip.cpp: sync_net_area_ip
--   Utils/Metrics    the lines and the statistics of src/common/main/utils/logger.cpp
--   Utils/Counters   src/common/main/utils/avg_counter.h and interval_counter.h
--   Utils/Pool       src/common/main/utils/pool.cpp
--   Protocol/Header  class dns_header of src/core/protocol/dns_message.h
--   Protocol/Domain  class dns_domain of src/core/protocol/dns_message.h and dns_message.cpp
--   Protocol/Query   classes dns_query and dns_query_zone of dns_message.h
--   Protocol/Resource  class dns_resource_zone of dns_message.h
--   Protocol/Request   src/core/protocol/request.cpp
--   Protocol/Response  src/core/protocol/response.cpp
--   TaskQueue        src/common/main/taskquque/task_queue.h
--   Config           remote_dns_server of src/core/config.h and config.cpp
--   Config/Load      config::load of src/core/config.cpp
--   Records          src/core/dns_record_manager.h and dns_record_manager.cpp
--   Records/Store    add, get_dns_records_pb, resolve and the reverse records of dns_record_manager.cpp
--   Records/Stats    dns_record::transform and stats of dns_record_manager.cpp
--   Kv               src/common/main/kv/disk_kv.cpp
--   Kv/Model         what a store promises, and sequences of operations on it
--   Kv/Shared        src/common/main/kv/shm_kv.cpp
--   Server           the decisions of src/core/dns_server.cpp
--   Server/Session   the handlers of a session: receive, process_session, query_dns_record,
--                    forward_dns_request and end_session of src/core/dns_server.cpp
--   Server/Schedule  schedule of src/core/dns_server.cpp
--   Server/Fetch     the tasks of src/core/dns_server.cpp that fetch a record, with add
--   Client           the handlers of src/core/dns_client.cpp
--   Console          src/common/main/console/udp_console.cpp
--   Console/Commands src/core/console_manager.cpp, and the texts of records and statistics
--   Console/Client   src/common/main/console/client.h and src/common/main/command/dns_command.h
-- The children of a file hold the theorems about it; the files named Tests below the components apply
-- them at concrete values.
--
-- A buffer is a list of bytes and a pointer into it an address; the bytes that an operation writes come
-- back as a new buffer. A read or a write outside of the buffer is the error `out_of_bounds`, where the
-- C++ code has undefined behaviour. Machine integers are natural numbers with their wrap-around written
-- out where the code can reach it (uint64_t differences, unsigned char indices, uint16_t counts).
-- A session's handlers are functions on its state and on the queue of tasks; what the timer, the
-- remote server or the sending completes with is an event. The client's exchanges take the list of
-- completions and give the list of the calls of the complete handler.
-- Server takes the servers from Config, the records from Records and submits its tasks to TaskQueue.
-- Console carries out its commands on the stores of Records, and its client reads the responses.
-- Kv works on a record of leveldb's operations and one of protobuf's; Records stores its messages through
-- Kv. A null pointer is `none`; `valid` is basic_data's flag.
--
-- Bounds: the loop of parseRe has a round per byte of the buffer and one more as fuel, since every
-- round takes a byte; calls of it nest 21 deep as in the code. udp_response::parse has four rounds as
-- fuel, since each of header, question, answers and end takes one. split has a round for each byte of
-- its text and one more, since each separator has a byte.
--
-- Not modelled: sockets and timers (boost::asio), the sinks and files of the logger, the opening of
-- shared memory and of leveldb, the download of the tables of areas and the network services that give
-- the area of an address, and the copy of cpp-httplib. Arguments of the definitions are: the number of
-- a query's id, which comes from an atomic counter, the ids of tasks, the clock, the area test, the
-- shuffle of addresses, the order of an unordered set, the operations of leveldb and protobuf, and std::regex_match, boost's trim,
-- program_options and property_tree, std::stoi and std::stoul, and the proxy's areas and ports. The
-- token count of the task queue is a double; whether a token is there is an argument of dispatch.
-- std::sort is an insertion sort and the heap gives the first of its best entries.
pub mod Base
pub mod Utils
pub mod Protocol
pub mod TaskQueue
pub mod Config
pub mod Records
pub mod Server
pub mod Client
pub mod Kv
pub mod Console
