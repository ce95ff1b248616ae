-- ===== src/Lib.antt =====
-- Verification of cpp_assistant, a C++ library for command line programs and network services.
--
-- The parts modelled are, if not said otherwise, the library's own, below code/libcpp_assistant (src/native and
-- include/cpp_assistant/native):
--   - sequential_buffer.cpp, a byte buffer for received and sent data: SequentialBuffer, with `create`,
--     `resize` and the copies in SequentialBuffer.Storage. The record has the members m_data,
--     m_total_size, m_read_pos and m_write_pos; each method is the function of its name. Queue says
--     what a buffer promises, a bounded queue of bytes; Layout relates the states to it, Moving is about
--     move_data_to_header, and Reading, Writing, ReadPointer, WritePointer, Sizing, Copying and Faults
--     about the other methods.
--   - ca_string.cpp, texts split at delimiters and paths at the last slash: Strings, with Tokens,
--     Directory and BaseName.
--   - command_line.cpp, the options that a program learns and the parsing of its arguments:
--     CommandLine, with the loop of `parse` in Parser and the texts of `usage` and get_parsing_result in
--     Usage. Invariant is about a property that `parse` keeps, which Counts, Life and Result use;
--     Parsed, Learning, Plain and Usable are about the results. It splits names and values with
--     Strings.
--   - signal_capturer.cpp, the table of signals with their handlers: SignalCapturer, with Table,
--     Registration, Arrival, Handling, Forbidden, Quiet and Runs, where the calls of the operations and the
--     arrivals of signals are steps in any order.
--   - frameworks/framework_public/timed_task_scheduler.cpp, in code, of the application framework: the
--     tasks that are run periodically or at events. TimedTasks, with Registration, Pass, Execution,
--     Soundness and Runs. The clock is a function from the number of the reading to the time.
--   - base/ca_return_code.h and src/native/base/ca_return_code.cpp, the return codes of all parts and
--     their messages: ReturnCode, with Messages, Table and Decimal. `strerror_r` is a parameter.
--   - net_common.cpp, net_poller.cpp, tcp_base.cpp and tcp_server.cpp, connections over sockets: Network, with the loops of
--     `send` and `recv` in Fragments, the transfer between a connection's buffers and its socket in Transfer,
--     the poller in Poller, its calls over time in Watching, and the map of the peers with tcp_server's accept_new_connection in Peers. Sending, Delivery,
--     Arriving, Monitored and Peers.Accepting are about them. The buffers are those
--     of SequentialBuffer. What each call of the system gives is an argument.
--   - frameworks/framework_public/char_dictionary.cpp, in code: Dictionary. The dictionary of dict.c is
--     its parameter, the record Dict of operations and laws, which the parts below take too;
--     Dictionary.Listed fills it with a list of entries.
--   - frameworks/framework_public/connection_cache.cpp, in code, connections by name and by type:
--     ConnectionCache, with the sending operations in Sends. Picking, Broadcast, Grouping, Agreeing and Runs are about it. It
--     sends with Network.Fragments.
--   - frameworks/framework_templates/tcp_app/message_cache.cpp, in code, pending messages: MessageCache, with
--     Cleaning.
--   - frameworks/framework_public/protocol_common.cpp, in code, and the byte order conversions of system.h: Protocol, with
--     what makes and sends packets in Protocol.Packets. ByteOrder, Fields, Headers and Packaging are about them. The bytes of
--     a message are a parameter, since generated code makes them.
--   - frameworks/framework_templates/tcp_app/packet_processor.cpp and frameworks/framework_public/main_app.cpp, in code, the
--     packets of a stream: PacketProcessor, with Framing, Incomplete and Stream. It takes the packets from the buffer of a
--     connection of Network, and reads their headers with Protocol. A packet that comes to diagnose_connection or to a
--     component is not followed further.
-- Prelude has what they share: tests on native numbers, lists, integers, blocks of memory, texts and
-- ordered maps.
--
-- Conventions. A C `int` is an integer of unbounded size: buffer sizes, positions, counts and codes stay
-- in the range of `int`, since positions are bounded by the size of an allocated block, and times and
-- intervals stay far below 2^63 microseconds. A block of memory
-- is a list of bytes, and a `none` result is an access outside of a block, of an array, or through a
-- null pointer. Whether an allocation or a system call succeeds is a Boolean argument. A C string is
-- the list of its bytes without the final zero. Loops are structural recursions;
-- only the digits of a number take fuel, one more than the number, which ReturnCode.Decimal shows to
-- be enough.
--
-- Not modelled: output and logging, conversions of numbers by the C library, calls of the system, the
-- loggers, clients over sockets, the rest of the application framework below code/frameworks, the XML helper, generated
-- protocol code, and the third-party sources.
pub mod CommandLine
pub mod ConnectionCache
pub mod Dictionary
pub mod MessageCache
pub mod Network
pub mod PacketProcessor
pub mod Prelude
pub mod Protocol
pub mod ReturnCode
pub mod SequentialBuffer
pub mod SignalCapturer
pub mod Strings
pub mod TimedTasks
