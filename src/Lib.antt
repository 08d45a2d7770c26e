-- ===== src/Lib.antt =====
-- Verification library of the distributed logger.
--
-- A client calls a generated function of the class `Logger` for an event. The function computes the
-- size of a frame, allocates a buffer, encodes the event and its arguments behind four free bytes,
-- and gives the buffer to a transport. The transport fills the four bytes with the size of the
-- payload, and writes the frame to a socket or queues it. The server cuts the bytes of a connection
-- into packets, hands them to a channel, collects them in batches, decodes a batch and inserts the
-- documents into a database.
--
-- The client (C++):
--   Client/Buffer          client/api/buffer/IBuffer.hh: the record IBufferWrapper of the operations
--                          and of the laws that the logger relies on.
--   Client/PosixBuffer     client/posix_buffer/PosixBuffer.{hh,cc}: make is the constructor, read_data,
--                          write_data and the getters and setters are the methods of these names.
--                          Access is about single calls, Contract fills IBufferWrapper.
--   Client/Logger          client/api/LogAPIs.hh (encode_uint64, encode_string) and the functions
--                          that tools/code_gen.py generates (total_length, log_event), over any
--                          IBufferWrapper. Wire has the bytes of a log, Frame is about what they
--                          build.
--   Client/PosixIo         client/posix_io/PosixIO.{hh,cc}. State has the fields, Connection has
--                          initialize_connection, fixAsyncMode and setAsyncMode, Send has send, Drain
--                          has onWriteOpportunity. Pending, Keeps, Write, Accept and Flush are about
--                          one call, Socket about which calls keep their socket, History about
--                          sequences of calls, OneSocket about those over one socket, Failures about
--                          failing calls.
--   Client/SeastarBuffer   client/seastar_buffer/SeastarBuffer.{hh,cc}, over what the library's
--                          temporary_buffer allocates. Contract fills IBufferWrapper.
--   Client/SeastarIo       client/seastar_io/SeastarIO.{hh,cc}: one function for each method and for
--                          what follows each future. Trace has the histories of calls and completions
--                          as a relation, Steps is about one of them, Histories about all, Down about
--                          those behind a failed write, Connected about a call with a connection.
--   Client/SeastarTlsIo    client/seastar_io/SeastarTLS_IO.{hh,cc}: the state of SeastarIo with the
--                          credentials, and the methods that it overrides; Credentials is about their
--                          building.
--   Client/Transport       client/api/iio/IIO.hh: the record Iio of the operations with the law of send,
--                          and post, a generated function over any of them. Posix and Seastar fill it,
--                          Calls is about sequences of logs through any transport.
--
-- The server (Go):
--   Server/Decoder         server/decoder/decoder.go.
--   Server/EventDecoder    the functions Decode_* that tools/code_gen.py generates.
--   Server/Listener        handleConnection of server/listener/listener.go: step is one round of its
--                          loop, run the loop over the answers of conn.Read. Bytes is the framing
--                          protocol, a byte at a time, as the independent description of the loop;
--                          Steps is about one round, Refine about the loop, Frames about packets.
--   Server/Storage         MongoStorage.Flush, as tools/code_gen.py generates it.
--   Server/ClickHouse      ClickHouseStorage.Flush, as tools/code_gen.py generates it; Agreement
--                          compares the two storages.
--   Server/Ingester        server/ingester/ingester.go: step and run are workerMain for one worker, Batches
--                          is about its runs. Pool has Init, Enqueue and the channel with all workers;
--                          Conserved is about its packets, Stopped about workers that have ended.
--   Server/System          the connections that LaunchListener of server/listener/listener.go accepts,
--                          with the pool of workers, as a step relation: accept, hear (a round of
--                          handleConnection) and hand_on (a call of Enqueue that returns), with the
--                          steps of Pool. Served has its invariants, Running the histories in which no
--                          flush fails, Stored what the server stores in these.
--   Server/Launch          LaunchListener of server/listener/listener.go, up to its loop, with the record
--                          of server/config/config.go; Told is about its outcomes.
--   Server/Main            server/main/main.go, with the Init functions of the two storages in
--                          tools/codegen/templates/; Outcomes is about what the start comes to.
--
-- The example clients (C++, examples/):
--   Examples/Params        common/common.{hh,cc}, and the totals that main adds up; Sums is about these.
--   Examples/Posix         what the two POSIX clients share: the two generated calls of a round and
--                          the statistics. Threads has main over the threads that it joins, and
--                          Printed the totals that it prints. Logs has the logs that these make,
--                          Readable that the server reads them, Ran sequences of their calls, Unused
--                          a transport before its first log, Balance the statistics behind them, Socket
--                          the calls that keep their socket.
--   Examples/Simple        simple_logging/simple_logging.cc: a loop of logs until the time is over;
--                          Main is about the program as a whole.
--   Examples/Async         async_logging/async_logging.cc: a loop over the events of epoll_wait; Main
--                          is about the program as a whole.
--   Examples/Seastar       seastar_app_logging/seastar_app_logging.cc: the client of a shard, its loop
--                          without a connection (Spin), and the collection of the results of the
--                          shards (Collected). Tasks has what the other tasks of a shard do, Logged is
--                          about a round, Accounts about the whole client.
--   Examples/Delivered     the POSIX examples joined with the server, over the functions that
--                          example_header.hh describes.
--   Examples/Transports    the generated functions of the examples as functions over Client/Transport.
--   Examples/Limits        the queue limit and the number of threads that the options ask for.
--
-- EndToEnd joins the POSIX client with the server, and its child Seastar the Seastar transport.
-- Base has what all parts share, Tests the runs on concrete inputs.
--
-- The model. A byte is a number; a block of memory is a list of bytes. A size_t is a number below
-- 2 ^ 64, with its wrap-around written out, and an int is its bit pattern below 2 ^ 32; a
-- number of cores or workers, whose sign the code tests, is an integer. Where the
-- source would read or write outside a block, a buffer's operation gives none and a call of the
-- transport gives fault; where the source calls exit, the call gives exits. What the system, OpenSSL,
-- conn.Read or the database answers is an argument: any sequence of answers, limited by hypotheses
-- such as that write accepts no more than it is offered. A Go slice out of range is panic. A loop
-- runs over a list, of buffers, answers, packets, signals or rounds, but for one: the blocking client
-- reads the clock again and again, and its loop has fuel, which is enough if it is above the number of
-- the rounds that start in time. The loop of Seastar's transport goes on with each completed write,
-- which is a step of the history. A statistic of a thread that was never initialised is none.
--
-- The wire of a POSIX transport has the bytes that it has written, also where a failed write made it
-- connect again; a theorem that joins it with one connection of the server is about a history whose
-- calls all keep their socket.
--
-- The buffers in the queue are values, since a client gives its only reference away with send. Between
-- two calls of a transport nothing else changes its fields: each thread of a client has its own.
--
-- Not modelled: the second entry of the array in which PosixIO.cc takes the host's address, which
-- nothing fills (it is taken not to be of AF_INET), allocation that fails, the destructors, SSL
-- sessions beyond whether the calls succeed, the text that the generator puts together with the
-- migrations of ClickHouse, threads that cannot be created, the affinity of threads to processors,
-- what the programs print, and the start of Seastar's application and its shards.
pub mod Base
pub mod Client
pub mod Server
pub mod EndToEnd
pub mod Examples
pub mod Tests
