-- ===== src/Lib.antt =====
-- fifo: requests and replies of at most 4096 bytes between the clients and the server of one
-- machine, over named pipes. This library models the implementation for Linux, src/fifo.c, the
-- one for Windows, src/fifo-win.c, their interface src/fifo.h, and the helpers of src/memapi.h
-- and src/unitypes.h, with the two programs of examples/, and the syslog client for Windows that
-- stands beside them, src/syslog-win32.
--
-- The parts and how they interact. A server (`fifo_server_new`) makes a named pipe and waits on
-- it (`fifo_server_runforever`). A client (`fifo_client_new`) makes two pipes whose names are the
-- server's name with its process id behind it, and the same with "-read"; it writes an
-- announcement, the part of the name behind the server's, into the server's pipe. The server
-- builds the two names from it, opens both pipes and starts a thread, the worker
-- (`client_fifo_worker`), which reads requests from the first, calls the application back, and
-- writes replies into the second, until the client sends an empty message (`fifo_client_free`).
-- Every message goes through `fifo_client_write` and `readpipemsg_nb`, or the worker's `write`
-- and `fifo_client_read`.
--
-- On Windows a pipe goes both ways and the server has one thread: it accepts a client with an
-- instance of its pipe, and runs the completion routines of the instances
-- (`CompletedReadRoutine`, `CompletedWriteRoutine`) while it waits; each starts the operation
-- whose end calls the other.
--
-- The syslog client is on its own. A program opens the log (`openlog`), which starts Winsock, reads
-- the logger's address from the file syslog.host, and binds a socket; each message that the mask
-- lets through (`vsyslog`) becomes one datagram; `closelog` gives the socket back.
--
-- The model. Effect.antt: commands, which add their calls to a trace and end in a result, in
-- `exit`, or in a fault, an access outside its object. Os.antt: the system calls as a parameter,
-- a function from the calls made so far to the next answer. A theorem about every `Os` holds
-- whatever other processes and threads do. CString.antt: the C strings. Message.antt:
-- `fifo_pipemsg_t` as its bytes. Reader.antt: `readpipemsg_nb`. Timeout.antt: `struct timeval`
-- and the waits with `select`. Worker.antt: `pipe_instance_t` and `client_fifo_worker`. Api.antt:
-- the constants. Client.antt: `fifo_client_free`, `fifo_client_write`, `fifo_client_read`, and
-- with Client/Connect.antt `fifo_client_new`. Server.antt: `fifo_server_new` and
-- `fifo_server_free`. Server/Accept.antt: `fifo_server_runforever`. Sample.antt: the sample
-- callback of src/fifo.h. Memory.antt: the operations of src/memapi.h that Os.antt does not have.
-- Unitypes.antt: the checked `snprintf`, the sleeps and the integers of src/unitypes.h. Programs.antt:
-- examples/fifoclient.c and examples/fifoserver.c. Exchange.antt: what the client and the server
-- do together. Windows/System.antt: the calls of Windows as a parameter, the completions of
-- operations among the answers. Windows/Instance.antt: the completion routines.
-- Windows/Server.antt and Windows/Client.antt with Windows/Client/Receive.antt: the functions of
-- the server and the client. Windows/Exchange.antt: a request and its reply there. Syslog/Priority.antt: the macros and tables of
-- src/syslog-win32/syslog.h. The functions of src/syslog-win32/syslog-client.c are in
-- Syslog/Logger.antt (the static variables as a record, `init_logger_addr`, `set_syslog_host`),
-- Syslog/Connection.antt (`openlog`, `closelog`, `setlogmask`) and Syslog/Send.antt (`vsyslog`),
-- with the calls of the system as a parameter in Syslog/System.antt. Worker/Session.antt: what the
-- worker owes its client in a whole conversation. Server/Visits.antt: what the server owes the
-- clients that announce themselves, over a whole run. Examples.antt: runs on concrete systems. Prelude.antt: what the
-- others share. A C function `fifo_client_f` or `fifo_server_f` is here `client_f` or `server_f`,
-- and long functions are cut into the steps that follow each other in the source. A child module
-- proves what its name says of its parent.
--
-- Bounds. A descriptor and the result of a call are integers; the size field of a message keeps
-- its 32 bits. The loops that the peer can prolong take fuel: `readpipemsg_nb` one unit for each
-- answer to a read of the body, which is enough if there are more units than answers, the worker
-- and the accept loop one for each round; on Windows a client takes one for each `WriteFile`, and
-- one for each round of the two loops of `fifo_client_read`. `openlog` tries to bind 101 times, as
-- in the source. The loop that reads the size field
-- makes two rounds at most.
--
-- Not modelled: the macros of src/unitypes.h that tell compilers and systems apart; the test program in
-- syslog-client.c; the copies of other projects, the getopt of examples/win32 and pthreads-w32. `printf` is left out, as it does not change
-- the state. Signals (SIGPIPE) are not modelled: a `write` answers -1. Threads share no memory
-- but the callback's, so a worker runs on its own trace.
pub mod Api
pub mod CString
pub mod Client
pub mod Effect
pub mod Examples
pub mod Exchange
pub mod Memory
pub mod Message
pub mod Os
pub mod Prelude
pub mod Programs
pub mod Reader
pub mod Sample
pub mod Server
pub mod Syslog
pub mod Timeout
pub mod Unitypes
pub mod Windows
pub mod Worker
