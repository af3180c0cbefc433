-- ===== src/Lib.antt =====
-- The core logic of Xerock, a daemon that gives web pages access to serial ports and sockets. A page
-- sends a JSON document over a WebSocket; the daemon echoes it to all pages, reads its envelope, finds the
-- application that it names, and that application reads the rest, acts on its container of
-- connections, and answers: an error to the sender, or a status to all.
--
-- What is modelled, by file:
-- - ByteArray: `Byte_Array` of src/libs/byte_array/byte_array.cpp, its hexadecimal and escaped forms.
-- - Json/Bytes: `json_2_byte_array` of src/libs/utility/src/json_helper.cpp, the payload of a message.
-- - Core/Message, Core/Dispatcher: src/core/include/core/message.hpp and src/core/app.cpp, the registry of
--   applications. Apps/Init: src/apps/init_apps.cpp, which fills it.
-- - Apps/Main/Parser: src/apps/main/json/parser.cpp, the envelope.
-- - Apps/TcpServer/Parser, Apps/TcpClient/Parser, Apps/UdpClient/Parser, Apps/UdpServer/Parser,
--   Apps/Serial/Parser, Apps/Echo/Parser: json/parser.cpp of each application in src/apps/, with
--   the structs of its types.hpp. A function keeps its name: `check_x` is the test of a document, `get_x`
--   the reading behind it, `parser_x` the two in turn. Apps/Endpoint has the reading of an address
--   and a port that they repeat, and Apps/InData what else they share.
-- - MyAsync/WriteQueue: `write`, `writing`, `do_write` and `on_write` of the sessions and clients of
--   src/libs/my_async. The completion of an operation is a step of its own.
-- - MyAsync/ServerSession: the life of a session of a tcp server around its write queue,
--   src/libs/my_async/include/my_async/tcp_server/impl/session_base_impl.hpp. The callbacks of the
--   derived class are kept as a list, and the handlers run in any order that the executor allows.
-- - MyAsync/ClientSession: the life of a client of tcp that is opened with a callback,
--   src/libs/my_async/include/my_async/tcp_client/impl/client_base_impl.hpp, in the same way.
-- - MyAsync/WebsocketSession: the life of the session of a user,
--   src/libs/my_async/include/my_async/websocket/impl/session_base_impl.hpp with the callbacks of
--   session_static_callback_static_share_impl.hpp beside it, in the same way.
-- - MyAsync/UdpClientSession: the life of a client of udp behind its opening,
--   src/libs/my_async/include/my_async/udp_client/impl/client_base_impl.hpp, as a function on a list of
--   events.
-- - MyAsync/SerialContainer: src/libs/my_async/include/my_async/serial/impl/container_impl.hpp, over
--   MyAsync/Registry, the calls of std::map. The port is the parameter of the template.
-- - MyAsync/ClientContainer: the containers of src/libs/my_async/include/my_async/ in
--   tcp_client/impl/container_impl.hpp, udp_client/impl/simple_container_impl.hpp and
--   udp_server/impl/simple_container_impl.hpp, over the same registry.
--
-- - Json/Build: writing documents with RapidJSON. Core/Factory: src/core/json/factory.cpp and
--   src/core/include/core/json/factory.hpp, the messages that the daemon writes. Core/Outbox: the counters of
--   src/core/functions.cpp, the set of open sessions, and the messages that sessions were given.
--   Core/Answers: src/core/error.cpp, `make_error_message` and `fail_message`.
-- - Core/Session: the callbacks of src/core/json/websocket_session.cpp, and the set of sessions of
--   src/libs/utility/include/util/static_shareable.hpp.
-- - MyAsync/ListenerContainer: src/libs/my_async/include/my_async/listener/impl/container_impl.hpp, and
--   what it asks of a listener in listener_base.hpp.
-- - Apps/Echo/Handler, Apps/Serial/Handler, Apps/TcpServer/Handler, Apps/TcpClient/Handler,
--   Apps/UdpClient/Handler, Apps/UdpServer/Handler: the handler of each application, a function on the state of
--   its container and the outbox. Make, beside each, has the documents of its json/make.cpp;
--   Apps/Endpoint/Written has the object of an endpoint. Apps/Handler has what the handlers share,
--   and Apps/Handler/Commands the description that they are compared with: a message is a command,
--   and a command has an effect on the container and an answer.
--
-- - Arguments: src/arguments.cpp, the configuration file, and in Arguments/CommandLine the texts and
--   `check_arguments`. The conditional compilation is an argument, `Build`.
-- - SystemInfo/Hardware and SystemInfo/Process: src/libs/system_info/src, what the monitor reads
--   from /proc. Both read from Istream, the part of std::istream that the code uses.
-- - Apps/Monitor: src/apps/monitor, the executor of the report that a timer repeats, with the parser and
--   the handler of its messages. Whether a reading of /proc succeeds is an argument.
--
-- Code that may end the program is a `Run` (Base/Run): `abort` is a failed assertion of RapidJSON,
-- or an exception that leaves the function: that of a conversion, of `endpoint()` and
-- `local_endpoint()` where a session or a client has lost its connection, and of the opening of a
-- socket of udp. A parser that returns false has the value `none`.
--
-- Parameters, for code that the repository does not contain: argh (`Cmdline`), which files there
-- are, `Json` (RapidJSON's values: its queries and accessors, and that an accessor behind its query
-- does not fail), `Asio` (the conversion of an address and its text), the constructor
-- `character_size` of Boost.Asio, the types of ports, sockets and sessions in the containers
-- (whether a session is connected, what `local_endpoint()` gives or throws, what `close()` makes of
-- a client), which errors of a port mean that its file is missing, the clock, and the codes and
-- texts of the library's errors. `Build` is the other half of RapidJSON: values that are built,
-- what the accessors read from them, and parsing and printing, of which nothing is assumed.
-- Json/Tree, Json/Tree/Builder and Asio/Local are instances, on which the tests run.
--
-- Numbers: a byte is a number modulo 256, a port that the code stores in `uint16_t` before its test
-- is one modulo 65536, and an unsigned number in `int32_t` wraps around. Most loops are
-- structural recursion on the list that they go through. Those that read a stream run on fuel
-- (Base/Loop), and none means that it ran out.
--
-- Not modelled: the life of the serial ports and of the servers of udp, the opening of a
-- client without a callback, accepting connections, HTTP, the options that keep a connection alive,
-- the text of the monitor's report, the arithmetic on double, and the tests and examples of the libraries.
pub mod Apps
pub mod Arguments
pub mod Asio
pub mod Base
pub mod ByteArray
pub mod Core
pub mod Istream
pub mod Json
pub mod MyAsync
pub mod SystemInfo
