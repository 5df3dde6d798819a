-- ===== src/Lib.antt =====
-- gservices: clients and servers that exchange messages over unix domain sockets or over the IPC of
-- the Aleph library (include/*.C and include/*.H of the repository).
--
-- A server has a table of services. A client registers the services that it will use, by code and
-- name, and then sends requests: a header of four 32-bit words, parameters, and possibly a buffer.
-- The server's engine takes a request off its connection, notes it in the binding list and gives it
-- to the dispatcher, which runs the service; the service answers through its binding, and the
-- engine later frees the entries that are answered.
--
-- - Base: shared names. Base/Lists: lists over the native numbers, Base/Tests: Boolean tests,
--   Base/Calls: how a call ends (it returns, throws, stops the process, or waits) and do blocks.
-- - Wire: 32-bit words and C strings in memory. Message: include/base_message_header.H.
--   Message/Layout: the headers in memory.
-- - Readwrite: `readn` and `writen` of include/local_readwrite.C. Readwrite/Stream and
--   Readwrite/Output: what they transfer.
-- - Access: include/access_point.C, the client. Access/Lock: its mutex, Access/Sending and
--   Access/Register: `send` and `add_service`. LocalAccess: include/local_access_point.C, with
--   LocalAccess/Framing and LocalAccess/Receive for what goes over the socket.
-- - Reception: include/reception_point.C, the server's state, with Reception/Table,
--   Reception/Contract (the table as a partial map) and Reception/Freeing. Dispatcher: its
--   `dispatcher`, with Dispatcher/Actions. Binding: the bindings of include/binding_point.H,
--   include/local_binding.C and include/remote_binding.C, with Binding/Responds.
--   Binding/Effects, Binding/Meanwhile and Binding/Threads: an answer among the other threads.
-- - Locators: include/local_locator.H and the locator of include/remote_access_point.H.
--   LocalPoint: the constructor and `shutdown` of include/local_reception_point.C.
-- - LocalReception: how include/local_reception_point.C takes a request, with
--   LocalReception/Framing, LocalReception/Overflow and LocalReception/Quiet. LocalEngine: its
--   `deamon_engine`, with LocalEngine/Clients, LocalEngine/Runs, LocalEngine/Serves,
--   LocalEngine/Answers, LocalEngine/Turns, LocalEngine/Disconnect and LocalEngine/Closing.
-- - Session: a client and a server together. Session/Reply and Session/Call: over a socket,
--   Session/Shutdown: `shutdown` and the engine, Session/RemoteCall: over the IPC.
-- - Remote: include/remote_access_point.C and include/remote_reception_point.C, with
--   Remote/Serving and Remote/Answers, and Remote/Life for the constructors and the shutdowns.
-- - Multiserver, Multiserver/Sender and Multiserver/Engine: include/remote_multiserver_point.H and
--   include/remote_multiserver_binding.H, with Multiserver/Services, Multiserver/Sending,
--   Multiserver/Bindings, and Multiserver/Answers, Multiserver/Runs and Multiserver/Closing for
--   the engine's runs and the shutdown.
-- - Object: objects of C++ classes in memory, a header and the data members behind it.
--   Object/Window: reads and writes of a piece of memory, Object/Members: what a constructor
--   stores, Object/Messages and Object/Answers: messages made by a constructor, Object/Arrival:
--   such a message from a client to a server.
-- - LocalMessage: include/local_message_header.H, the requests in LocalMessage/Params and
--   LocalMessage/Calls, the answers in LocalMessage/Statuses and LocalMessage/Returns, with
--   LocalMessage/Transfer and LocalMessage/Arrival. A class is a list of its members' sizes and
--   alignments, a constructor (named after the class, `empty_` where it takes no argument) and a
--   function for each getter, named after the class and the member.
-- - RemoteMessage: include/remote_message_header.H, with RemoteMessage/Single,
--   RemoteMessage/Setters and RemoteMessage/Pings; RemoteMessage/Bytes, RemoteMessage/Packed,
--   RemoteMessage/Places, RemoteMessage/Requests and RemoteMessage/Replies look at the ping
--   messages as lists of locators and responses.
-- - SafeMemory: include/safe_memory_alloc.C.
-- - Tests: concrete runs.
--
-- Functions and fields keep the names of the source; where C++ overloads one name there are several
-- (send is send_request and send_with_buffer, receive is receive_reply and receive_with_buffer).
-- State is passed explicitly: a call takes the object's state and returns how it ended with the new
-- state, so the changes before an exception stay. Memory is a list of bytes, a block its address.
-- The build is for i386, so int, long, enum and size_t are words of 32 bits, kept as numbers below
-- 2 ^ 32 with their wrap-around written out.
--
-- ASSERT and ERROR are macros of Aleph: whether they stop the process is a parameter (`Aleph`), and
-- so are the IPC calls, the services of the user, and the answers of the system calls, which a run
-- is given as a list. No fuel is used: the loops of `readn` and `writen` recurse on these answers,
-- a run of an engine on the list of what arrives, and where the list ends the thread waits
-- (`blocked`).
--
-- Object_Id, Container_Id, Site_Id, Binding, Locator, Message_Id and Logical_Timestamp are types of
-- Aleph and parameters of the messages (`AlephTypes`): a size, an alignment of at most four bytes
-- as on i386, the bytes of a value, and the value of bytes; `IsAlephTypes` says that a copy of the
-- bytes is the value.
--
-- Not modelled: the creation of threads other than whether it succeeds, and the waiting of one for
-- another other than as an input (`join`, `wait_loop`); clients of one access point in several
-- threads; the mutexes other than `lock_send` of the
-- access point and that of include/safe_memory_alloc.C; MESSAGE; include/debugger and
-- include/unshared, whose .C files are those of include, byte for byte, for other builds; the
-- programs of tests, which run clients and servers against each other.
pub mod Base
pub mod Readwrite
pub mod Wire
pub mod Message
pub mod Access
pub mod LocalAccess
pub mod Reception
pub mod Binding
pub mod Dispatcher
pub mod LocalReception
pub mod LocalEngine
pub mod Multiserver
pub mod Remote
pub mod Session
pub mod SafeMemory
pub mod Tests
pub mod Object
pub mod LocalMessage
pub mod RemoteMessage
pub mod Locators
pub mod LocalPoint
