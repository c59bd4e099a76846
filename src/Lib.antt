-- ===== src/Lib.antt =====
-- A model of the IIS module for ASGI in this repository, and proofs of what its code does.
--
-- The program is a native IIS module that turns HTTP requests and WebSocket connections into ASGI
-- messages on a Redis channel layer, and the application's answers into responses; a second module
-- keeps pools of worker processes. Each request has a handler, which runs a chain of steps. A step
-- either completes at once or waits: for an operation of IIS, for a task on the thread pool, or for
-- the one thread that receives answers (the response pump) and runs the callback registered for an
-- answer's channel. Tasks and callbacks return to the handler through a posted completion.
--
-- Which file models what, with the paths of the repository:
-- - Iis: what AsgiHandlerLib calls of httpserv.h, as operations on an abstract state, with the
--   documented behaviour as laws. WebSocket: the same for iiswebsocket.h.
-- - StateMachine: AsgiHandlerLib/RequestHandler.h and .cpp, StepResult, RequestHandlerStep and
--   HandlerStateMachine(), on fuel, with a rule of total correctness.
-- - Messages: the data of AsgiHandlerLib/Asgi*Msg.h.
-- - Channels: NewChannel() of AsgiHandlerLib/ChannelLayer.h, over a random engine.
-- - Request: the accessors of AsgiHandlerLib/RequestHandler.cpp, over a conversion to UTF-8.
-- - Http: AsgiHandlerLib/HttpRequestHandlerSteps.cpp, one constructor of HttpStep for each class and
--   one function for each Enter(), OnAsyncCompletion() and GetNextStep(). Http/Connection: the
--   handler's OnAsyncCompletion() and everything that calls it, as events. Http/Start: its
--   OnExecuteRequestHandler() (AsgiHandlerLib/HttpRequestHandler.cpp). The other children of Http are
--   the invariant of a connection and its proofs, bottom up: one step (Body, Response), one
--   completion (Completion), the loop (Loop), one event (Called, Events, Lifecycle), all that can
--   be reached (Reach), and what always can be (Progress, Answering, Sending, Liveness).
-- - Pump: AsgiHandlerLib/ResponsePump.cpp, its locked sections as atomic actions in any order.
--   Pump/Round: its loop over the Redis layer. Pump/Stopped: its destructor.
-- - WebSocket/Reader, Writer and Handler: AsgiHandlerLib/WsReader.cpp, WsWriter.cpp,
--   WsRequestHandler.cpp and WsRequestHandlerSteps.cpp. Turns: where the writer stands between its calls.
--   Received, Fragments, Buffered, Gathered, Callbacks, Failing, Written, Calls and Opening are their
--   proofs.
-- - ProcessPool: the quoting of arguments in ProcessPoolLib/ProcessPool.cpp; ProcessPool/Quoting: its
--   proofs. ProcessPool/Monitor: the thread that keeps the pool full, with the handles of
--   SharedUtils/ScopedResources.h; ProcessPool/Monitored: its proofs.
-- - Redis: Send() and ReceiveMany() of AsgiHandlerLib/RedisChannelLayer.cpp, over the commands of a
--   server; Redis/Delivery, and Redis/Represents and Redis/Refinement, which compare them with
--   channels that are queues of messages: its proofs. Redis/Commands: the constructor, and Send() and
--   ReceiveMany() as the commands they issue, with every reply. Redis/Reply:
--   AsgiHandlerLib/ScopedRedisReply.h.
-- - Packing: AsgiHandlerLib/AsgiMsg.h and msgpack_pack() of the messages that are sent, as the calls
--   of msgpack's packer in their order. Packing/Wire is a reader that knows msgpack's format only;
--   Packing/ReadBack and Packing/Messages are the proofs.
-- - Global: ProcessPoolLib/GlobalModule.cpp, the pools that a configuration asks for, with
--   std::stoi(); Global/Stoi and Global/Loaded: its proofs.
-- - Module: AsgiHandlerLib/HttpModule.cpp, which handler a request gets and whom its completions go
--   to; Module/Dispatch and Module/Completions: its proofs. Module/Factory:
--   AsgiHandlerLib/HttpModuleFactory.cpp and the RegisterModule() of both modules.
-- - Scoped: SharedUtils/ScopedResources.h, any number of objects and what becomes of their values;
--   Scoped/Members and Scoped/Accounts: its proofs.
-- - System: the one response pump (AsgiHandlerLib/HttpModuleFactory.h) and the channels of the server
--   under any number of requests, as a step relation whose steps are the events of Http, the actions of
--   Pump and the tasks that run the callbacks; others, as WebSocket connections, use the pump on
--   channels of their own. System/Requests and System/Views are what one request does and sees,
--   System/Moves how its view changes; System/Sound, Dispatching, Others, Handing and Reached are the
--   invariant, and System/Delivery and System/Progress what follows. The channels are those that
--   Redis/Represents gives the server's state; messages do not expire there. System/OverRedis puts
--   Pump/Round and Send() in the place of its steps.
-- - System/Socket: one WebSocket's writer over the pump and the channels, as a step relation whose steps
--   are the calls of WebSocket/Writer, the actions of Pump and the tasks that run the callback, while
--   others use the pump. Its Views, Sound, Handing and Calls are the invariant, and Delivery and Progress
--   what follows.
-- - ProcessPool/Lifetime: ProcessPoolLib/ProcessPool.cpp from its constructor to its destructor, with
--   ProcessPoolLib/JobObject.cpp; ProcessPool/Jobs is what Windows documents of jobs, and Stopped,
--   Contained and Ended are its proofs. The thread reads the exit event only where it waits, so the
--   model sets it between two rounds.
-- - Logger: SharedUtils/Logger.h and Logger.cpp, a line of the log and where it goes. Logger/Lines: its
--   proof. No other model logs: a line changes nothing there, unless it ends the process.
-- - Prelude: lists, tests and results that all share. Tests: concrete runs.
--
-- State is passed explicitly. Exceptions, null dereferences and accesses outside a buffer are values
-- of Result. DWORD arithmetic wraps where it is written `u32` or `% 2 ^ 32`; size_t, which the sizes
-- of buffers bound, does not; a count of the process pool is converted to one of 64 bits. The order of
-- a WebSocket's messages, an int, is a natural number, and the theorems that count it keep it below
-- 2 ^ 31. Loops that wait for nobody run on fuel. A read of the body takes at least a byte each round and the state machine makes at most three rounds between two waits, so the
-- theorems ask for more fuel than the body has bytes, and more than three; the WebSocket reader needs
-- more rounds than there are fragments waiting.
--
-- Not modelled: the unpacking of messages (msgpack's macros), which is a parameter of System and of
-- System/Socket. Memory is unlimited, so std::bad_alloc does not occur, and what is leaked is seen in
-- Scoped only. What runs concurrently inside one step is not interleaved: the handler relies on IIS
-- for that, the pump on its mutex, and a call of the WebSocket's writer is one step. What a callback of
-- the pump does after it has posted its completion, a line of the log, is left out, and so is the
-- lookup of a handler in the request's module context. A task whose message cannot be unpacked has no
-- step. The event of a process pool can be created, its job's limit set, and a process terminated.
pub mod Prelude
pub mod Iis
pub mod StateMachine
pub mod System
pub mod Logger
pub mod Messages
pub mod Http
pub mod Channels
pub mod Request
pub mod Tests
pub mod Pump
pub mod WebSocket
pub mod Module
pub mod ProcessPool
pub mod Global
pub mod Redis
pub mod Scoped
pub mod Packing
