-- ===== src/Lib.antt =====
-- The flow control of games: a broker that talks to the solutions of a game on behalf of a judge.
--
-- The judge's process writes commands, one on a line, and the broker's process (src/bin/broker.cpp)
-- makes the calls that they name and writes the result of each `end`. A solution is frozen except
-- while the broker waits for its output. A tokenizer, a plug-in, says where a token of the output
-- ends; an iteration of a solution goes from `begin` to `end`, which returns one token.
--
-- Which file models which part:
-- Base: Boolean tests, lists over the native numbers, signed integers, and results. An exception
--   or a failed assertion is an error value; no handler below `main` keeps the state.
-- Text: src/lib/BrokerTextInterface.cpp. Text/Escape is `escape` and `unescape`, Text/Archive the
--   two archives, `send`, `recvCommand` and `recvResult`. `boost::lexical_cast` is a parameter
--   (Text/Casts), whose documented behaviour is `IsExact` of Broker/Types.
-- Broker/Interface: src/lib/BrokerInterface.cpp, both ends of a call, and the loop of
--   src/bin/broker.cpp, over `BrokerOps`, the virtual methods of `Broker`.
--   Broker/Interface/Judge runs a judge and the broker as two processes, step by step.
-- Tokenizer: src/lib/SharedTokenizer.cpp over the functions of a shared library, with the contract
--   of a tokenizer in Tokenizer/Laws; Tokenizer/Split and Tokenizer/SplitChar are src/tokenizers.
-- Killer: the interface of include/yandex/contest/invoker/flowctl/game/Killer.hpp; Killer/Impl is
--   src/lib/KillerImpl.cpp, over control groups as a parameter; Killer/Stream is a killer in another
--   process, src/lib/KillerInterface.cpp, KillerStreamInterface.cpp and the loop of
--   src/bin/killer.cpp, over the representation of the messages as a parameter; Killer/Stream/Link is
--   both ends of a call at once.
-- Broker/Communicate: src/lib/BrokerImplCommunicate.cpp. What the kernel and the clock answer is
--   an explicit sequence of rounds, each with the calls of `epoll_wait` and the answers to `read` and
--   `write`. The time limit is a sum in 64 bits; an overflow, which C++ leaves undefined, wraps around
--   (Broker/Communicate/Overflow). Broker/Communicate/Flood is a solution that prints without an end.
-- Broker/State and Broker/Impl: src/lib/BrokerImpl.cpp, over a tokenizer library and a killer. The
--   state holds what the calls of `end` to come will meet, and the bytes that those before have moved.
--   Broker/Impl/Remote relates a session over the text protocol to the same calls made directly, by
--   the simulations of Base/Simulation, Broker/Interface/Simulation and Broker/Impl/Simulation;
--   Broker/Communicate/Answered and Broker/Impl/Answered say which answers of the kernel are enough
--   for a call of `end` to return.
--   Broker/Impl/Flow and Broker/Impl/Balance account for the bytes of each solution over the calls of
--   a session (Broker/Interface/History); Broker/Impl/Verdict gives the reason of each status of `end`.
--   Broker/Impl/Turns runs iterations of several solutions, and Broker/Impl/Turns/Lines reads them as
--   lines (Tokenizer/SplitChar/Lines).
-- Broker/Descriptors: `setnonblock` of src/lib/BrokerImpl.cpp, over `fcntl` as a parameter.
-- Broker/Options and Broker/Process: `Options::serialize` and the process of src/bin/broker.cpp,
--   with what it finds as a parameter; Killer/Process is that of src/bin/killer.cpp.
-- Configurator: src/lib/Configurator.cpp, over the processes, pipes and files of the invoker library
--   (Invoker) and the JSON files (Text/Json), which are parameters with their documented behaviour.
--   Configurator/Spec says what it makes of a game.
-- Tests: the definitions and the theorems at concrete inputs.
--
-- Bounds: a command's vector is read on fuel of one more than the bytes left, and the loop of the
-- process on fuel given by its caller; each round takes at least a byte. The error `pending` stands
-- for an environment whose list of answers has ended while the code still waits or still
-- reads or writes.
--
-- Not modelled: logging, the archives of the JSON files and the loader of shared libraries, which are
-- code of other libraries, and the state that a `configure` which throws leaves behind.
pub mod Base
pub mod Text
pub mod Tokenizer
pub mod Killer
pub mod Broker
pub mod Invoker
pub mod Configurator
pub mod Tests
