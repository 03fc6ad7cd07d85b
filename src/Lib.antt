-- ===== src/Lib.antt =====
-- The Metrika agent: a daemon that collects metrics and events of a blockchain node and sends them
-- to a platform. This library models the path of a message from its source to the platform, the two
-- clocks on the way, and the state machines and locks around the node's container, and states what
-- becomes of a message on every branch of that path.
--
-- The parts, by file:
--
--   Prelude          shared names; lists, tests, integers; Outcome (a call that returns, panics or is
--                    out of fuel), Yields (it returns, and what holds then) and Go's errors
--   Model            api/v1/model: messages and events; Model.Events is event.go
--   Global           internal/pkg/global/state.go: AgentState; Global.Updates is the
--                    ConfigUpdateStream of agent.go
--   Config           internal/pkg/global/config.go: the configuration and its defaults; Config.Overload is
--                    overloadFromEnv and LoadAgentConfig
--   Emit             internal/pkg/emit/emit.go: sends to channels that do not block
--   Watch            internal/pkg/watch/watch.go: Watch, the base of the sources of messages;
--                    Watch.Registry is registry.go, Watch.Families is dtoToOpenMetrics of utils.go,
--                    Watch.Container is docker_container.go, Watch.DockerLogs is docker_logs.go,
--                    Watch.Influx is influx_exporter.go, Watch.Systemd is
--                    systemd_service.go, Watch.Journal is journal_logs.go, Watch.Http is http.go
--   Flow             flow/flow.go: the chain Flow; Flow.Events is event.go, Flow.Metadata the search in
--                    the node's log, Flow.Configure the discovery of the node's configuration
--   Docker           internal/pkg/discover/utils/utils.go: the docker adapter and MatchContainer
--   Buf.Queue        internal/pkg/buf/queue.go: Item and priorityQueue; Buf.Heap is container/heap of
--                    the standard library on it, Buf.Multi is multiQueue, Buf.Expiry is DrainExpired
--   Buf.Buffer       internal/pkg/buf/buf.go: PriorityBuffer
--   Buf.Api          internal/pkg/buf/buffer.go: the interface Buffer, and the record of laws, Reliable,
--                    that the controller takes and the priority buffer fills (Buf.Buffer.Fill)
--   Buf.Ctrl         internal/pkg/buf/ctrl.go: Controller, for any Buffer
--   Publisher        internal/pkg/publisher/publisher.go: Publisher
--   Transport        internal/pkg/transport/transport.go: PlatformGRPC as PlatformGrpc
--   Timesync         pkg/timesync: Timesync.Ntp is timesync.go, Timesync.Platform is platform.go,
--                    Timesync.Restart the locks of a second Start, as a step relation
--
-- A watcher emits a message to the channels that listen; the publisher makes an item of it and gives it
-- to the controller, which buffers it and drains the buffer, batch by batch, through the callback of the
-- transport. The transport sets the agent's publish state, which the controller reads, and hands the
-- platform's timestamps to the clocks. Methods that hold a mutex throughout are one
-- step; those of the docker adapter, which free it before they use the client, take as a parameter what
-- other calls do meanwhile. Every operation is a
-- function from a state to a state; what stands outside the repository is a record of functions over a
-- state of its own (Buf.Ctrl.Env, Transport.Grpc, `query` of Timesync.Ntp), and what is relied on there
-- is a record of laws (Buf.Ctrl.Account.Delivery: the callback accepts a batch as a whole or refuses it,
-- which the transport does while its goroutine ends before the timeout).
--
-- Fuel: the loops of container/heap run on the number of entries, those of DrainExpired and of
-- BufDrain on the number of items plus one, the search for a container on the number of tries that it
-- takes, the search in a log on the number of lines, which a hypothesis says is finite. A statement
-- with Yields says that the fuel is enough, since Yields of an outcome excludes both a panic and the end of the fuel. Integers: int and
-- time.Duration are the integers of Prelude.Int; differences of durations wrap and differences of
-- times saturate, as in Timesync.Duration and Buf.Expiry; counters and lengths are natural numbers. An
-- allocation that is too large, such as `make` in PriorityBuffer.Get for an absurd count, does not fail.
--
-- Not modelled: logging and histograms; the lengths of backoffs; the interleaving of goroutines that
-- share a controller (calls are taken one after the other); the collectors, the parser
-- of metrics, the discovery of nodes, the influx HTTP handler, the startup of the program and the generated
-- protocol code. A receiver that
-- waits at an unbuffered channel is not modelled.
pub mod Prelude
pub mod Buf
pub mod Config
pub mod Docker
pub mod Emit
pub mod Flow
pub mod Global
pub mod Model
pub mod Publisher
pub mod Timesync
pub mod Transport
pub mod Watch
