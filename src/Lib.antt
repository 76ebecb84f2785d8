-- ===== src/Lib.antt =====
-- A model of the Riak Go client and proofs about it. The client sends commands, whose requests and
-- responses are protobuf messages, to a cluster of Riak nodes.
--
-- The parts, from the bottom:
--   * Errors (error.go, net.go), States (states.go) and Config (consts.go) are what all others
--     share. An error is a value; a panic, and a loop that runs out of its fuel, are outcomes of
--     `Run`, which Prelude declares.
--   * Queue (queue.go) is the bounded queue over a buffered channel that connections and commands
--     wait in. Its `iterate` calls back for each queued value.
--   * Command (command.go, rpb.go) is what a command is to the rest, `CommandApi`, and the frame
--     around a message. The protobuf package is `ProtoApi`.
--   * Connection (connection.go) is one connection: `read`, `write` and `close`; Connection.Execute
--     is `execute`, and Connection.Connect is `connect` with the TLS upgrade. The `net`, `tls` and
--     `io` calls are `NetApi`, on a world that the model does not look into.
--   * ConnectionManager (connection_manager.go) is the pool of a node's connections: `create`, `get`,
--     `put`, `remove`; ConnectionManager.Lifecycle has `start`, `stop` and the expiry routine's tick,
--     `expire`. What it needs of connections is `ConnApi`, which Connection.Pooled fills.
--   * Node (node.go) is a node: `execute`; Node.Lifecycle has `start` and `stop`, Node.HealthCheck
--     the health check routine by its events.
--   * NodeManager (node_manager.go) is the round robin over the nodes.
--   * Async (async.go) and Cluster (cluster.go) are the cluster: its members; Cluster.Execute is
--     `execute` with its retries and the queueing, Cluster.Requests `Execute` and `ExecuteAsync`,
--     Cluster.Lifecycle `Start`, `Stop` and the events of the command queue's routine. The cluster
--     calls its nodes through `NodeApi`, which Cluster.Fleet fills with nodes of node.go.
--   * Object (object.go, locatable.go) is a stored object and its form in messages.
--   * Rpb (rpb/) has the messages of the generated packages that the client reads and writes, as
--     records, the sum of them, `Message`, and what each says of where it lies (rpb/riak_kv/
--     riak_kv_misc.go and its like).
--   * Kv (kv_commands.go), Crdt (crdt_commands.go), Ts (ts_commands.go), Misc (misc_commands.go) and
--     Search (yz_commands.go) are the commands, a module for each: its builder, `build`, and `api`,
--     the command as an instance of `CommandApi`, which `Connection.Execute.execute` runs.
--     Command.Building and Command.Codes (messages.go) are what they share. Crdt.MapOperation is the
--     collection of changes to a map, Crdt.Populate the message that it becomes, Crdt.Map the map that
--     a response is read into; Ts.Cells has cells and rows, Misc.BucketProps properties and hooks,
--     and Search.Docs the documents of a search.
--
-- The correspondence: a Go struct is a record with its fields, in snake case, and a method is a
-- function of that name that answers the struct as it leaves it, next to its results. A pointer to
-- a node is a number. A closure that `iterate` calls is a `Visitor`, whose state holds what the
-- closure captures. Where the Go code branches on a result, a helper by clauses takes the result.
-- A call of a method is one step, also where it does not hold its lock throughout, with these
-- exceptions: where the cluster or the health check works for long, what it finds after that is a
-- parameter (`Seen` of Cluster.Execute, the three nodes of `health_check_tick`, the test of
-- `dispatch`), and the calls of a pool interleave freely in ConnectionManager.Traces. Goroutines are
-- modelled by their events: a tick of a ticker, or the close of a channel.
--
-- Numbers are natural, also the durations, so that a timeout below 0, which wraps to many
-- milliseconds, does not occur. A time.Time is what `time.Unix` is given; one that was never set and
-- the beginning of 1970 are the same pair of zeros. Counters of the width `uint16` stop at 65535 where the code says so
-- (`increment`); `count` and the number of rounds of `iterate` are taken modulo 65536, the frame's
-- length and a timeout in milliseconds modulo 2 ^ 32. A signed 64-bit number and a double are the
-- number of their bits, so that a counter's increment is added modulo 2 ^ 64. Fuel stands in two
-- places: the round robin, where one round per node is enough whenever it ends in the theorems, and
-- the responses of a streaming command, where one for each response is enough (`execute_stream`) and
-- other commands need one.
--
-- A builder's method is a function from builder to builder, and a Go map that commands collect is a
-- list of its entries (Crdt.Dict). A callback of a streaming command is a function of its earlier
-- calls and the present one; the command keeps the calls that it has made.
--
-- Not modelled: logging, the names of commands and the printing of errors and structs; the client of
-- client.go; generated code, but for the structs of messages; sleeping; a builder that is used again
-- after `Build`, when it shares its message with the command; a nested MapOperation whose pointer is
-- kept and used after `RemoveMap`, and a call of `Map` with no call on what it answers. The entries of
-- a Go map are a list, in the order in which a range visits them.
pub mod Prelude
pub mod Errors
pub mod States
pub mod Queue
pub mod Config
pub mod Command
pub mod Connection
pub mod ConnectionManager
pub mod Node
pub mod NodeManager
pub mod Async
pub mod Cluster
pub mod Object
pub mod Rpb
pub mod Kv
pub mod Misc
pub mod Search
pub mod Crdt
pub mod Ts
