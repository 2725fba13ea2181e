-- ===== src/Lib.antt =====
-- Verification of pgcqrs, an event store for command-query responsibility segregation: domains hold
-- streams, a stream is a log of events, and consumers keep a position in a stream and may take an
-- exclusive lock on it.
--
-- The clients of the store speak to a transport (pkg/v1/transport.go). The in-memory transport
-- (pkg/v1/memory.go) is modelled. It runs one goroutine, `runService`, that performs the commands sent
-- to it one at a time, so each command is a function of the state `Memory`, and a schedule is a
-- sequence of such functions. A timer that fires sends a command, `perform_expiry`, to the same
-- goroutine. A caller whose context ends before its command is performed is told so and the command is
-- performed nevertheless: that is `simulate_network`. The query builder (pkg/v1/query2), which sends
-- its requests to a transport, and the in-memory store that view projections write to
-- (pkg/indexer/views) are modelled beside it, and so is the part of the service that keeps consumer
-- locks and positions in PostgreSQL (internal/service/storage/consumer.go), the SQL that the service
-- builds, and the pump that drives an indexer (pkg/indexer/pump.go). The gRPC service
-- (internal/service/grpc*.go) is modelled on top of the tables, and the client's adapter
-- (pkg/v1/grpcAdapter.go) on top of the service's messages, so that a theorem on the adapter speaks of what
-- the storage does behind both.
--
-- Files:
--   Base          library names, Boolean tests, lists, integers and maps over the native numbers
--   Wire          the types of the transport's interface, errors, and the functions of Go's library and
--                 of third parties that the code calls, as the record `Runtime` (pkg/v1/transport.go,
--                 batch.go, transportBatch.go, ipc.go, lock.go); Wire/Loops on loops that may fail
--   Memory/State      the types at the top of pkg/v1/memory.go
--   Memory/Streams    EnsureStream, Submit, GetEvent, GetEnvelope, AllEnvelopes, Meta
--   Memory/Positions  SetPosition, GetPosition, ListConsumers, DeletePosition
--   Memory/Locks      TryAcquire, Release, HeartbeatWithPosition, GetLock, ListLocks, the clean-up of
--                     expired locks and the command of a lock's timer
--   Memory/Queries    filter (pkg/v1/filter.go), Query, QueryBatch (pkg/v1/memoryBatch.go), QueryBatchR2
--   Memory/Watch      Watch, memoryWatch and queryInFilter (pkg/v1/queryInFilter.go)
--   Query2        the query builder: StreamBatch and the request that it builds (pkg/v1/query2); Query2/Prepared
--   Views         keys and the in-memory store of projected entities (pkg/indexer/views/key.go, memory.go)
--   Storage/State     the tables, the transactions and the consumer names of
--                     internal/service/storage/consumer.go; Storage/Valid is the invariant of the tables
--   Storage/Positions, Storage/Locks, Storage/Heartbeat
--                     the methods of ConsumerStore; Keeps below each of them on predicates that they keep
--   Storage/Steps     the methods as steps of the tables
--   Storage/Sql       the statements of internal/service/storage/sqlquery.go, queryBuilder.go, the operations
--                     of a batch (batchr2.go, eachKind.go, matchsubset.go, matchid.go,
--                     allStreamEvents.go) and the statement of repository.go
--   Indexer/Pump      the pump (pkg/indexer/pump.go, state.go, handler_error.go)
--   Views/Reader      waits for a version and reads (pkg/indexer/views/notifier.go, memory_reader.go)
--   Views/Postgres    the store of views in PostgreSQL (pkg/indexer/views/pgstore.go)
--   Service/KeepAlive the KeepAlive stream of internal/service/grpcConsumerLocks.go, and the messages of
--                     pkg/ipc/query.proto that it exchanges
--   Service/Locks     the other handlers of grpcConsumerLocks.go, WaitForLock included
--   Service/Queries   Query and Watch of internal/service/grpc.go with grpcResultStream.go
--   Service/Events    CreateStream, Submit and Get of grpc.go, and the statements of internal/service/storage.go
--   Service/Positions the handlers of internal/service/grpcConsumerPosition.go
--   Adapter/KeepAlive, Adapter/Queries, Adapter/Positions
--                     the methods of GrpcAdapter and of its KeepAlive (pkg/v1/grpcAdapter.go)
--   Service/Outcomes  how a property passes through the answers of a handler
--   Storage/Fixture   tables for the examples of Storage and of Service
--   Storage/Outcomes  how a property passes through the statements of an operation
--   Memory/Fixture    a runtime and a state for the examples of Memory/Examples and Memory/Queries/Examples
--
-- Correspondence: a method's name is the source's in snake case. A Go map is an association list; where
-- the source ranges over one, in an order that Go leaves open, the theorems hold for every order of the
-- list. A time is a number of nanoseconds, and the time that a method reads from its clock is its
-- argument. Sums of times do not overflow: Go's times reach far beyond every TTL in use. IDs are
-- integers; a log of 2^63 events is out of reach. A pointer to a lock's state is its entry in the
-- table; a timer's closure keeps one too, and reads from it the generation alone, when it fires: a heartbeat
-- is told whether that is before it has stopped the timer. A loop ranges over a
-- list and needs no fuel, but for waitForEvents, which receives until it has an event: its fuel is the
-- number of receives, and more fuel than IDs in the channel of the watch is enough while that is open.
--
-- A database table is the list of its rows under their primary key (Base/Table); the tables and their
-- keys are those of migrations/primary 000001, 000006 and 000007. A statement of ConsumerStore is a
-- function of the tables, and the record `Server` says which statements fail and what the clocks show;
-- PostgreSQL's NOW() is one moment in a transaction. No other client acts between the statements of one
-- operation: TryAcquire takes an advisory lock for that, the other methods do not. The two readings of
-- Go's clock in TryAcquire are two fields, and the clean-up that it runs beside the transaction
-- changes what others see at once, so a rollback does not undo it.
--
-- The pump's environment is a script of cycles and ticks, which is the fuel of its loops: the theorems hold
-- for each script, and at a script's end the pump is still running. A script names the moments by which the
-- goroutine that waits for the context's end has run, once it has ended.
--
-- A wait of views is a list of the steps that it and the Emits beside it take, in any order; the theorems
-- hold for each list. The dispatcher that calls the callbacks is of another repository. What Get finds behind
-- its wait is an argument: how the wait ends, and the store by then.
--
-- A KeepAlive stream, a gRPC watch and a WaitForLock are folds over a script: of the turns that the stream
-- meets, of the requery signals with what the repository then yields, and of the steps of the wait and of
-- other clients. The script is the fuel; the theorems hold for each script, and at its end the handler is
-- still running. A Send fails where the script says so. What PostgreSQL makes of a text as jsonb is the
-- parameter `jsonb`, none where it refuses the text; a statement that is named in `Server.fails` fails. What
-- gRPC does to an error on its way to the client is a parameter too.
--
-- Not modelled: WaitForLock with its lease, and Close, of the in-memory transport; the query builder's
-- Watch; the old queries of internal/service/storage.go (replayMeta, applyQuery), ListStreams, and the REST
-- service and adapter, which are HTTP routing; connections, TLS and metadata of the gRPC adapter; WaitForState of
-- the indexer's pump; the projections, the clients and the remote reader of views; generated code; commands, migrations and examples.
pub mod Base
pub mod Wire
pub mod Memory
pub mod Query2
pub mod Views
pub mod Storage
pub mod Indexer
pub mod Service
pub mod Adapter
