-- ===== src/Lib.antt =====
-- A verification library of the transcode service.
--
-- The service takes requests to transcode a video, stores a task for each in a database and puts it
-- into a bounded queue in memory. Workers take tasks from the queue, run FFmpeg on each through an
-- executor, follow its progress and store how it ended; after a success they start an HLS job,
-- which cuts the video into segments of several resolutions. The parts and their files:
--
--   Common, Runtime   Go's strings, integers, errors and results, and what the code takes from Go's
--                     libraries beyond them (float64, the lower case beyond ASCII), as parameters
--   Resolution        resolutions and bit rates: ddd/domain/vo/hls_config.go, and parseBitrateToBps
--                     and parseResolutionHeight of ddd/domain/service/hls_service.go
--   Status            ddd/domain/vo/task_status.go
--   Params            ddd/domain/vo/transcode_params.go
--   Task              ddd/domain/entity/transcode_task.go
--   Queue, HlsQueue   ddd/infrastructure/queue: task_queue.go, and hls_job_queue.go
--   Config            pkg/config/config.go
--   Errno             pkg/errno
--   Request           ddd/application/cqe/trascode_task_cqe.go
--   Store             ddd/domain/repo/transcode_repo.go, and the row and the convertor of
--                     ddd/infrastructure/database
--   Database          ddd/infrastructure/database: the DAO and the repository over it
--   Dto, App          ddd/application: the views of a task, and the application service
--   HlsStatus, Hls    the rest of ddd/domain/vo/hls_config.go, and ddd/domain/entity/hls_job.go
--   HlsDatabase       ddd/infrastructure/database: the row, the DAO and the repository of HLS jobs
--   Service           ddd/domain/service/transcode_service.go
--   HlsService        ddd/domain/service/hls_service.go
--   Worker            ddd/infrastructure/worker/transcode_worker.go
--   Storage           ddd/infrastructure/storage
--   Clients           ddd/infrastructure/grpc
--   HlsWorker         ddd/infrastructure/worker/hls_worker.go
--   Executor          ddd/infrastructure/executor/ffmpeg_executor.go
--   Consumer          ddd/adapter/component/transcode_task_consumer.go; Loops has its goroutines
--   Kafka             pkg/kafka/client.go
--   RequestId         pkg/grpcutil/request_id.go, and request_context.go of pkg/middleware
--   GrpcServer        ddd/adapter/grpc/transcode_grpc_server.go
--   Gin               what the HTTP code uses of gin's context
--   Rest, HttpServer  pkg/restapi, and ddd/adapter/http/transcode_controller.go
--   Jwt, Auth         pkg/utils/jwt.go, and auth.go and auth_component.go of pkg/middleware
--   Registry          pkg/registry
--   TaskTable         ddd/infrastructure/database/dao/transcode_task_dao.go
--   TaskManager       pkg/task/manager.go
--   Plugins, Startup  pkg/manager, and app/app.go
--   Resources         internal/resource, pkg/repository, pkg/redisclient, and the settings of
--                     ddd/infrastructure/worker/component.go and pkg/observability
--   Logger            pkg/logger/logger.go
--   Tests             the theorems at concrete inputs, over a database in memory
--
-- State and operations. An entity is a record and a method that mutates it returns the new one; the
-- clock and the identifiers that a method reads are arguments or operations. The application and
-- the transcode service act on a state `S` of which they know only the operations that they are
-- given (`Repository`, `Services`, `Environment`), in the order in which the source makes the
-- calls; what a theorem relies on of these is stated as laws (`StatusLaws`, `QueueLaws`), and the
-- repository over a table keeps its own where the table does (`TableLaws`). Tests.Memory and
-- Tests.Stores have instances of all of them, a database in memory, the model of the queue and a
-- table. Processes, files and object storage are operations on the state too (`HlsIo`,
-- `ExecutorIo`, `RustFsIo`, `MinioIo`). An error is a value, a nil pointer is `none`, and where Go
-- faults the model answers `none`. The names are the source's, in lower case; the parts of a long
-- function are helpers that follow each other. The HLS worker drops the results of all its writes,
-- so they are a log of calls, and what it reads is a record of what it finds.
--
-- Concurrency. A queue's calls are functions of what one does by itself, and a history of them has
-- one behind the other; that a call's operation on the channel and its count are two steps, between
-- which other calls come, is a step relation of its own (Queue/Interleaved). The updates of a
-- worker's statistics and those of the progress throttle are single steps, and a history is any
-- sequence of them. What a select does when two of its cases are ready is an argument. A worker's
-- loop is run on a schedule of its turns. FFmpeg's process and the reading of its lines are one
-- run, with the lines read and the way it ended. The consumer's goroutines (its reader, the
-- processing loops and `Stop`) are states with a place in the code each, and a history is any list
-- of their actions: sending to and taking from the bounded channel, handling, committing,
-- cancelling, waiting and closing. An action that would wait is refused, and one that panics ends
-- the history. Go visits maps in any order, so what is done for each entry of a map takes the
-- entries in the order of the visit.
--
-- Bounds. Integers are unbounded but where the source's width matters: the offset of a page is
-- wrapped to 64 bits, as are the width of a playlist's entry and the default capacity, the worker's
-- counters are taken modulo 2^64, and the decimal reader has the range of an int. Loops run over
-- lists; only the printing of a decimal has fuel, one more than the number, which has fewer digits
-- than that.
--
-- Not modelled: sleeps and timeouts; the ticker of the recovery and the wait of the HLS worker's
-- loop; the goroutines that keep a lease and watch etcd, but for what a change leads to; singletons
-- and the wiring of the components; the wrappers of the logger; the code that protoc generates; and
-- the libraries themselves (gin, gorm, jwt, kafka-go, MinIO, Redis and etcd), which are parameters.
pub mod Common
pub mod Runtime
pub mod Resolution
pub mod Status
pub mod Params
pub mod Task
pub mod Queue
pub mod HlsQueue
pub mod Config
pub mod Errno
pub mod Request
pub mod Store
pub mod Dto
pub mod Database
pub mod App
pub mod HlsStatus
pub mod Hls
pub mod HlsDatabase
pub mod Service
pub mod Worker
pub mod HlsService
pub mod HlsWorker
pub mod Executor
pub mod Storage
pub mod Clients
pub mod Consumer
pub mod Auth
pub mod Gin
pub mod GrpcServer
pub mod HttpServer
pub mod Jwt
pub mod Kafka
pub mod Logger
pub mod Plugins
pub mod Registry
pub mod RequestId
pub mod Resources
pub mod Rest
pub mod Startup
pub mod TaskManager
pub mod TaskTable
pub mod Tests
