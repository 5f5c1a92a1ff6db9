-- ===== src/Lib.antt =====
-- The gateway of edge-serverless-box (services/gateway): it receives HTTP requests, picks a container
-- of the Lambda function that is asked for, and passes the request on to it. With it, the tools that
-- prepare the functions (tools/generator, tools/provisioner), and what runs in their containers.
--
-- How the parts work together. An endpoint of services/gateway/main.py asks the function registry
-- for the function's configuration and gives the request to `LambdaInvoker`. The invoker acquires a
-- worker from the pool manager, posts the request to it under the function's circuit breaker, and
-- gives the worker back, or evicts it if no connection could be made. The pool manager keeps a
-- `ContainerPool` for each function, pauses idle containers, and asks the agent to create, pause,
-- resume and delete containers. `ConcurrencyManager` hands out a bounded number of slots. Each request
-- has a trace id, which the middleware takes from its header, which the invoker sends on, and which the
-- hooks in the container take over and give to the functions that are called from there.
--
-- Files and code (paths from the repository's root):
--   Base          types, lists, integers, dictionaries and tests that the parts share
--   Worker        `WorkerInfo` of services/common/models/internal.py, and sets of workers
--   Pool          `ContainerPool` of services/gateway/services/container_pool.py; Pool/Ledger and
--                 Pool/Schedule have the interleavings of its tasks, Pool/Spec and Pool/Refines its
--                 specification, Pool/Prune and Pool/Drain the other operations
--   Throttle      `FunctionThrottle` and `ConcurrencyManager` of services/gateway/core/concurrency.py
--   Breaker       `CircuitBreaker` of services/gateway/core/circuit_breaker.py
--   Registry      `get_function_config` of services/gateway/services/function_registry.py, and
--                 `config_loader` of services/gateway/main.py
--   Http          `parse_lambda_response` of services/gateway/core/utils.py, with JSON values
--   Invoker       `invoke_function` of services/gateway/services/lambda_invoker.py
--   Api           `invoke_lambda_api` and `gateway_handler` of services/gateway/main.py; Api/Errors is
--                 services/gateway/core/exceptions.py
--   Manager       `PoolManager` of services/gateway/services/pool_manager.py
--   Readiness     `_wait_for_readiness` of services/gateway/services/grpc_provision.py and grpc_backend.py
--   Provision     `GrpcProvisionClient` of services/gateway/services/grpc_provision.py
--   Backend       `GrpcBackend` of services/gateway/services/grpc_backend.py; Backend/Slots runs the
--                 invoker over it
--   Janitor       services/gateway/services/janitor.py
--   Client        `OrchestratorClient` of services/gateway/client.py; Client/Flights has the
--                 interleavings of its tasks
--   Routes        services/gateway/services/route_matcher.py, and the checks of
--                 services/gateway/api/deps.py
--   Metrics       `list_container_metrics` of services/gateway/main.py, with the client behind it
--   Auth          services/gateway/core/security.py, and `authenticate_user` of services/gateway/main.py
--   Trace         services/common/core/trace.py and request_context.py; Trace/Middleware has
--                 `trace_propagation_middleware` of services/gateway/main.py, Trace/Journey the headers of
--                 `invoke_function`
--   Events        services/gateway/core/event_builder.py and services/gateway/models/aws_v1.py
--   Logging       services/common/core/logging_config.py; Logging/Lambda is
--                 services/common/core/lambda_logging.py
--   Sam           `parse_sam_template` of tools/generator/parser.py
--   Provisioner   tools/provisioner/main.py
--   Hooks         tools/generator/runtime/site-packages/sitecustomize.py: trace ids, Hooks/Logs,
--                 Hooks/Forward, Hooks/Clients, Hooks/Handlers and Hooks/Invocation
--
-- How the code is modelled. The gateway runs on one asyncio event loop: a task is interrupted only
-- where it awaits. A method is therefore split at its awaits into sections, each a function from a
-- state to a state; Pool/Schedule, Throttle/Slots, Breaker/Schedule and Client/Flights have a step
-- for each section and take their steps in any order. Where a property is about one call alone, the
-- sections are composed as the method composes them. Exceptions are values. Times are natural
-- numbers of ticks, with `second` ticks a second where the code has a constant; the clock is an
-- argument. Sets and deques of workers are lists, dictionaries are association lists, and the count
-- of provisions is an integer, since it can become negative. What the agent, the JSON decoder and
-- the containers answer is a parameter.
--
-- Fuel: the loop of `acquire_worker` runs on one round more than there are paused containers. That
-- is enough, as its property says. The wait for readiness runs on one attempt more than there are
-- ticks until its deadline, which is enough if the clock advances between attempts. The loop over a
-- logger's handlers runs on as many rounds as there are handlers. Every other loop is structural.
--
-- Not modelled: the generated protocol code, the agent (in Go), HTTP and gRPC transport, reading of
-- files and of the environment, the command line tools, the files that the generator copies and the
-- texts that it makes from templates, and of the loggers all but the formatter, the handler for
-- VictoriaLogs and the decorator of Lambda handlers. YAML, JSON, base64, tokens and regular expressions are parameters. The tasks that pause idle
-- containers are modelled as single operations, not in every interleaving with the others.
-- A drain, with which the application stops, is one of a pool's sections, but ends what is stated of
-- its ledger and its specification; Pool/Drain is about what may come after it.
-- `acquire` on the pool's condition wakes waiting tasks all at once, as `notify_all` does; the
-- order in which they run again is left open. A task that waits for another's request in
-- `ensure_container` and is cancelled meanwhile, which cancels the future that they share, is not
-- among the histories.
pub mod Base
pub mod Worker
pub mod Pool
pub mod Registry
pub mod Throttle
pub mod Breaker
pub mod Http
pub mod Invoker
pub mod Api
pub mod Manager
pub mod Readiness
pub mod Provision
pub mod Backend
pub mod Janitor
pub mod Client
pub mod Routes
pub mod Metrics
pub mod Trace
pub mod Auth
pub mod Events
pub mod Sam
pub mod Hooks
pub mod Provisioner
pub mod Logging
