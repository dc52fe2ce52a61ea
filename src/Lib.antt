-- ===== src/Lib.antt =====
-- public-nest-server, a NestJS monorepo of services: payments, question answering over documents
-- with LLMs, chat, identity, an administration server and a gateway before them.
--
-- Payment models apps/payment/src/payment: a request for a payment (CreatePaymentUseCase) is made
-- idempotent by a key in Redis, stored as PENDING, approved by a payment gateway with retries, and
-- stored again with its event in an outbox table in one transaction; a relay polls the table and
-- publishes the events to Kafka; the gateway's webhook settles a payment that is still PENDING.
--   Payment.Model        domain/vo/money.vo.ts, domain/model/payment.ts, domain/event/*.ts, and
--                        AggregateRoot of libs/shared-kernel
--   Payment.Lifecycle    the calls that can be made on a Payment, as a relation
--   Payment.Database     infrastructure/orm/*.ts; TypeORM as a parameter
--   Payment.Repository   infrastructure/mapper/*.ts, infrastructure/persistence/payment.*.ts
--   Payment.Retry        infrastructure/pg/backoff-retry.util.ts
--   Payment.Cache        Redis as a parameter
--   Payment.Idempotency  infrastructure/idempotency/payment-idempotency.repository-impl.ts
--   Payment.Gateway      domain/port/pg-adapter.port.ts
--   Payment.CreatePayment  application/create-payment.use-case.ts
--   Payment.Webhook      application/handle-pg-webhook.use-case.ts,
--                        presentation/pg-webhook.controller.ts
--   Payment.Outbox       infrastructure/persistence/payment-outbox.repository-impl.ts,
--                        infrastructure/messaging/payment-outbox-relay.service.ts
--   Payment.Queries      rpc/payment.grpc-controller.ts, rpc/payment.grpc-mapper.ts
--   Payment.Reconciliation  infrastructure/reconciliation/payment-reconciliation.service.ts
--   Payment.Memory       a database and a store in memory, which meet the laws of the parameters
--
-- Llm models apps/ai-service/src/llm-gateway: a call streams the answer of the first model of a
-- chain that its circuit breaker admits and that does not fail, and logs what it has cost.
--   Llm.Breaker       domain/model/circuit-breaker-state.ts
--   Llm.BreakerStore  infrastructure/circuit-breaker.adapter.ts, over the hashes of Redis, whose fields are texts
--   Llm.Fallback      application/fallback.service.ts, over a breaker port and a provider
--   Llm.Models        lists of model names
--   Llm.Routing       application/llm-routing.service.ts
--   Llm.Calls         application/llm-gateway.service.ts, application/cost-tracking.service.ts
--
-- Qa models parts of apps/ai-service/src/qa: a question is answered from what a search finds, from a
-- cache or by the LLM; a hard one in rounds of search, answer and critique until the critique is
-- satisfied or a budget is used up.
--   Qa.Budget   domain/vo/iteration-budget.vo.ts, domain/vo/critique.vo.ts,
--               application/query-refiner.service.ts
--   Qa.Chunks   application/filter/rag-content-validator.ts and the context of a prompt
--   Qa.Fusion   application/rrf-fusion.service.ts
--   Qa.Siblings  application/hybrid-search.use-case.ts, the expansion with neighbouring chunks
--   Qa.Embeddings  the same file, the similarity and the mean of embeddings
--   Qa.Decomposer  application/query-decomposer.service.ts and hyde.service.ts
--   Qa.Hybrid   application/hybrid-search.use-case.ts, execute, which takes a question apart, searches
--               for it or its parts, and fuses what was found
--   Qa.Agentic  application/agentic-ask.use-case.ts
--   Qa.Filtering  application/ask.use-case.ts, the filter of an answer
--   Qa.Rewriter  application/conversational-query-rewriter.service.ts
--   Qa.Ask      application/ask.use-case.ts and ask.command.ts: the path with the two caches
--
-- Knowledge models apps/ai-service/src/knowledge: a file is read, checked, cut into parents and their
-- children, embedded and stored, and its document says how that went.
--   Knowledge.Splitting  application/ingest-document.use-case.ts, the cutting by paragraphs
--   Knowledge.Offsets    the same file, where the chunks are found in the text
--   Knowledge.Document   domain/model/document.ts, with its collection as a parameter
--   Knowledge.Vectors    infrastructure/vector/mongodb-vector.adapter.ts
--   Knowledge.Ingest     application/ingest-document.use-case.ts, execute; Ingest.Building has
--                        buildVectorDocs, Ingest.Steps how a chain of actions runs, and the others
--                        how an ingestion ends and what it leaves
--
-- Chat models the messages of chat rooms: the chat service (apps/chat-service/src/message) keeps the
-- newest messages of a room in a sorted set of Redis and notifies the room's shard; every pod of the
-- gateway (apps/gateway/src/chat) listens to all shards, pulls what is new of the rooms that have
-- sockets on it and emits it to them. libs/rpc/src/chat-realtime has what both share.
--   Chat.Redis    sorted sets as a parameter
--   Chat.Hash     chat.hash.ts, chat.keys.ts, sharded-pubsub.service.ts of libs/rpc
--   Chat.Store    redis-chat-zset.repository.ts of libs/rpc; message.service.ts, rpc/*.ts of the
--                 chat service
--   Chat.Gateway  chat-gateway.gateway.ts of the gateway; Sending is about the handlers, its other
--                 children about the emitting of messages
--   Chat.Memory   sorted sets and sockets in memory, which meet the laws of the parameters
--
-- Gateway models parts of apps/gateway/src: requests pass a guard; jobs are published to the AI
-- service once for each idempotency key, and their events are streamed to their owners.
--   Gateway.Redis   texts and hashes of Redis as a parameter
--   Gateway.Jobs    ai/job/job-store.service.ts, ai/job/job.controller.ts
--   Gateway.Stream  ai/stream/job-stream.controller.ts
--   Gateway.Auth    auth/gateway-auth.guard.ts, auth/admin.guard.ts
--
-- Prompt models apps/ai-service/src/prompt: prompt templates are kept in versions for each user and
-- for nobody, and one of them is active in each scope.
--   Prompt.Template    domain/model/prompt-template.ts, domain/vo/prompt-name.vo.ts
--   Prompt.Collection  a collection of MongoDB as a parameter
--   Prompt.Repository  infrastructure/persistence/prompt-template.repository-impl.ts
--   Prompt.UseCases    application/*.use-case.ts
--
-- Common models parts of libs/common/src, which every application imports.
--   Common.Arrays  extension/array.extension.ts, on arrays of texts
--
-- A call that awaits is an action: a function from the state to a result (`ok` of a value, or `err`
-- of what was thrown) and the state after it. TypeORM, MongoDB, Redis, Kafka, Socket.IO, the payment
-- gateway, the embeddings, the splitters and the LLM providers are parameters, records of operations
-- with the laws that the code relies on; the databases' laws say what a call has done if it
-- resolves, and, where a theorem needs it, that a write that throws has done nothing. The database of the payments and Redis may fail at every call, and Redis' keys are
-- taken not to expire between two steps of a theorem. An action runs without interleaving, unless a
-- theorem puts the steps of two of them in sequence. The time is an argument.
--
-- Amounts and ids are whole numbers, as their columns are; `undefined` is `none`. The loop of
-- `retryWithBackoff` recurses on the attempts that are left, which are exactly enough; the agentic
-- loop recurses on fuel for as many rounds as its budget allows, and never runs out of it; the loop
-- of a stream runs for the reads that there are before the client closes. Scores, prices and
-- confidences are whole numbers of a unit that is small enough.
--
-- Not modelled: the wiring of modules, HTTP and gRPC transport, logging, metrics, generated code.
pub mod Base
pub mod Chat
pub mod Common
pub mod Gateway
pub mod Knowledge
pub mod Payment
pub mod Llm
pub mod Qa
pub mod Prompt
