-- ===== src/Lib.antt =====
-- The patterns of this repository that are written in Python: each directory of patterns/ holds one
-- serverless workflow, its Lambda functions under src/ and its state machine beside them. The
-- workflows share no code and no state. What they share here is the world that they stand in.
--
-- Py: what the handlers use of Python. Py.Value has the JSON-like values that events, table items
-- and results are made of; Py.Host the interpreter's parameters (clock, uuid, int and float
-- parsing, str, letter case) and int, float, len, get on values of any type; Py.Exec the programs
-- that change a world and may raise, where what was written before a raise stays written.
-- Py.Fallible has those that call no service, and Py.Text the methods of texts. Py.Ends, Py.Gives,
-- Py.Keeps and Py.Triple reason about such programs: how a run ends, what it keeps on every path,
-- and what holds where it returns.
--
-- Dynamo: the DynamoDB table, a service outside the repository. Dynamo.Expression has the update
-- expressions that the stores use, on one item; Dynamo.Interface is what the stores rely on, a
-- record of operations and of their documented laws, which is a parameter of every store; and
-- Dynamo.Model is a table with these laws. Dynamo.Frame: a request of one item leaves the others. The
-- laws are those of requests within DynamoDB's limits on the size of items and keys and on the range
-- of numbers, which are not modelled, nor is a call that throttling makes fail.
--
-- Saga: patterns/saga. Saga.Store is src/store.py, Saga.Errors is src/errors.py, Saga.Handlers and
-- Saga.Compensation are src/handlers.py, and Saga.Task names the tasks of statemachine.asl.json.
-- Saga.View is what the table says of one order, and Saga.Store.Refines shows that the store's
-- operations do on it what they say. Saga.Retry has the state machine's retry of the transient
-- error, with r retries; Saga.Chain its compensation chain. Saga.Machine is the whole state machine
-- as a step relation on its state, its data and the table; each call of a task is one whole step,
-- which may be repeated any number of times and be given up after any call, whatever it answered;
-- between its steps other executions run, for other orders over the same table. Saga.Machine.Stage says what holds in each state, Saga.Machine.Advance that
-- each step leads from there to the next, and Saga.Machine.Guarantee what holds where an execution
-- ends.
--
-- Sqs: the messages of an SQS event source, with the JSON parser and the work on a message as
-- parameters, since users of the patterns replace process_record.
--
-- RetryBackoff: patterns/retry-backoff/src/handler.py. RetryBackoff.Curve is
-- compute_backoff_seconds over the answers of a random source; RetryBackoff.Handler is handle and
-- _backoff_record over the list of visibility changes.
--
-- FanOut: patterns/fan-out/src/worker.py.
--
-- LongRunning: patterns/long-running. LongRunning.Errors, LongRunning.Store and
-- LongRunning.Handlers are src/errors.py, src/store.py and src/handlers.py; LongRunning.View is the
-- abstract job; LongRunning.Polling has each handler on it; LongRunning.Loop is the loop PollJob,
-- EvaluateJob, WaitForJob of statemachine.asl.json. The loop runs on a number of polls: the
-- theorems on it hold for any number above the one that they name, so running out of it is no end
-- of the loop. LongRunning.Machine is the whole state machine as a step relation, like the one of
-- Saga, in which the answer to the sign-off, its refusal and its timeout are steps too; that a call
-- for another job changes nothing for this one is LongRunning.Frame. Python's round of a quotient
-- is exact here, half to even.
--
-- ScheduledBatch: patterns/scheduled-batch/src/handlers.py, whose number of shards is a parameter,
-- and what the Map state of step_functions.tf collects of a shard that fails.
--
-- Webhook: patterns/webhook-ingest. Webhook.Verify is src/verify_signature.py over a parameter for
-- the HMAC, and Webhook.Handler is src/handler.py over the state of one execution environment: the
-- cached key, the secrets fetched and the events processed.
--
-- Approval: patterns/approval-workflow. Approval.Store is src/store.py; Approval.Handlers,
-- Approval.Email, Approval.Outcome and Approval.Decision are src/handlers.py: the tasks, the mail,
-- what follows a decision, and the target of the links. Approval.Services is the state: the table,
-- the calls of Step Functions in their order, whose answers are a parameter, and the mails sent.
-- Approval.View is what the table says of one request, Approval.Decision.Contract the contract of a
-- link on it, Approval.Machine what the first two states of statemachine.asl.json hand on, and
-- Approval.Machine.Execution the whole of it as a step relation.
--
-- Idempotent: patterns/idempotent-processor/src/handler.py. Idempotent.Key is the choice of the
-- key, Idempotent.Handler the handlers, over the interface Idempotent.Powertools of the decorator
-- and the batch processor; the state is Powertools' table, whose results
-- expire after a window of seconds, and the log of the payloads worked on.
--
-- Not modelled: a function that is killed between two writes of one call, and two calls for one item
-- that overlap, as when a task that timed out still runs while it is tried again; two executions that
-- hold one idempotency key at once; Terraform, the log, the text of exceptions, and of
-- floating-point numbers the binary rounding, overflow, infinity and NaN.
pub mod Prelude
pub mod Py
pub mod Dynamo
pub mod Saga
pub mod Sqs
pub mod RetryBackoff
pub mod FanOut
pub mod LongRunning
pub mod ScheduledBatch
pub mod Webhook
pub mod Approval
pub mod Idempotent
