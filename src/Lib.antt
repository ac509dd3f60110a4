-- ===== src/Lib.antt =====
-- self-imp-bin-eval: a service that turns a task description into a checklist of yes-or-no
-- questions and scores answers by it.
--
-- A checklist is made in steps, each by a language model: dimensions, candidate questions for each
-- dimension, weights from 0 to 4 for the candidates, and a split of each candidate of weight above
-- one into as many questions. internal/evalcore validates each step, assigns the identifiers,
-- assembles the final questions and scores the judgments of one or more runs.
--
-- The steps are activities of a Temporal workflow, which checks what they return, waits for those
-- that it starts side by side in the order in which it started them, and in the end has the result,
-- or one failure, stored. An activity that fails reports details of its failure with the error.
--
--   Base            what the code uses of Go: int, strings.TrimSpace, strconv.Itoa, maps
--   Errors          Go's error values, as the packages of internal/ make them
--   Evalcore        internal/evalcore
--     Types           types.go: records, limits, number of runs
--     Dimensions      validate.go: ValidateDimensionGeneration, ValidateDimensions
--     Questions       validate.go: ValidateQuestionGeneration, ValidateCandidateQuestions,
--                     ValidateSplitQuestions
--     Weights         validate.go: ValidateWeights, ValidateWeightShape,
--                     ValidateProjectedFinalQuestionCount
--     FinalQuestions  validate.go: ValidateFinalQuestions
--     Judgments       validate.go: ValidateJudgments, ValidateJudgmentShape
--     Ids             ids.go: AssignDimensionIDs, AssignCandidateQuestionIDs
--     Active          active.go: BuildFinalChecklist
--     Score           score.go: ScoreChecklist
--     Aggregate       score.go: AggregateJudgments
--   Failure         internal/failure/failure.go: what details of a failure can be stored
--   Store           internal/db/store.go: the statuses and the record of a checklist
--     Checklists      GetChecklist, SucceedChecklist and compareSucceededChecklist
--     Creation        CreateChecklist and CreateChecklistForWorkflow
--     Evaluations     CreateEvaluation and CreateEvaluationForWorkflow
--       Reading         GetEvaluation, runJudgmentsEqual and scoreResultsEqual
--       Ending          SucceedEvaluation, FailEvaluation and the comparisons of a repeated call
--     Failing         FailChecklist and compareFailedChecklist, and failure.Details.Equal
--     Lifecycle       the calls on the store as steps of its two tables, and what they may do
--   Llm             internal/llm/client.go: the trace of a call
--     Bounded         readBoundedResponse
--     Stream          readStructuredResponsesStream
--     Client          NewHTTPClient and GenerateJSON
--     Json            JSON values, and in Accepts what a schema means
--     Schemas         schemas.go; Prompts: prompts.go
--   Artifacts       internal/artifacts/keys.go: the keys of artifacts
--   Activities      internal/activities/errors.go: an error as an activity reports it, and
--                   internal/workflows/failure.go: what the workflow makes of the report
--     Inputs          internal/activities/llm.go: what the workflows pass to them
--     Llm             internal/activities/llm.go: the activities that call the model
--     Asking          the requests that these send with the client of internal/llm
--     Storing         internal/activities/postgres.go, and the activities that write inputs
--   Workflows       a workflow as the activities that it starts, in order, and how it ends
--     Create          internal/workflows/create_checklist.go: CreateChecklistWorkflow
--     Evaluate        internal/workflows/evaluate_answer.go: EvaluateAnswerWorkflow
--     Options         internal/workflows/options.go
--   Api             internal/api/router.go: the handlers
--     Starting        TemporalStarter
--     Responses       what the handlers write, and statusFromError
--   Tests           runs of the model on concrete data
--
-- A function that returns an error is a `Result`. An error message is the list of pieces that its
-- format joins. A Go map that is only tested for keys is the list of its keys, one that is read is
-- the list of its writes, the last one first, and one with integer keys is a function. A loop is a
-- recursive function over the slice that it walks, or over the number of rounds left, so no fuel is
-- needed. An int is an integer; sums wrap around at 64 bits where the code does not bound them, and
-- a length is a natural number. The pass rate, a quotient of two integers, is kept as these two.
--
-- What Temporal reports of an activity and answers to the start of a workflow, what the
-- endpoint of the model answers, what the JSON encoder and decoders give, whether an artifact
-- can be written or read, what the database answers to a transaction and the text of an error
-- message are parameters. The checklists and the evaluations that are stored are functions of
-- their identifiers, and the artifacts of their keys. The order in which the database returns
-- texts is a parameter, and an identifier that it generates is new. A request or a response of
-- the model is a list of bytes, and a text that is decoded from it is a text.
--
-- Not modelled are the configuration, which reads environment variables, and the verification
-- manifest, a tool for the repository's tests. The commands, the logging, the client of the
-- object store and the scripts are input, output and text.
pub mod Base
pub mod Errors
pub mod Failure
pub mod Artifacts
pub mod Store
pub mod Llm
pub mod Activities
pub mod Workflows
pub mod Api
pub mod Evalcore
mod Tests
