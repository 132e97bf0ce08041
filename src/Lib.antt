-- ===== src/Lib.antt =====
-- Verification of marco-api, the server of a padel coaching app: a Go program of fiber handlers over
-- Postgres.
--
-- The program and these files. A handler of the program reads a request, calls a store, which runs
-- SQL statements, and answers with a status and a JSON body. Here a handler is a function from its
-- parsed input and a World to its answer and the World after. A World (Base/Db) holds the tables, the
-- clock, the next fresh UUID and the schedule of the statements that will fail; a statement is a
-- function of NOW(), a fresh UUID and the tables, and one that fails changes nothing. A transaction
-- that fails gives back the tables it began with. A definition that is named like no function of the
-- program stands for the rest of a handler from a point on, which its comment names.
--
--   * Base: numbers, texts, lists, rows of a table (Rows), answers, and Base/Db with its rules for
--     invariants (Keeps) and for what a success says (Success).
--   * Exam, for internal/exam: Exam has the data and the grading of model.go and grade.go,
--     Exam/Questions the grouping of listQuestionsInternal, Exam/Store the statements and the
--     transaction of store.go, Exam/Handler the endpoints.
--   * Users, for internal/users: the accounts table, the validation of PATCH /me and its endpoints.
--   * Auth, for internal/auth and internal/middleware/auth.go: Auth has the tables and the statements
--     of sessions_store.go, Auth/Tokens those of store.go, Auth/Issue the end of every sign-in,
--     Auth/Handler the endpoints of handler.go with Auth/Handler/Text for its checks of texts,
--     Auth/PasswordReset those of password_reset.go, Auth/Devices those of sessions.go,
--     Auth/Middleware the bearer-token middleware and ValidateAccessToken of jwt.go.
--   * Marco, for internal/marco: the tokens in a reply. Marco/Braces has balancedBraces and the cutting
--     of match_prep.go, Marco/Tokens the regular expressions and the parsers of lesson_refs.go,
--     match_log.go and match_prep.go.
--   * Anthropic, for internal/anthropic/types.go: a stream of the model as a sequence of events.
--   * Chat, for internal/chat: Chat has the rows and the cut of a page, Chat/Store the statements of
--     store.go, Chat/Handler the endpoints and the event stream of handler.go, Chat/Paging the theory of
--     the cut, Chat/Scrolling a client that scrolls back through GET.
--   * MatchPreparation, for internal/match_preparation: MatchPreparation has the rows and the
--     percentage of model.go, its Validation and Suggestions the checks of handler.go, its Store and
--     Store/Editing the statements of store.go, its Handler the endpoints.
--   * Logs, for internal/logs: Logs has the rows of model.go and the statements of store.go, Logs/Handler
--     the validation and the endpoints of handler.go.
--   * Lessons, for internal/lessons: Lessons has the rows of model.go and the statements of store.go,
--     Lessons/Handler the endpoints of handler.go, which find the account in the table of Users.
--   * Achievements, for internal/achievements: the scan of the match logs in fillMatchStats of
--     store.go, and Achievements/Badges the catalogue and compute of model.go.
--
-- The chat reads the tokens of a reply with Marco before it cleans the text, and both the chat and the
-- suggestions of a preparation read a stream of the model. The names of the opponents are cleaned by the
-- same loop in internal/logs and internal/match_preparation, which is one definition here.
--
-- The auth handlers use the accounts of Users through on_users, which lifts a statement on accounts to
-- the tables of Auth. The middleware reads the sessions that the handlers write.
--
-- Parameters. bcrypt, the JWT library, crypto/rand, SHA-256, Google's id tokens, uuid.Parse and the
-- Unicode tables are the fields of Auth.Crypto or arguments of the definitions; nothing is assumed of
-- them. A random value comes from a seed that no other draw has. The model counts the bcrypt rounds
-- that are paid for, which stand for the time an answer takes.
--
-- json.Unmarshal, strconv.Atoi, time.Parse, the model client and the context assembler are arguments
-- too, as functions that may fail.
--
-- Bounds and fuel. Ids, times and counts are natural numbers, without the bound of the machine's
-- integers: times are those of Postgres and counts are lengths of tables. Most loops are recursions on
-- the lists they run over. The loops over a text that is cut shorter in each round, those of
-- ParseMatchPrepToken, CleanMatchPrepTokens and the regular expressions, have the length of the text as
-- their fuel, which is enough since each round takes a character at least; the decimal printer of
-- Base/Text has the number itself. The client of Chat/Scrolling has a bound on its requests. A text is a
-- list of characters, which the Go code sees as bytes; a length that the code takes in bytes is counted
-- in bytes. Within one request the clock stands still; between requests it may move at will.
--
-- Not modelled: the HTTP layer and the JSON encoding, the interleaving of the statements of two
-- requests, the other statements of achievements, the prompt and its context in internal/marco, the
-- model client, and the packages seeder, config, email, routes, health and database.
pub mod Base
pub mod Anthropic
pub mod Marco
pub mod MatchPreparation
pub mod Chat
pub mod Logs
pub mod Lessons
pub mod Exam
pub mod Users
pub mod Auth
pub mod Achievements
