-- ===== src/Lib.antt =====
-- Verification library for codefort: a self-hosted forge whose daemon (cmd/codefortd) keeps issues,
-- runs and their queue in SQLite (internal/storage), reads pipeline documents (internal/ci) and
-- executes CI and agent runs under a shared budget.
--
-- Base       Booleans, lists, signed integers, and SQL tables as lists of rows in id order, with the
--            lemmas that the components share.
-- Storage    The errors and results of internal/storage.
-- Issues     internal/storage/issues.go and dependencies.go. Tracker holds the tables; Edit has
--            CreateIssue, GetIssue, UpdateIssue and DeleteIssue; Dependencies the depends-on graph
--            with the cycle search of AddDependency; Claims the claim lock with its lease; Views the
--            computed ready, blocked and epic views.
-- Runs       internal/storage/ci.go and agent_turns.go. Store holds ci_runs, ci_jobs and
--            agent_turns; Queue has the run statements from EnqueueRun to FinishRun; Jobs the job
--            rows; Turns the follow-up turns; Retention the startup pass and PruneRuns.
-- Ci         internal/ci/ci.go: the pipeline document, and TopoOrder in Order.
-- Scheduler  cmd/codefortd/ci_runner.go: the waves of executeRun, and in Attempt its gate, runJob and
--            the claim leases. The order in which Go ranges over the pending map, the outcome of a job
--            and the state of the context are arguments.
-- Budget     cmd/codefortd/budget.go: the semaphores that CI and agent runs share.
-- Access     Who may use a repository. Registry holds the tables users, repos, repo_members and tokens
--            with the checks of internal/storage/repo_members.go; Paths has repoFromPath, Tokens
--            tokens.go and users.go, Gate the middlewares of internal/server/auth.go and access.go as
--            functions from handlers to handlers, Members the handlers of members.go. Rights says
--            without SQL who may read and write.
-- Pulls      internal/storage/pulls.go and pr_reviews.go. Git has the merge methods of
--            internal/server/merge.go on the branches of a bare repository, Merge its handler with the
--            review gate and the closing of linked issues, and autoCloseMergedPRs of ci_hook.go;
--            Keywords matches the expression that finds the issues a pull request closes.
-- Feed       internal/storage/events.go and the loop of internal/server/events.go. EventLog is the
--            table events; `follow` is the rounds of one connection, each with the log as it then is.
-- Cron       cmd/codefortd/cron_scheduler.go and its table in internal/storage/ci.go: the sync with the
--            schedules of a pipeline and the tick that fires what is due, onto the queue of Runs.
-- Specs      internal/specs: the front matter of a spec file as specs.go splits it and verify.go stamps
--            it, on the file's lines.
--
-- Each statement of the database is one function on the tables, at the time `now` that SQLite's
-- clock gives it; a transaction is one function, since SQLite has one writer. An operation returns
-- the new tables with its result, and a failure returns none, as its transaction is rolled back.
-- Errors of the database driver are left out. A duration is the int64 of nanoseconds as a ℤ;
-- `positive_seconds` is int64(d.Seconds()), with none for a duration that is not positive.
-- Constraints of the schema are the predicates HasUniqueNumbers and IsOrdered; HasDistinctJobs says
-- that the keys of a Go map are distinct.
--
-- What the code takes from elsewhere is a parameter: Platform is the digest, bcrypt and TrimSpace; Git
-- is the git commands that read or write objects, with GitLaws for what a theorem needs of them; Race
-- is what other pushes do to the branches between two steps of a merge; `parse_standard` is the parser
-- of cron expressions, and `trim_space` and `decode` in Specs are TrimSpace and the YAML decoder.
--
-- Three loops run on fuel. The search of AddDependency has one round for each edge and two more, since
-- it pushes an edge once at most. TopoOrder has one round for each job, since every round but the
-- last emits a job. The scheduler has one pass for each job, since every pass but the last takes one
-- off the pending jobs.
--
-- Not modelled: the other HTTP handlers, the clients and the web interface, which decode requests and
-- show results; the calls of containers and the clock; the YAML decoder, whose result is the
-- pipeline document and a spec's fields; the sections of a spec and the agent runner.
pub mod Base
pub mod Storage
pub mod Issues
pub mod Runs
pub mod Ci
pub mod Scheduler
pub mod Budget
pub mod Access
pub mod Pulls
pub mod Feed
pub mod Specs
pub mod Cron
