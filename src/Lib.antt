-- ===== src/Lib.antt =====
-- A model of ideate, a desktop tool that keeps ideas with their coding-agent sessions, reviews and
-- backlogs in files.
--
-- The program's parts, and the files that model them (paths of the repository in brackets):
--   Model    the data: slugs [internal/model/slug.go], idea files [frontmatter.go, idea.go],
--            resources [resource.go] and backlog items [backlog.go]. Model.Time is what the slugs use
--            of Go's package time: the layouts 2006-01-02 and 1504. Sessions, summaries and deep
--            links [session.go, summary.go, urls.go].
--   Review   a review record, the ids of reviews and the CriticMarkup marks in a document
--            [internal/review/review.go].
--   Store    the review files [internal/store/review.go], the backlog of an idea
--            [internal/store/backlog.go], the directories of ideas and their session files
--            [internal/store/fs.go] and the match of resource URLs
--            [internal/store/match_resources.go].
--   Pubsub   the broker that fans events out to subscribers [internal/pubsub/broker.go].
--   Agent    the status of an agent's process [internal/agent/session.go] and the coordinator of the
--            live ones [internal/agent/coordinator.go]; the summarizer [internal/agent/summarizer]
--            and the end of a transcript [internal/agent/transcript/claudefmt/text.go].
--   Hooks    what the hooks of a coding agent do to the sessions of an idea
--            [internal/hooks/handler.go].
--   Repo     the name of a repository [internal/repo/repo.go].
--   Mcp      the tools of the MCP server that agents call: the backlog tools
--            [internal/mcp/tools_backlog.go], the sessions that the orchestrator sees and types to
--            [tools_sessions.go], the wait for an agent [agent_ready.go] and list_ideas
--            [tools_list_ideas.go].
--   Service  the lifecycle of an idea [internal/service/idea_service.go].
--   Common, Text   shared helpers, and what the program uses of package strings.
--   Tests    runs, and the theorems at concrete data.
--
-- State and operations. A store is the list of its files, and an operation takes it and returns
-- the next one with the value or the error that the Go method returns. ReviewStore holds records
-- by id in the order of os.ReadDir: CreateOrReopenDiffReview is create_or_reopen_diff_review,
-- SubmitDiffReview is submit_diff_review, and so on in Go's order of words. BacklogFile is
-- backlog.json as a read finds it. What the clock, the file system and package uuid do during a
-- call is its Env. An IdeaDir is the directory of an idea with its files, and a Disk the ideas
-- directory; FSStore's methods on one idea take the first, those on all take the second. A sort is
-- by insertion, as sort.Slice sorts up to twelve elements. The summarizer's regenerate is written
-- over a record of its calls, and its queue is steps of the callers and the workers. The service
-- is written over Ports, the record of the calls that it makes of FSStore, the coordinator and
-- git: its theorems hold for all of them. A tool of the MCP server takes its decoded arguments;
-- the backlog tools pass on a Desk, the backlog and the directory of one idea, and those that type
-- pass on a Bus: who may reply, the bytes typed to each session, the events logged and the calls
-- of StartIdeaSession, of which only that they were made is known. A broker is the list of the
-- channels that it made; each of its calls is one step, and so is each part of a coordinator's
-- method under one lock; only Stop's look-up, its stash of the reason and the change of the status
-- are one step together, and so are Start's look-up of the runner and its entry in the maps. A
-- text that the code walks is the list of its bytes, or of its runes where Go ranges over runes; a
-- text that it compares only is a string. A time has no zone: the dates and clocks of slugs are
-- those of UTC.
--
-- Bounds and fuel. The scan for marks runs on fuel, the length of the text, of which each turn
-- takes at least one byte; decimal numbers run on the number itself. The search for the name of a
-- link is given the number of the names taken and one. Every other loop follows a list.
--
-- Parameters: the lower case of a rune outside ASCII, the YAML package (whose Marshal is taken to
-- return no error), net/url, the hash in the id of a markdown review, the instant of a date, what
-- git says of a worktree, filepath.Join, filepath.Base, the generator that a summarizer calls, and
-- the title and the host that a hook takes from a fetched page, stripPromptPlaceholder, the
-- decoding of a tool's arguments, and what SessionResolver and SessionStarter answer during a
-- call.
--
-- Not modelled: an agent's terminal and command line, the headless generator, in
-- internal/store/fs.go the worktree of a link, files by path and the configuration, RenameIdea,
-- the other tools of the MCP server, its schemas and its JSON, the desktop application, the calls
-- of git and the command line. A receive between the sends of one Publish is not modelled either;
-- Pubsub.Race has the snapshot and the sends of a Publish as steps between other calls, but for
-- Close.
pub mod Common
pub mod Text
pub mod Model
pub mod Review
pub mod Store
pub mod Pubsub
pub mod Service
pub mod Agent
pub mod Hooks
pub mod Repo
pub mod Mcp
pub mod Tests
