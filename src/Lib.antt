-- ===== src/Lib.antt =====
-- CampusCompile's web client, frontend/src: a programming judge with practice problems and contests.
-- A browser page is modelled by a record of its state variables, and each handler by a function from
-- the state and what the handler reads to the new state and the requests that it sends. What comes
-- from outside (a decoded token, a response, an event of a stream, the time) is an argument; orders
-- of clicks, answers and events are lists of steps or a step relation.
--
-- The parts and the files that model them:
--   Base                shared names: Boolean tests, lists, text, trimming, integers.
--   Storage             localStorage, which sessions, drafts and the request interceptor share.
--   Api                 services/api.js: the interceptors.
--   Session             context/AuthContext.jsx, pages/OAuthSuccess.jsx, pages/Login.jsx; its child
--                       Routes is AppRoutes.jsx with the guard ProtectedRoute, and Navbar is
--                       components/Navbar.jsx with pages/Landing.jsx.
--   Onboarding          pages/Onboarding.jsx, whose answer replaces the session's token;
--                       Onboarding.Screen is what it shows.
--   Paging              the three paging variables and their handlers, which ProblemList, ContestList,
--                       AddContest, EditContest and the submission history repeat. Paging.View is the
--                       interface that a paged page fills (ProblemList.AsView, ContestList.AsView,
--                       AddContest.AsView), Paging.Walk the pages against a fixed table, and
--                       Paging.Controls the two buttons below a list.
--   ProblemList         pages/ProblemList.jsx; ProblemList.Screen is what it shows.
--   ContestList         pages/ContestList.jsx: the list, the badge and the guards of a contest's doors;
--                       ContestList.Screen is what it shows.
--   ContestForm         what pages/AddContest.jsx and pages/EditContest.jsx share; AddContest and
--                       EditContest hold what is their own. ContestForm.Rules has the access
--                       rules, ContestForm.Screens the three steps, and the two Layout modules what
--                       each page shows around them.
--   Problem             what pages/AddProblem.jsx and pages/EditProblem.jsx share: the data, the
--                       test-case accordion, the upload form and, in Problem.Screen, the two steps;
--                       AddProblem and EditProblem hold the publish and the save, each a sequence of
--                       requests with a compensation, and in their Screen modules what each shows.
--   ZipParser           utils/testCaseParser.js, which both problem pages call for an archive of cases.
--   Engine              hooks/useExecutionEngine.js: submissions, runs, their streams, drafts, history;
--                       Engine.State is the record of its state.
--   AntiCheat           hooks/useAntiCheat.js: the traps and the batching daemon.
--   View                what a page shows: its texts, links and controls, and the messages that its
--                       enabled controls offer.
--   CodeEditor          pages/Arena/CodeEditor.jsx: the listeners on the Monaco editor, the effect
--                       that keeps its text and the page's code together, the toolbar.
--   Console             pages/Arena/ExecutionConsole.jsx; SubmissionHistory and ProblemDescription are
--                       the two other parts of an arena's page.
--   Workbench           the body that pages/Arena/PracticeArena.jsx and ContestArena.jsx share: Engine,
--                       CodeEditor and the three parts above on one page. PracticeArena and
--                       ContestArena (with Contest/ContestArenaLayout.jsx) hold what is their own.
--   ContestProblems     pages/Contest/ContestProblems.jsx.
--   Arena               hooks/useSecureArena.js and the lockout effects of
--                       pages/Contest/ContestArenaLayout.jsx; it dispatches to AntiCheat.
--   Leaderboard         pages/Leaderboard.jsx: the standings and their event stream; Leaderboard.Board
--                       is what the page shows.
--   Tests               concrete inputs.
--
-- Choices: numbers are natural numbers with the stops of their subtractions written out, or integers
-- (Base.Int) where the source's may be negative; times are milliseconds; a float is an exact fraction,
-- compared and rounded by numerator and denominator (AntiCheat). Fuel: `decimal` in Base.Text divides
-- its number by ten, so as many steps as the number's own value are enough, and `round_deviation` searches
-- up to 15, the bound of the deviations that are reported. `browse` in Paging.Walk is granted a number
-- of presses of a button: one more than the pages of the table are enough.
--
-- Not modelled: styles, icons and Markdown; the inside of the Monaco editor, which is here the text that it
-- shows; the reading of ZIP files; what the login page shows; the server (server/) and the
-- worker (worker/). The server is what it answers and, for the publish and the save, what it holds.
pub mod Base
pub mod Paging
pub mod ProblemList
pub mod ContestList
pub mod ContestForm
pub mod AddContest
pub mod EditContest
pub mod Leaderboard
pub mod View
pub mod Storage
pub mod Session
pub mod Onboarding
pub mod Problem
pub mod ZipParser
pub mod AddProblem
pub mod EditProblem
pub mod Engine
pub mod CodeEditor
pub mod Workbench
pub mod ContestProblems
pub mod PracticeArena
pub mod ContestArena
pub mod Console
pub mod SubmissionHistory
pub mod ProblemDescription
pub mod Api
pub mod AntiCheat
pub mod Arena
pub mod Tests
