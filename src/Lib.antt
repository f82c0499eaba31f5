-- ===== src/Lib.antt =====
-- JobMon's web client: the logic of the TypeScript sources under frontend/, modelled and proved.
--
-- The client shows the jobs of a cluster. A page of frontend/pages/ fetches JSON from the backend,
-- keeps it in React state, in the session storage and in the address, and renders it by the
-- components of frontend/components/. What is modelled is the part that computes.
--
-- Base holds what all modules share: the libraries' names, lists over the native numbers, signed
-- integers and sums. Js models what the sources use of the language: an object is an association
-- list whose integer-like keys come first in its enumeration (Js/Object), `slice` and `sort` are
-- functions on lists (Js/Array), and floating point is a parameter (Js/Number).
--
-- Units is frontend/types/units.ts: the tables `Units` and `Prefixes`, `getBaseUnit`, `getPrefix` and
-- the class `Unit` with its constructor, `bestPrefix`, `prefixToString`, `valueToString` and `toString`.
-- Paging is the page logic of frontend/pages/jobs.tsx and
-- frontend/components/search/SearchResultList.tsx, with `clamp` of frontend/utils/utils.ts,
-- frontend/components/joblist/JobList.tsx and frontend/components/utils/PageSelection.tsx.
-- Job is the data of frontend/types/job.ts and frontend/types/config.ts. Groups is `groupBy` of
-- frontend/utils/utils.ts, which Statistics uses: frontend/components/statistics/StatItem.tsx with the
-- panels of frontend/components/panelmanager/PanelManager.tsx; Statistics/Charts is the chart of each
-- panel. JobOrder is the order of the job list in frontend/pages/jobs.tsx.
--
-- JobsPage is a whole rendering of frontend/pages/jobs.tsx, which puts the order, the pages and the list
-- together and leaves the answer's array sorted for the next one. SearchPage is the whole of
-- frontend/pages/search.tsx: its three searches, the chosen category and the list of
-- frontend/components/search/SearchResultList.tsx.
--
-- Session is the session: `useGetUser` of frontend/utils/user.ts, the functions of
-- frontend/utils/auth.ts, and the redirects of frontend/pages/_app.tsx, whose pushes are the steps of
-- a relation on paths. Decoding a token (base64url and JSON) is a parameter. Nodes is the selection
-- of nodes in frontend/pages/job/[id].tsx (`setChecked`, `node`) and the button, the nodes
-- and the text field of frontend/components/jobview/Selection.tsx, whose regular expression is written
-- out; Nodes/Clicks is the events, and Nodes/Clicks/Refining the set of hosts that they stand for.
-- Nodes/HostNames is the prefix that frontend/components/jobview/JobInfo.tsx hands to that field.
--
-- Cache is the hook `useGetJobData` of frontend/pages/job/[id].tsx: its state, its effects, and the
-- answers to its requests, which Cache/Steps interleaves in any order. Aggregates is its cache of
-- aggregated metrics, and Live its effects for running jobs, which merge the messages of the
-- websocket and move the live window; Live/Sockets is the effect that opens and closes it. React
-- decides when an effect runs: no order is assumed.
--
-- Filter is frontend/components/joblist/job-filter/JobFilter.tsx with its Stepper.tsx: the edits of the
-- parameters, the refs of the slider thumbs and the effects that pass the parameters on, with the
-- effects of frontend/pages/jobs.tsx and frontend/pages/statistics.tsx that set them. Search is the
-- searches of frontend/pages/search.tsx, whose answers arrive while the term changes.
--
-- Storage is the two hooks of frontend/utils/utils.ts that keep a state in a storage, with JSON as a
-- parameter. Metrics is `useMetricSelection`, the filter and the groups of the charts of
-- frontend/pages/job/[id].tsx, and the overview of a job in frontend/components/joblist/JobList.tsx.
--
-- Charts is `prepareMetricData` of frontend/components/jobview/MetricDataCharts.tsx, and Charts/Hosts
-- follows its data into the drawn lines. Panels makes the
-- list of charts of it and of frontend/components/jobview/QuantileDataCharts.tsx, with the change points
-- of frontend/pages/job/[id].tsx, and LineChart is the data of one chart in
-- frontend/components/charts/LineChart.tsx: the points in its range, the drag that sets a range, and
-- the lines of its tooltip; LineChart/Drawn is the lines that it draws, by d3's grouping, which is a
-- parameter. Times is the range of time of a page, by the effects of
-- frontend/pages/job/[id].tsx and frontend/components/jobview/TimeControl.tsx; the ranges that a drag
-- sets are events of it. Page is the rest of the page: the effects that choose aggregation functions
-- and the sample interval, and what is drawn.
--
-- Tags is frontend/components/jobview/TagPanel.tsx, and Partitions is `setPartitionConfig` of
-- frontend/components/settings/PartitionsView.tsx, with the items of its list in Partitions/Items,
-- and the index of the open one in Partitions/Opening. Settings is
-- frontend/components/settings/MetricsView.tsx with `useGetConfig` of frontend/pages/settings.tsx: the
-- page and the view share arrays and metrics, so both configurations are addresses in a heap, and
-- Settings/Steps replays the events on plain values beside it. The form library hands over new values;
-- a form that is submitted twice without an edit in between is left out. Users is
-- frontend/components/settings/UsersView.tsx and Log is frontend/components/settings/LogView.tsx.
--
-- JobList is `useGetJobs` of frontend/utils/utils.ts, with the view that
-- frontend/components/joblist/JobList.tsx chooses. Header is the links of
-- frontend/components/header/Header.tsx, with the pages that deny the access.
--
-- Ids, counts and Unix times are whole numbers: the backend sends integers, and they are exact in
-- binary64 below 2^53. An exception is `none` of an `Option`. A state that an effect writes is an
-- argument and a result of a function for one rendering. All functions are structurally recursive;
-- the decimal numeral of a number alone takes fuel, the number itself, which is at least the count of
-- its digits less one.
--
-- Not modelled: what draws (scales, axes and shapes of frontend/components/charts, styles, layout), the
-- requests themselves, React's scheduler, and the backend, which is another program.
pub mod Base
pub mod Js
pub mod Units
pub mod Paging
pub mod Job
pub mod Groups
pub mod Statistics
pub mod JobOrder
pub mod Session
pub mod Nodes
pub mod Cache
pub mod Aggregates
pub mod Live
pub mod Search
pub mod Filter
pub mod Storage
pub mod Metrics
pub mod Charts
pub mod Tags
pub mod Partitions
pub mod Settings
pub mod Times
pub mod LineChart
pub mod Panels
pub mod JobList
pub mod Users
pub mod Log
pub mod Header
pub mod Page
pub mod JobsPage
pub mod SearchPage
