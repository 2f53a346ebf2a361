-- ===== src/Lib.antt =====
-- Jumpway's web interface, under app/web/ui/src: the logic of lib, which edits the rules of the
-- proxy server and follows its status and traffic, and the scripts of the pages in routes.
--
-- The parts, and where they are modelled:
--   * Prelude, what the others share: texts as lists of UTF-16 code units with `trim` and
--     `includes`, decimal numbers, maps as lists of pairs in insertion order, sets, the stable
--     sorts by a number and by a comparison, and lemmas on lists.
--   * Wire is types.ts as far as rules go; Stats is its other half, the traffic counters.
--   * Way is way.ts: the chain of hops of a rule, `normalize_way` as it is read and
--     `serialize_way` as it is written.
--   * Endpoint is rule.ts: the texts of addresses, and the virtual channels that join two rules.
--   * Draft is the first half of ruleEditor.ts, from a stored rule to the draft of the editor;
--     its child Duplicate is `duplicateName`.
--   * ReadRule is the second half of ruleEditor.ts, from a draft back to a rule. `errors`, which
--     the source fills as it goes, is passed from check to check: Fields is `parsePort`,
--     `parseChannel` and `readWay`, Rows the protocol rows and `readAuth`, and ReadRule itself
--     the checks of the name, the target and the address and the rule that is built. Accept names
--     the conditions on a draft, and Stages and the files called Clear show for each check when
--     it leaves `errors` empty.
--   * Poller is polling.svelte.ts: the closure of `createPoller` is a record, and an event is one
--     thing that can happen to it: a subscription or its release, a timeout, the page shown or
--     hidden, the answer to a load, and the callbacks that follow an answer. Events come in any
--     order.
--   * Status is status.svelte.ts, StatsRows statsRows.ts, Trend trend.ts. Traffic is
--     traffic.ts, and Sorting what the sorts of the lists share.
--   * Settings is settings.ts: which texts are addresses of the web interface, and whether one is
--     that of the page itself. Moved is moved.svelte.ts: the notice of where to reopen the page
--     after a write; its variables are a record, and the numbers of the status poller's loads
--     tell it which answers are about the time before the write.
--   * Router is routes.ts and router.svelte.ts: the page that a hash names, and the page that is
--     shown. A state is the variables of the router and the entry that the browser is on; an
--     event is a call of start, stop or navigate, the answer to its confirmation, or a move
--     through the history.
--   * Api is api.ts: a request, over what the browser makes of `fetch`, and the kinds of errors.
--   * Toast is toast.svelte.ts: the messages of the page, and the timers that take some of them
--     away.
--   * Pages holds the scripts of six pages. Overview is OverviewPage.svelte: the list of rules,
--     with switches and deletions of which each goes on with its answers in any order. Editor
--     is RuleEditorPage.svelte: a rule is loaded or copied, edited, saved and deleted. Yaml is
--     YamlPage.svelte, the configuration as text, and Settings is SettingsPage.svelte, with a
--     form for the address and one for the bypass. Statistics is StatsRulesPage.svelte, the
--     rules with their traffic, and Connections is ConnectionsPage.svelte. The variables of a
--     script are a record, a function up to an `await` a handler, and what follows the `await`
--     the handler of another event. A promise settles once: `due` is the load that has not
--     settled. The fields of a form are disabled while a task runs (`disabled={busy.value}`),
--     so typing changes nothing then.
--   * Hosts is hosts.ts: the entries of a snapshot by host and endpoint, with `displayURL` of
--     format.ts, and in its children Sums and Aggregates their sums, order and search. Search
--     is search.ts, and Connections is connections.ts. Format is the rest of format.ts that
--     needs no locale and no floating point: elapsed times, the texts of clients, and URLs
--     without secrets.
--   * HopEditor is components/rules/HopEditor.svelte: the rows of a way in the editor.
--   * UrlBuilder is urlBuilder.ts, and its child Layouts the layouts of data/proxy_layouts.json:
--     the URL of a hop from the fields of its protocol, and back.
--   * Dialogs is confirm.ts and the scripts of components/ui/ConfirmDialog.svelte and
--     components/rules/UrlBuilderDialog.svelte: two dialogs that answer a question with a
--     promise. A promise is the number of its question, and its resolution an entry of a log.
--   * I18n is i18n.svelte.ts with the tables of i18n/en.ts and i18n/zh.ts; Tooltip is
--     actions/tooltip.svelte.ts with components/ui/HelpTip.svelte, and Dom is dom.ts.
--   * Shell is nav.ts, theme.svelte.ts, sidebar.svelte.ts, the labels of rule.ts, and the
--     stages of components/rules/ChainFlow.svelte.
--   * Examples runs the definitions at concrete inputs.
--
-- The editor page reads the stored rules through Wire, shows one as a draft (Draft), and saves
-- what `read_rule` (ReadRule) answers, which uses Way and Endpoint; the pages of status and
-- traffic subscribe to pollers, whose answers Status, StatsRows and Trend turn into what is
-- shown. The pages that write the address of the server (Settings, Yaml) run the operations of
-- Moved around their writes.
--
-- Parameters: `Number(s)` of JavaScript is a function that gives the number where it is an
-- integer and not negative; other results are refused alike by the source. The numbers of the
-- traffic counters are a record of zero, sum and `Number.isFinite`. The result of
-- `aggregateHosts` is an argument of `record_trend`. The sums and sorts of the lists have their
-- numbers, `Date.parse` and `localeCompare` in a record; the theorems on their order assume that
-- differences of numbers and the collation are orders. `toLocaleLowerCase` is a function of a
-- search. The browser's `URL` is a record of its parser, its members and their setters, and
-- `decodeURIComponent` and `URLSearchParams` are functions. `JSON.parse` and `JSON.stringify`
-- are functions, as is `encodeURIComponent`. What `fetch` does is an argument of a request.
-- Little more is assumed of them. `toLowerCase` leaves the texts `cmd` and `nc` as they are, where
-- the URLs of commands are read back. `encodeURIComponent` and `URLSearchParams` write what
-- `decodeURIComponent` and `URLSearchParams` read, for texts without lone surrogates, where the
-- hashes of links are read back. A `URL` that is written is read
-- back; a host that is set on it is so too, and neither a host nor a language or a hash that is
-- set changes the rest of its host and port, for the links to a moved server. `Date.parse`
-- gives the number of milliseconds from the first instant that a `Date` can hold, since only the
-- order of instants is used. Of `URLSearchParams` the language uses a member that is set and
-- read, which are functions; what is set is assumed to be read back.
--
-- A write without an answer may be on disk all the same. The editor page goes on as if it were
-- not, and the model keeps it among the requests that were sent, not among those confirmed.
--
-- Bounds: the loop of `duplicateName` has no bound; here it has fuel for one round more than
-- there are taken names, which is shown to be enough, since the candidates are distinct.
-- `decimal` has fuel for as many digits as its argument, and one; a number has no more. `2 **
-- failures` is exact: the source rounds it only where the delay is capped.
--
-- Not modelled: the markup of the pages and components, the effects that only place or draw
-- elements, and the Go server, which is another program; nor the formatting of byte counts,
-- latencies and calendar times, which needs floating point and locales. Browser storage is
-- modelled where the language, the theme and the sidebar use it.
pub mod Prelude
pub mod Wire
pub mod Way
pub mod Endpoint
pub mod Draft
pub mod ReadRule
pub mod Poller
pub mod Stats
pub mod Status
pub mod StatsRows
pub mod Trend
pub mod Settings
pub mod Moved
pub mod Router
pub mod Api
pub mod Toast
pub mod Pages
pub mod Connections
pub mod Dialogs
pub mod Dom
pub mod Format
pub mod HopEditor
pub mod Hosts
pub mod I18n
pub mod Search
pub mod Shell
pub mod Sorting
pub mod Tooltip
pub mod Traffic
pub mod UrlBuilder
pub mod Examples
