-- ===== src/Lib.antt =====
-- Open-Falcon (falcon-plus): rules and their inheritance, judgement of alarms, messages, receipt of
-- metrics, the cache and the queries of graph, nodata, clusters.
--
-- The repository holds the modules of a monitoring system that exchange metrics: agent collects them,
-- transfer passes them on to graph, which stores them and answers queries, and to judge, which compares
-- them with the rules that hbs serves and queues events for alarm, which turns these into messages;
-- nodata sends mock items for counters that fall silent, aggregator computes metrics of clusters from
-- those of their hosts. In judge an item goes from `Send` to the history of its counter, is judged by
-- each rule that is about it, and makes events whose last one for each alarm is kept.
--
-- Files and code:
--   Base: Boolean tests on native numbers, Go's slices (Lists), strings as bytes (Bytes), maps as lists
--     of entries (Map, IntMap), `int64` with its wrap-around (Int), `strconv` and `strings` (Decimal),
--     floats (Float).
--   Common/Model: common/model/{judge,event,strategy,expression,template}.go.
--   Common/Tags: common/utils/{tags,map,counter,func}.go (SortedTags, DictedTagstring, SplitTagsString,
--     KeysOfMap, Counter, PK, PK2, UUID).
--   Judge/LinkedList: modules/judge/store/linkedlist.go (PushFrontAndMaintain, HistoryData).
--   Judge/Function, Judge/Parse: modules/judge/store/func.go (each Compute, checkIsTriggered, atois,
--     ParseFuncFromString).
--   Judge/Alarm: sendEventIfNeed and sendEvent of modules/judge/store/judge.go, with LastEvents of
--     modules/judge/g/var.go; Judge/Alarm/Phase is the abstract view, a step relation of one alarm.
--   Judge/Match: Judge, CheckStrategy, CheckExpression and what they call in modules/judge/store/judge.go.
--   Judge/Sync: rebuildStrategyMap, rebuildExpressionMap of modules/judge/cron/strategy.go.
--   Judge/Store: modules/judge/store/history.go, Send of modules/judge/rpc/receiver.go, cleanStale of
--     modules/judge/cron/cleaner.go.
--   Hbs/Templates: ParentIds of modules/hbs/cache/strategies.go.
--   Hbs/Inherit: modules/hbs/rpc/hbs.go (Tpl2Strategies, CalcInheritStrategies, slice_int_*). A bucket is a
--     template with its ancestors; Inherit/Override is about one bucket, Inherit/Handed about the ids
--     that were handed out, Inherit/Buckets about the whole result.
--   Hbs/Hosts: modules/hbs/db (the rows of the tables), the round of modules/hbs/cache/cache.go, and
--     GetStrategies. Hosts/Judged puts its reply together with Judge/Sync.
--   Hbs/Expressions: modules/hbs/db/expression.go.
--   Hbs/Plugins, Hbs/Agents: modules/hbs/cache/{plugins,agents}.go, ReportStatus of rpc/agent.go.
--   Graph/LinkedList, Graph/Store, Graph/History: modules/graph/store/{linkedlist,store,history}.go.
--   Graph/Keys, Graph/Index: modules/graph/g/utils.go, modules/graph/index/{cache,index}.go and the update
--     of index_update_incr_task.go.
--   Graph/Api: handleItems, Delete, GetLast and GetLastRaw of modules/graph/api/graph.go, over the store,
--     the index and the history above.
--   Graph/Query: Query of modules/graph/api/graph.go; Query/Loops, Gauge and Derive are about the cached
--     points, Query/Merged and Series about the merging.
--   Alarm/Outbox, Alarm/Users, Alarm/Content: modules/alarm/redi/msg_writer.go, api/{uic,portal}.go,
--     cron/builder.go with g/eventdto.go. Alarm/Consume: cron/event_consumer.go and callback.go, which
--     write to the queues by these (Routes: which queues; Notified: which members); Alarm/Combine:
--     cron/combiner.go, which empties the queues of the users.
--   Aggregator/Expression, Aggregator/Compute, Aggregator/Workers: modules/aggregator/cron/{run,computer,
--     query,worker,updater}.go.
--   Nodata/Collector, Nodata/Status, Nodata/Judge, Nodata/Sender: modules/nodata/collector/collector.go,
--     judge/status.go, judge/judge_cron.go, sender/sender.go. The judge reads what the collector keeps,
--     writes the statuses and the mock items, and the sender empties the latter in batches.
--   Transfer/Receive, Transfer/Convert: modules/transfer/receiver/rpc/rpc_transfer.go (RecvMetricValues up
--     to the queues) and sender/sender.go (convert2GraphItem, convert2TsdbItem, alignTs, the items of
--     Push2JudgeSendQueue), which make the items that judge and graph take.
--   Base/Spaces: the spaces of a text in UTF-8, `strings.Fields` and `strings.TrimSpace`.
--   Base/Containers: interfaces of the third-party containers that graph and nodata use.
--   Tests of each part: concrete runs.
--
-- How the code is modelled:
--   A panic (an index out of range, a nil pointer) is `none`; a returned error is a value of its own.
--   `float64` is an argument: a type with the operations that the code uses, and where a theorem needs it
--   the laws of `<` on values that are no NaN. NaN and 0 are arguments of the query (`Special`).
--   A `range` over a map goes through the list of its entries, so what is stated for every list holds
--   for every order.
--   `crypto/md5`, `encoding/json` and the configuration are arguments (`Env`); `LPUSH` calls are
--   recorded, and their failures, which the code passes over, change nothing.
--   The handlers run one after the other: locks and the interleaving of goroutines are not modelled.
--   Logging under `Debug` is left out.
--   `strconv.ParseFloat` is an argument of transfer's checks and of aggregator.
--   `hash/crc32` is an argument of the graph cache, as is the presence of a file on the disk; the HTTP
--   request of nodata's sender is a function that says whether it was accepted.
--   The rows that a query of hbs gives, the points of an RRD file or of another node, and the answers of
--   the API to alarm and aggregator are arguments, an error among them. The conversion to code points and
--   `unicode.IsPrint` are arguments of the check of names, the timed caches of the index are maps.
--   The regular expressions of aggregator are written out as functions on bytes. `strings.Fields` and
--   `strings.TrimSpace` take the spaces of `unicode.IsSpace` by their bytes in UTF-8 (Base/Spaces).
--   A list or a status that is shared by pointer is stored back under its key where the code changes it.
--   Loops are by recursion on the list or on the number of rounds. `%d` has fuel, one more than the
--   number, which is above the number of its digits; the loop of `sendMock` has its rounds as fuel, for
--   which the number of items is enough when the batch size is positive. The loop of ParentIds has the
--   ten rounds of the code. The loops of Query over times have two rounds more than the distance of the
--   times, which is enough in positive steps; a sum of counters has one round more than its text has
--   bytes.
--
-- Not modelled: api (handlers over a database and a web framework), agent (reads of the operating system),
-- the RRD files and their migration, the queues and connections of transfer and gateway, the other cron
-- jobs, HTTP pages and configuration, which are input and output.
pub mod Base
pub mod Common
pub mod Judge
pub mod Graph
pub mod Nodata
pub mod Transfer
pub mod Hbs
pub mod Alarm
pub mod Aggregator
