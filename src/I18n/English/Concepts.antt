-- ===== src/I18n/English/Concepts.antt =====
-- app/web/ui/src/lib/i18n/en.ts: what the circled question marks say.
use jumpway.Prelude.{List, [], ◌∷◌, Text, codes}

abbrev pub en_concepts : List (Text × Text)
en_concepts =
    (
      codes "help.now",
      codes "Current rate: bytes per second over the last completed one-second window.",
    )
    ∷ (
      codes "help.nowTrend",
      codes
          "Current rate: bytes per second over the last completed one-second window. Where there is room beside the values, a line traces the last minute of samples while the page is open; it starts over after a reset or a pause.",
    )
    ∷ (
      codes "help.peak",
      codes "Peak: the highest one-second rate seen since the statistics were last reset.",
    )
    ∷ (
      codes "help.peakSum",
      codes
          "Peak (sum): the peaks of the endpoints added together — an upper bound, as they need not have happened at the same time.",
    )
    ∷ (
      codes "help.total",
      codes "Total: bytes transferred since JumpWay started or the statistics were last reset.",
    )
    ∷ (
      codes "help.last",
      codes
          "Last: when a byte last moved in this direction; hover the value for the exact time. A dash means none yet.",
    )
    ∷ (
      codes "help.connections",
      codes
          "Connections: still open / opened in total, counting only connections opened since JumpWay started or the last reset — one already open at a reset stays listed but is not counted. Behind an SSH hop, transports are counted rather than client connections.",
    )
    ∷ (
      codes "help.latency",
      codes
          "Latency: how long the last successful dial took / the average over all successful dials. Connection setup time, not a ping.",
    )
    ∷ (
      codes "help.latencyAggregate",
      codes
          "Latency: the last dial of the most recently active endpoint (traffic counts as activity, so not necessarily the newest dial) / the average over every endpoint, weighted by successful dials. Connection setup time, not a ping.",
    )
    ∷ (
      codes "help.failures",
      codes
          "Failures: dial attempts that did not connect / all dial attempts since the last reset.",
    )
    ∷ (
      codes "help.targetsEvicted",
      codes
          "Targets: a rule remembers at most 1000 targets. When more appear, idle targets with the oldest activity are dropped first; their traffic stays in the rule totals.",
    )
    ∷ (codes "help.upload", codes "Upload — from the client towards the target.")
    ∷ (codes "help.download", codes "Download — from the target back to the client.")
    ∷ (
      codes "help.page.stats",
      codes
          "One item per rule with the counters of its listener. Expand a rule for its chain: each hop and proxy URL with its own counters, and the targets.",
    )
    ∷ (
      codes "help.page.hosts",
      codes
          "Every proxy host named by a listen or exit hop, added up over all its URLs and rules. Summed peaks are an upper bound; the average latency is weighted by successful dials.",
    )
    ∷ (
      codes "help.page.connections",
      codes
          "Connections open right now, one per client connection, with the rule it uses and the route it took; at most 200 are listed.",
    )
    ∷ (
      codes "help.kpi.rules",
      codes
          "Rules whose listener is running right now, out of all configured rules; the rest are retrying (listen keeps failing, still trying), stopped, disabled, or of unknown state while the status has not loaded.",
    )
    ∷ (
      codes "help.kpi.active",
      codes
          "Connections across all rules opened since JumpWay started or the last reset and still open, and how many were opened in total since then.",
    )
    ∷ (
      codes "help.kpi.rate",
      codes
          "Bytes per second across all rules over the last completed second: ↑ upload from clients towards targets, ↓ download back. Where there is room beside the values, a line traces the last minute of samples while the page is open; it starts over after a reset or a pause.",
    )
    ∷ (
      codes "help.kpi.total",
      codes
          "Bytes transferred across all rules since JumpWay started or the statistics were last reset: ↑ upload, ↓ download.",
    )
    ∷ (
      codes "help.state",
      codes
          "State: whether the rule’s listener is running. Retrying: it could not be started yet; the count is the consecutive failed attempts.",
    )
    ∷ (
      codes "help.mode",
      codes
          "Mode: a proxy rule serves HTTP, SOCKS4, SOCKS5 and SSH clients that pick their own destination; a port-forward rule pipes every connection to one target.",
    )
    ∷ (
      codes "help.listen",
      codes
          "Listen: the host and port clients connect to. With a listen-through chain, the first hop binds it on its side.",
    )
    ∷ (
      codes "help.target",
      codes
          "Target: the host and port every connection of a port-forward rule is piped to, reached from the exit node.",
    )
    ∷ (
      codes "help.exitChain",
      codes
          "Exit chain: the proxies dialed from this machine on the way out. Hop 1 is the exit node next to the target; the last hop is the first one dialed. Empty means connecting directly.",
    )
    ∷ (
      codes "help.endpoints",
      codes
          "Endpoints: the distinct proxy URLs on this host, as scheme://host:port, across all rules and hops.",
    )
    ∷ (
      codes "help.path",
      codes
          "Path: the route this connection took, from this machine through each proxy URL to the target. “reused” marks a hop reached over an existing transport.",
    )
    ∷ []
