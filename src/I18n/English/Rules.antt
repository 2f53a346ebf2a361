-- ===== src/I18n/English/Rules.antt =====
-- app/web/ui/src/lib/i18n/en.ts: the first section, most of it on rules.
use jumpway.Prelude.{List, [], ◌∷◌, Text, codes}

abbrev pub en_rules : List (Text × Text)
en_rules =
    (codes "appName", codes "JumpWay")
    ∷ (codes "checking", codes "Status unknown")
    ∷ (codes "running", codes "Running")
    ∷ (codes "stopped", codes "Stopped")
    ∷ (codes "retrying", codes "Retrying ({attempt})")
    ∷ (codes "remote", codes "remote")
    ∷ (codes "forward", codes "forward")
    ∷ (codes "reload", codes "Reload from disk")
    ∷ (codes "saveApply", codes "Save & Apply")
    ∷ (codes "unsaved", codes "Unsaved changes")
    ∷ (codes "discardChanges", codes "Discard unsaved changes?")
    ∷ (codes "yaml", codes "Advanced YAML")
    ∷ (codes "settings", codes "Settings")
    ∷ (codes "webUI", codes "Web UI")
    ∷ (
      codes "webUIHint",
      codes "Address of this page and the REST API. Only local addresses make sense here.",
    )
    ∷ (codes "host", codes "Host")
    ∷ (codes "port", codes "Port")
    ∷ (codes "invalidPort", codes "Port must be a whole number between 0 and 65535.")
    ∷ (codes "invalidForwardPort", codes "Port must be a whole number between 1 and 65535.")
    ∷ (codes "virtual", codes "Virtual")
    ∷ (codes "endpointKind", codes "Type")
    ∷ (codes "virtualChannel", codes "Channel")
    ∷ (
      codes "invalidVirtualChannel",
      codes "Channel is required and must not contain spaces or \"/\".",
    )
    ∷ (codes "virtualSelfLoop", codes "A rule cannot forward to its own listen channel.")
    ∷ (codes "virtualIncoming", codes "Incoming rules")
    ∷ (codes "virtualOutgoing", codes "Exit rule")
    ∷ (codes "virtualNoListener", codes "No enabled rule listens on this channel.")
    ∷ (codes "rule", codes "Rule name")
    ∷ (codes "enabled", codes "Enabled")
    ∷ (codes "entry", codes "Entry")
    ∷ (codes "exit", codes "Exit")
    ∷ (codes "mode", codes "Mode")
    ∷ (codes "proxy", codes "Proxy")
    ∷ (codes "portForward", codes "Port forward")
    ∷ (codes "targetHost", codes "Target host")
    ∷ (codes "targetPort", codes "Target port")
    ∷ (codes "onExitNode", codes "on the exit node")
    ∷ (codes "listenThrough", codes "Listen through")
    ∷ (codes "exitChain", codes "Exit chain")
    ∷ (codes "username", codes "Username")
    ∷ (codes "password", codes "Password")
    ∷ (
      codes "credentialsHint",
      codes
          "Optional credentials for HTTP Basic / SOCKS5 clients. Usernames must not contain \":\".",
    )
    ∷ (codes "credentialsProxyOnly", codes "Credentials apply to proxy rules only")
    ∷ (codes "protocols", codes "Protocols")
    ∷ (codes "customCredentials", codes "Custom credentials")
    ∷ (codes "protocolRequired", codes "Select at least one protocol.")
    ∷ (codes "cipher", codes "Cipher")
    ∷ (codes "cipherRequired", codes "Shadowsocks needs a cipher.")
    ∷ (codes "passwordRequired", codes "Shadowsocks needs a password.")
    ∷ (
      codes "listenThroughHint",
      codes
          "Leave empty to open the port on this machine. Otherwise the first hop binds host:port on its side (SSH remote forwarding; the remote sshd binds loopback unless GatewayPorts is enabled) and the last hop is dialed from this machine. Only ssh://, cmd: and nc hops can bind.",
    )
    ∷ (codes "deleteRule", codes "Delete")
    ∷ (codes "duplicateRule", codes "Duplicate rule")
    ∷ (codes "confirmDeleteRule", codes "Delete rule \"{name}\"?")
    ∷ (codes "deleted", codes "Rule deleted.")
    ∷ (codes "newRule", codes "New rule")
    ∷ (codes "noRules", codes "No rules yet.")
    ∷ (codes "direct", codes "direct")
    ∷ (codes "stats", codes "Statistics")
    ∷ (codes "hosts", codes "Hosts")
    ∷ (codes "traffic", codes "Traffic")
    ∷ (codes "nowShort", codes "now")
    ∷ (codes "peak", codes "peak")
    ∷ (codes "peakUpperBound", codes "Sum of endpoint peaks — an upper bound")
    ∷ (codes "lastShort", codes "last")
    ∷ (codes "ago", codes "{time} ago")
    ∷ (codes "connections", codes "Connections")
    ∷ (codes "connectionsTotals", codes "Active / total")
    ∷ (codes "latency", codes "Latency")
    ∷ (codes "latencyTotals", codes "Last / average")
    ∷ (codes "dialFailures", codes "Failures")
    ∷ (codes "dialsTotals", codes "Failed / attempted")
    ∷ (codes "dialAttempts", codes "dial attempts")
    ∷ (codes "viaHop", codes "via {parent}")
    ∷ (codes "state", codes "State")
    ∷ (codes "address", codes "Address")
    ∷ (codes "usedBy", codes "Used by")
    ∷ (codes "endpoints", codes "Endpoints")
    ∷ (codes "expand", codes "Expand")
    ∷ (codes "collapse", codes "Collapse")
    ∷ (codes "aboutConcept", codes "About {concept}")
    ∷ (codes "noHosts", codes "No proxy hosts. No rule has listen or forward hops.")
    ∷ (codes "ruleLabel", codes "Rule")
    ∷ (codes "clients", codes "Clients")
    ∷ (codes "path", codes "Path")
    ∷ (codes "thisMachine", codes "This machine")
    ∷ (codes "directStage", codes "Direct")
    ∷ (codes "reused", codes "reused")
    ∷ (codes "allRules", codes "All rules")
    ∷ (codes "connectionCount", codes "{count} connections")
    ∷ (codes "filteredConnections", codes "{count} of {total} connections")
    ∷ (codes "targets", codes "Targets")
    ∷ (codes "targetCount", codes "{count} distinct targets")
    ∷ (codes "noTargets", codes "No connections yet")
    ∷ (codes "targetsEvicted", codes "{count} older targets were dropped from this list")
    ∷ (codes "showingTargets", codes "Showing {shown} of {total} targets")
    ∷ (codes "viaEndpoint", codes "via {endpoint}")
    ∷ (codes "client", codes "Client")
    ∷ (codes "target", codes "Target")
    ∷ (codes "duration", codes "Duration")
    ∷ (codes "totalShort", codes "total")
    ∷ (codes "disconnect", codes "Disconnect")
    ∷ (codes "disconnected", codes "Connection closed.")
    ∷ (codes "noConnections", codes "No current connections")
    ∷ (codes "showingConnections", codes "Showing {shown} of {total}")
    ∷ (codes "showMoreConnections", codes "Show {count} more")
    ∷ (codes "statsSince", codes "Since {time}")
    ∷ (codes "resetStats", codes "Reset statistics")
    ∷ (codes "resetStatsConfirm", codes "Reset statistics for all rules?")
    ∷ (codes "statsReset", codes "Statistics reset.")
    ∷ (codes "prometheus", codes "Prometheus metrics")
    ∷ (codes "hop", codes "Hop {number}")
    ∷ (codes "hopExit", codes "exit node")
    ∷ (codes "hopEntry", codes "entry node")
    ∷ (codes "hopBinds", codes "binds the port")
    ∷ (codes "hopDialed", codes "dialed from this machine")
    ∷ (
      codes "hopsHint",
      codes
          "Hop 1 is the exit node; the last hop is dialed from this machine. Leave empty to connect directly from this machine.",
    )
    ∷ (codes "chainLocal", codes "this machine")
    ∷ (codes "chainTarget", codes "target")
    ∷ (codes "up", codes "Up")
    ∷ (codes "down", codes "Down")
    ∷ (codes "deleteHop", codes "Delete hop")
    ∷ (codes "addHop", codes "Add hop")
    ∷ (codes "proxyURL", codes "Proxy URL")
    ∷ (codes "remove", codes "Remove")
    ∷ (codes "addURL", codes "Add URL")
    ∷ (codes "build", codes "Build…")
    ∷ (codes "builderTitle", codes "Build proxy URL")
    ∷ (codes "protocol", codes "Protocol")
    ∷ (codes "useURL", codes "Use URL")
    ∷ (codes "cancel", codes "Cancel")
    ∷ (codes "optional", codes "(optional)")
    ∷ (codes "preview", codes "Preview")
    ∷ (codes "builderHint", codes "Host and a numeric port are required.")
    ∷ (
      codes "builderShadowsocksHint",
      codes "Host, a numeric port, encryption method, and password are required.",
    )
    ∷ (codes "builderCommandHint", codes "A command is required.")
    ∷ (codes "builderLoading", codes "Loading protocols...")
    ∷ (codes "builderLoadFailed", codes "Cannot load protocols. Close the dialog and try again.")
    ∷ (codes "field.username", codes "Username")
    ∷ (codes "field.password", codes "Password")
    ∷ (codes "field.host", codes "Host")
    ∷ (codes "field.port", codes "Port")
    ∷ (codes "field.identity", codes "Identity file")
    ∷ (codes "field.encrypto", codes "Encryption method")
    ∷ (codes "field.command", codes "Command")
    ∷ (codes "field.commandPrefix", codes "Execution prefix")
    ∷ (codes "noProxy", codes "No proxy")
    ∷ (codes "hostsCIDRs", codes "Hosts / CIDRs")
    ∷ (codes "fromEnv", codes "From environment variables")
    ∷ (codes "fromFiles", codes "From files or URLs")
    ∷ (codes "listHint", codes "Hosts, domains, or CIDRs that bypass the proxy, one per line.")
    ∷ (
      codes "envHint",
      codes "One environment variable name per line; each holds a comma-separated bypass list.",
    )
    ∷ (
      codes "filesHint",
      codes "One file path or URL per line; each source lists one bypass entry per line.",
    )
    ∷ (codes "yamlSource", codes "Configuration YAML")
    ∷ (codes "resources", codes "Resources")
    ∷ (codes "apiDocs", codes "API docs")
    ∷ (codes "pprof", codes "pprof")
    ∷ (codes "github", codes "GitHub")
    ∷ (codes "loading", codes "Loading...")
    ∷ (codes "saving", codes "Saving and applying...")
    ∷ (codes "saved", codes "Saved and applied.")
    ∷ (codes "reloaded", codes "Reloaded from disk.")
    ∷ (codes "retry", codes "Retry")
    ∷ (codes "movedTo", codes "The web UI has moved to")
    ∷ (
      codes "movedUnknown",
      codes "Saved. The listen address changed. Open the address shown in the tray status item.",
    )
    ∷ (codes "unreachable", codes "Cannot reach JumpWay.")
    ∷ (
      codes "recoveryHint",
      codes
          "The Web UI may have stopped. Use the tray's Edit Config to check ~/.jumpway/config.yaml, then Reload Config to restart it.",
    )
    ∷ (codes "requestFailed", codes "The request could not be completed.")
    ∷ (
      codes "invalidResponse",
      codes "JumpWay returned an unreadable response. Try reloading from disk.",
    )
    ∷ []
