-- ===== src/I18n/English.antt =====
-- app/web/ui/src/lib/i18n/en.ts: the messages in English, by the sections of the source.
mod Rules
mod Concepts
use jumpway.Prelude.{List, [], ◌∷◌, ◌++◌, Text, codes}
use jumpway.I18n.English.Rules.{en_rules}
use jumpway.I18n.English.Concepts.{en_concepts}

abbrev pub en_shell : List (Text × Text)
en_shell =
    (codes "overview", codes "Overview")
    ∷ (codes "rules", codes "Rules")
    ∷ (codes "navigation", codes "Navigation")
    ∷ (codes "openNavigation", codes "Open navigation")
    ∷ (codes "closeNavigation", codes "Close navigation")
    ∷ (codes "collapseSidebar", codes "Collapse sidebar")
    ∷ (codes "expandSidebar", codes "Expand sidebar")
    ∷ (codes "preferences", codes "Preferences")
    ∷ (codes "configure", codes "Configure")
    ∷ (codes "observe", codes "Observe")
    ∷ (codes "runtime", codes "Runtime")
    ∷ (codes "language", codes "Language")
    ∷ (codes "english", codes "English")
    ∷ (codes "chinese", codes "中文")
    ∷ (codes "theme", codes "Theme")
    ∷ (codes "themeSystem", codes "System")
    ∷ (codes "themeLight", codes "Light")
    ∷ (codes "themeDark", codes "Dark")
    ∷ (codes "skipToContent", codes "Skip to content")
    ∷ []

abbrev pub en_pages : List (Text × Text)
en_pages =
    (codes "page.overview", codes "Overview")
    ∷ (codes "page.stats", codes "Rule Traffic")
    ∷ (codes "page.hosts", codes "Proxy Hosts")
    ∷ (codes "page.connections", codes "Live Connections")
    ∷ (codes "page.settings", codes "Global Settings")
    ∷ (codes "page.yaml", codes "Configuration File")
    ∷ []

abbrev pub en_statistics : List (Text × Text)
en_statistics =
    (codes "upload", codes "Upload")
    ∷ (codes "download", codes "Download")
    ∷ (codes "clearSearch", codes "Clear search")
    ∷ (codes "active", codes "Active")
    ∷ (codes "peakSum", codes "peak (sum)")
    ∷ (codes "sortBy", codes "Sort by")
    ∷ (codes "sortConfigured", codes "Configured order")
    ∷ (codes "ascending", codes "Ascending")
    ∷ (codes "descending", codes "Descending")
    ∷ (codes "started", codes "Started")
    ∷ (codes "total", codes "Total")
    ∷ (codes "noMatches", codes "No matches")
    ∷ (codes "filteredRules", codes "{count} of {total} rules")
    ∷ (codes "filteredHosts", codes "{count} of {total} hosts")
    ∷ []

abbrev pub en_overview : List (Text × Text)
en_overview =
    (codes "rulesConfigured", codes "{total} configured")
    ∷ (codes "stateCount", codes "{count} {state}")
    ∷ (codes "retryingLabel", codes "Retrying")
    ∷ (codes "connectionsTotal", codes "{total} total")
    ∷ (codes "sinceTime", codes "since {time}")
    ∷ (codes "activeConnections", codes "Active connections")
    ∷ (codes "currentRate", codes "Current rate")
    ∷ (codes "totalTraffic", codes "Total traffic")
    ∷ (codes "edit", codes "Edit")
    ∷ (codes "hopCount", codes "{count} hops")
    ∷ (codes "hopCountOne", codes "1 hop")
    ∷ (codes "disabled", codes "Disabled")
    ∷ []

abbrev pub en_forms : List (Text × Text)
en_forms =
    (codes "general", codes "General")
    ∷ (codes "listen", codes "Listen")
    ∷ (codes "forwardTarget", codes "Forward target")
    ∷ (codes "ruleNameRequired", codes "Rule name is required.")
    ∷ (codes "ruleNameSlash", codes "Names must not contain \"/\".")
    ∷ (codes "ruleNameTaken", codes "A rule with this name already exists.")
    ∷ (codes "listenAddressTaken", codes "Already used by rule \"{name}\".")
    ∷ (codes "listenAddressWebUI", codes "Already used by the web UI.")
    ∷ (codes "usernameColon", codes "Usernames must not contain \":\".")
    ∷ (codes "passwordNeedsUsername", codes "Set a username for this password.")
    ∷ (codes "hopUrlEmpty", codes "Enter a proxy URL.")
    ∷ (codes "hopUrlNoScheme", codes "Include the scheme (e.g. socks5://host:1080).")
    ∷ (codes "ruleNotFound", codes "Rule \"{name}\" was not found.")
    ∷ (codes "breadcrumb", codes "Breadcrumb")
    ∷ (codes "chain", codes "Chain")
    ∷ (codes "urlNumber", codes "URL {number}")
    ∷ (codes "actions", codes "Actions")
    ∷ (codes "search", codes "Search")
    ∷ (codes "confirm", codes "Confirm")
    ∷ (codes "close", codes "Close")
    ∷ (codes "dismiss", codes "Dismiss")
    ∷ (codes "discard", codes "Discard")
    ∷ (codes "stay", codes "Stay")
    ∷ (codes "leavePage", codes "Leave page")
    ∷ (codes "notifications", codes "Notifications")
    ∷ (codes "errorTitle", codes "Error")
    ∷ (codes "warningTitle", codes "Warning")
    ∷ []

abbrev pub en_settings : List (Text × Text)
en_settings =
    (codes "confirmReload", codes "Reload from disk and discard unsaved changes?")
    ∷ (
      codes "saveUncertain",
      codes "The request did not complete. The change may or may not have been applied.",
    )
    ∷ (codes "movedMaybe", codes "If it was applied, the web UI is now at")
    ∷ (codes "movedUnconfirmed", codes "Saved, but the web UI is not confirmed running.")
    ∷ (codes "movedUnconfirmedAt", codes "Not confirmed:")
    ∷ []

unfoldable pub en : List (Text × Text)
en =
    en_rules ++ en_shell ++ en_pages ++ en_statistics ++ en_concepts ++ en_overview ++ en_forms
    ++ en_settings
