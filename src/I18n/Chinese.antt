-- ===== src/I18n/Chinese.antt =====
-- app/web/ui/src/lib/i18n/zh.ts: the messages in Chinese, by the sections of the source.
mod Rules
mod Concepts
use jumpway.Prelude.{List, [], ◌∷◌, ◌++◌, Text, codes}
use jumpway.I18n.Chinese.Rules.{zh_rules}
use jumpway.I18n.Chinese.Concepts.{zh_concepts}

abbrev pub zh_shell : List (Text × Text)
zh_shell =
    (codes "overview", codes "概览")
    ∷ (codes "rules", codes "规则")
    ∷ (codes "navigation", codes "导航")
    ∷ (codes "openNavigation", codes "打开导航")
    ∷ (codes "closeNavigation", codes "关闭导航")
    ∷ (codes "collapseSidebar", codes "收起侧边栏")
    ∷ (codes "expandSidebar", codes "展开侧边栏")
    ∷ (codes "preferences", codes "偏好设置")
    ∷ (codes "configure", codes "配置")
    ∷ (codes "observe", codes "观测")
    ∷ (codes "runtime", codes "运行状态")
    ∷ (codes "language", codes "语言")
    ∷ (codes "english", codes "English")
    ∷ (codes "chinese", codes "中文")
    ∷ (codes "theme", codes "主题")
    ∷ (codes "themeSystem", codes "跟随系统")
    ∷ (codes "themeLight", codes "浅色")
    ∷ (codes "themeDark", codes "深色")
    ∷ (codes "skipToContent", codes "跳到主要内容")
    ∷ []

abbrev pub zh_pages : List (Text × Text)
zh_pages =
    (codes "page.overview", codes "概览")
    ∷ (codes "page.stats", codes "规则流量")
    ∷ (codes "page.hosts", codes "跳板主机")
    ∷ (codes "page.connections", codes "活动连接")
    ∷ (codes "page.settings", codes "全局设置")
    ∷ (codes "page.yaml", codes "配置文件")
    ∷ []

abbrev pub zh_statistics : List (Text × Text)
zh_statistics =
    (codes "upload", codes "上传")
    ∷ (codes "download", codes "下载")
    ∷ (codes "clearSearch", codes "清除搜索")
    ∷ (codes "active", codes "活动")
    ∷ (codes "peakSum", codes "峰值（合计）")
    ∷ (codes "sortBy", codes "排序依据")
    ∷ (codes "sortConfigured", codes "配置顺序")
    ∷ (codes "ascending", codes "升序")
    ∷ (codes "descending", codes "降序")
    ∷ (codes "started", codes "开始时间")
    ∷ (codes "total", codes "累计")
    ∷ (codes "noMatches", codes "没有匹配项")
    ∷ (codes "filteredRules", codes "{count} / {total} 条规则")
    ∷ (codes "filteredHosts", codes "{count} / {total} 个主机")
    ∷ []

abbrev pub zh_overview : List (Text × Text)
zh_overview =
    (codes "rulesConfigured", codes "共 {total} 条")
    ∷ (codes "stateCount", codes "{state} {count}")
    ∷ (codes "retryingLabel", codes "重试中")
    ∷ (codes "connectionsTotal", codes "累计 {total}")
    ∷ (codes "sinceTime", codes "自 {time} 起")
    ∷ (codes "activeConnections", codes "活动连接")
    ∷ (codes "currentRate", codes "当前速率")
    ∷ (codes "totalTraffic", codes "累计流量")
    ∷ (codes "edit", codes "编辑")
    ∷ (codes "hopCount", codes "{count} 个节点")
    ∷ (codes "hopCountOne", codes "1 个节点")
    ∷ (codes "disabled", codes "已禁用")
    ∷ []

abbrev pub zh_forms : List (Text × Text)
zh_forms =
    (codes "general", codes "基本信息")
    ∷ (codes "listen", codes "监听")
    ∷ (codes "forwardTarget", codes "转发目标")
    ∷ (codes "ruleNameRequired", codes "规则名称为必填项。")
    ∷ (codes "ruleNameSlash", codes "名称不能包含“/”。")
    ∷ (codes "ruleNameTaken", codes "已有同名规则。")
    ∷ (codes "listenAddressTaken", codes "已被规则“{name}”使用。")
    ∷ (codes "listenAddressWebUI", codes "已被网页界面使用。")
    ∷ (codes "usernameColon", codes "用户名不能包含“:”。")
    ∷ (codes "passwordNeedsUsername", codes "请为该密码设置用户名。")
    ∷ (codes "hopUrlEmpty", codes "请输入代理地址。")
    ∷ (codes "hopUrlNoScheme", codes "请包含协议（例如 socks5://host:1080）。")
    ∷ (codes "ruleNotFound", codes "未找到规则“{name}”。")
    ∷ (codes "breadcrumb", codes "面包屑导航")
    ∷ (codes "chain", codes "链路")
    ∷ (codes "urlNumber", codes "URL {number}")
    ∷ (codes "actions", codes "操作")
    ∷ (codes "search", codes "搜索")
    ∷ (codes "confirm", codes "确认")
    ∷ (codes "close", codes "关闭")
    ∷ (codes "dismiss", codes "关闭")
    ∷ (codes "discard", codes "放弃")
    ∷ (codes "stay", codes "留在本页")
    ∷ (codes "leavePage", codes "离开页面")
    ∷ (codes "notifications", codes "通知")
    ∷ (codes "errorTitle", codes "错误")
    ∷ (codes "warningTitle", codes "警告")
    ∷ []

abbrev pub zh_settings : List (Text × Text)
zh_settings =
    (codes "confirmReload", codes "从磁盘重新加载并放弃未保存的更改？")
    ∷ (codes "saveUncertain", codes "请求未完成，改动可能已应用，也可能未应用。")
    ∷ (codes "movedMaybe", codes "如果已应用，网页配置现位于")
    ∷ (codes "movedUnconfirmed", codes "已保存，但无法确认网页配置正在运行。")
    ∷ (codes "movedUnconfirmedAt", codes "未确认：")
    ∷ []

unfoldable pub zh : List (Text × Text)
zh =
    zh_rules ++ zh_shell ++ zh_pages ++ zh_statistics ++ zh_concepts ++ zh_overview ++ zh_forms
    ++ zh_settings
