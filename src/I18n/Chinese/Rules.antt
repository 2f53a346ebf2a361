-- ===== src/I18n/Chinese/Rules.antt =====
-- app/web/ui/src/lib/i18n/zh.ts: the first section, most of it on rules.
use jumpway.Prelude.{List, [], ◌∷◌, Text, codes}

abbrev pub zh_rules : List (Text × Text)
zh_rules =
    (codes "appName", codes "JumpWay")
    ∷ (codes "checking", codes "状态未知")
    ∷ (codes "running", codes "运行中")
    ∷ (codes "stopped", codes "已停止")
    ∷ (codes "retrying", codes "重试中 ({attempt})")
    ∷ (codes "remote", codes "远端")
    ∷ (codes "forward", codes "转发")
    ∷ (codes "reload", codes "从磁盘重新加载")
    ∷ (codes "saveApply", codes "保存并应用")
    ∷ (codes "unsaved", codes "未保存的修改")
    ∷ (codes "discardChanges", codes "放弃未保存的修改吗？")
    ∷ (codes "yaml", codes "高级 YAML")
    ∷ (codes "settings", codes "设置")
    ∷ (codes "webUI", codes "网页配置")
    ∷ (codes "webUIHint", codes "本页面和 REST API 的地址。此处应使用本机地址。")
    ∷ (codes "host", codes "主机")
    ∷ (codes "port", codes "端口")
    ∷ (codes "invalidPort", codes "端口必须是 0 到 65535 之间的整数。")
    ∷ (codes "invalidForwardPort", codes "端口必须是 1 到 65535 之间的整数。")
    ∷ (codes "virtual", codes "虚拟")
    ∷ (codes "endpointKind", codes "类型")
    ∷ (codes "virtualChannel", codes "通道")
    ∷ (codes "invalidVirtualChannel", codes "通道为必填项，且不能包含空格或“/”。")
    ∷ (codes "virtualSelfLoop", codes "规则不能转发到自己监听的通道。")
    ∷ (codes "virtualIncoming", codes "入口规则")
    ∷ (codes "virtualOutgoing", codes "出口规则")
    ∷ (codes "virtualNoListener", codes "没有已启用的规则监听此通道。")
    ∷ (codes "rule", codes "规则名称")
    ∷ (codes "enabled", codes "启用")
    ∷ (codes "entry", codes "入口")
    ∷ (codes "exit", codes "出口")
    ∷ (codes "mode", codes "模式")
    ∷ (codes "proxy", codes "代理")
    ∷ (codes "portForward", codes "端口转发")
    ∷ (codes "targetHost", codes "目标主机")
    ∷ (codes "targetPort", codes "目标端口")
    ∷ (codes "onExitNode", codes "位于出口节点")
    ∷ (codes "listenThrough", codes "经由监听")
    ∷ (codes "exitChain", codes "出口链路")
    ∷ (codes "username", codes "用户名")
    ∷ (codes "password", codes "密码")
    ∷ (codes "credentialsHint", codes "HTTP Basic / SOCKS5 客户端的可选认证信息。用户名不能包含冒号（:）。")
    ∷ (codes "credentialsProxyOnly", codes "凭据仅用于代理规则")
    ∷ (codes "protocols", codes "协议")
    ∷ (codes "customCredentials", codes "单独凭据")
    ∷ (codes "protocolRequired", codes "至少选择一种协议。")
    ∷ (codes "cipher", codes "加密方式")
    ∷ (codes "cipherRequired", codes "Shadowsocks 需要加密方式。")
    ∷ (codes "passwordRequired", codes "Shadowsocks 需要密码。")
    ∷ (
      codes "listenThroughHint",
      codes
          "留空时在本机打开端口；否则由第一个节点在其所在机器上绑定主机和端口（SSH 远程端口转发；远端 sshd 默认仅绑定回环地址，启用 GatewayPorts 后才能绑定其他地址），最后一个节点由本机直接连接。只有 ssh://、cmd: 和 nc 节点支持监听。",
    )
    ∷ (codes "deleteRule", codes "删除")
    ∷ (codes "duplicateRule", codes "复制规则")
    ∷ (codes "confirmDeleteRule", codes "删除规则“{name}”吗？")
    ∷ (codes "deleted", codes "已删除规则。")
    ∷ (codes "newRule", codes "新建规则")
    ∷ (codes "noRules", codes "尚无规则。")
    ∷ (codes "direct", codes "直连")
    ∷ (codes "stats", codes "统计")
    ∷ (codes "hosts", codes "主机")
    ∷ (codes "traffic", codes "流量")
    ∷ (codes "nowShort", codes "当前")
    ∷ (codes "peak", codes "峰值")
    ∷ (codes "peakUpperBound", codes "各端点峰值之和（上界）")
    ∷ (codes "lastShort", codes "最后")
    ∷ (codes "ago", codes "{time}前")
    ∷ (codes "connections", codes "连接")
    ∷ (codes "connectionsTotals", codes "当前 / 累计")
    ∷ (codes "latency", codes "延迟")
    ∷ (codes "latencyTotals", codes "最近 / 平均")
    ∷ (codes "dialFailures", codes "失败")
    ∷ (codes "dialsTotals", codes "失败 / 尝试")
    ∷ (codes "dialAttempts", codes "次连接尝试")
    ∷ (codes "viaHop", codes "上一级：{parent}")
    ∷ (codes "state", codes "状态")
    ∷ (codes "address", codes "地址")
    ∷ (codes "usedBy", codes "使用规则")
    ∷ (codes "endpoints", codes "端点")
    ∷ (codes "expand", codes "展开")
    ∷ (codes "collapse", codes "收起")
    ∷ (codes "aboutConcept", codes "{concept}说明")
    ∷ (codes "noHosts", codes "暂无代理主机，规则均未配置监听或转发跳板。")
    ∷ (codes "ruleLabel", codes "规则")
    ∷ (codes "clients", codes "客户端")
    ∷ (codes "path", codes "路径")
    ∷ (codes "thisMachine", codes "本机")
    ∷ (codes "directStage", codes "直连")
    ∷ (codes "reused", codes "复用连接")
    ∷ (codes "allRules", codes "全部规则")
    ∷ (codes "connectionCount", codes "{count} 条连接")
    ∷ (codes "filteredConnections", codes "{count} / {total} 条连接")
    ∷ (codes "targets", codes "目标")
    ∷ (codes "targetCount", codes "{count} 个不同目标")
    ∷ (codes "noTargets", codes "尚无连接记录")
    ∷ (codes "targetsEvicted", codes "另有 {count} 个较早的目标已从列表中移除")
    ∷ (codes "showingTargets", codes "显示 {shown} / {total} 个目标")
    ∷ (codes "viaEndpoint", codes "经由 {endpoint}")
    ∷ (codes "client", codes "客户端")
    ∷ (codes "target", codes "目标")
    ∷ (codes "duration", codes "持续时间")
    ∷ (codes "totalShort", codes "累计")
    ∷ (codes "disconnect", codes "断开")
    ∷ (codes "disconnected", codes "已断开连接。")
    ∷ (codes "noConnections", codes "当前没有连接")
    ∷ (codes "showingConnections", codes "显示 {total} 个连接中的 {shown} 个")
    ∷ (codes "showMoreConnections", codes "再显示 {count} 个")
    ∷ (codes "statsSince", codes "统计起始：{time}")
    ∷ (codes "resetStats", codes "重置统计")
    ∷ (codes "resetStatsConfirm", codes "重置所有规则的统计吗？")
    ∷ (codes "statsReset", codes "已重置统计。")
    ∷ (codes "prometheus", codes "Prometheus 指标")
    ∷ (codes "hop", codes "跳板节点 {number}")
    ∷ (codes "hopExit", codes "出口节点")
    ∷ (codes "hopEntry", codes "入口节点")
    ∷ (codes "hopBinds", codes "绑定端口")
    ∷ (codes "hopDialed", codes "由本机连接")
    ∷ (codes "hopsHint", codes "节点 1 是出口节点，最后一个节点由本机连接。留空时由本机直接连接目标。")
    ∷ (codes "chainLocal", codes "本机")
    ∷ (codes "chainTarget", codes "目标")
    ∷ (codes "up", codes "上移")
    ∷ (codes "down", codes "下移")
    ∷ (codes "deleteHop", codes "删除节点")
    ∷ (codes "addHop", codes "添加跳板节点")
    ∷ (codes "proxyURL", codes "代理 URL")
    ∷ (codes "remove", codes "移除")
    ∷ (codes "addURL", codes "添加 URL")
    ∷ (codes "build", codes "拼装…")
    ∷ (codes "builderTitle", codes "拼装代理 URL")
    ∷ (codes "protocol", codes "协议")
    ∷ (codes "useURL", codes "使用此 URL")
    ∷ (codes "cancel", codes "取消")
    ∷ (codes "optional", codes "（可选）")
    ∷ (codes "preview", codes "预览")
    ∷ (codes "builderHint", codes "主机和数字端口为必填项。")
    ∷ (codes "builderShadowsocksHint", codes "主机、数字端口、加密方式和密码为必填项。")
    ∷ (codes "builderCommandHint", codes "命令为必填项。")
    ∷ (codes "builderLoading", codes "正在加载协议...")
    ∷ (codes "builderLoadFailed", codes "无法加载协议，请关闭对话框后重试。")
    ∷ (codes "field.username", codes "用户名")
    ∷ (codes "field.password", codes "密码")
    ∷ (codes "field.host", codes "主机")
    ∷ (codes "field.port", codes "端口")
    ∷ (codes "field.identity", codes "私钥文件")
    ∷ (codes "field.encrypto", codes "加密方式")
    ∷ (codes "field.command", codes "命令")
    ∷ (codes "field.commandPrefix", codes "执行前缀")
    ∷ (codes "noProxy", codes "不走代理")
    ∷ (codes "hostsCIDRs", codes "主机 / CIDR")
    ∷ (codes "fromEnv", codes "从环境变量读取")
    ∷ (codes "fromFiles", codes "从文件或 URL 读取")
    ∷ (codes "listHint", codes "不走代理的主机、域名或 CIDR，每行一项。")
    ∷ (codes "envHint", codes "每行一个环境变量名；变量值为逗号分隔的不走代理列表。")
    ∷ (codes "filesHint", codes "每行一个文件路径或 URL；每个来源的内容为每行一项的不走代理列表。")
    ∷ (codes "yamlSource", codes "YAML 配置")
    ∷ (codes "resources", codes "相关链接")
    ∷ (codes "apiDocs", codes "API 文档")
    ∷ (codes "pprof", codes "pprof")
    ∷ (codes "github", codes "GitHub")
    ∷ (codes "loading", codes "正在加载...")
    ∷ (codes "saving", codes "正在保存并应用...")
    ∷ (codes "saved", codes "已保存并应用。")
    ∷ (codes "reloaded", codes "已从磁盘重新加载。")
    ∷ (codes "retry", codes "重试")
    ∷ (codes "movedTo", codes "网页配置已移至")
    ∷ (codes "movedUnknown", codes "已保存。监听地址已改变，请打开托盘状态栏显示的新地址。")
    ∷ (codes "unreachable", codes "无法连接到 JumpWay。")
    ∷ (
      codes "recoveryHint",
      codes "网页配置可能已停止。请通过托盘菜单的“编辑配置”检查 ~/.jumpway/config.yaml，再点击“重新加载配置”重新启动。",
    )
    ∷ (codes "requestFailed", codes "请求未能完成。")
    ∷ (codes "invalidResponse", codes "JumpWay 返回了无法读取的响应，请尝试从磁盘重新加载。")
    ∷ []
