-- ===== src/I18n/Chinese/Concepts.antt =====
-- app/web/ui/src/lib/i18n/zh.ts: what the circled question marks say.
use jumpway.Prelude.{List, [], ◌∷◌, Text, codes}

abbrev pub zh_concepts : List (Text × Text)
zh_concepts =
    (codes "help.now", codes "当前：最近一个完整的 1 秒窗口内的每秒字节数。")
    ∷ (
      codes "help.nowTrend",
      codes "当前：最近一个完整的 1 秒窗口内的每秒字节数。数值旁有空间时，折线为页面打开期间最近约一分钟的采样，重置统计或暂停后重新开始。",
    )
    ∷ (codes "help.peak", codes "峰值：自上次重置统计以来观察到的最高 1 秒速率。")
    ∷ (codes "help.peakSum", codes "峰值（合计）：各端点峰值相加所得，只是一个上界，因为它们未必同时出现。")
    ∷ (codes "help.total", codes "累计：自上次重置统计以来传输的字节数。")
    ∷ (codes "help.last", codes "最后：该方向最近一次传输数据的时间，悬停数值可查看精确时间；“—”表示尚无数据。")
    ∷ (
      codes "help.connections",
      codes
          "连接：仍然打开的 / 累计打开的连接数，均只统计自上次重置以来新建的连接——重置时已打开的连接仍会列出，但不计入。位于 SSH 节点之后的节点统计的是传输通道数，而非客户端连接数。",
    )
    ∷ (codes "help.latency", codes "延迟：最近一次成功建连所用时间 / 所有成功建连的平均值。这是建立连接的耗时，不是 ping。")
    ∷ (
      codes "help.latencyAggregate",
      codes "延迟：最近有活动（传输数据也算活动，未必是最近一次建连）的端点最后一次建连所用时间 / 所有端点按成功建连次数加权的平均值。这是建立连接的耗时，不是 ping。",
    )
    ∷ (codes "help.failures", codes "失败：未能建连的尝试次数 / 自上次重置以来的全部建连尝试次数。")
    ∷ (codes "help.targetsEvicted", codes "目标：每条规则最多记住 1000 个目标；超出时先移除最久未活动的空闲目标，其流量仍计入规则合计。")
    ∷ (codes "help.upload", codes "上传 — 从客户端发往目标方向。")
    ∷ (codes "help.download", codes "下载 — 从目标返回客户端方向。")
    ∷ (codes "help.page.stats", codes "每条规则一项，显示其监听端的计数。展开规则可查看链路：每个节点和代理 URL 各自的计数，以及目标。")
    ∷ (codes "help.page.hosts", codes "监听或出口链路中出现的每台跳板主机，汇总其所有 URL 和规则。峰值合计为上界；平均延迟按成功建连次数加权。")
    ∷ (codes "help.page.connections", codes "当前打开的连接，每条对应一个客户端连接，显示所用规则和实际路径；最多列出 200 条。")
    ∷ (codes "help.kpi.rules", codes "监听正在运行的规则数；其余规则为重试中（监听失败、仍在尝试）、已停止、已禁用，状态尚未加载时显示为状态未知。")
    ∷ (codes "help.kpi.active", codes "所有规则中自上次重置以来新建且仍然打开的连接数，以及自那以来累计打开的连接数。")
    ∷ (
      codes "help.kpi.rate",
      codes "所有规则在最近一个完整秒内的每秒字节数：↑ 上传为客户端发往目标方向，↓ 下载为返回方向。数值旁有空间时，折线为页面打开期间最近约一分钟的采样，重置统计或暂停后重新开始。",
    )
    ∷ (codes "help.kpi.total", codes "自上次重置统计以来所有规则传输的字节数：↑ 上传，↓ 下载。")
    ∷ (codes "help.state", codes "状态：规则的监听是否正在运行。重试中：监听尚未启动成功，括号内为连续失败次数，仍在继续尝试。")
    ∷ (
      codes "help.mode",
      codes "模式：代理规则为 HTTP、SOCKS4、SOCKS5 和 SSH 客户端服务，由客户端自行选择目标；端口转发规则把每条连接都转发到同一个目标。",
    )
    ∷ (codes "help.listen", codes "监听：客户端连接的主机和端口。配置了经由监听链路时，由第一个节点在其所在机器上绑定。")
    ∷ (codes "help.target", codes "目标：端口转发规则把每条连接转发到的主机和端口，从出口节点连接。")
    ∷ (codes "help.exitChain", codes "出口链路：出站时由本机连接的代理。节点 1 是紧邻目标的出口节点，最后一个节点最先被连接；留空表示直连。")
    ∷ (codes "help.endpoints", codes "端点：这台主机上不同的代理 URL（scheme://host:port），涵盖所有规则和节点。")
    ∷ (codes "help.path", codes "路径：此连接实际经过的路线，从本机依次经过各代理 URL 到达目标；“复用连接”表示该节点通过已有的传输通道到达。")
    ∷ []
