-- ===== src/App/Commands.antt =====
-- rdp_proxy/proxy.py: `_handle_telegram_command`. The words of a text, lower case and `int` are the record
-- `Words`; `int` is none where it raises, and 0 for a number below it.
pub mod Authority
use Prim.Native.Char.{code}
use rdp_on_demand_proxy_serv.Base.{
  ℕ, zero, suc, ◌+◌, ◌*◌, String, ◌<>◌, Bool, true, false, ◌||◌, Option, none, some, List, [], ◌∷◌,
  map, max, min, nat_eq, if◌then◌else◌, ◌==◌,
}
use rdp_on_demand_proxy_serv.Base.Sort.{sort_by}
use rdp_on_demand_proxy_serv.Verification.{
  Service, PendingLink, create_control_auth_token, create_action_links,
  list_pending_verification_links,
}
use rdp_on_demand_proxy_serv.Whitelist.File.Payload.{not_above}

pub record Words : Type 0 where
  pub split : String → List String
  pub lower : String → String
  pub int_of : String → Option ℕ

-- text.split("@", 1)[0]
unfoldable pub before_at : String → String
before_at String.[] = ""
before_at (String.◌∷◌ c s) =
    let rest = String.◌∷◌ c (before_at s) in if nat_eq (code c) b'@' then "" else rest

-- "\n".join(lines)
abbrev join_lines : List String → String
join_lines [] = ""
join_lines (l ∷ []) = l
join_lines (l ∷ m ∷ ls) = l <> "\n" <> join_lines (m ∷ ls)

-- The service, whether the command succeeded, and the answer.
pub record Answer : Type 0 where
  pub service : Service
  pub done : Bool
  pub detail : String

abbrev pub answer : Service → Bool → String → Answer
answer s done detail = record { service = s; done = done; detail = detail }

abbrev control_answer : String → Service × String → Answer
control_answer label (s, url) = answer s true (label <> url)

-- limit = max(1, min(5, int(parts[1])))
abbrev limit_of : Option ℕ → ℕ
limit_of none = 1
limit_of (some n) = max 1 (min 5 n)

abbrev pub limit_arg : Words → List String → ℕ
limit_arg w [] = 1
limit_arg w (arg ∷ args) = limit_of (w.int_of arg)

abbrev link_line : PendingLink → String
link_line l = "- " <> l.target <> " " <> l.client_ip <> ": " <> l.verify_url

abbrev pending_answer : Service × List PendingLink → Answer
pending_answer (s, []) = answer s false "当前没有待授权请求"
pending_answer (s, l ∷ ls) = answer s true (join_lines ("最近待授权链接:" ∷ map link_line (l ∷ ls)))

-- The links of each target in turn, with the names that `uuid4` gives.
unfoldable pub all_links : Service → ℕ → (ℕ → String) → ℕ → List String → Service × List String
all_links s now names i [] = (s, [])
all_links s now names i (target ∷ targets) =
    let made = create_action_links s now (names (2 * i)) (names (2 * i + 1)) target in
    let rest = all_links made.0 now names (i + 1) targets in
    (
      rest.0,
      ("- " <> target <> " keep: " <> made.1)
          ∷ ("- " <> target <> " shutdown: " <> made.2)
          ∷ rest.1,
    )

abbrev listed_links : Service × List String → Answer
listed_links (s, lines) = answer s true (join_lines ("动作链接（默认展示全部 target）:" ∷ lines))

abbrev is_target : List String → String → Bool
is_target [] name = false
is_target (t ∷ ts) name = t == name || is_target ts name

abbrev joined : List String → String
joined [] = ""
joined (t ∷ []) = t
joined (t ∷ u ∷ ts) = t <> ", " <> joined (u ∷ ts)

abbrev mode_answer : String → Service × String × String → Answer
mode_answer mode (s, keep, shutdown) =
    if mode == "keep" || mode == "keep_running"
    then answer s true ("保持开机链接: " <> keep)
    else if mode == "shutdown" || mode == "shutdown_on_idle" || mode == "stop"
    then answer s true ("关机策略链接: " <> shutdown)
    else answer s false "动作参数仅支持 keep 或 shutdown"

action_command : Words → Service → ℕ → (ℕ → String) → List String → List String → Answer
unfolding all_links sort_by
action_command w s now names targets (name ∷ mode ∷ args) =
    if is_target targets name
    then mode_answer (w.lower mode) (create_action_links s now (names 0) (names 1) name)
    else answer s false ("未知 target: " <> name <> ". 可选: " <> joined (sort_by not_above targets))
action_command w s now names targets (name ∷ []) =
    listed_links (all_links s now names 0 (sort_by not_above targets))
action_command w s now names targets [] =
    listed_links (all_links s now names 0 (sort_by not_above targets))

abbrev help : String
help =
    "可用命令:\n/control - 获取白名单管理页链接\n/quick_approve [n] - 获取最近待授权链接(默认1条)\n/approve [n] - 同 /quick-approve\n/blacklist - 获取控制页面进行黑名单操作\n/action [target] [keep|shutdown] - 生成一次性动作链接\n/whitelist - 获取白名单管理页链接"

command_answer : Words → Service → ℕ → (ℕ → String) → List String → String → List String → Answer
unfolding action_command
command_answer w s now names targets command args =
    if command == "/help" || command == "/start"
    then answer s true help
    else if command == "/control"
    then control_answer "管理页面（此链接有效期1小时）: " (create_control_auth_token s now (names 0))
    else if command == "/quick-approve" || command == "/quick_approve" || command == "/approve"
    then pending_answer (list_pending_verification_links s now (limit_arg w args))
    else if command == "/action"
    then action_command w s now names targets args
    else if command == "/blacklist"
    then control_answer "黑名单管理（此链接有效期1小时）: " (create_control_auth_token s now (names 0))
    else if command == "/whitelist"
    then control_answer "白名单管理页（此链接有效期1小时）: " (create_control_auth_token s now (names 0))
    else answer s false "未知命令，发送 /help 查看支持列表"

abbrev parts_answer : Words → Service → ℕ → (ℕ → String) → List String → List String → Answer
parts_answer w s now names targets [] = answer s false "empty command"
parts_answer w s now names targets (word ∷ args) =
    command_answer w s now names targets (before_at (w.lower word)) args

-- The targets' names are given. `split` takes a text without its outer space.
unfoldable pub handle_telegram_command :
    Words → Service → ℕ → (ℕ → String) → List String → String → Answer
unfolding command_answer before_at
handle_telegram_command w s now names targets text =
    parts_answer w s now names targets (w.split text)
