-- ===== src/Lib.antt =====
-- A model of the RDP on-demand proxy, with the theorems that make it correct.
--
-- The program listens on one port for each target machine. A client is checked against a rate, the
-- first bytes of RDP and a whitelist; the operator then approves the connection by following a
-- one-time link; the cloud instance is started; and the stream is forwarded, one session for each
-- target. When the last session has ended the operator is offered to stop the idle instance.
--
-- Parts and files, each with the code that it is about:
--   Base: helpers; Base/Dict is Python's dict, Base/Sort its stable sort, Base/Text `in` and `lower`
--     on the codes of a text, Base/Count the number of entries that satisfy a test.
--   Verification, Verification/Links: rdp_proxy/verification.py, `VerificationService`. The state is
--     the record `Service`: the three token tables, and the events under their tokens. Each method
--     is a function of the same name on it; GET /verify and GET /action are `handle_verify` and
--     `handle_action`. `run` is any sequence of requests, each with its time.
--   Cloud, Cloud/Retry, Cloud/Ensure, Cloud/Idle: rdp_proxy/proxy.py, `_execute_cloud_action_with_retry`,
--     `_ensure_instance_running`, `_idle_shutdown_loop`, and rdp_proxy/cloud/base.py. The provider,
--     the clock and `time.sleep` are the record `World`, a parameter; a call that raises is a value
--     of `Outcome`. A run of the retry loop leaves a trace of its checks, calls, waits and notices.
--     Cloud/Idle/History is the idle loop among connections and choices, with a log of them; a turn is one step,
--     so what connects during its calls to the provider comes after it.
--   Cloud/SelfCheck: rdp_proxy/app.py, `_run_cloud_action_with_retry_for_self_check`.
--   Proxy: rdp_proxy/proxy.py, the state of a `TargetProxy` and the methods that change it under its
--     state lock; Proxy/Pending is about the pool of waiting connections, Proxy/Rate about the rate of an
--     address, Proxy/Recent about the tables of recent approvals and disconnects.
--   Proxy/Session: rdp_proxy/proxy.py, `_handle_connection` and its waiting loops. The thread's local
--     variables are the record `Conn`, its place in the code is a `Stage`. `advance` makes one
--     step: a section under a lock, one round of a loop, or one call of another component. `Input`
--     holds what the outside gives to the step: the time, a look at the client's socket, the answers of
--     the whitelist and the cloud, fresh names, and whether the call of the step raises.
--   Proxy/Threads: all threads of a target, the requests to the verification service, and new
--     clients, as a sequence of events in any order.
--   Whitelist: rdp_proxy/whitelist.py, the operations of `WhitelistStore` on its entries and
--     rejections, and what they save, where the store's `writable` says that a write does not raise.
--     Addresses, digests and encryption are the record `Codec`, a parameter, which Whitelist/Cipher
--     instantiates: the key stream, exclusive or and base64 are written out over bytes, and SHA-256,
--     UTF-8 and the reading of an address are left as the record `Machine`. Whitelist/File is the JSON
--     document, read and written; Whitelist/Storage says when a process reads its file or secret.
--   Verification/Forms: rdp_proxy/verification.py, POST and the whitelist page, over the callbacks that the
--     service is given.
--   App: rdp_proxy/proxy.py, `RDPProxyApp`: the callbacks over the whitelist store, and the commands of the
--     chat over the verification service.
--   ControlCenter: rdp_proxy/control_center.py, `ControlCenterService`, which the program does not import. A
--     request is found under its id, and the history is a list of ids. ControlCenter/Requests is the life of a
--     request, ControlCenter/Web the web server and its page.
--   Notifications: rdp_proxy/notifications.py, `Notifier`: which channels a notification takes, and the tables of
--     Telegram messages that are to be deleted. Notifications/Life is any order of the threads that send,
--     record and delete verification messages and of the answers to links; Notifications/Inbound is
--     the polling of the chat, over handlers that are given and may raise.
--
-- How the parts interact: a connection's thread makes a link in the service and waits for its event,
-- which a request to the service sets; the tables of the proxy are shared by all its threads; the idle
-- loop reads the count that the threads keep.
--
-- Choices. Times are natural numbers of milliseconds. A step reads the clock once. `uuid4` gives
-- names as inputs; where it matters they are hypotheses to be new. The retry loop's bound is its own
-- count of four rounds. The polling loop runs on fuel, and one unit for each second of the startup
-- timeout and one more is enough if the poll interval is not 0, since each turn sleeps at least a
-- second. A journey or a run of threads is a finite sequence of steps of any length. The settings' texts
-- are decoded before the model begins, and the base address has no slash at its end.
--
-- Not modelled: the texts of the notifications and the look-up of an address's place, the
-- configuration file, the command line and the port checks; the HTML of the pages; log and audit
-- lines; the bytes of a forwarded stream, of which only the end and the count are inputs; sockets
-- beyond their identity; the SDKs of the cloud providers and the servers of the messages, which are
-- taken not to raise where the code does not expect it. An exception may end any step of a
-- connection's `try` block, before its effect.
pub mod App
pub mod Base
pub mod Cloud
pub mod ControlCenter
pub mod Notifications
pub mod Proxy
pub mod Verification
pub mod Whitelist
