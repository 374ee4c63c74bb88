-- ===== src/Webhooks/Dispatcher/Attempts.antt =====
-- How the retry loop of the dispatcher ends.
use comos_pay_community_serv.Platform.{Platform}
