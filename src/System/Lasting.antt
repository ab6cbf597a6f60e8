-- ===== src/System/Lasting.antt =====
-- In every run of the service the tables only grow.
use ai_spec_driven_developme.Api.App.{App, Endpoint}
use ai_spec_driven_developme.Session.{Db}
use ai_spec_driven_developme.System.Grown.{Grown}
use ai_spec_driven_developme.System.{Reach, at_time}
use ai_spec_driven_developme.System.Growth.{writes_grow}
use ai_spec_driven_developme.System.Requests
use ai_spec_driven_developme.System.Accounts

-- In every run of the service, whatever is requested and whether it succeeds or fails, rows are
-- only added: the audit log of the end is that of the beginning with entries appended; of every
-- account the id, number and currency last, of every transfer all but its status, reason and
-- destination amount, of every notification all but its reading time; the snapshots of the rates
-- stay as they were; and no account number or idempotency key that one row at most had gets a
-- second row.
pub Reach-Grown :
    {app : App} {allowed : Endpoint → Type 0} {before after : Db}
    → Reach app allowed before after
    → Grown before after
Reach-Grown {app} {allowed} reach =
    Requests.run
      (λ utcnow db_now.
        let now = at_time app utcnow db_now in
        Accounts.operations now allowed (writes_grow now.engine))
      reach
