-- ===== src/System.antt =====
-- The service over time: the tables that a start-up and requests, one after another, lead to
-- (src/fund_transfer/main.py). A condition on the requests is a parameter.
pub mod Readings
pub mod Requests
pub mod Failures
pub mod Writes
pub mod Accounts
pub mod Grown
pub mod Growth
pub mod Operations
pub mod Lasting
pub mod Replays
pub mod Sides
pub mod Nonneg
pub mod Rates
pub mod Sound
pub mod Balances
pub mod AtRest
pub mod Snapshots
pub mod Bounds
use ai_spec_driven_developme.Prelude.{ℕ}
use ai_spec_driven_developme.Session.{Db}
use ai_spec_driven_developme.Api.App.{App, Endpoint, HttpRequest, handle, new_session}
use ai_spec_driven_developme.Api.Startup.{seed_currency_pairs}

-- The application when a start or a request runs.
abbrev pub at_time : App → (utcnow db_now : ℕ) → App
at_time app utcnow db_now = record app {
  engine = record app.engine { utcnow = utcnow; db_now = db_now };
}

-- One start or one request, at any time, that returns or fails, on a session of its own.
pub data Step (app : App) (allowed : Endpoint → Type 0) (db : Db) : Db → Type 0 where
  starts :
      (draws utcnow db_now : ℕ)
      → Step app allowed db
          (seed_currency_pairs (at_time app utcnow db_now).engine (new_session db draws)).1.db
  serves :
      (request : HttpRequest) (draws utcnow db_now : ℕ)
      → allowed request.endpoint
      → Step app allowed db (handle (at_time app utcnow db_now) request (new_session db draws)).1.db

pub data Reach (app : App) (allowed : Endpoint → Type 0) (before : Db) : Db → Type 0 where
  start : Reach app allowed before before
  later :
      {db after : Db}
      → Reach app allowed before db
      → Step app allowed db after
      → Reach app allowed before after
