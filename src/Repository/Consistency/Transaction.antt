-- ===== src/Repository/Consistency/Transaction.antt =====
-- applyEvent succeeds on consistent tables and keeps them consistent.
use shaker.Prelude.{◌==◌ as nat_eq}
use shaker.Go.Float.{Float}
use shaker.Go.Time.{Time}
use shaker.Earthquake.Event.{Event}
use shaker.Repository.Tables.{Tables}
