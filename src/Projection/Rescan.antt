-- ===== src/Projection/Rescan.antt =====
-- Scanning a range again changes nothing.
use clearbook.Prelude.{◌≡◌, refl}
use clearbook.Text.{Text}
use clearbook.Async.{resolved}
use clearbook.Ranges.{Span}
use clearbook.Projection.Upsert.{upsert_all_idem}
use clearbook.Projection.{
  FactRecord, BreachRecord, ReadModel, RangeLogs, Feed, each_parsed, fact_entry, bound_entry,
  breach_record, project, scan_range,
}

project_idem :
    (logs : RangeLogs) (model : ReadModel) → project logs (project logs model) ≡ project logs model
unfolding project
project_idem logs model = cc (
  upsert_all_idem (λ (p : Text × FactRecord). p.0) (each_parsed fact_entry logs.fact_logs)
      model.facts,
  upsert_all_idem (λ (p : Text × Text). p.0) (each_parsed bound_entry logs.bound_logs)
      model.bound_treasuries,
  upsert_all_idem (λ (b : BreachRecord). b.loan_id)
      (each_parsed (breach_record logs.bounty_logs) logs.breach_logs) model.breaches,
)

-- Where the queries of a range are answered, scanning the range returns, and scanning it again with the
-- same answers returns and leaves the model as it is, whatever was in it before the first scan.
pub scan_range_idem :
    (feed : Feed) (span : Span) (logs : RangeLogs) (model : ReadModel)
    → feed.range_logs span ≡ resolved logs
    → ((scan_range feed span model).0 ≡ resolved tt)
      × (scan_range feed span (scan_range feed span model).1
          ≡ (resolved tt, (scan_range feed span model).1))
unfolding scan_range
scan_range_idem feed span logs model e = rw (e, project_idem logs model) (refl, refl)
