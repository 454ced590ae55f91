-- ===== src/Store/Traced/Laws.antt =====
-- What the tracing changes of a query, and what it records.
use tdiscuss.Base.{◌≡◌, ◌≢◌, ap, String}
use tdiscuss.Store.Tables.{Answer, row, no_rows, db_error, Query}
use tdiscuss.Store.Traced.{Traced, trace, wrapped}

module _ {A : Type 0} where
  wrapped-ne : (a : Answer A) → wrapped a ≢ no_rows
  wrapped-ne (row a) e = cc
  wrapped-ne no_rows e = cc
  wrapped-ne db_error e = cc

  -- The callers of a traced query never see `pgx.ErrNoRows`: where the query finds no row they are
  -- given another error.
  pub trace-no_rows :
      (name : String) (q : Query A) (t : Traced)
      → ((trace name q t).0 ≢ no_rows) × ((q t.db).0 ≡ no_rows → (trace name q t).0 ≡ db_error)
  unfolding trace
  trace-no_rows name q t = (wrapped-ne (q t.db).0, λ e. ap wrapped e)
