-- ===== src/Driver/Extras.antt =====
-- driver.go: the optional methods of a connection and of a statement that the middleware hands on to
-- the driver. None of them touches the session.
use go_txnproof.Prelude.{Bool, true, Option, none, some}
use go_txnproof.Report.{Context}
use go_txnproof.Driver.{DriverError, NamedValue, WrappedConn, err_skip}

-- `driver.NamedValueChecker`, which may change the value it is given.
pub record NamedValueChecker (D : Type 0) : Type 0 where
  pub check_value : NamedValue → D → (Option DriverError × NamedValue) × D

-- `driver.Pinger`, `driver.SessionResetter`, `driver.Validator` and `driver.NamedValueChecker`, as far
-- as a connection has them.
pub record ConnExtras (D : Type 0) : Type 0 where
  pub pinger : Option (Context → D → Option DriverError × D)
  pub resetter : Option (Context → D → Option DriverError × D)
  pub validator : Option (D → Bool × D)
  pub checker : Option (NamedValueChecker D)

-- A method of a context that gives an error, on the state of the driver.
unfoldable pub handed_on :
    {S D : Type 0}
    → Option (Context → D → Option DriverError × D)
    → Context
    → WrappedConn S D
    → Option DriverError × WrappedConn S D
handed_on none ctx c = (none, c)
handed_on (some method) ctx c = let (err, d) = method ctx c.drv in (err, record c { drv = d })

-- `CheckNamedValue` of a checker, or `driver.ErrSkip`.
unfoldable pub check_by :
    {S D : Type 0}
    → Option (NamedValueChecker D)
    → NamedValue
    → WrappedConn S D
    → (Option DriverError × NamedValue) × WrappedConn S D
check_by none nv c = ((some err_skip, nv), c)
check_by (some nvc) nv c = let (out, d) = nvc.check_value nv c.drv in (out, record c { drv = d })

-- The checker that a statement asks: its own, or else that of its connection.
unfoldable pub stmt_checker :
    {D : Type 0} → Option (NamedValueChecker D) → ConnExtras D → Option (NamedValueChecker D)
stmt_checker none conn = conn.checker
stmt_checker (some nvc) conn = some nvc

module _ {S D : Type 0} (conn : ConnExtras D) where
  -- `Ping`
  unfoldable pub ping : Context → WrappedConn S D → Option DriverError × WrappedConn S D
  ping ctx c = handed_on conn.pinger ctx c

  -- `ResetSession`
  unfoldable pub reset_session : Context → WrappedConn S D → Option DriverError × WrappedConn S D
  reset_session ctx c = handed_on conn.resetter ctx c

  -- `IsValid`
  unfoldable pub is_valid : WrappedConn S D → Bool × WrappedConn S D
  is_valid c = elim conn.validator [
    | none ↦ (true, c)
    | some method ↦ let (ok, d) = method c.drv in (ok, record c { drv = d })
  ]

  -- `CheckNamedValue` of a connection
  unfoldable pub check_named_value :
      NamedValue → WrappedConn S D → (Option DriverError × NamedValue) × WrappedConn S D
  check_named_value nv c = check_by conn.checker nv c

  -- `CheckNamedValue` of a statement
  unfoldable pub stmt_check_named_value :
      Option (NamedValueChecker D)
      → NamedValue
      → WrappedConn S D
      → (Option DriverError × NamedValue) × WrappedConn S D
  stmt_check_named_value own nv c = check_by (stmt_checker own conn) nv c
