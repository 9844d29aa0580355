-- ===== src/Storage/Pg/Sql.antt =====
-- What the program uses of `pgxpool`, `pgx` and `goose`. The world is the database server and the
-- connections to it, with the context of the call.
use go_advanced.Base.{ℕ, String, Bool, Option, List}
use go_advanced.Entities.Errors.{Error, Result}

-- an argument of a query: a text, or the bits of a number
pub data Arg : Type 0 where
  text : String → Arg
  number : ℕ → Arg

-- `rows`: what each `Next` and `Scan` gives, and `Err()` after the last
pub record Rows : Type 0 where
  pub rows : List (Result (String × ℕ))
  pub rows_err : Option Error

pub record Database : Type 1 where
  pub World : Type 0
  -- an open transaction
  pub Tx : Type 0
  -- `ctx.Err()`, once the context is done
  pub ctx_err : World → Option Error
  pub begin : World → Result Tx × World
  -- `QueryRow` and `Scan` of a number, and `Query`
  pub query_row : String → List Arg → Tx → Result ℕ × Tx
  pub query : String → Tx → Result Rows × Tx
  pub commit : Tx → World → Option Error × World
  pub rollback : Tx → World → World
  -- `pgerrcode.IsConnectionException(code)`
  pub is_connection_exception : String → Bool
  pub ping_pool : World → Option Error × World
  pub close_pool : World → World
  -- `pgxpool.New`, `goose.OpenDBWithDriver`, `goose.RunContext`
  pub connect : String → World → Option Error × World
  pub open_db : String → World → Option Error × World
  pub run_migrations : World → Option Error × World
