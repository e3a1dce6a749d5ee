-- ===== src/Http/Failure.antt =====
-- The exceptions by which the methods of the HTTP executor end.
use nighwatch.Common.{String}
use nighwatch.Python.Runtime.{Runtime}
use nighwatch.Gateway.{GatewayDecision}

pub data HttpFailure (R : Runtime) : Type 0 where
  config_error : String → HttpFailure R
  executor_error : String → HttpFailure R
  blocked : GatewayDecision R → HttpFailure R
  -- a `ValueError` of a library, or an exception that the executor does not catch
  uncaught : String → HttpFailure R
