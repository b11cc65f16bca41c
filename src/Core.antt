-- ===== src/Core.antt =====
-- core/result.go
-- The result of a process: ResultUnknown, ResultSucceeded, ResultDenied, ResultFailed.
pub data Result : Type 0 where
  result_unknown result_succeeded result_denied result_failed : Result
