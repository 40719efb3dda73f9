-- ===== src/Retry.antt =====
-- runner/retry.ts: which confirmation path a kind of check uses.
use synthwatch.Prelude.{Bool, true, false}
use synthwatch.Types.{Kind, http, browser, ssl, dns, tcp, ping, multistep}

-- `confirmByRerunEligible`, an allowlist.
unfoldable pub confirm_by_rerun_eligible : Kind → Bool
confirm_by_rerun_eligible browser = true
confirm_by_rerun_eligible multistep = true
confirm_by_rerun_eligible http = true
confirm_by_rerun_eligible ssl = true
confirm_by_rerun_eligible dns = true
confirm_by_rerun_eligible tcp = true
confirm_by_rerun_eligible ping = true

-- `usesDedicatedExecution`
unfoldable pub uses_dedicated_execution : Kind → Bool
uses_dedicated_execution browser = true
uses_dedicated_execution multistep = true
uses_dedicated_execution _ = false
