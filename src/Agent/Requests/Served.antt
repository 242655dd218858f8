-- ===== src/Agent/Requests/Served.antt =====
-- The agent thread of src/side.c sees to the pending requests in finitely many steps.
use libside.Common.{ℕ, zero, suc, ◌≡◌, false}
use libside.Agent.{Word, asleep, AgentThread, statedump_agent_func}

-- `n` steps of the agent thread alone.
unfoldable pub run : ℕ → AgentThread → AgentThread
run zero s = s
run (suc n) s = run n (statedump_agent_func s)

Soon : AgentThread → Type 0
Soon s = (n : ℕ) × ((run n s).worker ≡ asleep)

-- No bit of the word but that of a request is set.
record Quiet (w : Word) : Type 0 where
  exits : w.exit ≡ false
  pauses : w.pause ≡ false
  acked : w.pause_ack ≡ false
