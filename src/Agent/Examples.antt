-- ===== src/Agent/Examples.antt =====
-- A process with one handle for the agent thread of src/side.c, which forks.
use libside.Common.{◌≡◌, ◌≢◌, ◌⊎◌, refl, [], arith}
use libside.Statedump.{agent_thread}
use libside.Agent.{
  AgentThread, absent, paused, forking, pausing, notification_register, before_fork,
  after_fork_parent, statedump_agent_func, agent, registered, pauses, acknowledged, initial, Reach,
  here, next, start, go, by_others,
}
use libside.Agent.Pause.Steps.{forking-paused}
use libside.Agent.Fork.{before_fork-after_fork_parent}
use libside.Agent.Requests.Pending.{asleep_lem}

abbrev one_handle : AgentThread
one_handle = notification_register 1 2 agent_thread initial

abbrev one_handle-Reach : Reach initial one_handle
one_handle-Reach = next here (registered 1 2 agent_thread (λ e. refl))

abbrev answered : AgentThread
answered = statedump_agent_func (statedump_agent_func (before_fork one_handle))

abbrev in_fork : AgentThread
in_fork = record answered { owner = forking }

in_fork-Reach : Reach initial in_fork
unfolding notification_register before_fork statedump_agent_func
in_fork-Reach =
    next (next (next (next one_handle-Reach (pauses refl)) agent) agent) (acknowledged refl refl)

forking-paused_example : (in_fork.worker ≡ absent) ⊎ (in_fork.worker ≡ paused)
forking-paused_example = forking-paused in_fork-Reach refl

in_fork-has_thread : in_fork.ref ≢ 0
unfolding notification_register before_fork statedump_agent_func
in_fork-has_thread e = omega (arith, e)

-- A second handle is registered between the forks.
before_fork-after_fork_parent_example :
    (statedump_agent_func
      (before_fork (notification_register 3 4 agent_thread (after_fork_parent in_fork)))).owner
    ≡ pausing
unfolding notification_register before_fork after_fork_parent statedump_agent_func by_others
before_fork-after_fork_parent_example =
    before_fork-after_fork_parent in_fork-Reach refl in_fork-has_thread
      (go start (registered 3 4 agent_thread (λ e. refl)) refl) refl (next here agent)

-- After the dump that follows a registration.
abbrev after_dump : AgentThread
after_dump = statedump_agent_func (
    statedump_agent_func (
      statedump_agent_func
        (statedump_agent_func (statedump_agent_func (statedump_agent_func one_handle)))))

after_dump-Reach : Reach initial after_dump
after_dump-Reach =
    next (next (next (next (next (next one_handle-Reach agent) agent) agent) agent) agent) agent

asleep_lem_example : (after_dump.handles 0).request.notification_queue ≡ []
unfolding notification_register statedump_agent_func
asleep_lem_example = asleep_lem 0 after_dump-Reach refl refl refl
