-- ===== src/Task/Tests.antt =====
-- common/task/task.go on concrete histories.
use zicnode.Prelude.{length, ◌≡◌, refl, true, some, pos, int_key, nat_key}
use zicnode.Task.{Task, new_task, start, set_interval, Reachable, begins, continues, starts}
use zicnode.Task.Loops.{IsServed, executions, waiters, Reachable-IsServed, restart-executions}

abbrev minute : Task
minute = start true (new_task (pos 60))

minute-Reachable : Reachable (pos 60) minute
minute-Reachable = continues (new_task (pos 60)) minute begins (starts true)

-- A new interval is signalled to the loop that runs.
signals : (set_interval (pos 30) minute).changed ≡ some true
unfolding start set_interval
signals = refl

Reachable-IsServed_example : IsServed minute
Reachable-IsServed_example = Reachable-IsServed (pos 60) minute minute-Reachable

restart-executions_example :
    (t s : Task) × Reachable (pos 60) t
    × (t.running ≡ true)
    × (executions t.loops ≡ 4)
    × Reachable (pos 60) s
    × (s ≡ record t { loops = s.loops })
    × (length s.loops ≡ 4)
    × (waiters s.generation s.loops ≡ 4)
restart-executions_example = restart-executions (pos 60) 3
