-- ===== src/Task.antt =====
-- common/task/task.go: a periodic task. The goroutines that `Start` makes are `loops`; a loop that
-- waits has read the channels of the generation that was current then, and `Start` makes new ones.
pub mod Loops
mod Tests
use zicnode.Prelude.{
  ℕ, suc, Bool, true, false, not, ◌&&◌, ◌≡◌, Option, none, some, List, [], ◌∷◌, ◌++◌, ℤ, pos, mul64,
  ltb_ℤ, nat_key, int_key, ◌==◌, if◌then◌else◌,
}

-- Before the select, in it with the channels of a generation, and in `ExecuteWithTimeout`.
pub data Loop : Type 0 where
  entering executing : Loop
  waiting : ℕ → Loop

-- `changed` is the channel of that name: none while it is nil, else whether it holds a signal.
pub record Task : Type 0 where
  pub interval : ℤ
  pub running : Bool
  pub generation : ℕ
  pub changed : Option Bool
  pub loops : List Loop

abbrev pub new_task : ℤ → Task
new_task interval = record {
  interval = interval;
  running = false;
  generation = 0;
  changed = none;
  loops = [];
}

unfoldable pub start : Bool → Task → Task
start first t = if t.running then t else record t {
  running = true;
  generation = suc t.generation;
  changed = some false;
  loops = (if first then executing else entering) ∷ t.loops;
}

abbrev signal : Option Bool → Option Bool
signal none = none
signal (some held) = some true

unfoldable pub set_interval : ℤ → Task → Task
set_interval interval t = record t {
  interval = interval;
  changed = if not (t.interval == interval) && t.running then signal t.changed else t.changed;
}

-- safeStop
unfoldable pub close : Task → Task
close t = if t.running then record t { running = false } else t

-- The Stop channel of a generation is closed unless it is that of the running task.
abbrev pub is_open : ℕ → Task → Bool
is_open g t = g == t.generation && t.running

-- min(5*interval, 5*time.Minute), in nanoseconds
unfoldable pub timeout_of : ℤ → ℤ
timeout_of interval =
    let five = mul64 (pos 5) interval in
    let minutes = pos 300000000000 in if ltb_ℤ minutes five then minutes else five

-- How an execution ends: the context ends first, or the function returns nil, an error of the
-- context, or another error.
pub data Ended : Type 0 where
  timed_out returned context_error failed : Ended

-- Whether `ExecuteWithTimeout` returns an error.
unfoldable pub execute_with_timeout : Ended → Bool
execute_with_timeout e = elim e [ failed ↦ true | _ ↦ false ]

-- One step of a caller or of a loop.
pub data Step (t : Task) : Task → Type 0 where
  starts : (first : Bool) → Step t (start first t)
  sets : (interval : ℤ) → Step t (set_interval interval t)
  closes : Step t (close t)
  enters :
      (pre post : List Loop)
      → t.loops ≡ pre ++ entering ∷ post
      → Step t (record t { loops = pre ++ waiting t.generation ∷ post })
  fires :
      (g : ℕ) (pre post : List Loop)
      → t.loops ≡ pre ++ waiting g ∷ post
      → Step t (record t { loops = pre ++ executing ∷ post })
  stops :
      (g : ℕ) (pre post : List Loop)
      → t.loops ≡ pre ++ waiting g ∷ post
      → is_open g t ≡ false
      → Step t (record t { loops = pre ++ post })
  adopts :
      (pre post : List Loop)
      → t.loops ≡ pre ++ waiting t.generation ∷ post
      → t.changed ≡ some true
      → Step t (record t { loops = pre ++ entering ∷ post; changed = some false })
  -- A signal that was left in a channel that has been replaced.
  adopts_left :
      (g : ℕ) (pre post : List Loop)
      → t.loops ≡ pre ++ waiting g ∷ post
      → (g == t.generation) ≡ false
      → Step t (record t { loops = pre ++ entering ∷ post })
  finishes :
      (pre post : List Loop)
      → t.loops ≡ pre ++ executing ∷ post
      → Step t (record t { loops = pre ++ entering ∷ post })

pub data Reachable (interval : ℤ) : Task → Type 0 where
  begins : Reachable interval (new_task interval)
  continues : (t s : Task) → Reachable interval t → Step t s → Reachable interval s
