-- ===== src/Task/Loops.antt =====
-- common/task/task.go: the goroutines of a task.
use zicnode.Prelude.{
  ℕ, zero, suc, ◌≤◌, Bool, true, false, ◌||◌, ◌≡◌, refl, sym, subst, ◌∙◌, if◌then◌else◌, ap, List,
  [], ◌∷◌, ◌++◌, length, ℤ, nat_key, nat_beq_iff, arith, ◌==◌,
}
use zicnode.Task.{
  Loop, entering, executing, waiting, Task, new_task, start, set_interval, close, Step, starts,
  sets, closes, enters, fires, stops, adopts, adopts_left, finishes, Reachable, begins, continues,
}

-- A loop that will run the task again: it does not wait for a channel that has been replaced.
abbrev pub is_live : ℕ → Loop → Bool
is_live g entering = true
is_live g executing = true
is_live g (waiting h) = h == g

abbrev pub has_live : ℕ → List Loop → Bool
has_live g [] = false
has_live g (x ∷ xs) = is_live g x || has_live g xs

has_live-append :
    (g : ℕ) (pre post : List Loop) → has_live g (pre ++ post) ≡ (has_live g pre || has_live g post)
has_live-append g [] post = refl
has_live-append g (x ∷ pre) post = ground (arith, has_live-append g pre post)

-- A loop in place of another.
length_same :
    (pre post : List Loop) (x y : Loop) → length (pre ++ x ∷ post) ≡ length (pre ++ y ∷ post)
length_same [] post x y = refl
length_same (z ∷ pre) post x y = ground (arith, length_same pre post x y)

length_less :
    (pre post : List Loop) (x : Loop) → length (pre ++ x ∷ post) ≡ suc (length (pre ++ post))
length_less [] post x = refl
length_less (z ∷ pre) post x = ground (arith, length_less pre post x)

pub record IsServed (t : Task) : Type 0 where
  pub live : t.running ≡ true → has_live t.generation t.loops ≡ true
  pub few : length t.loops ≤ t.generation

-- One loop replaced by one that is live.
replaced-IsServed :
    (t : Task) (pre post : List Loop) (x y : Loop)
    → t.loops ≡ pre ++ x ∷ post
    → is_live t.generation y ≡ true
    → IsServed t
    → IsServed (record t { loops = pre ++ y ∷ post })
replaced-IsServed t pre post x y e l h = ground (
  arith,
  l,
  h.few,
  ap length e,
  has_live-append t.generation pre (y ∷ post),
  length_same pre post x y,
)

Step-IsServed : (t s : Task) → Step t s → IsServed t → IsServed s
unfolding start set_interval close
Step-IsServed t s (starts first) h = ground (arith, h)
Step-IsServed t s (sets interval) h = ground (arith, h)
Step-IsServed t s closes h = ground (arith, h)
Step-IsServed t s (enters pre post e) h =
    replaced-IsServed t pre post entering (waiting t.generation) e
      ((nat_beq_iff t.generation t.generation).1 refl) h
Step-IsServed t s (fires g pre post e) h =
    replaced-IsServed t pre post (waiting g) executing e refl h
Step-IsServed t s (stops g pre post e o) h = ground (
  arith,
  o,
  h,
  h.few,
  ap length e,
  ap (has_live t.generation) e,
  has_live-append t.generation pre (waiting g ∷ post),
  has_live-append t.generation pre post,
  length_less pre post (waiting g),
)
Step-IsServed t s (adopts pre post e c) h =
    let r = replaced-IsServed t pre post (waiting t.generation) entering e refl h in
    record { live = r.live; few = r.few }
Step-IsServed t s (adopts_left g pre post e o) h =
    replaced-IsServed t pre post (waiting g) entering e refl h
Step-IsServed t s (finishes pre post e) h = replaced-IsServed t pre post executing entering e refl h

-- In every history of calls and of loops: a running task has a loop that will run it again, waiting
-- for the channels of its last start, and there are no more loops than there were starts.
pub Reachable-IsServed : (interval : ℤ) (t : Task) → Reachable interval t → IsServed t
Reachable-IsServed interval t begins = ground arith
Reachable-IsServed interval t (continues u v r s) =
    Step-IsServed u v s (Reachable-IsServed interval u r)

abbrev pub executions : List Loop → ℕ
executions [] = 0
executions (x ∷ xs) =
    let rest = executions xs in elim x [ executing ↦ suc rest | entering ↦ rest | waiting g ↦ rest ]

-- The loops that wait with the channels of a generation.
abbrev pub waiters : ℕ → List Loop → ℕ
waiters g [] = 0
waiters g (x ∷ xs) =
    let rest = waiters g xs in
    elim x [ executing ↦ rest | entering ↦ rest | waiting h ↦ if h == g then suc rest else rest ]

abbrev copies : ℕ → Loop → List Loop → List Loop
copies zero x xs = xs
copies (suc n) x xs = x ∷ copies n x xs

copies-snoc : (n : ℕ) (x : Loop) (xs : List Loop) → copies n x (x ∷ xs) ≡ x ∷ copies n x xs
copies-snoc zero x xs = refl
copies-snoc (suc n) x xs = ap (λ ys. x ∷ ys) (copies-snoc n x xs)

copies-append : (n : ℕ) (x : Loop) (xs : List Loop) → copies n x xs ≡ copies n x [] ++ xs
copies-append zero x xs = refl
copies-append (suc n) x xs = ap (λ ys. x ∷ ys) (copies-append n x xs)

-- Started, and then closed and started again so often while its loops execute.
abbrev pub restarted : ℤ → ℕ → Task
restarted interval zero = start true (new_task interval)
restarted interval (suc n) = start true (close (restarted interval n))

restarted-Reachable : (interval : ℤ) (n : ℕ) → Reachable interval (restarted interval n)
restarted-Reachable interval zero = continues (new_task interval) _ begins (starts true)
restarted-Reachable interval (suc n) =
    let t = restarted interval n in
    continues (close t) _ (continues t _ (restarted-Reachable interval n) closes) (starts true)

restarted-loops :
    (interval : ℤ) (n : ℕ)
    → ((restarted interval n).running ≡ true)
      × ((restarted interval n).generation ≡ suc n)
      × ((restarted interval n).loops ≡ copies (suc n) executing [])
unfolding start close
restarted-loops interval zero = (refl, refl, refl)
restarted-loops interval (suc n) = ground (arith, restarted-loops interval n)

-- The loops that execute end one after another and wait, with the channels that are there then.
settled :
    (interval : ℤ) (t : Task) (m k : ℕ)
    → t.loops ≡ copies m (waiting t.generation) (copies k executing [])
    → Reachable interval t
    → Reachable interval
        (record t { loops = copies k (waiting t.generation) (copies m (waiting t.generation) []) })
settled interval t m zero e r = subst (λ ls. Reachable interval (record t { loops = ls })) e r
settled interval t m (suc k) e r =
    let g = t.generation in
    let pre = copies m (waiting g) [] in
    let post = copies k executing [] in
    let s = record t { loops = pre ++ entering ∷ post } in
    let u = record t { loops = pre ++ waiting g ∷ post } in
    let finished : Reachable interval s =
      continues t s r (finishes pre post (e ∙ copies-append m (waiting g) (executing ∷ post))) in
    let entered : Reachable interval u = continues s u finished (enters pre post refl) in
    let same : copies k (waiting g) (copies (suc m) (waiting g) [])
        ≡ copies (suc k) (waiting g) (copies m (waiting g) []) =
      copies-snoc k (waiting g) (copies m (waiting g) []) in
    subst (λ ls. Reachable interval (record t { loops = ls })) same
      (settled interval u (suc m) k
        (sym (copies-append m (waiting g) (waiting g ∷ post)) ∙ copies-snoc m (waiting g) post)
        entered)

copies-waiters : (n g : ℕ) → waiters g (copies n (waiting g) []) ≡ n
copies-waiters zero g = refl
copies-waiters (suc n) g = ground (arith, nat_beq_iff g g, copies-waiters n g)

copies-executions : (n : ℕ) → executions (copies n executing []) ≡ n
copies-executions zero = refl
copies-executions (suc n) = ap suc (copies-executions n)

-- For every n there are two histories of a task. At the end of the first it runs and n + 1 of its
-- loops execute at the same time. At the end of the second the task is that of the first but for its
-- loops, which are n + 1 and all wait with the channels of the last start: those of the earlier starts
-- have been closed, and none of their loops has ended.
pub restart-executions :
    (interval : ℤ) (n : ℕ)
    → (t s : Task) × Reachable interval t
      × (t.running ≡ true)
      × (executions t.loops ≡ suc n)
      × Reachable interval s
      × (s ≡ record t { loops = s.loops })
      × (length s.loops ≡ suc n)
      × (waiters s.generation s.loops ≡ suc n)
restart-executions interval n =
    let t = restarted interval n in
    let h = restarted-loops interval n in
    let ls = copies (suc n) (waiting t.generation) [] in
    (
      t,
      record t { loops = ls },
      restarted-Reachable interval n,
      h.0,
      ap executions h.2 ∙ copies-executions (suc n),
      settled interval t 0 (suc n) h.2 (restarted-Reachable interval n),
      refl,
      copies-length (suc n) (waiting t.generation),
      copies-waiters (suc n) t.generation,
    )
  where
    copies-length : (n : ℕ) (x : Loop) → length (copies n x []) ≡ n
    copies-length zero x = refl
    copies-length (suc n) x = ap suc (copies-length n x)
