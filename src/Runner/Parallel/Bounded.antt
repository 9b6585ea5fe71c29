-- ===== src/Runner/Parallel/Bounded.antt =====
-- How many targets run at the same time, and that the goroutines do not block each other.
use Prim.Native.Nat.{◌*◌}
use mathlib.Core.Path.{subst}
use go_bake.Base.{
  ◌⊎◌, inl, inr, ℕ, suc, ◌<◌, ◌≤◌, ◌≡◌, refl, sym, ap, Bool, true, false, zero, if_both, none, some,
  List, [], ◌∷◌, Text, Has, length, contains, contains-cons, ==_refl, ◌==◌, arith, Option, ◌+◌,
  Bool-cases,
}
use go_bake.Config.{File}
use go_bake.Resolve.Expand.{is_empty}
use go_bake.Runner.Steps.{RunError}
use go_bake.Runner.Parallel.Apart.{Apart, Reached-Apart}
use go_bake.Runner.Parallel.{
  Group, Idle, pools, locks, gives_up_pool, enter_pool, lock, pool_of, mutex_of, is_free, Next,
  enters, gives_up, cancels, received, returns, begins, Reached, at_start, after, Stopped, failed,
  done, leave, spawn, enter, return, begin,
}

pub leave-shorter : (n : Text) (xs : List Text) → Has xs n → suc (length (leave n xs)) ≡ length xs
unfolding leave contains
leave-shorter n [] h = absurd (ground arith)
leave-shorter n (x ∷ xs) h = elim (Bool-cases (x == n)) [
  | inl e ↦ rw e refl
  | inr e ↦
      let ih : suc (length (leave n xs)) ≡ length xs =
        leave-shorter n xs (ground (arith, contains-cons x xs n)) in
      rw e (ap suc ih)
]

spawn-shorter : (cfg : File) (names : List Text) → length (spawn cfg names) ≤ length names
unfolding spawn
spawn-shorter cfg [] = omega arith
spawn-shorter cfg (n ∷ names) =
    let ih = spawn-shorter cfg names in
    if_both {first = n ∷ spawn cfg names} {other = spawn cfg names}
      (λ xs. length xs ≤ suc (length names)) _ (omega (arith, ih)) (omega (arith, ih))

received-length : {n : ℕ} (k : ℕ) → suc n ≡ k → n ≡ received k
received-length zero e = absurd (omega (arith, e))
received-length (suc k) e = omega (arith, e)

received-le : {max : ℕ} (k : ℕ) → k ≤ max → received k ≤ max
received-le zero le = le
received-le (suc k) le = omega (arith, le)

-- The slots that are taken are those of the goroutines behind the semaphore.
abbrev pub slots : Group → ℕ
slots s = length s.entered + length s.pooled + length s.running

abbrev Counts : ℕ → Group → Type 0
Counts max_parallel s = (slots s ≡ s.sem) × (s.sem ≤ max_parallel)

return-Counts :
    (max : ℕ) (n : Text) (result : Option RunError) (s : Group)
    → Has s.running n
    → Counts max s
    → Counts max (return n result s)
return-Counts max n none s h (same, le) =
    (received-length s.sem (omega (arith, leave-shorter n s.running h, same)), received-le s.sem le)
return-Counts max n (some e) s h (same, le) =
    (received-length s.sem (omega (arith, leave-shorter n s.running h, same)), received-le s.sem le)

Next-Counts :
    {cfg : File} {max_parallel : ℕ} {s t : Group}
    → Next cfg max_parallel s t
    → Counts max_parallel s
    → Counts max_parallel t
Next-Counts (enters n h lt) (same, le) = (omega (arith, same), lt)
Next-Counts {s} (pools n h free) (same, le) = (omega (arith, leave-shorter n s.entered h, same), le)
Next-Counts {s} (gives_up_pool n e h p c) (same, le) =
    (received-length s.sem (omega (arith, leave-shorter n s.entered h, same)), received-le s.sem le)
Next-Counts {s} (locks n h free) (same, le) = (omega (arith, leave-shorter n s.pooled h, same), le)
Next-Counts (gives_up n e h c) b = b
Next-Counts (cancels c) b = b
Next-Counts {max_parallel} {s} (returns n result h) b = return-Counts max_parallel n result s h b
Next-Counts (begins level levels w r e l) b = b

Reached-Counts :
    {cfg : File} {max_parallel : ℕ} {levels : List (List Text)} {s : Group}
    → Reached cfg max_parallel levels s
    → Counts max_parallel s
Reached-Counts at_start = (refl, omega arith)
Reached-Counts (after r n) = Next-Counts n (Reached-Counts r)

-- How many steps are left at most.
abbrev pub level_work : List (List Text) → ℕ
level_work [] = 0
level_work (l ∷ ls) = suc (4 * length l) + level_work ls

abbrev open_context : Bool → ℕ
open_context true = 0
open_context false = 1

abbrev pub work : Group → ℕ
work s =
    level_work s.levels
    + 4 * length s.waiting
    + 3 * length s.entered
    + 2 * length s.pooled
    + length s.running
    + open_context s.ctx_done

first_of : (x : Text) (xs : List Text) → Has (x ∷ xs) x
first_of x xs = ground (arith, contains-cons x xs x, ==_refl x)

is_free-nil : (of : Text → Text) (n : Text) → is_free of n [] ≡ true
is_free-nil of n = elim (Bool-cases (is_empty (of n))) [ inl e ↦ rw e refl | inr e ↦ rw e refl ]

module _ (cfg : File) (max_parallel : ℕ) where
  abbrev Goes : Group → Type 0
  Goes s = Stopped s ⊎ ((t : Group) × Next cfg max_parallel s t × (t.ctx_done ≡ s.ctx_done))

  level-Goes :
      (s : Group) (ls : List (List Text)) (e : Option RunError)
      → s.waiting ≡ []
      → Idle s
      → s.levels ≡ ls
      → s.first_error ≡ e
      → Goes s
  level-Goes s ls (some e) w i l f = inl (failed e w i f)
  level-Goes s [] none w i l f = inl (done w i f l)
  level-Goes s (l ∷ ls) none w i same f = inr (begin cfg l ls s, begins l ls w i f same, refl)

  waiting-Goes :
      (s : Group) (ws : List Text)
      → 0 < max_parallel
      → slots s ≡ s.sem
      → Idle s
      → s.waiting ≡ ws
      → Goes s
  waiting-Goes s [] pos same i w = level-Goes s s.levels s.first_error w i refl refl
  waiting-Goes s (n ∷ ws) pos same (en, po, ru) w =
      let empty : 0 ≡ s.sem = omega (arith, same, ap length en, ap length po, ap length ru) in
      inr (
        enter n s,
        enters n (subst (λ xs. Has xs n) (sym w) (first_of n ws)) (omega (arith, empty, pos)),
        refl,
      )

  entered-Goes :
      (s : Group) (ns : List Text)
      → 0 < max_parallel
      → slots s ≡ s.sem
      → s.running ≡ []
      → s.pooled ≡ []
      → s.entered ≡ ns
      → Goes s
  entered-Goes s [] pos same ru po en = waiting-Goes s s.waiting pos same (en, po, ru) refl
  entered-Goes s (n ∷ ns) pos same ru po en = inr (
    enter_pool n s,
    pools n (subst (λ xs. Has xs n) (sym en) (first_of n ns))
        (rw (ru, po) (is_free-nil (pool_of cfg) n)),
    refl,
  )

  pooled-Goes :
      (s : Group) (ns : List Text)
      → 0 < max_parallel
      → slots s ≡ s.sem
      → s.running ≡ []
      → s.pooled ≡ ns
      → Goes s
  pooled-Goes s [] pos same ru po = entered-Goes s s.entered pos same ru po refl
  pooled-Goes s (n ∷ ns) pos same ru po = inr (
    lock n s,
    locks n (subst (λ xs. Has xs n) (sym po) (first_of n ns))
        (rw ru (is_free-nil (mutex_of cfg) n)),
    refl,
  )

  running-Goes :
      (s : Group) (ns : List Text) → 0 < max_parallel → slots s ≡ s.sem → s.running ≡ ns → Goes s
  running-Goes s [] pos same ru = pooled-Goes s s.pooled pos same ru refl
  running-Goes s (n ∷ ns) pos same ru =
      inr (return n none s, returns n none (subst (λ xs. Has xs n) (sym ru) (first_of n ns)), refl)

-- As many values are in the channel `sem` as goroutines are behind it, and never more than
-- MaxParallel: each slot that is taken is given back. No two targets with the same mutex run at the
-- same time. No run gets stuck, whatever pools and mutexes the targets have: where a state can be
-- reached, the run has stopped, or something other than the end of the context can happen next.
pub running-bounded :
    (cfg : File) (max_parallel : ℕ) (levels : List (List Text)) (s : Group)
    → 0 < max_parallel
    → Reached cfg max_parallel levels s
    → (slots s ≡ s.sem)
      × (s.sem ≤ max_parallel)
      × Apart (mutex_of cfg) s.running
      × (Stopped s ⊎ ((t : Group) × Next cfg max_parallel s t × (t.ctx_done ≡ s.ctx_done)))
running-bounded cfg max levels s pos r =
    let (same, le) = Reached-Counts r in
    (same, le, Reached-Apart r, running-Goes cfg max s s.running pos same refl)

-- Whatever happens next leaves less to do, so a run by levels comes to its end after at most `work`
-- steps: four for each target that is waiting or to come, three for one behind the semaphore, two for
-- one that has its pool, one for each that runs and for each level, and one for the end of the
-- context.
pub work-decreases :
    (cfg : File) (max_parallel : ℕ) (s t : Group) → Next cfg max_parallel s t → work t < work s
work-decreases cfg max s t (enters n h lt) = omega (arith, leave-shorter n s.waiting h)
work-decreases cfg max s t (gives_up n e h c) = omega (arith, leave-shorter n s.waiting h)
work-decreases cfg max s t (pools n h free) = omega (arith, leave-shorter n s.entered h)
work-decreases cfg max s t (locks n h free) = omega (arith, leave-shorter n s.pooled h)
work-decreases cfg max s t (gives_up_pool n e h p c) = omega (arith, leave-shorter n s.entered h)
work-decreases cfg max s t (cancels c) = rw c (omega arith)
work-decreases cfg max s t (returns n none h) = omega (arith, leave-shorter n s.running h)
work-decreases cfg max s t (returns n (some e) h) = omega (arith, leave-shorter n s.running h)
work-decreases cfg max s t (begins level levels w r e l) = begin-work level levels w l
  where
    begin-work :
        (level : List Text) (levels : List (List Text))
        → s.waiting ≡ []
        → s.levels ≡ level ∷ levels
        → work (begin cfg level levels s) < work s
    begin-work level levels w l = rw w (rw l (omega (arith, spawn-shorter cfg level)))
