-- ===== src/Runner/Parallel/Apart.antt =====
-- The mutexes of runTargetWithCache: no two goroutines hold the same one.
use go_bake.Base.{
  inl, inr, ℕ, ◌≡◌, true, false, Bool-cases, if_both, none, some, List, [], ◌∷◌, Text, ◌==◌, arith,
}
use go_bake.Config.{File}
use go_bake.Runner.Parallel.{
  Group, enters, gives_up, pools, gives_up_pool, locks, cancels, returns, begins, Reached, at_start,
  after, leave, mutex_of, is_held, is_free,
}

-- Each has what none of those behind it has.
abbrev pub Apart : (Text → Text) → List Text → Type 0
Apart of [] = Unit
Apart of (n ∷ ns) = (is_free of n ns ≡ true) × Apart of ns

is_held-leave :
    (of : Text → Text) (m n : Text) (ns : List Text)
    → is_held of m ns ≡ false
    → is_held of m (leave n ns) ≡ false
unfolding leave
is_held-leave of m n [] h = h
is_held-leave of m n (x ∷ ns) h = elim (Bool-cases (x == n)) [
  | inl e ↦ ground arith
  | inr e ↦ ground (arith, is_held-leave of m n ns)
]

is_free-leave :
    (of : Text → Text) (m n : Text) (ns : List Text)
    → is_free of m ns ≡ true
    → is_free of m (leave n ns) ≡ true
is_free-leave of m n ns h = ground (arith, is_held-leave of m n ns)

leave-Apart : (of : Text → Text) (n : Text) (ns : List Text) → Apart of ns → Apart of (leave n ns)
unfolding leave
leave-Apart of n [] h = h
leave-Apart of n (x ∷ ns) h =
    if_both {first = ns} {other = x ∷ leave n ns} (Apart of) (x == n) h.1
      (is_free-leave of x n ns h.0, leave-Apart of n ns h.1)

pub Reached-Apart :
    {cfg : File} {max_parallel : ℕ} {levels : List (List Text)} {s : Group}
    → Reached cfg max_parallel levels s
    → Apart (mutex_of cfg) s.running
Reached-Apart at_start = tt
Reached-Apart (after r (enters n h lt)) = Reached-Apart r
Reached-Apart (after r (gives_up n e h c)) = Reached-Apart r
Reached-Apart (after r (pools n h free)) = Reached-Apart r
Reached-Apart (after r (gives_up_pool n e h p c)) = Reached-Apart r
Reached-Apart (after r (locks n h free)) = (free, Reached-Apart r)
Reached-Apart (after r (cancels c)) = Reached-Apart r
Reached-Apart {cfg} (after {s} r (returns n none h)) =
    leave-Apart (mutex_of cfg) n s.running (Reached-Apart r)
Reached-Apart {cfg} (after {s} r (returns n (some e) h)) =
    leave-Apart (mutex_of cfg) n s.running (Reached-Apart r)
Reached-Apart (after r (begins level levels w i e l)) = Reached-Apart r
