-- ===== src/Cmd/Signals.antt =====
-- The goroutine of `ReadConfig` that waits for signals (pkg/conf/util.go): the first one cancels the
-- context of the program, the next one ends it.
use vihara.Prelude.{
  ℕ, ◌+◌, ◌≡◌, refl, ap, ◌∙◌, Bool, true, false, List, [], ◌∷◌, length, eqb, ltb, arith,
  if◌then◌else◌,
}

-- the signals that are asked for
pub data Signal : Type 0 where
  interrupt sigterm : Signal

pub record Waiting : Type 0 where
  pub exit_count : ℕ
  pub canceled : Bool
  pub exited : Bool

abbrev pub waiting : Waiting
waiting = record { exit_count = 0; canceled = false; exited = false }

-- one round of the loop; after `os.Exit` there is none
unfoldable pub on_signal : Waiting → Signal → Waiting
on_signal w sig =
    if w.exited
    then w
    else let n = w.exit_count + 1 in
      if eqb n 1
      then record w { exit_count = n; canceled = true }
      else record w { exit_count = n; exited = true }

unfoldable pub on_signals : Waiting → List Signal → Waiting
on_signals w [] = w
on_signals w (sig ∷ sigs) = on_signals (on_signal w sig) sigs

on_signal_of_exited : (w : Waiting) (sig : Signal) → w.exited ≡ true → on_signal w sig ≡ w
unfolding on_signal
on_signal_of_exited w sig h = ground arith

after_exit : (w : Waiting) (sigs : List Signal) → w.exited ≡ true → on_signals w sigs ≡ w
unfolding on_signals
after_exit w [] h = refl
after_exit w (sig ∷ sigs) h =
    ap (λ v. on_signals v sigs) (on_signal_of_exited w sig h) ∙ after_exit w sigs h

-- Whatever the signals are, the context is canceled once there was one, and the program is ended at
-- once when there were two, and not before.
pub on_signals-exited :
    (sigs : List Signal)
    → let w = on_signals waiting sigs in
      (w.canceled ≡ ltb 0 (length sigs)) × (w.exited ≡ ltb 1 (length sigs))
unfolding on_signals on_signal
on_signals-exited [] = (refl, refl)
on_signals-exited (a ∷ []) = ground arith
on_signals-exited (a ∷ (b ∷ sigs)) =
    ground (arith, after_exit (on_signal (on_signal waiting a) b) sigs)
