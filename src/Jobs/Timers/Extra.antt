-- ===== src/Jobs/Timers/Extra.antt =====
-- The options that may stand behind those of a timer, and the watch that owns its wait.
use wait_skill.Prelude.{
  true, String, none, some, List, [], ◌∷◌, ◌++◌, ok, ◌≡◌, refl, arith, elem, eq_refl,
}
use wait_skill.Prelude.Text.{nonempty-blank, nonempty}
use wait_skill.Goal.State.{client_name}
use wait_skill.Goal.Checks.{is_single_line}
use wait_skill.Loop.State.{
  LoopState, GoalFiles, validate_identity, is_active, is_waiting, goal_is_open,
}
use wait_skill.Watch.Owner.{WatchArgs, LoopFiles, watch_is_current, loop_wait_is_current}
use wait_skill.Jobs.Parse.{Outside, all_acceptable, is_acceptable}
use wait_skill.Jobs.Pairs.{flat, are_pairs}
use wait_skill.Jobs.Timers.{more_pairs}
use wait_skill.Jobs.Timers.Parsed.{are_extra}

pub more-extra : (s : LoopState) → are_extra (more_pairs s) ≡ true
unfolding elem
more-extra s = ground arith

pub accepted-more :
    (o : Outside) (s : LoopState)
    → validate_identity s ≡ ok tt
    → all_acceptable o (more_pairs s) ≡ true
unfolding validate_identity is_acceptable elem is_single_line
accepted-more o s valid = ground arith

pub session-given : (s : LoopState) → validate_identity s ≡ ok tt → nonempty s.session ≡ true
unfolding validate_identity
session-given s valid = nonempty-blank s.session (ground arith)

pub extra-append :
    (xs ys : List (String × String))
    → are_extra xs ≡ true
    → are_extra ys ≡ true
    → are_extra (xs ++ ys) ≡ true
extra-append [] ys a b = b
extra-append (x ∷ xs) ys a b = ground (arith, extra-append xs ys (ground (arith, a)) b, a)

pub accepted-append :
    (o : Outside) (xs ys : List (String × String))
    → all_acceptable o xs ≡ true
    → all_acceptable o ys ≡ true
    → all_acceptable o (xs ++ ys) ≡ true
accepted-append o [] ys a b = b
accepted-append o (x ∷ xs) ys a b = ground (arith, accepted-append o xs ys (ground (arith, a)) b, a)

pub pairs-append :
    (xs ys : List (String × String)) → are_pairs (xs ++ ys) ≡ true → are_pairs xs ≡ true
pairs-append [] ys a = refl
pairs-append (x ∷ xs) ys a = ground (arith, pairs-append xs ys (ground (arith, a)), a)

pub flat-remote :
    (xs : List (String × String)) (endpoint : String) (rest : List String)
    → flat (xs ++ ("--remote", endpoint) ∷ []) ++ rest ≡ flat xs ++ "--remote" ∷ endpoint ∷ rest
flat-remote [] endpoint rest = refl
flat-remote ((name, value) ∷ xs) endpoint rest = ground (arith, flat-remote xs endpoint rest)

-- A watch of a waiting loop owns its wait when its options are those of the loop.
pub owns-loop :
    (goals : GoalFiles) (loops : LoopFiles) (s : LoopState) (path id : String) (a : WatchArgs)
    → loops path ≡ some s
    → is_active s.status ≡ true
    → is_waiting s.phase ≡ true
    → s.watch_id ≡ some id
    → goal_is_open goals s ≡ true
    → a.goal_state ≡ none
    → a.loop_state ≡ some path
    → a.event_id ≡ some id
    → a.client ≡ s.client
    → a.thread ≡ some s.session
    → watch_is_current goals loops a ≡ true
unfolding watch_is_current loop_wait_is_current
owns-loop goals loops s path id a saved active waits watched open_goal no_goal looped own client
      thread =
    let own_id = eq_refl id in
    let own_session = eq_refl s.session in
    let own_client = eq_refl (client_name s.client) in ground arith
