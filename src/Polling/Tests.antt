-- ===== src/Polling/Tests.antt =====
-- Runs of `poll` that return and that give up.
use wait_skill.Prelude.{ℕ, String, List, [], ◌∷◌, none, some, ◌≡◌, refl, arith}
use wait_skill.Polling.Loop.{Attempt, query_fails, query_answers, returned, poll}
use wait_skill.Polling.Streaks.{Accepted, HasStreak, poll-Accepted, poll-HasStreak}

abbrev lucky : List (Attempt String)
lucky =
    query_fails 1 2
    ∷ query_answers 3 4 (returned none 5)
    ∷ query_answers 6 7 (returned (some "ready") 8)
    ∷ []

poll-Accepted_example : Accepted 100 "ready" lucky
unfolding poll
poll-Accepted_example = poll-Accepted 2 100 lucky 0 "ready" refl

abbrev unlucky : List (Attempt String)
unlucky =
    query_fails 1 2 ∷ query_answers 3 4 (returned none 5) ∷ query_fails 6 7 ∷ query_fails 8 9 ∷ []

poll-HasStreak_example : (◌≡◌ {A = ℕ} 2 2) × HasStreak 100 2 unlucky
unfolding poll
poll-HasStreak_example = poll-HasStreak 2 100 unlucky 2 (omega arith) refl
