-- ===== src/Daemon/Sent.antt =====
-- The attempts to notify in the life of a watch of src/waitd.py, across stops of the service.
use wait_skill.Prelude.{
  ℕ, ◌≤◌, true, false, ◌≡◌, ◌∙◌, refl, sym, ap, List, [], ◌∷◌, ◌++◌, arith, subst,
}
use wait_skill.Daemon.State.{Action, save_log, save_record, execute, notify, Disk}
use wait_skill.Daemon.Program.{Options}
use wait_skill.Daemon.Numbers.{
  sent, Rises, Rises-append, attempts_of, fits, numbered, Counted, numbered-Counted,
}
use wait_skill.Daemon.Sends.{most_attempts}
use wait_skill.Daemon.Runs.{run_watch-numbered}
use wait_skill.Daemon.Crashes.{Life, submitted, ran}

sent-append : (xs ys : List Action) → sent (xs ++ ys) ≡ sent xs ++ sent ys
sent-append [] ys = refl
sent-append (save_log r ∷ xs) ys = sent-append xs ys
sent-append (save_record e ∷ xs) ys = sent-append xs ys
sent-append (execute ∷ xs) ys = sent-append xs ys
sent-append (notify k ∷ xs) ys = ap (λ ks. k ∷ ks) (sent-append xs ys)

Rises-within :
    (low : ℕ) (ks : List ℕ) (high top : ℕ) → Rises low ks high → high ≤ top → Rises low ks top
Rises-within low [] high top h k = omega arith
Rises-within low (x ∷ ks) high top h k = (h.0, Rises-within x ks high top h.1 k)

Life-Counted :
    (o : Options) (first d : Disk) (acts : List Action)
    → fits first ≡ true
    → attempts_of first.entry ≤ most_attempts o
    → Life o first d acts
    → Counted (most_attempts o) (attempts_of first.entry) (sent acts) d
Life-Counted o first d acts fit room submitted = record {
  high = attempts_of first.entry;
  rises = omega arith;
  within = room;
  live = λ a. (refl, fit);
}
Life-Counted o first d acts fit room
      (ran {d = from} {acts = earlier} w was_cancelled before rest life live split now all_acts) =
    let most = most_attempts o in
    let old = Life-Counted o first from earlier fit room life in
    let known = old.live live in
    let within : attempts_of from.entry ≤ most = omega (arith, known.0, old.within) in
    let safe =
      ap (numbered most from false) split
      ∙ run_watch-numbered o w was_cancelled from live known.1 within in
    let new =
      numbered-Counted most from false before rest old.high safe (omega (arith, known.0)) within
        known.1 in
    let numbers : sent acts ≡ sent earlier ++ sent before =
      ap sent all_acts ∙ sent-append earlier before in
    subst (λ x. Counted most (attempts_of first.entry) (sent acts) x) (sym now)
      (record {
        high = new.high;
        rises =
            subst (λ ks. Rises (attempts_of first.entry) ks new.high) (sym numbers)
              (Rises-append (attempts_of first.entry) (sent earlier) (sent before) old.high new.high
                old.rises new.rises);
        within = new.within;
        live = new.live;
      })

-- However often the service is stopped, at whatever points, and however the surroundings change:
-- the numbers of the attempts that a watch makes to notify its client grow strictly, from above
-- the number that its first record counts, and none is above the most attempts of the client. So
-- no attempt is made twice. The first record is one that counts no more than those, and counts
-- none before the phase of notifying; so does its log. The notification of a failure of the watcher
-- itself is no part of a run.
pub Life-Rises :
    (o : Options) (first d : Disk) (acts : List Action)
    → fits first ≡ true
    → attempts_of first.entry ≤ most_attempts o
    → Life o first d acts
    → Rises (attempts_of first.entry) (sent acts) (most_attempts o)
Life-Rises o first d acts fit room life =
    let c = Life-Counted o first d acts fit room life in
    Rises-within (attempts_of first.entry) (sent acts) c.high (most_attempts o) c.rises c.within
