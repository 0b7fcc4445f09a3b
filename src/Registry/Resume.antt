-- ===== src/Registry/Resume.antt =====
-- src/runtime.py, `resume_instruction`, against `show` of src/waitd.py: the text that wakes an
-- agent names its watch by the first characters of the identifier.
use wait_skill.Prelude.{
  ◌≡◌, ◌↔◌, ◌∙◌, refl, sym, ap, ℕ, zero, suc, true, false, String, Option, none, some, List, [],
  ◌∷◌, ◌==◌, elem, select, ok, arith, inl, inr, eq_refl, eq_iff, Bool-cases, if◌then◌else◌,
}
use wait_skill.Prelude.Text.{nonempty}
use text.Mathlib.Text.{starts_with}
use text.Mathlib.TextBridge.{IsPrefix}
use text.Mathlib.TextEquality.{starts_with_iff}
use wait_skill.Jobs.Parse.{Job, is_given}
use wait_skill.Registry.State.{Watcher, starts_by, only, show}
use wait_skill.Registry.Sorting.{IsIn, IsIn-select, select-IsIn}
use wait_skill.Registry.Pruning.{are_distinct}
use wait_skill.Registry.Identifiers.{select-are_distinct}
use wait_skill.Registry.Prefixes.{show-IsIn}
use Prim.Native.String
use Prim.Native.String.append

-- `text[:n]`
unfoldable pub first_chars : ℕ → String → String
first_chars zero s = String.[]
first_chars (suc n) String.[] = String.[]
first_chars (suc n) (String.◌∷◌ c s) = String.◌∷◌ c (first_chars n s)

abbrev pub short_id : String → String
short_id id = first_chars 8 id

abbrev mode_text : Job → String
mode_text job =
    if is_given job.watch.goal_state
    then " goal"
    else if is_given job.watch.loop_state
    then " loop"
    else ""

-- `args.event_note or args.label`
abbrev note_text : Job → String
note_text job = elim job.event_note [
  | none ↦ job.label
  | some note ↦ if nonempty note then note else job.label
]

abbrev before_id : Job → String
before_id job = String.◌++◌ "$wait" (String.◌++◌ (mode_text job) " resume ")

-- The text, which needs an identifier.
unfoldable pub resume_instruction : Job → Option String
resume_instruction job = elim job.watch.event_id [
  | none ↦ none
  | some id ↦
      some (
        String.◌++◌ (before_id job) (String.◌++◌ (short_id id) (String.◌++◌ " — " (note_text job))))
]

first_chars-IsPrefix : (n : ℕ) (s : String) → IsPrefix (first_chars n s) s
unfolding first_chars
first_chars-IsPrefix zero s = (s, append.nil s)
first_chars-IsPrefix (suc n) String.[] = (String.[], append.nil String.[])
first_chars-IsPrefix (suc n) (String.◌∷◌ c s) =
    let (rest, whole) = first_chars-IsPrefix n s in
    (rest, append.cons c (first_chars n s) rest ∙ ap (λ v. String.◌∷◌ c v) whole)

only-alone :
    (matches : List Watcher) (w : Watcher)
    → are_distinct matches ≡ true
    → IsIn w matches
    → ((x : Watcher) → IsIn x matches → x ≡ w)
    → only matches ≡ ok w
unfolding are_distinct elem
only-alone [] w distinct there alone = absurd there
only-alone (x ∷ []) w distinct there alone = ap ok (alone x (inl refl))
only-alone (x ∷ y ∷ matches) w distinct there alone =
    let same = ap (λ v. v.watch_id) (alone y (inr (inl refl)) ∙ sym (alone x (inl refl))) in
    let repeated : (y.watch_id == x.watch_id) ≡ true =
      ap (λ i. i == x.watch_id) same ∙ eq_refl x.watch_id in
    ground (arith, distinct, repeated)

text-given : (s : String) → nonempty s ≡ true → (s == "") ≡ false
text-given s given = elim (Bool-cases (s == "")) [
  | inl empty ↦ ground (arith, ap nonempty ((eq_iff s "").0 empty), given)
  | inr e ↦ e
]

short_id-given : (id : String) → nonempty id ≡ true → nonempty (short_id id) ≡ true
unfolding first_chars
short_id-given String.[] given = given
short_id-given (String.◌∷◌ c id) given = refl

-- The text that wakes an agent holds the first eight characters of the watch's identifier, and
-- `show` finds the watch by them just when no other watch of the registry has an identifier that
-- starts with them; identifiers are distinct, and that of the watch is not empty.
pub resume_instruction-show :
    (job : Job) (text : String) (watchers : List Watcher) (w : Watcher)
    → resume_instruction job ≡ some text
    → job.watch.event_id ≡ some w.watch_id
    → are_distinct watchers ≡ true
    → IsIn w watchers
    → nonempty w.watch_id ≡ true
    → ((before : String) × (after : String) × (text
          ≡ String.◌++◌ before (String.◌++◌ (short_id w.watch_id) after)))
      × ((show (short_id w.watch_id) watchers ≡ ok w) ↔ (
          (x : Watcher)
          → IsIn x watchers
          → starts_with x.watch_id (short_id w.watch_id) ≡ true
          → x ≡ w))
unfolding resume_instruction show
resume_instruction-show job text watchers w said own distinct there given =
    let token = short_id w.watch_id in
    let token_given = text-given token (short_id-given w.watch_id given) in
    let starts = (starts_with_iff w.watch_id token).1 (first_chars-IsPrefix 8 w.watch_id) in
    let fits : (x : Watcher) → starts_with x.watch_id token ≡ true → starts_by token x ≡ true =
      λ x h. ground (arith, token_given, h) in
    let matches = select (starts_by token) watchers in
    (
      (before_id job, String.◌++◌ " — " (note_text job), ground (arith, said, own)),
      (
        λ found. (show-IsIn token watchers w found).3,
        λ alone.
            only-alone matches w (select-are_distinct (starts_by token) watchers distinct)
              (IsIn-select (starts_by token) w watchers there (fits w starts))
              (λ x here.
                let (known, same) = select-IsIn (starts_by token) x watchers here in
                alone x known (ground (arith, same))),
      ),
    )
