-- ===== src/Goal/Paths.antt =====
-- src/goal.py, `paths_overlap`, with the parts of `os.path.normpath` and `pathlib.Path` it rests on.
-- The table of Unicode case folding is a parameter: it gives the folding of one code point.
use wait_skill.Prelude.{
  ℕ, Bool, true, false, not, ◌&&◌, ◌||◌, String, List, [], ◌∷◌, ◌++◌, nat_eq, is_empty,
  if◌then◌else◌,
}
use wait_skill.Prelude.Text.{codes}
use mathlib.Core.List.{reverse, flat_map}

abbrev pub Folding : Type 0
Folding = ℕ → List ℕ

abbrev pub Part : Type 0
Part = List ℕ

-- Equality of two texts given as code points.
unfoldable pub same_part : Part → Part → Bool
same_part [] [] = true
same_part (a ∷ as') (b ∷ bs) = nat_eq a b && same_part as' bs
same_part _ _ = false

abbrev slash : ℕ
slash = b'/'

-- `text.split("/")`: the part that is being read, and the parts behind it.
split_from : Part → Part → List Part
split_from part [] = reverse part ∷ []
split_from part (c ∷ cs) =
    let cut = reverse part ∷ split_from [] cs in
    let longer = split_from (c ∷ part) cs in if nat_eq c slash then cut else longer

split : Part → List Part
unfolding split_from
split s = split_from [] s

abbrev dot : Part
dot = b'.' ∷ []

abbrev dot_dot : Part
dot_dot = b'.' ∷ b'.' ∷ []

-- How many slashes the root of a POSIX path has: two are kept, three or more count as one.
abbrev slashes : Part → ℕ
slashes (a ∷ b ∷ c ∷ _) =
    if nat_eq a slash then (if nat_eq b slash && not (nat_eq c slash) then 2 else 1) else 0
slashes (a ∷ b ∷ []) = if nat_eq a slash then (if nat_eq b slash then 2 else 1) else 0
slashes (a ∷ []) = if nat_eq a slash then 1 else 0
slashes [] = 0

abbrev is_skipped : Part → Bool
is_skipped p = is_empty p || same_part p dot

abbrev last_is_dot_dot : List Part → Bool
last_is_dot_dot [] = false
last_is_dot_dot (p ∷ _) = same_part p dot_dot

abbrev pop : List Part → List Part
pop [] = []
pop (_ ∷ ps) = ps

-- One component of the loop of `normpath`; `done` holds the new components, the last one first.
abbrev normal_step : Bool → List Part → Part → List Part
normal_step rooted done p =
    if is_skipped p
    then done
    else if not (same_part p dot_dot) || (not rooted && is_empty done) || last_is_dot_dot done
    then p ∷ done
    else pop done

normal_parts : Bool → List Part → List Part → List Part
normal_parts rooted done [] = reverse done
normal_parts rooted done (p ∷ ps) = normal_parts rooted (normal_step rooted done p) ps

abbrev join : List Part → Part
join [] = []
join (p ∷ []) = p
join (p ∷ q ∷ ps) = p ++ slash ∷ join (q ∷ ps)

abbrev root_text : ℕ → Part
root_text n = if nat_eq n 0 then [] else if nat_eq n 1 then slash ∷ [] else slash ∷ slash ∷ []

-- `path or "."`
abbrev or_dot : Part → Part
or_dot [] = dot
or_dot p = p

normpath : Part → Part
unfolding same_part split normal_parts
normpath [] = dot
normpath s =
    let root = slashes s in
    or_dot (root_text root ++ join (normal_parts (not (nat_eq root 0)) [] (split s)))

-- A `pathlib.Path`: the slashes of its root, and its parts.
pub record PurePath : Type 0 where
  pub root : ℕ
  pub parts : List Part

real_parts : List Part → List Part
unfolding same_part
real_parts [] = []
real_parts (p ∷ ps) = let rest = real_parts ps in if is_skipped p then rest else p ∷ rest

pure_path : Part → PurePath
unfolding real_parts split
pure_path s = record { root = slashes s; parts = real_parts (split s) }

-- `Path(os.path.normpath(value).casefold())`
unfoldable pub folded_path : Folding → String → PurePath
unfolding pure_path normpath
folded_path fold value = pure_path (flat_map fold (normpath (codes value)))

-- The first list of parts begins the second.
unfoldable pub begins : List Part → List Part → Bool
unfolding same_part
begins [] qs = true
begins (p ∷ ps) [] = false
begins (p ∷ ps) (q ∷ qs) = same_part p q && begins ps qs

abbrev pub is_absolute : PurePath → Bool
is_absolute p = not (nat_eq p.root 0)

-- `p == q or p in q.parents`
unfoldable pub is_ancestor : PurePath → PurePath → Bool
is_ancestor p q = nat_eq p.root q.root && begins p.parts q.parts

abbrev differ : Bool → Bool → Bool
differ true b = not b
differ false b = b

unfoldable pub paths_overlap : Folding → String → String → Bool
paths_overlap fold first second =
    let p = folded_path fold first in
    let q = folded_path fold second in
    if differ (is_absolute p) (is_absolute q) then true else is_ancestor p q || is_ancestor q p
