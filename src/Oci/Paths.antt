-- ===== src/Oci/Paths.antt =====
-- `filepath.Clean`, `filepath.Join` and `filepath.IsAbs` of the Go library on Linux.
use asterkube.Prelude.{ℕ, Bool, List, [], ◌∷◌, String, if◌then◌else◌}
use asterkube.Prelude.Text.{str_eq, str_append, has_prefix, split_on, join}

abbrev slash : ℕ
slash = 47

unfoldable pub is_abs : String → Bool
is_abs p = has_prefix p "/"

-- The elements that are kept, the last one first.
abbrev back : Bool → List String → List String
back rooted [] = if rooted then [] else ".." ∷ []
back rooted (w ∷ ws) = if str_eq w ".." then ".." ∷ w ∷ ws else ws

unfoldable pub clean_elements : Bool → List String → List String → List String
clean_elements rooted [] done = done
clean_elements rooted (w ∷ ws) done = clean_elements rooted ws (
    if str_eq w ""
    then done
    else if str_eq w "."
    then done
    else if str_eq w ".."
    then back rooted done
    else w ∷ done)

-- A list turned round in front of another.
unfoldable pub turn : List String → List String → List String
turn [] done = done
turn (w ∷ ws) done = turn ws (w ∷ done)

abbrev or_dot : String → String
or_dot p = if str_eq p "" then "." else p

unfoldable pub clean : String → String
clean p =
    let rooted = is_abs p in
    let body = join "/" (turn (clean_elements rooted (split_on slash p) []) []) in
    if rooted then str_append "/" body else or_dot body

-- The elements of a join that are not empty.
unfoldable pub given : List String → List String
given [] = []
given (w ∷ ws) = let rest = given ws in if str_eq w "" then rest else w ∷ rest

abbrev join_given : List String → String
join_given [] = ""
join_given (w ∷ ws) = clean (join "/" (w ∷ ws))

unfoldable pub path_join : List String → String
path_join elements = join_given (given elements)
