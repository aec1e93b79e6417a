-- ===== src/Text/Strings.antt =====
-- kernel/base/string.c, on characters as unsigned bytes. A function that returns a pointer into its
-- argument returns what is left of the string from there on, and `none` for NULL; a pointer that is
-- NULL fails an assertion in the code and is left out.
pub mod Laws
use ccoperating_system_x.Common.{
  ℕ, zero, suc, ◌+◌, ◌-◌, Bool, true, false, not, ◌&&◌, ◌||◌, ◌==◌, ltb, leb, if◌then◌else◌, Option,
  none, some, List, [], ◌∷◌, length, ℤ, pos, negsuc,
}
use ccoperating_system_x.Text.Number.{Text, first, drop}

-- `a - b` of two characters
abbrev pub diff : ℕ → ℕ → ℤ
diff a b = if leb b a then pos (a - b) else negsuc (b - a - 1)

unfoldable pub strlen : Text → ℕ
strlen [] = 0
strlen (c ∷ s) = strlen s + 1

unfoldable pub strnlen : Text → ℕ → ℕ
strnlen s zero = 0
strnlen [] (suc n) = 0
strnlen (c ∷ s) (suc n) = strnlen s n + 1

-- The bytes that `strcpy` writes.
unfoldable pub strcpy : Text → Text
strcpy [] = 0 ∷ []
strcpy (c ∷ s) = c ∷ strcpy s

-- The bytes that `strncpy` writes: the loop copies before it tests the count.
unfoldable pub strncpy : Text → ℕ → Text
strncpy [] n = 0 ∷ []
strncpy (c ∷ s) zero = c ∷ []
strncpy (c ∷ s) (suc n) = c ∷ strncpy s n

unfoldable pub strcmp : Text → Text → ℤ
strcmp [] t = diff 0 (first t)
strcmp (a ∷ s) [] = diff a 0
strcmp (a ∷ s) (b ∷ t) = let rest = strcmp s t in if a == b then rest else diff a b

unfoldable pub strncmp : Text → Text → ℕ → ℤ
strncmp s t zero = pos 0
strncmp [] t (suc n) = diff 0 (first t)
strncmp (a ∷ s) [] (suc n) = diff a 0
strncmp (a ∷ s) (b ∷ t) (suc n) = let rest = strncmp s t n in if a == b then rest else diff a b

unfoldable pub tolower : ℕ → ℕ
tolower c = if leb 65 c && leb c 90 then c + 32 else c

unfoldable pub strcasecmp : Text → Text → ℤ
unfolding tolower
strcasecmp [] t = diff 0 (tolower (first t))
strcasecmp (a ∷ s) [] = diff (tolower a) 0
strcasecmp (a ∷ s) (b ∷ t) =
    let rest = strcasecmp s t in
    if tolower a == tolower b then rest else diff (tolower a) (tolower b)

unfoldable pub strncasecmp : Text → Text → ℕ → ℤ
unfolding tolower
strncasecmp s t zero = pos 0
strncasecmp [] t (suc n) = diff 0 (tolower (first t))
strncasecmp (a ∷ s) [] (suc n) = diff (tolower a) 0
strncasecmp (a ∷ s) (b ∷ t) (suc n) =
    let rest = strncasecmp s t n in
    if tolower a == tolower b then rest else diff (tolower a) (tolower b)

unfoldable pub strchr : Text → ℕ → Option Text
strchr [] ch = if ch == 0 then some [] else none
strchr (c ∷ s) ch = let rest = strchr s ch in if c == ch then some (c ∷ s) else rest

-- The loop of `strrchr`, with the last place so far.
unfoldable pub last_from : Text → ℕ → Option Text → Option Text
last_from [] ch found = if ch == 0 then some [] else found
last_from (c ∷ s) ch found = last_from s ch (if c == ch then some (c ∷ s) else found)

unfoldable pub strrchr : Text → ℕ → Option Text
unfolding last_from
strrchr s ch = last_from s ch none

-- The inner loop of `strstr`: whether the needle stands at the start.
unfoldable pub stands_at : Text → Text → Bool
stands_at [] h = true
stands_at (c ∷ n) [] = false
stands_at (c ∷ n) (d ∷ h) = let rest = stands_at n h in if d == c then rest else false

unfoldable pub search : Text → Text → Option Text
unfolding stands_at
search [] needle = none
search (c ∷ s) needle =
    let rest = search s needle in if stands_at needle (c ∷ s) then some (c ∷ s) else rest

unfoldable pub strstr : Text → Text → Option Text
unfolding search
strstr haystack [] = some haystack
strstr haystack (c ∷ n) = search haystack (c ∷ n)

-- The inner loops over a set of characters.
unfoldable pub one_of : Text → ℕ → Bool
one_of [] c = false
one_of (a ∷ accept) c = let rest = one_of accept c in if c == a then true else rest

unfoldable pub strpbrk : Text → Text → Option Text
unfolding one_of
strpbrk [] accept = none
strpbrk (c ∷ s) accept =
    let rest = strpbrk s accept in if one_of accept c then some (c ∷ s) else rest

unfoldable pub strspn : Text → Text → ℕ
unfolding one_of
strspn [] accept = 0
strspn (c ∷ s) accept = let rest = strspn s accept in if one_of accept c then rest + 1 else 0

unfoldable pub strcspn : Text → Text → ℕ
unfolding one_of
strcspn [] reject = 0
strcspn (c ∷ s) reject = let rest = strcspn s reject in if one_of reject c then 0 else rest + 1

abbrev pub take : ℕ → Text → Text
take zero s = []
take (suc n) [] = []
take (suc n) (c ∷ s) = c ∷ take n s

-- The token at the start, and `*saveptr`: behind the delimiter that the call overwrites.
abbrev pub cut_token : Text → Text → Option Text × Option Text
cut_token [] delim = (none, none)
cut_token (c ∷ s) delim =
    let n = strcspn (c ∷ s) delim in
    (
      some (take n (c ∷ s)),
      if length (drop n (c ∷ s)) == 0 then none else some (drop (n + 1) (c ∷ s)),
    )

-- `strtok_r`, where the string is `str` or else what `*saveptr` points to.
unfoldable pub strtok_r : Option Text → Text → Option Text × Option Text
unfolding strspn
strtok_r none delim = (none, none)
strtok_r (some s) delim = cut_token (drop (strspn s delim) s) delim
