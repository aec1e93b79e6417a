-- ===== src/Text/Strings/Laws.antt =====
-- What the functions of kernel/base/string.c come to.
use ccoperating_system_x.Common.{
  ℕ, zero, suc, ◌+◌, ◌≤◌, ◌<◌, ◌≡◌, refl, ap, ◌∙◌, true, false, ◌==◌, if◌then◌else◌, Option, none,
  some, [], ◌∷◌, ◌++◌, length, All, arith, Bool-cases, inl, inr, ◌⊎◌, subst,
}
use ccoperating_system_x.Text.Number.{Text, drop}
use ccoperating_system_x.Text.Strings.{strncpy, one_of, strspn, strcspn, take, cut_token, strtok_r}

-- `strncpy` writes one byte more than its count wherever the string is not shorter than the count.
pub strncpy_overruns : (s : Text) (n : ℕ) → n ≤ length s → length (strncpy s n) ≡ n + 1
unfolding strncpy
strncpy_overruns [] zero h = refl
strncpy_overruns [] (suc n) h = absurd (omega arith)
strncpy_overruns (c ∷ s) zero h = omega arith
strncpy_overruns (c ∷ s) (suc n) h = omega (arith, strncpy_overruns s n (omega arith))

abbrev Delim : Text → ℕ → Type 0
Delim d c = one_of d c ≡ true

abbrev NoDelim : Text → ℕ → Type 0
NoDelim d c = one_of d c ≡ false

-- The end of the string, or a character of a kind.
abbrev Stops : (ℕ → Type 0) → Text → Type 0
Stops P [] = Unit
Stops P (c ∷ s) = P c

-- What a count from the start splits off: characters of one kind, up to one of the other.
record Prefix (P Q : ℕ → Type 0) (s : Text) (n : ℕ) : Type 0 where
  pub inside : All P (take n s)
  pub stops : Stops Q (drop n s)

strspn-Prefix : (s d : Text) → Prefix (Delim d) (NoDelim d) s (strspn s d)
unfolding strspn
strspn-Prefix [] d = record { inside = tt; stops = tt }
strspn-Prefix (c ∷ s) d = elim (Bool-cases (one_of d c)) [
  | inl e ↦
      let more : strspn s d + 1 ≡ suc (strspn s d) = omega arith in
      let r = strspn-Prefix s d in rw (e, more) (record { inside = (e, r.inside); stops = r.stops })
  | inr e ↦ rw e (record { inside = tt; stops = e })
]

strcspn-Prefix : (s d : Text) → Prefix (NoDelim d) (Delim d) s (strcspn s d)
unfolding strcspn
strcspn-Prefix [] d = record { inside = tt; stops = tt }
strcspn-Prefix (c ∷ s) d = elim (Bool-cases (one_of d c)) [
  | inl e ↦ rw e (record { inside = tt; stops = e })
  | inr e ↦
      let more : strcspn s d + 1 ≡ suc (strcspn s d) = omega arith in
      let r = strcspn-Prefix s d in
      rw (e, more) (record { inside = (e, r.inside); stops = r.stops })
]

take-drop : (n : ℕ) (s : Text) → take n s ++ drop n s ≡ s
take-drop zero s = refl
take-drop (suc n) [] = refl
take-drop (suc n) (c ∷ s) = ap (λ t. c ∷ t) (take-drop n s)

next_suc : (n : ℕ) → suc n + 1 ≡ suc (n + 1)
next_suc n = omega arith

drop_next : (n : ℕ) (s : Text) → drop (n + 1) s ≡ drop 1 (drop n s)
drop_next zero s = refl
drop_next (suc n) [] = ap (λ k. drop k []) (next_suc n)
drop_next (suc n) (c ∷ s) = ap (λ k. drop k (c ∷ s)) (next_suc n) ∙ drop_next n s

-- How a string is split at its first token.
pub record Token (s d : Text) (r : Option Text × Option Text) : Type 0 where
  pub front : Text
  pub token : Text
  pub rest : Text
  pub parts : front ++ (token ++ rest) ≡ s
  pub skipped : All (Delim d) front
  pub clean : All (NoDelim d) token
  pub stops : Stops (Delim d) rest
  pub result :
      ((token ≡ []) × (rest ≡ []) × (r ≡ (none, none)))
      ⊎ ((0 < length token)
          × (r ≡ (some token, if length rest == 0 then none else some (drop 1 rest))))

token_long : (c : ℕ) (t d : Text) → NoDelim d c → 0 < length (take (strcspn (c ∷ t) d) (c ∷ t))
unfolding strcspn
token_long c t d h =
    let more : strcspn t d + 1 ≡ suc (strcspn t d) = omega arith in rw (h, more) (omega arith)

cut_token-Token :
    (front t d : Text)
    → All (Delim d) front
    → Stops (NoDelim d) t
    → Token (front ++ t) d (cut_token t d)
cut_token-Token front [] d f h = record {
  front = front;
  token = [];
  rest = [];
  parts = refl;
  skipped = f;
  clean = tt;
  stops = tt;
  result = inl (refl, refl, refl);
}
cut_token-Token front (c ∷ t) d f h =
    let n = strcspn (c ∷ t) d in
    let p = strcspn-Prefix (c ∷ t) d in
    record {
      front = front;
      token = take n (c ∷ t);
      rest = drop n (c ∷ t);
      parts = ap (λ k. front ++ k) (take-drop n (c ∷ t));
      skipped = f;
      clean = p.inside;
      stops = p.stops;
      result = inr (
        token_long c t d h,
        ap (λ k. (some (take n (c ∷ t)), if length (drop n (c ∷ t)) == 0 then none else some k))
            (drop_next n (c ∷ t)),
      );
    }

-- `strtok_r` splits a string into delimiters, a token without any, and a rest that is empty or
-- starts with one: it returns the token, and keeps what follows that delimiter; it returns NULL
-- only where the string has nothing but delimiters.
pub strtok_r-Token : (s d : Text) → Token s d (strtok_r (some s) d)
unfolding strtok_r
strtok_r-Token s d =
    let p = strspn-Prefix s d in
    let n = strspn s d in
    subst (λ k. Token k d (cut_token (drop n s) d)) (take-drop n s)
      (cut_token-Token (take n s) (drop n s) d p.inside p.stops)

pub length-drop : (n : ℕ) (s : Text) → length (drop n s) ≤ length s
length-drop zero s = omega arith
length-drop (suc n) [] = omega arith
length-drop (suc n) (c ∷ s) = omega (arith, length-drop n s)
