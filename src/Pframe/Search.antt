-- ===== src/Pframe/Search.antt =====
-- The search of `pframe_alloc_n` (kernel/mm/pframe/pframe.c) for frames in a row.
use native.Mathlib.Decide.{dec_lt}
use ccoperating_system_x.Common.{
  ℕ, zero, suc, ◌+◌, ◌-◌, ◌≤◌, ◌<◌, ◌≡◌, refl, sym, ◌∙◌, ◌⊎◌, inl, inr, true, false, ◌==◌, Option,
  none, some, if◌then◌else◌, done, Bool-cases, leb, arith,
}
use ccoperating_system_x.Bitmap.{Bitmap}
use ccoperating_system_x.Bitmap.Valid.{is_set, test_lem}
use ccoperating_system_x.Pframe.{search}
use ccoperating_system_x.Pframe.Spec.{NoRun}

-- What the loop knows at the frame `i`, with the run of free frames that ends there: it is as long
-- as `r` says and not longer, shorter than what is wanted, and nothing that is long enough ends here.
record Inv (map : Bitmap) (lo n i start r : ℕ) : Type 0 where
  short : r < n
  inside : lo + r ≤ i
  starts : (r ≡ 0) ⊎ (start + r ≡ i)
  run : (j : ℕ) → i ≤ j + r → j < i → is_set map j ≡ false
  stop : (j : ℕ) → lo ≤ j → j + r + 1 ≡ i → is_set map j ≡ true
  none_yet : NoRun map lo i n

-- What the search may find.
pub data Result (map : Bitmap) (lo hi n : ℕ) : Option ℕ → Type 0 where
  run_at :
      (a : ℕ)
      → lo ≤ a
      → a + n ≤ hi
      → ((j : ℕ) → a ≤ j → j < a + n → is_set map j ≡ false)
      → Result map lo hi n (some a)
  no_run : NoRun map lo hi n → Result map lo hi n none

-- At an allocated frame the run ends.
Inv-reset :
    (map : Bitmap) (lo n i start r : ℕ)
    → Inv map lo n i start r
    → is_set map i ≡ true
    → Inv map lo n (i + 1) start 0
Inv-reset map lo n i start r v e = record {
  short = omega (arith, v.short);
  inside = omega (arith, v.inside);
  starts = inl refl;
  run = λ j p q. absurd (omega arith);
  stop = λ j p q. let same : j ≡ i = omega arith in rw same e;
  none_yet = λ a le h free. elim (dec_lt i (a + n)) [
    | yes lt ↦ let clash : true ≡ false = sym e ∙ free i (omega (arith, v.short)) lt in cc
    | no ge ↦ v.none_yet a le (omega arith) free
  ];
}

-- At a free frame the run grows, as long as it is still too short.
Inv-grow :
    (map : Bitmap) (lo n i start r : ℕ)
    → Inv map lo n i start r
    → is_set map i ≡ false
    → r + 1 < n
    → Inv map lo n (i + 1) (if r == 0 then i else start) (r + 1)
Inv-grow map lo n i start r v e lt = record {
  short = lt;
  inside = omega (arith, v.inside);
  starts = inr (ground (arith, v.starts));
  run = λ j p q. elim (dec_lt j i) [
    | yes below ↦ v.run j (omega arith) below
    | no at ↦ let same : j ≡ i = omega arith in rw same e
  ];
  stop = λ j p q. v.stop j p (omega arith);
  none_yet = λ a le h free. elim (dec_lt i (a + n)) [
    | yes last ↦
        let before : ℕ = i - r - 1 in
        let is : is_set map before ≡ true = v.stop before (omega arith) (omega arith) in
        let clash : true ≡ false = sym is ∙ free before (omega arith) (omega arith) in cc
    | no ge ↦ v.none_yet a le (omega arith) free
  ];
}

-- The run that is long enough.
found-Result :
    (map : Bitmap) (lo hi n i start r : ℕ)
    → Inv map lo n i start r
    → is_set map i ≡ false
    → n ≤ r + 1
    → i < hi
    → Result map lo hi n (some (if r == 0 then i else start))
found-Result map lo hi n i start r v e le lt =
    let at : (if r == 0 then i else start) + n ≡ i + 1 = ground (arith, v.short, v.starts) in
    run_at (if r == 0 then i else start) (omega (arith, v.short, v.inside)) (omega arith) λ j p q.
      elim (dec_lt j i) [
        | yes below ↦ v.run j (omega (arith, v.short)) below
        | no last ↦ let same : j ≡ i = omega arith in rw same e
      ]

search-Result_from :
    (map : Bitmap) (lo hi n left i start r : ℕ)
    → Inv map lo n i start r
    → i + left ≡ hi
    → hi ≤ map.nbits
    → (o : Option ℕ) × (search map n left i start r ≡ done o) × Result map lo hi n o
unfolding search
search-Result_from map lo hi n zero i start r v e h =
    let same : i ≡ hi = omega arith in
    (none, refl, no_run (λ a le fit free. v.none_yet a le (omega arith) free))
search-Result_from map lo hi n (suc left) i start r v e h = elim (Bool-cases (is_set map i)) [
  | inl is ↦
      let (o, e', res) =
        search-Result_from map lo hi n left (i + 1) start 0 (Inv-reset map lo n i start r v is)
          (omega arith) h in
      (o, rw (test_lem map i (omega arith), is, search) e', res)
  | inr is ↦ elim (Bool-cases (leb n (r + 1))) [
    | inl long ↦ (
      some (if r == 0 then i else start),
      rw (test_lem map i (omega arith), is, search, long),
      found-Result map lo hi n i start r v is (ground arith) (omega arith),
    )
    | inr short ↦
        let (o, e', res) =
          search-Result_from map lo hi n left (i + 1) (if r == 0 then i else start) (r + 1)
            (Inv-grow map lo n i start r v is (ground arith)) (omega arith) h in
        (o, rw (test_lem map i (omega arith), is, search, short) e', res)
  ]
]

-- A search over frames that exist returns: the start of a run of `n` free frames between `lo` and
-- `hi`, or nothing where there is no such run.
pub search-Result :
    (map : Bitmap) (lo hi n : ℕ)
    → 0 < n
    → hi ≤ map.nbits
    → (o : Option ℕ) × (search map n (hi - lo) lo 0 0 ≡ done o) × Result map lo hi n o
unfolding search
search-Result map lo hi n pos h = elim (dec_lt hi lo) [
  | yes empty ↦
      let e : hi - lo ≡ 0 = omega arith in
      (none, rw e refl, no_run (λ a le fit free. absurd (omega arith)))
  | no room ↦
      search-Result_from map lo hi n (hi - lo) lo 0 0
        (record {
          short = pos;
          inside = omega arith;
          starts = inl refl;
          run = λ j p q. absurd (omega arith);
          stop = λ j p q. absurd (omega arith);
          none_yet = λ a le fit free. absurd (omega arith);
        })
        (omega arith) h
]
