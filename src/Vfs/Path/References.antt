-- ===== src/Vfs/Path/References.antt =====
-- The references that `vfs_path_lookup` of kernel/fs/vfs/vfs_path.c takes and gives back.
use native.Mathlib.Decide.{ℕ_discrete}
use ccoperating_system_x.Common.{
  ℕ, zero, suc, ◌+◌, ◌-◌, ◌^◌, ◌≤◌, ◌<◌, ◌≡◌, refl, ap, Bool, true, false, not, ◌||◌, ◌==◌,
  if◌then◌else◌, Option, none, some, [], ◌∷◌, length, arith, Bool-cases, inl, inr,
}
use ccoperating_system_x.Text.Number.{Text}
use ccoperating_system_x.Vfs.Path.Rounds.{behind, behind_shortens, skip_slash_shortens}
use ccoperating_system_x.Vfs.Path.{
  Inodes, set_count, get_inode, vfs_iput, skip_slash, next_component, is_skipped, descend, enter,
  walk, vfs_path_lookup,
}

-- One reference on `y`, seen from `x`.
abbrev pub one : ℕ → ℕ → ℕ
one x y = if x == y then 1 else 0

-- The reference that a result holds.
abbrev pub held : ℕ → Option ℕ → ℕ
held x none = 0
held x (some y) = one x y

get_inode-count :
    (s : Inodes) (n x : ℕ)
    → s.i_count n + 1 < 2 ^ 32
    → (get_inode s n).i_count x ≡ s.i_count x + one x n
unfolding get_inode
get_inode-count s n x h = elim (ℕ_discrete x n) [
  | yes e ↦ ground (arith, ap s.i_count e)
  | no e ↦ ground arith
]

vfs_iput-counts :
    (s : Inodes) (i x : ℕ)
    → (vfs_iput s i).i_count x ≡ (if x == i then s.i_count i - 1 else s.i_count x)
unfolding vfs_iput
vfs_iput-counts s i x =
    let last = (set_count s i (s.i_count i - 1)).i_count i == 0 in
    elim (Bool-cases last) [ inl e ↦ rw e refl | inr e ↦ rw e refl ]

vfs_iput-count :
    (s : Inodes) (i x : ℕ) → 1 ≤ s.i_count i → (vfs_iput s i).i_count x + one x i ≡ s.i_count x
vfs_iput-count s i x h =
    let c = vfs_iput-counts s i x in
    elim (ℕ_discrete x i) [ yes e ↦ ground (arith, c, ap s.i_count e) | no e ↦ ground (arith, c) ]

one_self : (x : ℕ) → one x x ≡ 1
one_self x = ground arith

one_at_most : (x y : ℕ) → one x y ≤ 1
one_at_most x y = ground arith

-- The counts before the walk, `b`, leave room for the two references that a round holds.
abbrev Small : (ℕ → ℕ) → Type 0
Small b = (x : ℕ) → b x + 2 < 2 ^ 32

-- The walk holds one reference more than there were, on `current`.
abbrev Holds : (ℕ → ℕ) → Inodes → ℕ → Type 0
Holds b s current = (x : ℕ) → s.i_count x ≡ b x + one x current

module _ (b : ℕ → ℕ) (small : Small b) where
  descended :
      (s : Inodes) (current next : ℕ)
      → Holds b s current
      → Holds b (vfs_iput (get_inode s next) current) next
  descended s current next h x =
      let room : s.i_count next + 1 < 2 ^ 32 =
        omega (arith, h next, small next, one_at_most next current) in
      let got = get_inode-count s next in
      let counted : 1 ≤ (get_inode s next).i_count current =
        omega (arith, got current room, h current, one_self current) in
      omega (arith, vfs_iput-count (get_inode s next) current x counted, got x room, h x)

  -- The outcome of a component.
  abbrev After : Option (ℕ × Inodes) → Type 0
  After none = Unit
  After (some (next, s')) = Holds b s' next

  descend-After :
      (s : Inodes) (current : ℕ) (next : Option ℕ)
      → Holds b s current
      → After (descend s current next)
  unfolding descend
  descend-After s current none h = tt
  descend-After s current (some n) h = descended s current n h

  chosen-After :
      (s : Inodes) (current : ℕ) (skips fails : Bool) (o : Option (ℕ × Inodes))
      → Holds b s current
      → After o
      → After (if skips then some (current, s) else if fails then none else o)
  chosen-After s current true fails o h a = h
  chosen-After s current false true o h a = tt
  chosen-After s current false false o h a = a

  -- The walk has ended, and the reference of its result is the only one that is left of it.
  abbrev Ends : Option (Option ℕ × Inodes) → Type 0
  Ends o = (r : Option ℕ × Inodes) × (o ≡ some r) × ((x : ℕ) → r.1.i_count x ≡ b x + held x r.0)

  given_up : (s : Inodes) (current : ℕ) → Holds b s current → Ends (some (none, vfs_iput s current))
  given_up s current h =
      let counted : 1 ≤ s.i_count current = omega (arith, h current, one_self current) in
      (
        (none, vfs_iput s current),
        refl,
        λ x. omega (arith, vfs_iput-count s current x counted, h x),
      )

  carried :
      (s : Inodes) (current : ℕ) (o : Option (ℕ × Inodes))
      (go : ℕ → Inodes → Option (Option ℕ × Inodes))
      → Holds b s current
      → After o
      → ((n : ℕ) (s' : Inodes) → Holds b s' n → Ends (go n s'))
      → Ends (elim o [ none ↦ some (none, vfs_iput s current) | some (n, s') ↦ go n s' ])
  carried s current none go h a rest = given_up s current h
  carried s current (some (n, s')) go h a rest = rest n s' a

  walk-Ends :
      (lookup : ℕ → Text → Option ℕ) (fuel : ℕ) (s : Inodes) (current : ℕ) (path : Text)
      → length path < fuel
      → Holds b s current
      → Ends (walk lookup fuel s current path)
  unfolding walk enter
  walk-Ends lookup zero s current path lt h = absurd (omega arith)
  walk-Ends lookup (suc fuel) s current [] lt h = ((some current, s), refl, h)
  walk-Ends lookup (suc fuel) s current (c ∷ path) lt h =
      let component = next_component (c ∷ path) in
      let rest = behind (c ∷ path) in
      carried s current (enter lookup s current component) (λ n s'. walk lookup fuel s' n rest) h
        (chosen-After s current (is_skipped component)
          (not (s.is_dir current) || not (s.has_lookup current))
          (descend s current (lookup current component)) h
          (descend-After s current (lookup current component) h))
        (λ n s' h'. walk-Ends lookup fuel s' n rest (omega (arith, behind_shortens c path)) h')

-- Where no count is within two of 2 ^ 32, the loop of the lookup ends within one round for each
-- character of the path and one more, whatever the directories answer. It takes one reference, on
-- the inode that it returns, and none where it fails: it gives back all the others, those on the
-- root and on the directories of the path.
pub vfs_path_lookup-references :
    (lookup : ℕ → Text → Option ℕ) (s : Inodes) (root : ℕ) (path : Text)
    → ((x : ℕ) → s.i_count x + 2 < 2 ^ 32)
    → (r : Option ℕ × Inodes) × (vfs_path_lookup lookup s root path ≡ some r)
      × ((x : ℕ) → r.1.i_count x ≡ s.i_count x + held x r.0)
unfolding vfs_path_lookup
vfs_path_lookup-references lookup s root path small =
    walk-Ends s.i_count small lookup (length path + 1) (get_inode s root) root (skip_slash path)
      (omega (arith, skip_slash_shortens path))
      (λ x. get_inode-count s root x (omega (arith, small root)))
