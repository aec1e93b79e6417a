-- ===== src/Vfs/Path.antt =====
-- `vfs_path_lookup` of kernel/fs/vfs/vfs_path.c, with the reference counts of vfs_inode.c. An inode
-- is a number. The directory operation `lookup`, which belongs to the file system, is an argument:
-- the inode of a name, or `none`; it takes a reference on the inode that it returns, as `vfs_iget`
-- does. Writing a dirty inode back is left out.
pub mod References
pub mod Rounds
use ccoperating_system_x.Common.{
  ℕ, zero, suc, ◌+◌, ◌-◌, ◌%◌, ◌^◌, Bool, true, false, not, ◌&&◌, ◌||◌, ◌==◌, ltb, if◌then◌else◌,
  Option, none, some, List, [], ◌∷◌, length,
}
use ccoperating_system_x.Text.Number.{Text, first, drop}
use ccoperating_system_x.Text.Strings.{strlen, strcmp}
use ccoperating_system_x.Common.{ℤ, pos, eq_ℤ}

-- What the cache keeps of the inodes: their counts, their kinds, and those that were freed.
pub record Inodes : Type 0 where
  pub i_count : ℕ → ℕ
  pub is_dir : ℕ → Bool
  pub has_lookup : ℕ → Bool
  pub freed : List ℕ

abbrev pub set_count : Inodes → ℕ → ℕ → Inodes
set_count s i n = record s { i_count = λ j. if j == i then n else s.i_count j }

-- A reference more; the count has 32 bits.
unfoldable pub get_inode : Inodes → ℕ → Inodes
get_inode s i = set_count s i ((s.i_count i + 1) % 2 ^ 32)

-- `vfs_iput`, and the part of `vfs_free_inode` that counts here
unfoldable pub vfs_iput : Inodes → ℕ → Inodes
vfs_iput s i =
    let s' = set_count s i (s.i_count i - 1) in
    if s'.i_count i == 0 then record s' { freed = i ∷ s'.freed } else s'

unfoldable pub skip_slash : Text → Text
skip_slash [] = []
skip_slash (c ∷ s) = let rest = skip_slash s in if c == b'/' then rest else c ∷ s

-- The loop of `next_component`, with the room that is left.
unfoldable pub component_of : ℕ → Text → Text
component_of zero s = []
component_of (suc room) [] = []
component_of (suc room) (c ∷ s) =
    let rest = component_of room s in if c == b'/' then [] else c ∷ rest

unfoldable pub next_component : Text → Text
unfolding component_of
next_component path = component_of 255 path

abbrev pub equal : Text → Text → Bool
equal s t = eq_ℤ (strcmp s t) (pos 0)

-- Whether the component is skipped: empty, `.` or `..`.
unfoldable pub is_skipped : Text → Bool
unfolding strcmp
is_skipped component =
    length component == 0 || equal component (b'.' ∷ []) || equal component (b'.' ∷ b'.' ∷ [])

-- A component that is no `.` and no `..`: the inode found under it takes the place of `current`.
unfoldable pub descend : Inodes → ℕ → Option ℕ → Option (ℕ × Inodes)
unfolding get_inode vfs_iput
descend s current none = none
descend s current (some next) = some (next, vfs_iput (get_inode s next) current)

module _ (lookup : ℕ → Text → Option ℕ) where
  unfoldable pub enter : Inodes → ℕ → Text → Option (ℕ × Inodes)
  unfolding is_skipped descend
  enter s current component =
      if is_skipped component
      then some (current, s)
      else if not (s.is_dir current) || not (s.has_lookup current)
      then none
      else descend s current (lookup current component)

  -- The loop of `vfs_path_lookup`, from the inode `current` on: `none` is a loop that has not ended
  -- after so many rounds, and `some (none, _)` a lookup that fails.
  unfoldable pub walk : ℕ → Inodes → ℕ → Text → Option (Option ℕ × Inodes)
  unfolding skip_slash next_component enter strlen vfs_iput
  walk zero s current path = none
  walk (suc fuel) s current [] = some (some current, s)
  walk (suc fuel) s current (c ∷ path) =
      let component = next_component (c ∷ path) in
      elim (enter s current component) [
        | none ↦ some (none, vfs_iput s current)
        | some (next, s') ↦ walk fuel s' next (skip_slash (drop (strlen component) (c ∷ path)))
      ]

  -- `vfs_path_lookup` from the root inode, at pointers that are not NULL.
  unfoldable pub vfs_path_lookup : Inodes → ℕ → Text → Option (Option ℕ × Inodes)
  unfolding walk skip_slash get_inode
  vfs_path_lookup s root path = walk (length path + 1) (get_inode s root) root (skip_slash path)
