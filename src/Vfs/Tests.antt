-- ===== src/Vfs/Tests.antt =====
-- Runs of the path lookup.
use ccoperating_system_x.Common.{
  get_or, ◌&&◌, ℕ, ◌+◌, ◌<◌, ◌^◌, arith, ◌≡◌, refl, true, false, ◌==◌, if◌then◌else◌, Option, none,
  some, [], ◌∷◌,
}
use ccoperating_system_x.Text.Number.{Text}
use ccoperating_system_x.Text.Strings.{strlen, strcmp}
use ccoperating_system_x.Vfs.Path.{
  Inodes, get_inode, vfs_iput, skip_slash, component_of, next_component, is_skipped, enter, descend,
  walk, vfs_path_lookup,
}
use ccoperating_system_x.Vfs.Path.References.{held, vfs_path_lookup-references}

-- The root 0 has an entry 1, which is a directory with an entry 2.
abbrev find_entry : ℕ → Text → Option ℕ
find_entry n name =
    if n == 0 && get_or name 0 0 == b'a'
    then some 1
    else if n == 1 && get_or name 0 0 == b'b'
    then some 2
    else none

abbrev inodes : Inodes
inodes = record {
  i_count = λ i. if i == 0 then 1 else 0;
  is_dir = λ i. if i == 2 then false else true;
  has_lookup = λ i. true;
  freed = [];
}

abbrev path : Text
path = b'/' ∷ b'a' ∷ b'/' ∷ b'.' ∷ b'/' ∷ b'b' ∷ []

abbrev seen : Option (Option ℕ × Inodes) → Option ℕ × ℕ × ℕ × ℕ
seen none = (none, 0, 0, 0)
seen (some r) = (r.0, r.1.i_count 0, r.1.i_count 1, r.1.i_count 2)

-- The lookup finds the inode 2, which is then the only one with a reference more.
found : seen (vfs_path_lookup find_entry inodes 0 path) ≡ (some 2, 1, 0, 1)
unfolding vfs_path_lookup walk enter descend is_skipped next_component component_of skip_slash
    strcmp strlen get_inode vfs_iput
found = refl

few : (x : ℕ) → inodes.i_count x + 2 < 2 ^ 32
few x = ground arith

vfs_path_lookup-references_example :
    (r : Option ℕ × Inodes) × (vfs_path_lookup find_entry inodes 0 path ≡ some r)
    × ((x : ℕ) → r.1.i_count x ≡ inodes.i_count x + held x r.0)
vfs_path_lookup-references_example = vfs_path_lookup-references find_entry inodes 0 path few
