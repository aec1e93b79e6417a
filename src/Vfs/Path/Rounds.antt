-- ===== src/Vfs/Path/Rounds.antt =====
-- What the rounds of `vfs_path_lookup` of kernel/fs/vfs/vfs_path.c take off the path.
use ccoperating_system_x.Common.{
  ℕ, suc, ◌+◌, ◌≤◌, ◌≡◌, true, ◌==◌, [], ◌∷◌, length, arith, Bool-cases, inl, inr,
}
use ccoperating_system_x.Text.Number.{Text, drop}
use ccoperating_system_x.Text.Strings.{strlen}
use ccoperating_system_x.Text.Strings.Laws.{length-drop}
use ccoperating_system_x.Vfs.Path.{skip_slash, component_of, next_component}

pub skip_slash_shortens : (s : Text) → length (skip_slash s) ≤ length s
unfolding skip_slash
skip_slash_shortens [] = omega arith
skip_slash_shortens (c ∷ s) = ground (arith, skip_slash_shortens s)

-- What is left of the path behind its first component.
abbrev pub behind : Text → Text
behind path = skip_slash (drop (strlen (next_component path)) path)

slash_shortens :
    (c : ℕ) (path : Text) → (c == b'/') ≡ true → length (skip_slash (c ∷ path)) ≤ length path
unfolding skip_slash
slash_shortens c path e = rw e (skip_slash_shortens path)

piece_shortens :
    (room c : ℕ) (path : Text)
    → length (skip_slash (drop (strlen (component_of (suc room) (c ∷ path))) (c ∷ path)))
      ≤ length path
unfolding component_of strlen
piece_shortens room c path = elim (Bool-cases (c == b'/')) [
  | inl e ↦ rw e (slash_shortens c path e)
  | inr e ↦
      let k = strlen (component_of room path) in
      let more : k + 1 ≡ suc k = omega arith in
      rw (e, more) (omega (arith, skip_slash_shortens (drop k path), length-drop k path))
]

-- Each round uses up a character at least.
pub behind_shortens : (c : ℕ) (path : Text) → length (behind (c ∷ path)) ≤ length path
unfolding next_component
behind_shortens c path = piece_shortens 254 c path
