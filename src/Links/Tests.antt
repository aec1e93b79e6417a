-- ===== src/Links/Tests.antt =====
-- A ring of kernel/list/list.c with the head 10 and the nodes 11 and 12.
use ccoperating_system_x.Common.{ℕ, ◌+◌, ◌≡◌, refl, [], ◌∷◌, ◌==◌, if◌then◌else◌, arith, length}
use ccoperating_system_x.Links.{
  Links, list_add, list_add_tail, list_del, list_del_init, list_count, list_cut_position,
}
use ccoperating_system_x.Links.Ring.{IsRing, list_add-IsRing, list_del-IsRing, list_count-length}
use ccoperating_system_x.Links.Cut.{Broken, list_cut_position-Broken}

abbrev heap : Links
heap = record {
  next = λ a. if a == 12 then 10 else a + 1;
  prev = λ a. if a == 10 then 12 else if a == 11 then 10 else 11;
}

heap-IsRing : IsRing heap 10 (11 ∷ 12 ∷ [])
heap-IsRing = record {
  links = (refl, refl, (refl, refl, (refl, refl)));
  head_out = (omega arith, (omega arith, tt));
  distinct = ((omega arith, tt), (tt, tt));
}

list_add-IsRing_example :
    IsRing (list_add heap 13 10) 10 (13 ∷ 11 ∷ 12 ∷ [])
    × IsRing (list_add_tail heap 13 10) 10 (11 ∷ 12 ∷ 13 ∷ [])
list_add-IsRing_example =
    list_add-IsRing heap 13 10 (11 ∷ 12 ∷ []) heap-IsRing (omega arith)
      (omega arith, (omega arith, tt))

list_del-IsRing_example :
    IsRing (list_del heap 12) 10 (11 ∷ [])
    × IsRing (list_del_init heap 12) 10 (11 ∷ [])
    × IsRing (list_del_init heap 12) 12 []
list_del-IsRing_example = list_del-IsRing heap 12 10 (11 ∷ []) [] heap-IsRing

list_count-length_example : list_count 3 heap 10 ≡ length {A = ℕ} (11 ∷ 12 ∷ [])
list_count-length_example = list_count-length 3 heap 10 (11 ∷ 12 ∷ []) heap-IsRing (omega arith)

list_cut_position-Broken_example : Broken (list_cut_position heap 20 10 11) 20 10 11 (12 ∷ [])
list_cut_position-Broken_example =
    list_cut_position-Broken heap 20 10 11 (12 ∷ []) heap-IsRing (omega arith)
      (omega arith, (omega arith, tt))
