-- ===== src/Links/Cut.antt =====
-- `list_cut_position` of kernel/list/list.c at the first node of a ring.
use ccoperating_system_x.Common.{
  ℕ, ◌≡◌, ◌≢◌, refl, sym, ◌∙◌, false, ◌==◌, arith, List, subst, ◌∷◌, ==_iff,
}
use ccoperating_system_x.Links.{
  Links, set_next, set_prev, list_cut_position, cut_before, list_is_empty, list_is_singular,
}
use ccoperating_system_x.Links.Ring.{IsRing}
use ccoperating_system_x.Links.Chain.{Chain-set_next, Chain-set_prev, Out}

-- What is left is the whole ring, and `list` is no ring: its pointers lead to the first node and to
-- the head of the other one.
pub record Broken (h : Links) (list head e : ℕ) (ys : List ℕ) : Type 0 where
  pub next : h.next list ≡ e
  pub prev : h.prev list ≡ head
  pub ring : IsRing h head (e ∷ ys)

before-Broken :
    (h : Links) (list head e : ℕ) (ys : List ℕ)
    → IsRing h head (e ∷ ys)
    → list ≢ head
    → Out list (e ∷ ys)
    → Broken (cut_before h list head e) list head e ys
unfolding cut_before set_next set_prev
before-Broken h list head e ys r ne out =
    let n : h.next head ≡ e = r.links.0 in
    let p : h.prev e ≡ head = r.links.1 in
    let ne' : head ≢ e = r.head_out.0 in
    let le : list ≢ e = out.0 in
    let h₁ : Links = set_next h list (h.next head) in
    let h₂ : Links = set_prev h₁ list (h₁.prev e) in
    let h₃ : Links = set_prev h₂ (h₂.next list) list in
    let front : h₂.next list ≡ e = ground arith in
    let back : h₃.prev list ≡ head = ground arith in
    record {
      next = ground arith;
      prev = ground arith;
      ring = record {
        links = (
          ground arith,
          ground arith,
          Chain-set_prev _ e head e head ys (λ q. ne' (sym q)) r.distinct.0
              (Chain-set_next _ e head head e ys ne' r.head_out.1 (
                Chain-set_next h₃ e head (h₃.prev list) list ys (λ q. ne' (sym back ∙ q))
                  (subst (λ x. Out x ys) (sym back) r.head_out.1)
                  (Chain-set_prev h₂ e head (h₂.next list) list ys (λ q. ne' (sym q ∙ front))
                    (subst (λ x. Out x ys) (sym front) r.distinct.0)
                    (Chain-set_prev h₁ e head list (h₁.prev e) ys ne out.1
                      (Chain-set_next h e head list (h.next head) ys le out.1 r.links.2))))),
        );
        head_out = r.head_out;
        distinct = r.distinct;
      };
    }

cuts-before :
    (h : Links) (list head e : ℕ)
    → h.next head ≡ e
    → head ≢ e
    → list_cut_position h list head e ≡ cut_before h list head e
unfolding list_cut_position list_is_empty list_is_singular
cuts-before h list head e n ne =
    let ne' : (e == head) ≡ false = ground arith in rw (n, ne', (==_iff e e).1 refl) (ground arith)

-- Cutting a ring in front of its first node, with another node for the part that is cut off, which is
-- empty: the ring keeps its nodes, but the other node is no empty ring. It points to the
-- first node and back to the head.
pub list_cut_position-Broken :
    (h : Links) (list head e : ℕ) (ys : List ℕ)
    → IsRing h head (e ∷ ys)
    → list ≢ head
    → Out list (e ∷ ys)
    → Broken (list_cut_position h list head e) list head e ys
list_cut_position-Broken h list head e ys r ne out =
    subst (λ g. Broken g list head e ys) (sym (cuts-before h list head e r.links.0 r.head_out.0))
      (before-Broken h list head e ys r ne out)
