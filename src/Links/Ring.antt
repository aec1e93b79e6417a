-- ===== src/Links/Ring.antt =====
-- The rings of kernel/list/list.h as the sequences of their nodes.
use ccoperating_system_x.Common.{
  ℕ, zero, suc, ◌<◌, ◌≡◌, ◌≢◌, refl, sym, arith, List, [], subst, ◌∷◌, ◌++◌, length, append-nil,
  ==_iff,
}
use mathlib.Core.Path.{subst₂}
use ccoperating_system_x.Links.{
  Links, init_list_head, add_between, del_between, list_add, list_add_tail, list_del, list_del_init,
  for_each, list_count,
}
use ccoperating_system_x.Links.Chain.{
  Chain, Out, Distinct, last, first, Out-append, last-Out, first-Out, Chain-set_next,
  Chain-set_prev, Chain-prev, Chain-next,
}

-- The ring at `head` holds the nodes `xs`, in order.
pub record IsRing (h : Links) (head : ℕ) (xs : List ℕ) : Type 0 where
  pub links : Chain h head xs head
  pub head_out : Out head xs
  pub distinct : Distinct xs

-- A new node between two neighbours of a chain.
add-Chain :
    (h : Links) (n a b : ℕ) (xs ys : List ℕ)
    → Chain h a (xs ++ ys) b
    → Out a (xs ++ ys)
    → Out b (xs ++ ys)
    → Distinct (xs ++ ys)
    → n ≢ a
    → n ≢ b
    → Out n (xs ++ ys)
    → Chain (add_between h n (last a xs) (first ys b)) a (xs ++ n ∷ ys) b
unfolding add_between
add-Chain h n a b [] [] c oa ob d na nb out =
    (ground arith, ground arith, (ground arith, ground arith))
add-Chain h n a b [] (y ∷ ys) c oa ob d na nb out = (
  ground arith,
  ground arith,
  (
    ground arith,
    ground arith,
    Chain-set_next _ y b a n ys oa.0 oa.1 (
        Chain-set_prev _ y b n a ys nb out.1 (
          Chain-set_next _ y b n y ys out.0 out.1
            (Chain-set_prev h y b y n ys (λ e. ob.0 (sym e)) d.0 c.2))),
  ),
)
add-Chain h n a b (x ∷ xs) ys c oa ob d na nb out =
    let o = Out-append x xs ys d.0 in
    (
      ground (arith, last-Out a x xs oa.0 (Out-append a xs ys oa.1).0),
      ground (arith, first-Out x b ys (λ e. ob.0 (sym e)) o.1),
      add-Chain h n x b xs ys c.2 d.0 ob.1 d.1 out.0 nb out.1,
    )

-- The node `e` leaves a chain.
del-Chain :
    (h : Links) (e a b : ℕ) (xs ys : List ℕ)
    → Chain h a (xs ++ e ∷ ys) b
    → Out a (xs ++ e ∷ ys)
    → Out b (xs ++ e ∷ ys)
    → Distinct (xs ++ e ∷ ys)
    → Chain (del_between h (last a xs) (first ys b)) a (xs ++ ys) b
unfolding del_between
del-Chain h e a b [] [] c oa ob d = (ground arith, ground arith)
del-Chain h e a b [] (y ∷ ys) c oa ob d = (
  ground arith,
  ground arith,
  Chain-set_next _ y b a y ys oa.1.0 oa.1.1
      (Chain-set_prev h y b y a ys (λ q. ob.1.0 (sym q)) d.1.0 c.2.2),
)
del-Chain h e a b (x ∷ xs) ys c oa ob d =
    let o = Out-append x xs (e ∷ ys) d.0 in
    (
      ground (arith, last-Out a x xs oa.0 (Out-append a xs (e ∷ ys) oa.1).0),
      ground (arith, first-Out x b ys (λ q. ob.0 (sym q)) o.1.1),
      del-Chain h e x b xs ys c.2 d.0 ob.1 d.1,
    )

Chain-at :
    (h : Links) (e a b : ℕ) (xs ys : List ℕ)
    → Chain h a (xs ++ e ∷ ys) b
    → (h.prev e ≡ last a xs) × (h.next e ≡ first ys b)
Chain-at h e a b [] ys c = (c.1, Chain-next h e b ys c.2)
Chain-at h e a b (x ∷ xs) ys c = Chain-at h e x b xs ys c.2

insert-Out : (m n : ℕ) (xs ys : List ℕ) → m ≢ n → Out m (xs ++ ys) → Out m (xs ++ n ∷ ys)
insert-Out m n [] ys ne o = (ne, o)
insert-Out m n (x ∷ xs) ys ne o = (o.0, insert-Out m n xs ys ne o.1)

insert-Distinct :
    (n : ℕ) (xs ys : List ℕ) → Out n (xs ++ ys) → Distinct (xs ++ ys) → Distinct (xs ++ n ∷ ys)
insert-Distinct n [] ys o d = (o, d)
insert-Distinct n (x ∷ xs) ys o d =
    (insert-Out x n xs ys (λ e. o.0 (sym e)) d.0, insert-Distinct n xs ys o.1 d.1)

drop-Out : (m e : ℕ) (xs ys : List ℕ) → Out m (xs ++ e ∷ ys) → Out m (xs ++ ys)
drop-Out m e [] ys o = o.1
drop-Out m e (x ∷ xs) ys o = (o.0, drop-Out m e xs ys o.1)

drop-Distinct : (e : ℕ) (xs ys : List ℕ) → Distinct (xs ++ e ∷ ys) → Distinct (xs ++ ys)
drop-Distinct e [] ys d = d.1
drop-Distinct e (x ∷ xs) ys d = (drop-Out x e xs ys d.0, drop-Distinct e xs ys d.1)

-- `INIT_LIST_HEAD` makes an empty ring.
pub init_list_head-IsRing : (h : Links) (a : ℕ) → IsRing (init_list_head h a) a []
unfolding init_list_head
init_list_head-IsRing h a = record {
  links = (ground arith, ground arith);
  head_out = tt;
  distinct = tt;
}

-- Adding a node that is not on the ring, by `list_add` or by `list_add_tail`, makes it the first
-- or the last node of the ring, and leaves the others in their order.
pub list_add-IsRing :
    (h : Links) (n head : ℕ) (xs : List ℕ)
    → IsRing h head xs
    → n ≢ head
    → Out n xs
    → IsRing (list_add h n head) head (n ∷ xs) × IsRing (list_add_tail h n head) head (xs ++ n ∷ [])
unfolding list_add list_add_tail
list_add-IsRing h n head xs r ne out = (
  record {
    links =
        subst (λ q. Chain (add_between h n head q) head (n ∷ xs) head)
          (sym (Chain-next h head head xs r.links))
          (add-Chain h n head head [] xs r.links r.head_out r.head_out r.distinct ne ne out);
    head_out = ((λ e. ne (sym e)), r.head_out);
    distinct = (out, r.distinct);
  },
  record {
    links =
        subst (λ q. Chain (add_between h n q head) head (xs ++ n ∷ []) head)
          (sym (Chain-prev h head head xs r.links))
          (add-Chain h n head head xs [] (rw (append-nil xs) r.links)
            (rw (append-nil xs) r.head_out) (rw (append-nil xs) r.head_out)
            (rw (append-nil xs) r.distinct) ne ne (rw (append-nil xs) out));
    head_out = insert-Out head n xs [] (λ e. ne (sym e)) (rw (append-nil xs) r.head_out);
    distinct = insert-Distinct n xs [] (rw (append-nil xs) out) (rw (append-nil xs) r.distinct);
  },
)

del-links :
    (h : Links) (e head : ℕ) (xs ys : List ℕ)
    → IsRing h head (xs ++ e ∷ ys)
    → IsRing (list_del h e) head (xs ++ ys)
unfolding list_del
del-links h e head xs ys r =
    let at = Chain-at h e head head xs ys r.links in
    record {
      links =
          subst₂ (λ p q. Chain (del_between h p q) head (xs ++ ys) head) (sym at.0) (sym at.1)
            (del-Chain h e head head xs ys r.links r.head_out r.head_out r.distinct);
      head_out = drop-Out head e xs ys r.head_out;
      distinct = drop-Distinct e xs ys r.distinct;
    }

apart :
    (head e : ℕ) (xs ys : List ℕ)
    → Out head (xs ++ e ∷ ys)
    → Distinct (xs ++ e ∷ ys)
    → (e ≢ head) × Out e (xs ++ ys)
apart head e [] ys o d = ((λ q. o.0 (sym q)), d.0)
apart head e (x ∷ xs) ys o d =
    let r = apart head e xs ys o.1 d.1 in
    (r.0, ((λ q. (Out-append x xs (e ∷ ys) d.0).1.0 (sym q)), r.1))

-- `list_del` takes a node off its ring and leaves the others in their order; `list_del_init` does so
-- too, and makes the node an empty ring of its own.
pub list_del-IsRing :
    (h : Links) (e head : ℕ) (xs ys : List ℕ)
    → IsRing h head (xs ++ e ∷ ys)
    → IsRing (list_del h e) head (xs ++ ys)
      × IsRing (list_del_init h e) head (xs ++ ys)
      × IsRing (list_del_init h e) e []
unfolding list_del_init init_list_head
list_del-IsRing h e head xs ys r =
    let d = del-links h e head xs ys r in
    let (ne, out) = apart head e xs ys r.head_out r.distinct in
    (
      d,
      record {
        links =
            Chain-set_prev _ head head e e (xs ++ ys) ne out
              (Chain-set_next _ head head e e (xs ++ ys) ne out d.links);
        head_out = d.head_out;
        distinct = d.distinct;
      },
      init_list_head-IsRing (list_del h e) e,
    )

for_each-length :
    (rounds : ℕ) (h : Links) (a head : ℕ) (xs : List ℕ)
    → length xs < rounds
    → Out head xs
    → Chain h a xs head
    → for_each rounds h (h.next a) head ≡ length xs
unfolding for_each
for_each-length zero h a head xs lt out c = absurd (omega arith)
for_each-length (suc rounds) h a head [] lt out c = rw (c.0, (==_iff head head).1 refl) refl
for_each-length (suc rounds) h a head (x ∷ xs) lt out c = rw c.0 (
    ground (
      arith,
      for_each-length rounds h x head xs (omega arith) out.1 c.2,
      λ (e : x ≡ head). out.0 (sym e),
    ))

-- `list_count` on a ring counts its nodes, with more rounds than there are nodes.
pub list_count-length :
    (rounds : ℕ) (h : Links) (head : ℕ) (xs : List ℕ)
    → IsRing h head xs
    → length xs < rounds
    → list_count rounds h head ≡ length xs
unfolding list_count
list_count-length rounds h head xs r lt =
    for_each-length rounds h head head xs lt r.head_out r.links
