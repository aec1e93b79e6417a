-- ===== src/Links.antt =====
-- kernel/list/list.c and list.h: doubly linked rings of nodes. A node is its address, and a heap has the
-- two pointers of every node.
pub mod Chain
pub mod Ring
pub mod Cut
mod Tests
use ccoperating_system_x.Common.{
  ℕ, zero, suc, ◌+◌, Bool, true, false, not, ◌&&◌, ◌||◌, ◌==◌, if◌then◌else◌, Option, none, some,
}

-- The `list_head` of every node.
pub record Links : Type 0 where
  pub next : ℕ → ℕ
  pub prev : ℕ → ℕ

unfoldable pub set_next : Links → ℕ → ℕ → Links
set_next h a b = record h { next = λ c. if c == a then b else h.next c }

unfoldable pub set_prev : Links → ℕ → ℕ → Links
set_prev h a b = record h { prev = λ c. if c == a then b else h.prev c }

-- `INIT_LIST_HEAD`
unfoldable pub init_list_head : Links → ℕ → Links
unfolding set_next set_prev
init_list_head h a = set_prev (set_next h a a) a a

-- `__list_add`
unfoldable pub add_between : Links → ℕ → ℕ → ℕ → Links
unfolding set_next set_prev
add_between h new_node prev next =
    set_next (set_prev (set_next (set_prev h next new_node) new_node next) new_node prev) prev
      new_node

-- `__list_del`
unfoldable pub del_between : Links → ℕ → ℕ → Links
unfolding set_next set_prev
del_between h prev next = set_next (set_prev h next prev) prev next

unfoldable pub list_add : Links → ℕ → ℕ → Links
unfolding add_between
list_add h new_node head = add_between h new_node head (h.next head)

unfoldable pub list_add_tail : Links → ℕ → ℕ → Links
unfolding add_between
list_add_tail h new_node head = add_between h new_node (h.prev head) head

unfoldable pub list_del : Links → ℕ → Links
unfolding del_between
list_del h entry = del_between h (h.prev entry) (h.next entry)

unfoldable pub list_del_init : Links → ℕ → Links
unfolding list_del init_list_head
list_del_init h entry = init_list_head (list_del h entry) entry

-- `list_replace`: each store reads the heap behind the ones before it.
unfoldable pub list_replace : Links → ℕ → ℕ → Links
unfolding set_next set_prev
list_replace h old_node new_node =
    let h₁ = set_next h new_node (h.next old_node) in
    let h₂ = set_prev h₁ (h₁.next new_node) new_node in
    let h₃ = set_prev h₂ new_node (h₂.prev old_node) in set_next h₃ (h₃.prev new_node) new_node

unfoldable pub list_replace_init : Links → ℕ → ℕ → Links
unfolding list_replace init_list_head
list_replace_init h old_node new_node = init_list_head (list_replace h old_node new_node) old_node

unfoldable pub list_is_empty : Links → ℕ → Bool
list_is_empty h head = h.next head == head

unfoldable pub list_is_last : Links → ℕ → ℕ → Bool
list_is_last h entry head = h.next entry == head

unfoldable pub list_is_singular : Links → ℕ → Bool
unfolding list_is_empty
list_is_singular h head = not (list_is_empty h head) && h.next head == h.prev head

unfoldable pub list_on_list : Links → ℕ → Bool
list_on_list h node = not (h.next node == node) && not (h.prev node == node)

-- `list_first_entry` and `list_last_entry`, as nodes.
unfoldable pub list_first_entry : Links → ℕ → Option ℕ
unfolding list_is_empty
list_first_entry h head = if list_is_empty h head then none else some (h.next head)

unfoldable pub list_last_entry : Links → ℕ → Option ℕ
unfolding list_is_empty
list_last_entry h head = if list_is_empty h head then none else some (h.prev head)

-- `list_for_each`, from the node `pos` on, with a bound on its rounds: the nodes that it visits.
unfoldable pub for_each : ℕ → Links → ℕ → ℕ → ℕ
for_each zero h pos head = 0
for_each (suc rounds) h pos head =
    let count = for_each rounds h (h.next pos) head in if pos == head then 0 else suc count

-- `list_count`
unfoldable pub list_count : ℕ → Links → ℕ → ℕ
unfolding for_each
list_count rounds h head = for_each rounds h (h.next head) head

-- What `list_splice` and `list_splice_init` do with a list that is not empty.
unfoldable pub splice_behind : Links → ℕ → ℕ → Links
unfolding set_next set_prev
splice_behind h list head =
    let first = h.next list in
    let last = h.prev list in
    let head_next = h.next head in
    set_prev (set_next (set_next (set_prev h first head) head first) last head_next) head_next last

unfoldable pub list_splice : Links → ℕ → ℕ → Links
unfolding list_is_empty splice_behind
list_splice h list head = if not (list_is_empty h list) then splice_behind h list head else h

unfoldable pub list_splice_init : Links → ℕ → ℕ → Links
unfolding list_is_empty splice_behind init_list_head
list_splice_init h list head =
    if not (list_is_empty h list) then init_list_head (splice_behind h list head) list else h

unfoldable pub list_splice_tail : Links → ℕ → ℕ → Links
unfolding list_is_empty set_next set_prev
list_splice_tail h list head =
    let first = h.next list in
    let last = h.prev list in
    let head_prev = h.prev head in
    if not (list_is_empty h list)
    then set_prev (set_next (set_next (set_prev h head last) last head) head_prev first) first
        head_prev
    else h

-- `list_cut_position` where the whole ring goes, and where the part in front of `entry` does.
unfoldable pub cut_all : Links → ℕ → ℕ → Links
unfolding set_next set_prev init_list_head
cut_all h list head =
    let h₁ = set_prev (set_next h list (h.next head)) list (h.prev head) in
    let h₂ = set_prev h₁ (h₁.next list) list in
    init_list_head (set_next h₂ (h₂.prev list) list) head

unfoldable pub cut_before : Links → ℕ → ℕ → ℕ → Links
unfolding set_next set_prev
cut_before h list head entry =
    let h₁ = set_next h list (h.next head) in
    let h₂ = set_prev h₁ list (h₁.prev entry) in
    let h₃ = set_prev h₂ (h₂.next list) list in
    let h₄ = set_next h₃ (h₃.prev list) list in set_prev (set_next h₄ head entry) entry head

unfoldable pub list_cut_position : Links → ℕ → ℕ → ℕ → Links
list_cut_position h list head entry =
    if list_is_empty h head
    then init_list_head h list
    else if list_is_singular h head && (not (h.next head == entry) && not (head == entry))
    then init_list_head h list
    else if entry == head
    then cut_all h list head
    else cut_before h list head entry
