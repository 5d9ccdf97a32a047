-- ===== src/Ring.antt =====
-- source/list.h: the doubly linked ring with its header, over a memory of `next` and `prev` pointers.
-- A `list_t` is its address; a function that changes links returns the new memory, and NULL is `none`.
pub mod Seg
pub mod Insert
pub mod Remove
pub mod Prio
use rados.Base.{ℕ, zero, suc, Option, none, some, Bool, ◌==◌, if◌then◌else◌, update}

pub record Links : Type 0 where
  pub next : ℕ → ℕ
  pub prev : ℕ → ℕ

-- The four writes in the order of the source.
pub list_put_in_between : ℕ → ℕ → ℕ → Links → Links
list_put_in_between elem left right m = record {
  next = update (update m.next elem right) left elem;
  prev = update (update m.prev right elem) elem left;
}

pub list_connect_together : ℕ → ℕ → Links → Links
list_connect_together left right m = record {
  next = update m.next left right;
  prev = update m.prev right left;
}

pub list_init : ℕ → Links → Links
list_init l m = record { next = update m.next l l; prev = update m.prev l l }

pub list_prepend : ℕ → ℕ → Links → Links
unfolding list_put_in_between
list_prepend l elem m = list_put_in_between elem l (m.next l) m

pub list_append : ℕ → ℕ → Links → Links
unfolding list_put_in_between
list_append l elem m = list_put_in_between elem (m.prev l) l m

pub list_put_after : ℕ → ℕ → Links → Links
unfolding list_put_in_between
list_put_after itr ele m = list_put_in_between ele itr (m.next itr) m

pub list_put_before : ℕ → ℕ → Links → Links
unfolding list_put_in_between
list_put_before itr ele m = list_put_in_between ele (m.prev itr) itr m

pub list_unlink : ℕ → Links → Links
unfolding list_connect_together list_init
list_unlink elem m = list_init elem (list_connect_together (m.prev elem) (m.next elem) m)

pub list_is_empty : ℕ → Links → Bool
list_is_empty l m = m.next l == l

pub list_itr_begin : ℕ → Links → ℕ
list_itr_begin l m = m.next l

pub list_itr_end : ℕ → ℕ → Bool
list_itr_end l itr = l == itr

pub list_peekfirst : ℕ → Links → Option ℕ
list_peekfirst l m = if m.next l == l then none else some (m.next l)

pub list_detachfirst : ℕ → Links → Option ℕ × Links
unfolding list_connect_together list_init
list_detachfirst l m =
    let elem = m.next l in
    if elem == l
    then (none, m)
    else (some elem, list_init elem (list_connect_together (m.prev elem) (m.next elem) m))

pub list_peeklast : ℕ → Links → Option ℕ
list_peeklast l m = if m.prev l == l then none else some (m.prev l)
