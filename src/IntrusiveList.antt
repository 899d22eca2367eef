-- ===== src/IntrusiveList.antt =====
-- The circular doubly linked list of kern/libs/kbl/include/kbl/data/list.hpp. A link is an
-- address, 0 for null; the memory holds next_, prev_ and parent_ of every link. The deleter is the
-- default one, which does nothing, and the locks are left out, so that the two branches on
-- EnableLock are one.
pub mod Ring
pub mod Steps
pub mod Ends
pub mod Refine
pub mod Loops
pub mod Swap
mod Tests
use project_dionysus.Base.{
  ℕ, zero, suc, ◌+◌, ◌-◌, ◌^◌, ◌%◌, ◌≡◌, Bool, true, false, not, ◌&&◌, Option, none, some, Run, ok,
  fault, assert, ◌>>=◌, ◌>>◌, ◌==◌, if◌then◌else◌,
}

-- list_link: the fields of all links.
pub record Links : Type 0 where
  pub next : ℕ → ℕ
  pub prev : ℕ → ℕ
  pub parent : ℕ → Option ℕ

-- head_ and size_; the head has no parent.
pub record IntrusiveList : Type 0 where
  pub head : ℕ
  pub size : ℕ

abbrev pub update {ℓ} : {A : Type ℓ} → (ℕ → A) → ℕ → A → ℕ → A
update f i a j = if i == j then a else f j

-- A dereference of a link.
abbrev pub check : ℕ → Run (Unit {0})
check p = assert (not (p == 0))

abbrev pub write_next : ℕ → ℕ → Links → Links
write_next p v s = record s { next = update s.next p v }

abbrev pub write_prev : ℕ → ℕ → Links → Links
write_prev p v s = record s { prev = update s.prev p v }

unfoldable pub util_list_init : ℕ → Links → Run Links
util_list_init head s = check head >> ok (write_prev head head (write_next head head s))

unfoldable pub util_list_add : ℕ → ℕ → ℕ → Links → Run Links
util_list_add newnode prev next s =
    check prev
    >> check next
    >> check newnode
    >> ok (
        write_prev newnode prev
          (write_next newnode next (write_prev next newnode (write_next prev newnode s))))

unfoldable pub util_list_remove : ℕ → ℕ → Links → Run Links
util_list_remove prev next s =
    check prev >> check next >> ok (write_prev next prev (write_next prev next s))

unfoldable pub util_list_remove_entry : ℕ → Links → Run Links
util_list_remove_entry entry s = check entry >> util_list_remove (s.prev entry) (s.next entry) s

unfoldable pub util_list_splice : ℕ → ℕ → ℕ → Links → Run Links
util_list_splice list prev next s =
    let first = s.next list in
    let last = s.prev list in
    check list
    >> check first
    >> check prev
    >> check last
    >> check next
    >> ok (
        write_prev next last
          (write_next last next (write_next prev first (write_prev first prev s))))

unfoldable pub list_add : ℕ → ℕ → Links → Run Links
list_add newnode head s = check head >> util_list_add newnode head (s.next head) s

unfoldable pub list_add_tail : ℕ → ℕ → Links → Run Links
list_add_tail newnode head s = check head >> util_list_add newnode (s.prev head) head s

unfoldable pub list_remove : ℕ → Links → Run Links
list_remove entry s =
    util_list_remove_entry entry s >>= λ s'. ok (write_next entry 0 (write_prev entry 0 s'))

unfoldable pub list_remove_init : ℕ → Links → Run Links
list_remove_init entry s = list_remove entry s >>= util_list_init entry

unfoldable pub list_replace : ℕ → ℕ → Links → Run Links
list_replace old newnode s0 =
    let s1 = write_next newnode (s0.next old) s0 in
    let s2 = write_prev (s1.next newnode) newnode s1 in
    let s3 = write_prev newnode (s2.prev old) s2 in
    let s4 = write_next (s3.prev newnode) newnode s3 in
    check old >> check newnode >> check (s1.next newnode) >> check (s3.prev newnode) >> ok s4

unfoldable pub list_empty : ℕ → Links → Bool
list_empty head s = s.next head == head

unfoldable pub list_swap : ℕ → ℕ → Links → Run Links
list_swap e1 e2 s = do
  let pos = s.prev e2
  s1 ← list_remove_init e2 s
  s2 ← list_replace e1 e2 s1
  list_add e1 (if pos == e1 then e2 else pos) s2

unfoldable pub list_splice : ℕ → ℕ → Links → Run Links
list_splice list head s =
    if list_empty list s then ok s else util_list_splice list head (s.next head) s

unfoldable pub list_splice_init : ℕ → ℕ → Links → Run Links
list_splice_init list head s =
    if list_empty list s
    then ok s
    else (util_list_splice list head (s.next head) s >>= util_list_init list)

-- ++size_ and --size_
abbrev pub increase : IntrusiveList → IntrusiveList
increase l = record l { size = (l.size + 1) % 2 ^ 64 }

abbrev pub decrease : IntrusiveList → IntrusiveList
decrease l = record l { size = (l.size + 2 ^ 64 - 1) % 2 ^ 64 }

abbrev pub counted :
    (IntrusiveList → IntrusiveList) → IntrusiveList → Run Links → Run (IntrusiveList × Links)
counted f l m = m >>= λ s. ok (f l, s)

-- list_link::is_empty_or_detached, is_head and is_valid.
unfoldable pub is_empty_or_detached : ℕ → Links → Bool
is_empty_or_detached p s = s.next p == p && s.prev p == p

unfoldable pub is_head : ℕ → Links → Bool
is_head p s = elim (s.parent p) [ none ↦ true | some _ ↦ false ]

unfoldable pub is_valid : ℕ → Links → Bool
is_valid p s = not (s.next p == 0) && not (s.prev p == 0)

-- The constructor of an empty list.
unfoldable pub new_list : ℕ → Links → Run (IntrusiveList × Links)
new_list head s = util_list_init head s >>= λ s'. ok (record { head = head; size = 0 }, s')

unfoldable pub front_ptr : IntrusiveList → Links → Option ℕ
front_ptr l s = s.parent (s.next l.head)

unfoldable pub back_ptr : IntrusiveList → Links → Option ℕ
back_ptr l s = s.parent (s.prev l.head)

-- An iterator is a link: begin, end, and the steps of a forward and of a reversed iterator.
unfoldable pub begin : IntrusiveList → Links → ℕ
begin l s = s.next l.head

unfoldable pub end : IntrusiveList → ℕ
end l = l.head

unfoldable pub rbegin : IntrusiveList → Links → ℕ
rbegin l s = s.prev l.head

unfoldable pub insert : ℕ → ℕ → IntrusiveList → Links → Run (IntrusiveList × Links)
insert iter item l s = counted increase l (list_add item iter s)

unfoldable pub erase : ℕ → IntrusiveList → Links → Run (IntrusiveList × Links)
erase it l s = if list_empty l.head s then ok (l, s) else counted decrease l (list_remove_init it s)

unfoldable pub remove : ℕ → IntrusiveList → Links → Run (IntrusiveList × Links)
remove val l s =
    if list_empty l.head s then ok (l, s) else counted decrease l (list_remove_init val s)

unfoldable pub pop_back : IntrusiveList → Links → Run (IntrusiveList × Links)
pop_back l s =
    if list_empty l.head s
    then ok (l, s)
    else counted decrease l (list_remove_init (s.prev l.head) s)

unfoldable pub push_back : ℕ → IntrusiveList → Links → Run (IntrusiveList × Links)
push_back item l s = counted increase l (list_add_tail item l.head s)

unfoldable pub pop_front : IntrusiveList → Links → Run (IntrusiveList × Links)
pop_front l s =
    if list_empty l.head s
    then ok (l, s)
    else counted decrease l (list_remove_init (s.next l.head) s)

unfoldable pub push_front : ℕ → IntrusiveList → Links → Run (IntrusiveList × Links)
push_front item l s = counted increase l (list_add item l.head s)

-- The loop of do_clear, over the links from `iter` on.
unfoldable pub clear_links : ℕ → ℕ → ℕ → Links → Run Links
clear_links zero head iter s = fault
clear_links (suc fuel) head iter s =
    let rest = list_remove iter s >>= clear_links fuel head (s.next iter) in
    if iter == head then ok s else rest

unfoldable pub do_clear : ℕ → IntrusiveList → Links → Run (IntrusiveList × Links)
do_clear fuel l s = do
  s' ← (if list_empty l.head s then ok s else clear_links fuel l.head (s.next l.head) s)
  ok (record l { size = 0 }, s')

-- The loop of do_size_slow; `none` is no end within the fuel.
unfoldable pub count_links : ℕ → ℕ → ℕ → ℕ → Links → Option ℕ
count_links zero head iter sz s = none
count_links (suc fuel) head iter sz s =
    let rest = count_links fuel head (s.next iter) ((sz + 1) % 2 ^ 64) s in
    if iter == head then some sz else rest

unfoldable pub do_size_slow : ℕ → IntrusiveList → Links → Option ℕ
do_size_slow fuel l s = count_links fuel l.head (s.next l.head) 0 s

-- splice of the whole of `other` behind the link `pos`.
unfoldable pub splice :
    ℕ → IntrusiveList → IntrusiveList → Links → Run (IntrusiveList × IntrusiveList × Links)
splice pos l other s = do
  s' ← list_splice_init other.head pos s
  ok (record l { size = (l.size + other.size) % 2 ^ 64 }, record other { size = 0 }, s')

-- swap of the links and of the sizes of two lists.
unfoldable pub swap :
    IntrusiveList → IntrusiveList → Links → Run (IntrusiveList × IntrusiveList × Links)
swap l another s = do
  s' ← list_swap l.head another.head s
  ok (record l { size = another.size }, record another { size = l.size }, s')

-- One round of the loops of do_merge: the link `i` goes to the end of the list of `t`.
unfoldable pub move_tail : ℕ → ℕ → Links → Run Links
move_tail i t s = list_remove_init i s >>= list_add_tail i t

-- The last two loops of do_merge: the links from `i` on to `head` go to the end of `t`.
unfoldable pub move_rest : ℕ → ℕ → ℕ → ℕ → Links → Run Links
move_rest zero head t i s = fault
move_rest (suc fuel) head t i s =
    let rest = move_tail i t s >>= move_rest fuel head t (s.next i) in
    if i == head then ok s else rest

-- The first loop of do_merge and what follows it; `cmp` compares what two links belong to.
unfoldable pub merge_links :
    ℕ → (Option ℕ → Option ℕ → Bool) → ℕ → ℕ → ℕ → ℕ → ℕ → Links → Run Links
merge_links zero cmp h1 h2 t i1 i2 s = fault
merge_links (suc fuel) cmp h1 h2 t i1 i2 s =
    let left = move_tail i1 t s >>= merge_links fuel cmp h1 h2 t (s.next i1) i2 in
    let right = move_tail i2 t s >>= merge_links fuel cmp h1 h2 t i1 (s.next i2) in
    let rest = move_rest (suc fuel) h1 t i1 s >>= move_rest (suc fuel) h2 t i2 in
    if not (i1 == h1) && not (i2 == h2)
    then (if cmp (s.parent i1) (s.parent i2) then left else right)
    else rest

abbrev same_parent : Option ℕ → Option ℕ → Bool
same_parent none none = true
same_parent none (some q) = false
same_parent (some p) none = false
same_parent (some p) (some q) = p == q

-- operator== of two links, which compares what they hold.
unfoldable pub equal_links : ℕ → ℕ → Links → Bool
equal_links p q s =
    s.next p == s.next q && s.prev p == s.prev q && same_parent (s.parent p) (s.parent q)

-- do_merge, with `t` the address of the local t_head.
unfoldable pub do_merge :
    ℕ
    → (Option ℕ → Option ℕ → Bool)
    → ℕ
    → IntrusiveList
    → IntrusiveList
    → Links
    → Run (IntrusiveList × IntrusiveList × Links)
do_merge fuel cmp t l another s =
    if equal_links l.head another.head s then ok (l, another, s) else (do
      s1 ← util_list_init t s
      s2 ← merge_links fuel cmp l.head another.head t (s1.next l.head) (s1.next another.head) s1
      s3 ← list_swap l.head t s2
      ok (record l { size = (l.size + another.size) % 2 ^ 64 }, record another { size = 0 }, s3))
