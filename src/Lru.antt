-- ===== src/Lru.antt =====
-- The list of append buffers in the order of their use (nvmevirt/lru.c). A pointer to an item is its
-- address, and NULL is 0; reading or writing through NULL, or behind the end of `items`, is a fault.
pub mod Links
pub mod Members
pub mod Calls
pub mod Set
pub mod Refine
pub mod Tests
use virtkv.Common.{
  ℕ, Bool, Outcome, ok, ◌+◌, ◌-◌, ◌^◌, ◌==◌, ◌||◌, not, ltb, leb, u32, update, if◌then◌else◌,
  nvmev_assert, ◌>>◌, ◌>>=◌,
}

abbrev pub null : ℕ
null = 0

abbrev pub max_capacity : ℕ
max_capacity = 128

-- `struct item`.
pub record Item : Type 0 where
  pub id : ℕ
  pub prev : ℕ
  pub next : ℕ

-- `struct lru_cache`, with the memory of the items.
pub record LruCache : Type 0 where
  pub head : ℕ
  pub tail : ℕ
  pub capacity : ℕ
  pub size : ℕ
  pub items : ℕ → ℕ
  pub mem : ℕ → Item

-- p->next = q
pub set_next : LruCache → ℕ → ℕ → Outcome LruCache
set_next c p q = do
  nvmev_assert (not (p == null))
  ok (record c { mem = update c.mem p (record (c.mem p) { next = q }) })

-- p->prev = q
pub set_prev : LruCache → ℕ → ℕ → Outcome LruCache
set_prev c p q = do
  nvmev_assert (not (p == null))
  ok (record c { mem = update c.mem p (record (c.mem p) { prev = q }) })

-- cache->items[id] = p
pub set_slot : LruCache → ℕ → ℕ → Outcome LruCache
set_slot c id p = do
  nvmev_assert (ltb id max_capacity)
  ok (record c { items = update c.items id p })

-- cache->size--
abbrev pub shrink : LruCache → LruCache
shrink c = record c { size = u32 (c.size + 2 ^ 32 - 1) }

unfoldable pub lru_cache_init : LruCache → ℕ → LruCache
lru_cache_init c capacity = record c { head = null; tail = null; capacity = capacity; size = 0 }

-- The item leaves the list; it is not the head.
pub unlink_behind : LruCache → ℕ → Outcome LruCache
unfolding set_next set_prev
unlink_behind c item =
    if item == c.tail
    then set_next (record c { tail = (c.mem item).prev }) (c.mem item).prev null
    else (do
      c' ← set_next c (c.mem item).prev (c.mem item).next
      set_prev c' (c'.mem item).next (c'.mem item).prev)

-- The item comes before the head.
pub to_head : LruCache → ℕ → Outcome LruCache
unfolding set_next set_prev
to_head c item = do
  c1 ← set_prev c item null
  c2 ← set_next c1 item c1.head
  c3 ← set_prev c2 c2.head item
  ok (record c3 { head = item })

pub lru_cache_get : LruCache → ℕ → Outcome (ℕ × LruCache)
unfolding unlink_behind to_head
lru_cache_get c id = if c.size == 0 || leb max_capacity id then ok (null, c) else (do
  let item = c.items id
  nvmev_assert (not (item == null))
  if item == c.head
      then ok (item, c)
      else (do c' ← unlink_behind c item; c'' ← to_head c' item; ok (item, c'')))

-- Remove the least recently used item.
pub drop_last : LruCache → Outcome LruCache
unfolding set_next set_slot
drop_last c = do
  let lru = c.tail
  nvmev_assert (not (lru == null))
  let tail = (c.mem lru).prev
  c1 ← set_next (record c { tail = tail }) tail null
  c2 ← set_slot c1 (c1.mem lru).id null
  ok (shrink c2)

-- Add the new item to the head of the list.
pub add_head : LruCache → (item id : ℕ) → Outcome LruCache
unfolding set_next set_prev set_slot
add_head c item id = do
  c1 ← set_prev c item null
  c2 ← set_next c1 item c1.head
  c3 ← if not (c2.head == null) then set_prev c2 c2.head item else ok (record c2 { tail = item })
  c4 ← set_slot (record c3 { head = item }) id item
  ok (record c4 { size = u32 (c4.size + 1) })

unfoldable pub lru_cache_set : LruCache → (item : ℕ) → Outcome LruCache
unfolding drop_last add_head
lru_cache_set c item = do
  nvmev_assert (not (item == null))
  let id = (c.mem item).id
  c' ← if c.size == c.capacity then drop_last c else ok c
  add_head c' item id

-- The head of the list leaves it.
pub unlink_head : LruCache → ℕ → Outcome LruCache
unfolding set_prev
unlink_head c item =
    let next = (c.mem item).next in
    let c1 = record c { head = next } in
    if not (next == null) then set_prev c1 next null else ok (record c1 { tail = null })

pub lru_cache_remove : LruCache → ℕ → Outcome LruCache
unfolding unlink_head unlink_behind set_slot
lru_cache_remove c id = do
  nvmev_assert (not (c.size == 0 || leb max_capacity id))
  let item = c.items id
  nvmev_assert (not (item == null))
  c1 ← if item == c.head then unlink_head c item else unlink_behind c item
  c2 ← set_slot c1 id null
  ok (shrink c2)

pub lru_cache_get_oldest : LruCache → Outcome (ℕ × LruCache)
unfolding set_next set_slot
lru_cache_get_oldest c = if c.size == 0 then ok (null, c) else (do
  let oldest = c.tail
  nvmev_assert (not (oldest == null))
  c1 ←
      if oldest == c.head
      then ok (record c { head = null; tail = null })
      else set_next (record c { tail = (c.mem oldest).prev }) (c.mem oldest).prev null
  c2 ← set_slot c1 (c1.mem oldest).id null
  ok (oldest, shrink c2))
