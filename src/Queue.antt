-- ===== src/Queue.antt =====
-- The queue of kernel/queue.h.
pub mod Fifo
mod Tests
use p.Prelude.{ℕ, Option, none, some, ◌==◌, if◌then◌else◌, add64, sub64}

-- `Queue`, with the field `next` of each thing that can stand in it. A thing is its address, and the
-- null pointer is `none`.
pub record Queue : Type 0 where
  pub first : Option ℕ
  pub last : Option ℕ
  pub size_count : ℕ
  pub next : ℕ → Option ℕ

abbrev pub link : (ℕ → Option ℕ) → ℕ → Option ℕ → ℕ → Option ℕ
link next t v k = if t == k then v else next k

-- `last->next = t`; a null `last` is a fault.
abbrev pub behind : ℕ → Queue → Option ℕ → Option Queue
behind t q none = none
behind t q (some l) = some (record q { last = some t; next = link q.next l (some t) })

abbrev pub add_to : ℕ → Queue → Option ℕ → Option Queue
add_to t q none = some (record q { first = some t; last = some t })
add_to t q (some f) = behind t q q.last

-- The thing's own link cleared, and the size counted, which changes no other field.
abbrev pub counted : ℕ → Queue → Queue
counted t q = record q { next = link q.next t none; size_count = add64 q.size_count 1 }

-- `add`, under the lock
unfoldable pub add : ℕ → Queue → Option Queue
add t q = add_to t (counted t q) q.first

abbrev pub after : Queue → Option ℕ → Option ℕ
after q none = none
after q (some f) = q.last

abbrev pub remove_from : Queue → Option ℕ → Option ℕ × Queue
remove_from q none = (none, q)
remove_from q (some it) = (
  some it,
  record q { first = q.next it; last = after q (q.next it); size_count = sub64 q.size_count 1 },
)

-- `remove`: its first test, outside the lock, only saves the lock.
unfoldable pub remove : Queue → Option ℕ × Queue
remove q = remove_from q q.first

-- `remove_all`: the head of what was in the queue.
unfoldable pub remove_all : Queue → Option ℕ × Queue
remove_all q = (q.first, record q { first = none; last = none; size_count = 0 })

-- `size` and `peek`
abbrev pub size : Queue → ℕ
size q = q.size_count

abbrev pub peek : Queue → Option ℕ
peek q = q.first
