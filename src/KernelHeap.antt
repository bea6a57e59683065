-- ===== src/KernelHeap.antt =====
-- The heap of the kernel: kernel/heap.cc.
pub mod FreeList
mod Tests
pub mod BestFit
use p.Prelude.{
  ℕ, zero, suc, ◌+◌, ◌-◌, ◌*◌, ◌/◌, ◌%◌, ◌^◌, Bool, not, ◌&&◌, ◌||◌, Option, none, some, ltb, leb,
  ◌==◌, if◌then◌else◌, add64, sub64,
}

-- The words of the heap, their number, the head of the list of available blocks (0 for none), and
-- the counters. A pointer into the heap is the index of its word, and `array` itself is 0. `safe` is
-- false in the source, so that `sanity` checks nothing.
pub record Heap : Type 0 where
  pub words : ℕ → ℕ
  pub len : ℕ
  pub avail : ℕ
  pub n_malloc : ℕ
  pub n_free : ℕ

abbrev pub write : ℕ → ℕ → Heap → Heap
write i v h = record h { words = λ k. if i == k then v else h.words k }

-- `isTaken`, `isAvail`, `size`
abbrev pub is_taken : Heap → ℕ → Bool
is_taken h i = h.words i % 2 == 1

abbrev pub size : Heap → ℕ → ℕ
size h i = h.words i - h.words i % 2

-- `headerFromFooter`, `footerFromHeader`, `left`, `right`
abbrev pub header_from_footer : Heap → ℕ → ℕ
header_from_footer h i = add64 (sub64 i (size h i)) 1

abbrev pub footer_from_header : Heap → ℕ → ℕ
footer_from_header h i = sub64 (add64 i (size h i)) 1

abbrev pub left : Heap → ℕ → ℕ
left h i = header_from_footer h (sub64 i 1)

abbrev pub right : Heap → ℕ → ℕ
right h i = add64 i (size h i)

abbrev pub next : Heap → ℕ → ℕ
next h i = h.words (i + 1)

abbrev pub prev : Heap → ℕ → ℕ
prev h i = h.words (i + 2)

abbrev pub set_next : ℕ → ℕ → Heap → Heap
set_next i x h = write (i + 1) x h

abbrev pub set_prev : ℕ → ℕ → Heap → Heap
set_prev i x h = write (i + 2) x h

-- `remove`: takes a block out of the list of available blocks.
unfoldable pub remove : ℕ → Heap → Heap
remove i h =
    let p = prev h i in
    let n = next h i in
    let out = if p == 0 then record h { avail = n } else set_next p n h in
    if n == 0 then out else set_prev n p out

-- `makeAvail` of a block with an even number of words. An odd number fails the assertion.
abbrev pub enlist : ℕ → Heap → Heap
enlist i h =
    let linked = set_prev i 0 (set_next i h.avail h) in
    record (if h.avail == 0 then linked else set_prev h.avail i linked) { avail = i }

unfoldable pub make_avail : ℕ → ℕ → Heap → Option Heap
make_avail i n h =
    let headed = write i n h in
    if n % 2 == 0 then some (enlist i (write (footer_from_header headed i) n headed)) else none

-- `makeTaken`
unfoldable pub make_taken : ℕ → ℕ → Heap → Option Heap
make_taken i n h =
    let headed = write i (n + 1) h in
    if n % 2 == 0 then some (write (footer_from_header headed i) (n + 1) headed) else none

infixl 5 ◌>>=◌
abbrev pub ◌>>=◌ {ℓ κ} : {A : Type ℓ} {B : Type κ} → Option A → (A → Option B) → Option B
none >>= f = none
some a >>= f = f a

-- `heap::init`: where the words start, and the heap with one available block between two markers.
unfoldable pub init : ℕ → ℕ → Heap → Option (ℕ × Heap)
init base bytes h =
    let aligned = sub64 (add64 (add64 base 8) 15 / 16 * 16) 8 in
    let delta = sub64 aligned base in
    let usable = (bytes - delta) / 16 * 16 in
    let n = usable / 8 in
    let made =
      make_taken 0 2 (record h { len = n }) >>= make_avail 2 (n - 4) >>= make_taken (n - 2) 2 in
    if not (aligned % 16 == 8)
      || ltb aligned base
      || leb 16 delta
      || ltb bytes delta
      || leb usable 64
    then none
    else made >>= λ r. some (aligned, r)

-- The number of words of a block that holds `bytes` bytes.
abbrev pub entries_for : ℕ → ℕ
entries_for bytes =
    let n = add64 bytes 7 / 8 + 2 in
    let m = if ltb n 4 then 4 else n in if m % 2 == 1 then m + 1 else m

-- The search of `malloc`, with the rounds that are left: the best size so far and its block (0 for
-- none), after at most 20 blocks that fit. `none`: a taken block stands in the list, or the rounds
-- are used up.
unfoldable pub search : ℕ → ℕ → Heap → ℕ → ℕ → ℕ → ℕ → Option (ℕ × ℕ)
search zero wanted h p mx it count_down = none
search (suc rounds) wanted h p mx it count_down =
    let sz = size h p in
    let mx' = if ltb sz mx then sz else mx in
    let it' = if ltb sz mx then p else it in
    let on = search rounds wanted h (next h p) mx it count_down in
    let better = search rounds wanted h (next h p) mx' it' (count_down - 1) in
    if p == 0
    then some (mx, it)
    else if is_taken h p
    then none
    else if ltb sz wanted
    then on
    else if count_down - 1 == 0 || sz == wanted
    then some (mx', it')
    else better

-- `int extra` and its test: a 32-bit pattern, not negative.
abbrev pub splits : ℕ → Bool
splits extra = leb 4 (extra % 2 ^ 32) && ltb (extra % 2 ^ 32) (2 ^ 31)

-- What `malloc` does with the block that it found.
abbrev pub carve : ℕ → ℕ → ℕ → Heap → Option (Option ℕ × Heap)
carve wanted mx it h =
    let out = remove it h in
    let extra = sub64 mx wanted in
    if it == 0
    then some (none, h)
    else (if splits extra
        then make_taken it wanted out >>= make_avail (it + wanted) (extra % 2 ^ 32)
        else make_taken it mx out)
      >>= λ r. some (some (it + 1), record r { n_malloc = add64 r.n_malloc 1 })

-- `malloc`, with as many rounds for the search as the heap has words, and one more. The inner `none`
-- is the null pointer.
unfoldable pub malloc : ℕ → Heap → Option (Option ℕ × Heap)
malloc bytes h =
    let wanted = entries_for bytes in
    if bytes == 0
    then some (some 0, h)
    else search (h.len + 1) wanted h h.avail (2 ^ 64 - 1) 0 20 >>= λ found.
        carve wanted found.0 found.1 h

-- An int as an index.
abbrev pub index_of : ℕ → ℕ
index_of x = let y = x % 2 ^ 32 in if leb (2 ^ 31) y then y + (2 ^ 64 - 2 ^ 32) else y

-- The coalescing of `free`: with the block on the left, and then with that on the right.
abbrev pub join_left : ℕ → ℕ → ℕ → Heap → ℕ × ℕ × Heap
join_left idx sz l h =
    let out = remove l h in if is_taken h l then (idx, sz, h) else (l, sz + size out l, out)

abbrev pub join_right : ℕ → ℕ × ℕ × Heap → ℕ × ℕ × Heap
join_right r (idx, sz, h) =
    let out = remove r h in if is_taken h r then (idx, sz, h) else (idx, sz + size out r, out)

-- `free`. The debug output for a block that is available already changes nothing.
abbrev pub release : ℕ → Heap → Option Heap
release idx h =
    let (i, sz, out) =
      join_right (index_of (right h idx)) (join_left idx (size h idx) (index_of (left h idx)) h) in
    make_avail i (index_of sz) out

unfoldable pub free : Option ℕ → Heap → Option Heap
free none h = some h
free (some p) h =
    if p == 0 then some h else release (index_of (p - 1)) (record h { n_free = add64 h.n_free 1 })
